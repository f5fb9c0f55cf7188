-- ===== src/Fat32/Table/Codec.antt =====
-- Reading and writing the allocation table.
use go_diskfs.Base.{
  ℕ, zero, suc, ◌+◌, ◌-◌, ◌*◌, ◌/◌, ◌^◌, ◌≤◌, ◌<◌, ◌≡◌, refl, sym, ap, ◌∙◌, List, ok, length,
  get_or, set, replicate, ltb, leb, ◌==◌, ◌&&◌, if◌then◌else◌, arith, All, inl, inr, Bool-cases,
  length-set, get_or-set_self, get_or-set_ne, length-replicate, get_or-replicate, eq_of_get_or,
  All-get_or,
}
use go_diskfs.Base.Bytes.{
  le_bytes, le_value, put_at, slice_at, le_value-le_bytes, length-put_at, slice_at-put_at_self,
  slice_at-put_at_before,
}
use go_diskfs.Fat32.Table.{Table, word_at, read_clusters, table_from_bytes, write_clusters, bytes}

abbrev pub IsU32 : ℕ → Type 0
IsU32 v = v < 2 ^ 32

-- What reading a table and keeping it gives: a size of whole entries, and one slot more than
-- entries, of which 0, 1 and the last are free.
pub record IsValid (t : Table) : Type 0 where
  pub two_entries : 2 ≤ t.max_cluster
  pub whole : t.size ≡ t.max_cluster * 4
  pub slots : length t.clusters ≡ t.max_cluster + 1
  pub words : All IsU32 t.clusters
  pub fat_id : IsU32 t.fat_id
  pub eoc : IsU32 t.eoc_marker
  pub slot_zero : get_or t.clusters 0 0 ≡ 0
  pub slot_one : get_or t.clusters 1 0 ≡ 0
  pub last : get_or t.clusters t.max_cluster 0 ≡ 0
  pub root : t.root_dir_cluster ≡ 2
  pub unused : t.unused_marker ≡ 0

length-read_clusters :
    (n i : ℕ) (b clusters : List ℕ) → length (read_clusters n i b clusters) ≡ length clusters
unfolding read_clusters
length-read_clusters zero i b clusters = refl
length-read_clusters (suc n) i b clusters = elim (Bool-cases (word_at b i == 0)) [
  | inl e ↦ rw e (length-read_clusters n (i + 1) b clusters)
  | inr e ↦ rw e (
      length-read_clusters n (i + 1) b (set clusters i (word_at b i))
      ∙ length-set clusters i (word_at b i))
]

-- The loop fills the slots from i to i + n, which are zero before, and leaves the others.
read_clusters-get :
    (n i : ℕ) (b clusters : List ℕ) (k : ℕ)
    → i + n ≤ length clusters
    → ((m : ℕ) → i ≤ m → get_or clusters m 0 ≡ 0)
    → get_or (read_clusters n i b clusters) k 0
      ≡ (if leb i k && ltb k (i + n) then word_at b k else get_or clusters k 0)
unfolding read_clusters
read_clusters-get zero i b clusters k fits blank = ground arith
read_clusters-get (suc n) i b clusters k fits blank = elim (Bool-cases (word_at b i == 0)) [
  | inl e ↦ rw e (
      read_clusters-get n (i + 1) b clusters k (omega arith) (λ m hm. blank m (omega arith))
      ∙ zero_word (ground arith))
  | inr e ↦ rw e (
      read_clusters-get n (i + 1) b (set clusters i (word_at b i)) k
        (omega (arith, length-set clusters i (word_at b i)))
        (λ m hm. get_or-set_ne clusters i m (word_at b i) 0 (omega arith) ∙ blank m (omega arith))
      ∙ set_word)
]
  where
    zero_word :
        word_at b i ≡ 0
        → (if leb (i + 1) k && ltb k (i + 1 + n) then word_at b k else get_or clusters k 0)
          ≡ (if leb i k && ltb k (i + suc n) then word_at b k else get_or clusters k 0)
    zero_word w = elim (Bool-cases (k == i)) [
      | inl same ↦
          let e : k ≡ i = ground arith in rw e (rw (w, blank i (omega arith)) (ground arith))
      | inr other ↦ ground arith
    ]

    set_word :
        (if leb (i + 1) k && ltb k (i + 1 + n)
          then word_at b k
          else get_or (set clusters i (word_at b i)) k 0)
        ≡ (if leb i k && ltb k (i + suc n) then word_at b k else get_or clusters k 0)
    set_word = elim (Bool-cases (k == i)) [
      | inl same ↦
          let e : k ≡ i = ground arith in
          rw e (rw (get_or-set_self clusters i (word_at b i) 0 (omega arith)) (ground arith))
      | inr other ↦ rw (get_or-set_ne clusters i k (word_at b i) 0 (ground arith)) (ground arith)
    ]

-- `b'` is `b` with entry k written for lo ≤ k < hi, from `clusters`.
record Written (clusters b b' : List ℕ) (lo hi : ℕ) : Type 0 where
  size : length b' ≡ length b
  inside : (k : ℕ) → lo ≤ k → k < hi → slice_at (k * 4) 4 b' ≡ le_bytes 4 (get_or clusters k 0)
  outside : (k : ℕ) → k < lo → slice_at (k * 4) 4 b' ≡ slice_at (k * 4) 4 b

write_clusters-Written :
    (n i : ℕ) (clusters b : List ℕ)
    → i + n ≤ length clusters
    → (i + n) * 4 ≤ length b
    → (b' : List ℕ) × (write_clusters n i clusters b ≡ ok b') × Written clusters b b' i (i + n)
unfolding write_clusters
write_clusters-Written zero i clusters b slots fits = (
  b,
  refl,
  record { size = refl; inside = λ k lo hi. absurd (omega arith); outside = λ k h. refl },
)
write_clusters-Written (suc n) i clusters b slots fits =
    let new = put_at (i * 4) (le_bytes 4 (get_or clusters i 0)) b in
    let same : length new ≡ length b = length-put_at (i * 4) (le_bytes 4 (get_or clusters i 0)) b in
    let (b', e, w) = write_clusters-Written n (i + 1) clusters new (omega arith) (omega arith) in
    (
      b',
      rw e (ground arith),
      record {
        size = w.size ∙ same;
        inside = λ k lo hi. elim (Bool-cases (k == i)) [
          | inl at ↦
              let at' : k ≡ i = ground arith in
              rw at' (
                w.outside i (omega arith)
                ∙ slice_at-put_at_self (i * 4) (le_bytes 4 (get_or clusters i 0)) b (omega arith))
          | inr other ↦ w.inside k (ground arith) (omega arith)
        ];
        outside = λ k h.
            w.outside k (omega arith)
            ∙ slice_at-put_at_before (k * 4) 4 (i * 4) (le_bytes 4 (get_or clusters i 0)) b
                (omega arith);
      },
    )

module _ (t : Table) (v : IsValid t) where
  head_of : List ℕ
  head_of = put_at 4 (le_bytes 4 t.eoc_marker) (put_at 0 (le_bytes 4 t.fat_id) (replicate t.size 0))

  length-head_of : length head_of ≡ t.size
  unfolding head_of
  length-head_of =
      length-put_at 4 (le_bytes 4 t.eoc_marker)
        (put_at 0 (le_bytes 4 t.fat_id) (replicate t.size 0))
      ∙ length-put_at 0 (le_bytes 4 t.fat_id) (replicate t.size 0)
      ∙ length-replicate t.size 0

  head_of-zero : slice_at 0 4 head_of ≡ le_bytes 4 t.fat_id
  unfolding head_of
  head_of-zero =
      slice_at-put_at_before 0 4 4 (le_bytes 4 t.eoc_marker)
        (put_at 0 (le_bytes 4 t.fat_id) (replicate t.size 0)) (omega arith)
      ∙ slice_at-put_at_self 0 (le_bytes 4 t.fat_id) (replicate t.size 0)
          (omega (arith, length-replicate {A = ℕ} t.size 0, v.two_entries, v.whole))

  head_of-one : slice_at 4 4 head_of ≡ le_bytes 4 t.eoc_marker
  unfolding head_of
  head_of-one =
      slice_at-put_at_self 4 (le_bytes 4 t.eoc_marker)
        (put_at 0 (le_bytes 4 t.fat_id) (replicate t.size 0))
        (omega (
          arith,
          length-put_at 0 (le_bytes 4 t.fat_id) (replicate t.size 0),
          length-replicate {A = ℕ} t.size 0,
          v.two_entries,
          v.whole,
        ))

  module _ (b : List ℕ) (w : Written t.clusters head_of b 2 (2 + (t.max_cluster - 2))) where
    word-inside : (k : ℕ) → 2 ≤ k → k < t.max_cluster → word_at b k ≡ get_or t.clusters k 0
    word-inside k lo hi =
        ap le_value (w.inside k lo (omega arith))
        ∙ le_value-le_bytes 4 (get_or t.clusters k 0)
            (All-get_or IsU32 t.clusters k 0 (omega (arith, v.slots)) v.words)

    read-clusters :
        read_clusters (t.max_cluster - 2) 2 b (replicate (t.max_cluster + 1) 0) ≡ t.clusters
    read-clusters =
        eq_of_get_or 0 _ t.clusters
          (length-read_clusters (t.max_cluster - 2) 2 b (replicate (t.max_cluster + 1) 0)
            ∙ length-replicate (t.max_cluster + 1) 0
            ∙ sym v.slots)
          (λ k hk.
            read_clusters-get (t.max_cluster - 2) 2 b (replicate (t.max_cluster + 1) 0) k
              (omega (arith, length-replicate {A = ℕ} (t.max_cluster + 1) 0, v.two_entries))
              (λ m hm. get_or-replicate (t.max_cluster + 1) m 0)
            ∙ entry k (
                omega (
                  arith,
                  hk,
                  length-read_clusters (t.max_cluster - 2) 2 b (replicate (t.max_cluster + 1) 0),
                  length-replicate {A = ℕ} (t.max_cluster + 1) 0,
                )))
      where
        entry :
            (k : ℕ)
            → k < t.max_cluster + 1
            → (if leb 2 k && ltb k (2 + (t.max_cluster - 2))
                then word_at b k
                else get_or (replicate (t.max_cluster + 1) 0) k 0)
              ≡ get_or t.clusters k 0
        entry k hk =
            rw (get_or-replicate {A = ℕ} (t.max_cluster + 1) k 0)
              (ground (arith, word-inside k, ends k))
          where
            ends :
                (k : ℕ)
                → ¬ ((2 ≤ k) × (k < t.max_cluster))
                → k < t.max_cluster + 1
                → get_or t.clusters k 0 ≡ 0
            ends zero out h = v.slot_zero
            ends (suc zero) out h = v.slot_one
            ends (suc (suc k)) out h =
                let e : suc (suc k) ≡ t.max_cluster = ground arith in rw e v.last

read_back :
    (b : List ℕ) (t : Table)
    → 8 ≤ length b
    → length b ≡ t.size
    → length b / 4 ≡ t.max_cluster
    → word_at b 0 ≡ t.fat_id
    → word_at b 1 ≡ t.eoc_marker
    → read_clusters (t.max_cluster - 2) 2 b (replicate (t.max_cluster + 1) 0) ≡ t.clusters
    → t.root_dir_cluster ≡ 2
    → t.unused_marker ≡ 0
    → table_from_bytes b ≡ ok t
unfolding table_from_bytes
read_back b t long size four zero_word one_word cs root unused = ground arith ∙ λ i. ok (record {
  fat_id = zero_word i;
  eoc_marker = one_word i;
  unused_marker = sym unused i;
  clusters = (rw (← four) at cs) i;
  root_dir_cluster = sym root i;
  size = size i;
  max_cluster = four i;
})

-- Writing a valid table succeeds with `size` bytes, and reading those gives the table back.
pub table_from_bytes-bytes :
    (t : Table)
    → IsValid t
    → (b : List ℕ) × (bytes t ≡ ok b) × (length b ≡ t.size) × (table_from_bytes b ≡ ok t)
unfolding bytes head_of
table_from_bytes-bytes t v =
    let (b, e, w) =
      write_clusters-Written (t.max_cluster - 2) 2 t.clusters (head_of t v)
        (omega (arith, v.slots, v.two_entries))
        (omega (arith, length-head_of t v, v.two_entries, v.whole)) in
    let size : length b ≡ t.size = w.size ∙ length-head_of t v in
    let four : length b / 4 ≡ t.max_cluster = omega (arith, size, v.whole) in
    let zero_word : word_at b 0 ≡ t.fat_id =
      ap le_value (w.outside 0 (omega arith) ∙ head_of-zero t v)
      ∙ le_value-le_bytes 4 t.fat_id v.fat_id in
    let one_word : word_at b 1 ≡ t.eoc_marker =
      ap le_value (w.outside 1 (omega arith) ∙ head_of-one t v)
      ∙ le_value-le_bytes 4 t.eoc_marker v.eoc in
    (
      b,
      ground (arith, e),
      size,
      read_back b t (omega (arith, size, v.whole, v.two_entries)) size four zero_word one_word
          (read-clusters t v b w) v.root v.unused,
    )
