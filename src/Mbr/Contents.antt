-- ===== src/Mbr/Contents.antt =====
-- Comparing partitions as bytes, and streaming a partition's contents.
use native.Mathlib.Nat.{mul_comm, mod-eq_of_lt}
use go_diskfs.Base.Bits.{mod-mul}
use go_diskfs.Base.{
  ℕ, zero, suc, ◌+◌, ◌*◌, ◌%◌, ◌^◌, ◌≤◌, ◌<◌, ◌≡◌, refl, sym, ap, ◌∙◌, subst, Bool, true, false,
  none, List, [], ◌∷◌, ◌++◌, Result, ok, length, take, drop, leb, ◌==◌, arith, if◌then◌else◌, inl,
  inr, Bool-cases, length-take, length-drop, drop-drop,
}
use go_diskfs.Base.Bytes.{
  le_bytes, le_value, slice_at, bytes_equal, bytes_equal_refl, bytes_equal→eq, le_value-le_bytes,
}
use go_diskfs.Base.Storage.{Storage, IsDisk}
use go_diskfs.Mbr.Partition
use go_diskfs.Mbr.Partition.{
  Partition, partition_equal_bytes, read_round, read_loop, read_contents, physical_of, logical_of,
  byte_start, byte_size, get_start, get_size,
}
use go_diskfs.Mbr.RoundTrip.{IsWritable}

bytes_equal-le_bytes :
    (n x y : ℕ) → x < 256 ^ n → y < 256 ^ n → bytes_equal (le_bytes n x) (le_bytes n y) ≡ (x == y)
bytes_equal-le_bytes n x y h g = elim (Bool-cases (x == y)) [
  | inl e ↦
      let e' : x ≡ y = ground arith in
      ap (λ z. bytes_equal (le_bytes n x) (le_bytes n z)) (sym e')
      ∙ bytes_equal_refl (le_bytes n x)
      ∙ sym e
  | inr e ↦ elim (Bool-cases (bytes_equal (le_bytes n x) (le_bytes n y))) [
    | inr f ↦ f ∙ sym e
    | inl f ↦
        let same : x ≡ y =
          sym (le_value-le_bytes n x h)
          ∙ ap le_value (bytes_equal→eq (le_bytes n x) (le_bytes n y) f)
          ∙ le_value-le_bytes n y g in
        absurd (ground arith)
  ]
]

flag_equal :
    (x y : Bool)
    → ((if x then 0x80 else 0x00) == (if y then 0x80 else 0x00)) ≡ Partition.bool_equal x y
flag_equal true true = refl
flag_equal true false = refl
flag_equal false true = refl
flag_equal false false = refl

-- PartitionEqualBytes of the bytes of two partitions agrees with Equal of the partitions, where
-- start and size fit their four bytes.
pub partition_equal_bytes-to_bytes :
    (p q : Partition)
    → IsWritable p
    → IsWritable q
    → partition_equal_bytes (Partition.to_bytes p) (Partition.to_bytes q) ≡ ok (Partition.equal p q)
unfolding partition_equal_bytes Partition.to_bytes Partition.equal
partition_equal_bytes-to_bytes p q (a, b) (c, d) =
    let f = flag_equal p.bootable q.bootable in
    let g = bytes_equal-le_bytes 4 p.start q.start a c in
    let h = bytes_equal-le_bytes 4 p.size q.size b d in rw (f, g, h)

-- Below 2^32 the place and the size that the code computes are those of GetStart and GetSize.
in_bytes : (a b : ℕ) → a * b < 2 ^ 32 → a * (b % 2 ^ 32) % 2 ^ 32 ≡ a * b
in_bytes a b few =
    ap (λ z. z % 2 ^ 32) (mul_comm a (b % 2 ^ 32))
    ∙ mod-mul b a (2 ^ 32)
    ∙ ap (λ z. z % 2 ^ 32) (mul_comm b a)
    ∙ mod-eq_of_lt few

byte_start_lem : (p : Partition) → get_start p < 2 ^ 32 → byte_start p ≡ get_start p
unfolding byte_start get_start
byte_start_lem p few = in_bytes p.start (logical_of p) few

byte_size_lem : (p : Partition) → get_size p < 2 ^ 32 → byte_size p ≡ get_size p
unfolding byte_size get_size
byte_size_lem p few = in_bytes p.size (logical_of p) few

module _ (s : Storage) (w : IsDisk s) (d : s.Disk) where
  -- One more chunk behind those that were read.
  more_read :
      (start done n : ℕ) (c : List ℕ)
      → slice_at start done c ++ slice_at (start + done) n c ≡ slice_at start (done + n) c
  more_read start done n c =
      ap (λ z. take done (drop start c) ++ take n z) (sym (drop-drop done start c))
      ∙ go done (drop start c)
    where
      go : (m : ℕ) (xs : List ℕ) → take m xs ++ take n (drop m xs) ≡ take (m + n) xs
      go zero xs = let e : 0 + n ≡ n = omega arith in ap (λ k. take k xs) (sym e)
      go (suc m) [] = take-nil n ∙ sym (take-nil (suc m + n))
        where
          take-nil : (k : ℕ) → take {A = ℕ} k [] ≡ []
          take-nil zero = refl
          take-nil (suc k) = refl
      go (suc m) (x ∷ xs) =
          let e : suc m + n ≡ suc (m + n) = omega arith in
          ap (λ z. x ∷ z) (go m xs) ∙ ap (λ k. take k (x ∷ xs)) (sym e)

  length-slice_at :
      (start n : ℕ) (c : List ℕ) → start + n ≤ length c → length (slice_at start n c) ≡ n
  length-slice_at start n c h = omega (arith, length-take n (drop start c), length-drop start c)

  goes :
      (out chunk out' : List ℕ) (n size : ℕ) (more : List ℕ → List ℕ × Result s.IoError ℕ)
      → out ++ chunk ≡ out'
      → length out' ≡ n
      → read_round s size out more chunk none ≡ (if leb size n then (out', ok n) else more out')
  unfolding read_round
  goes out chunk out' n size more e size' = rw (e, size')

  -- What a round does with a chunk inside the disk.
  round :
      (fuel pss start done size : ℕ)
      → start + (done + pss) ≤ length (w.contents d)
      → read_loop s (suc fuel) pss start size d (slice_at start done (w.contents d)) ≡ (
          if leb size (done + pss)
          then (slice_at start (done + pss) (w.contents d), ok (done + pss))
          else read_loop s fuel pss start size d (slice_at start (done + pss) (w.contents d)))
  unfolding read_loop
  round fuel pss start done size fits =
      let c = w.contents d in
      ap
        (λ r. read_round s size (slice_at start done c) (read_loop s fuel pss start size d) r.0 r.1)
        (ap (λ z. s.read_at pss (start + z) d) (length-slice_at start done c (omega arith))
          ∙ w.reads pss (start + done) d (omega arith))
      ∙ goes (slice_at start done c) (slice_at (start + done) pss c) (slice_at start (done + pss) c)
          (done + pss) size (read_loop s fuel pss start size d) (more_read start done pss c)
          (length-slice_at start (done + pss) c fits)

  -- With k + 1 chunks to go the loop reads them.
  pub read_loop_lem :
      (k fuel pss start done : ℕ)
      → 0 < pss
      → k < fuel
      → start + done + suc k * pss ≤ length (w.contents d)
      → read_loop s fuel pss start (done + suc k * pss) d (slice_at start done (w.contents d))
        ≡ (slice_at start (done + suc k * pss) (w.contents d), ok (done + suc k * pss))
  read_loop_lem k zero pss start done pos h fits = absurd (omega arith)
  read_loop_lem zero (suc fuel) pss start done pos h fits =
      let e : done + suc zero * pss ≡ done + pss = omega arith in
      let last : leb (done + pss) (done + pss) ≡ true = ground arith in
      rw e (round fuel pss start done (done + pss) (omega arith) ∙ rw last)
  read_loop_lem (suc k) (suc fuel) pss start done pos h fits =
      let e : done + suc (suc k) * pss ≡ (done + pss) + suc k * pss = omega arith in
      let more : leb ((done + pss) + suc k * pss) (done + pss) ≡ false = ground arith in
      rw e (
        round fuel pss start done ((done + pss) + suc k * pss) (omega arith)
        ∙ rw more (read_loop_lem k fuel pss start (done + pss) pos (omega arith) (omega arith)))

  -- ReadContents streams the bytes at the place and of the size that the code computes, modulo 2^32.
  read_wrapped :
      (p : Partition) (k fuel : ℕ)
      → 0 < physical_of p
      → byte_size p ≡ suc k * physical_of p
      → k < fuel
      → byte_start p + byte_size p ≤ length (w.contents d)
      → read_contents s fuel p d
        ≡ (slice_at (byte_start p) (byte_size p) (w.contents d), ok (byte_size p))
  unfolding read_contents
  read_wrapped p k fuel pos whole h fits =
      let e : 0 + suc k * physical_of p ≡ byte_size p = omega (arith, whole) in
      subst
        (λ n.
          read_loop s fuel (physical_of p) (byte_start p) n d []
          ≡ (slice_at (byte_start p) n (w.contents d), ok n))
        e (read_loop_lem k fuel (physical_of p) (byte_start p) 0 pos h (omega arith))

  -- ReadContents of a partition that lies inside the disk and is one or more whole physical sectors,
  -- and whose start and size in bytes are below 2^32: it streams the entire partition, which is its
  -- number of logical sectors from its first one, returns the count of its bytes, and ends within a
  -- round for each physical sector.
  pub read_contents_lem :
      (p : Partition) (k fuel : ℕ)
      → 0 < physical_of p
      → get_size p ≡ suc k * physical_of p
      → k < fuel
      → get_start p < 2 ^ 32
      → get_size p < 2 ^ 32
      → get_start p + get_size p ≤ length (w.contents d)
      → read_contents s fuel p d
        ≡ (slice_at (get_start p) (get_size p) (w.contents d), ok (get_size p))
  read_contents_lem p k fuel pos whole h start_fits size_fits fits =
      let start = byte_start_lem p start_fits in
      let size = byte_size_lem p size_fits in
      subst
        (λ n. read_contents s fuel p d ≡ (slice_at n (get_size p) (w.contents d), ok (get_size p)))
        start
        (subst (λ n. read_contents s fuel p d ≡ (slice_at (byte_start p) n (w.contents d), ok n))
          size (read_wrapped p k fuel pos (size ∙ whole) h (omega (arith, start, size, fits))))
