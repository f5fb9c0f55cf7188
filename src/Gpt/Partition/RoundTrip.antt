-- ===== src/Gpt/Partition/RoundTrip.antt =====
-- The bytes of an entry of partition/gpt/partition.go, read back.
use go_diskfs.Base.{
  ℕ, ◌-◌, ◌^◌, ◌≤◌, ◌<◌, ◌≡◌, ◌≢◌, refl, sym, ap, ap₂, ◌∙◌, true, false, some, List, ◌++◌, ok,
  length, replicate, take, drop, leb, inl, inr, Bool-cases, arith, All, cells_lem, take_all,
  drop-replicate,
}
use go_diskfs.Base.Bytes.{
  le_bytes, le_value, put_at, slice, overlay, bytes_equal, overlay_fits, length-overlay,
  length-put_at, bytes_equal→eq, le_value-le_bytes,
}
use go_diskfs.Gpt.Uuid.{
  UuidLibrary, IsUuidLibrary, IsUuid, to_upper, reverse_slice, bytes_to_uuid_bytes,
  length-bytes_to_uuid_bytes, bytes_to_uuid_bytes_self,
}
use go_diskfs.Gpt.Names.{
  encode, decode, unit_bytes, read_units, IsRune, decode-encode, encode-IsUnit,
  read_units-unit_bytes, length-unit_bytes, length-encode,
}
use go_diskfs.Gpt.Partition.{Partition, is_unused, parse_or, to_bytes, from_bytes}

-- A partition that an entry can hold: its type and GUID are UUIDs, given by their bytes and in
-- capitals, and the type is not zero; the numbers fit 64 bits; the name is Unicode text of at
-- most 36 code units, without a zero.
pub record IsWritable (u : UuidLibrary) (p : Partition) : Type 0 where
  pub type_bytes : List ℕ
  pub guid_bytes : List ℕ
  pub type_uuid : IsUuid type_bytes
  pub guid_uuid : IsUuid guid_bytes
  pub not_zero : type_bytes ≢ replicate 16 0
  pub type_text : p.type ≡ to_upper (u.to_string type_bytes)
  pub guid_text : p.guid ≡ to_upper (u.to_string guid_bytes)
  pub used : is_unused p ≡ false
  pub start_fits : p.start < 2 ^ 64
  pub end_fits : p.end < 2 ^ 64
  pub attributes_fit : p.attributes < 2 ^ 64
  pub runes : All IsRune p.name
  pub name_fits : length (encode p.name) ≤ 36

-- The entry of six fields.
abbrev laid_out : List ℕ → List ℕ → ℕ → ℕ → ℕ → List ℕ → List ℕ
laid_out t g s e a n = put_at 56 n (
    put_at 48 (le_bytes 8 a) (
      put_at 40 (le_bytes 8 e)
        (put_at 32 (le_bytes 8 s) (put_at 16 g (put_at 0 t (replicate 128 0))))))

module _ (t g : List ℕ) (s e a : ℕ) (n : List ℕ) (h : length t ≡ 16) (k : length g ≡ 16) where
  slices :
      (slice 0 16 (laid_out t g s e a n) ≡ t)
      × (slice 16 32 (laid_out t g s e a n) ≡ g)
      × (slice 32 40 (laid_out t g s e a n) ≡ le_bytes 8 s)
      × (slice 40 48 (laid_out t g s e a n) ≡ le_bytes 8 e)
      × (slice 48 56 (laid_out t g s e a n) ≡ le_bytes 8 a)
      × (drop 56 (laid_out t g s e a n) ≡ overlay n (replicate 72 0))
  slices =
      rw (sym (cells_lem 0 16 t h), sym (cells_lem 0 16 g k)) (refl, refl, refl, refl, refl, refl)

  length-laid_out : length (laid_out t g s e a n) ≡ 128
  length-laid_out =
      let b₀ : List ℕ = put_at 0 t (replicate 128 0) in
      let b₁ : List ℕ = put_at 16 g b₀ in
      let b₂ : List ℕ = put_at 32 (le_bytes 8 s) b₁ in
      let b₃ : List ℕ = put_at 40 (le_bytes 8 e) b₂ in
      let b₄ : List ℕ = put_at 48 (le_bytes 8 a) b₃ in
      length-put_at 56 n b₄
      ∙ length-put_at 48 (le_bytes 8 a) b₃
      ∙ length-put_at 40 (le_bytes 8 e) b₂
      ∙ length-put_at 32 (le_bytes 8 s) b₁
      ∙ length-put_at 16 g b₀
      ∙ length-put_at 0 t (replicate 128 0)

-- The name's part of an entry.
name_read :
    (rs : List ℕ)
    → All IsRune rs
    → length (encode rs) ≤ 36
    → decode (read_units (take 72 (overlay (unit_bytes (encode rs)) (replicate 72 0)))) ≡ rs
name_read rs runes fits =
    let n = unit_bytes (encode rs) in
    let short : length n ≤ 72 = omega (arith, length-unit_bytes (encode rs)) in
    let bytes : take 72 (overlay n (replicate 72 0)) ≡ n ++ replicate (72 - length n) 0 =
      take_all 72 (overlay n (replicate 72 0)) (omega (arith, length-overlay n (replicate 72 0)))
      ∙ overlay_fits n (replicate 72 0) short
      ∙ ap (λ z. n ++ z) (drop-replicate (length n) 72 0) in
    rw bytes (
      ap decode (read_units-unit_bytes (encode rs) (72 - length n) (encode-IsUnit rs runes))
      ∙ decode-encode rs runes)

type_not_zero :
    (t : List ℕ)
    → length t ≡ 16
    → t ≢ replicate 16 0
    → bytes_equal (bytes_to_uuid_bytes t) (replicate 16 0) ≡ false
unfolding bytes_to_uuid_bytes reverse_slice
type_not_zero t h ne = elim (Bool-cases (bytes_equal (bytes_to_uuid_bytes t) (replicate 16 0))) [
  | inr e ↦ e
  | inl e ↦ absurd (
      ne (
        sym (bytes_to_uuid_bytes_self t h)
        ∙ ap bytes_to_uuid_bytes (bytes_equal→eq (bytes_to_uuid_bytes t) (replicate 16 0) e)))
]

-- What partitionFromBytes makes of 128 bytes, by their parts.
from_bytes_parts :
    (u : UuidLibrary) (b t g : List ℕ) (s e a : ℕ) (n : List ℕ) (lss pss : ℕ)
    → length b ≡ 128
    → slice 0 16 b ≡ t
    → slice 16 32 b ≡ g
    → le_value (slice 32 40 b) ≡ s
    → le_value (slice 40 48 b) ≡ e
    → le_value (slice 48 56 b) ≡ a
    → decode (read_units (slice 56 128 b)) ≡ n
    → bytes_equal t (replicate 16 0) ≡ false
    → from_bytes u b lss pss
      ≡ ok (
          some (record {
            start = s;
            end = e;
            size = 0;
            name = n;
            guid = to_upper (u.to_string (bytes_to_uuid_bytes g));
            attributes = a;
            type = to_upper (u.to_string (bytes_to_uuid_bytes t));
            logical_sector_size = lss;
            physical_sector_size = pss;
          }))
unfolding from_bytes
from_bytes_parts u b t g s e a n lss pss h ht hg hs he ha hn nz =
    rw h (rw ht (rw nz (rw hg (rw hs (rw he (rw ha (rw hn refl)))))))

module _ (u : UuidLibrary) (i : IsUuidLibrary u) (p : Partition) (w : IsWritable u p) where
  entry_bytes : List ℕ
  entry_bytes =
      laid_out (bytes_to_uuid_bytes w.type_bytes) (bytes_to_uuid_bytes w.guid_bytes) p.start p.end
        p.attributes (unit_bytes (encode p.name))

  to_bytes-entry : to_bytes u p ≡ ok entry_bytes
  unfolding to_bytes parse_or entry_bytes
  to_bytes-entry =
      let t : u.parse p.type ≡ some w.type_bytes =
        ap u.parse w.type_text ∙ i.parse-upper w.type_bytes w.type_uuid in
      let g : u.parse p.guid ≡ some w.guid_bytes =
        ap u.parse w.guid_text ∙ i.parse-upper w.guid_bytes w.guid_uuid in
      let short : leb (length p.name) 36 ≡ true =
        let h = w.name_fits in let l = length-encode p.name in ground arith in
      let fits : leb (length (encode p.name)) 36 ≡ true = let h = w.name_fits in ground arith in
      rw (w.used, to_bytes) (rw (t, parse_or) (rw (g, parse_or) (rw short (rw fits refl))))

  -- Sector sizes, and the size, are not in the bytes.
  from_bytes-entry :
      (lss pss : ℕ)
      → from_bytes u entry_bytes lss pss
        ≡ ok (some (record p { size = 0; logical_sector_size = lss; physical_sector_size = pss }))
  unfolding entry_bytes
  from_bytes-entry lss pss =
      let t = bytes_to_uuid_bytes w.type_bytes in
      let g = bytes_to_uuid_bytes w.guid_bytes in
      let n = unit_bytes (encode p.name) in
      let lt = length-bytes_to_uuid_bytes w.type_bytes w.type_uuid.0 in
      let lg = length-bytes_to_uuid_bytes w.guid_bytes w.guid_uuid.0 in
      let size = length-laid_out t g p.start p.end p.attributes n lt lg in
      let (st, sg, ss, se, sa, sn) = slices t g p.start p.end p.attributes n lt lg in
      let zero = type_not_zero w.type_bytes w.type_uuid.0 w.not_zero in
      from_bytes_parts u (laid_out t g p.start p.end p.attributes n) t g p.start p.end p.attributes
        p.name lss pss size st sg (ap le_value ss ∙ le_value-le_bytes 8 p.start w.start_fits)
        (ap le_value se ∙ le_value-le_bytes 8 p.end w.end_fits)
        (ap le_value sa ∙ le_value-le_bytes 8 p.attributes w.attributes_fit)
        (ap (λ z. decode (read_units (take 72 z))) sn ∙ name_read p.name w.runes w.name_fits) zero
      ∙ ap₂
          (λ x y. ok (
            some (record p {
              size = 0;
              type = x;
              guid = y;
              logical_sector_size = lss;
              physical_sector_size = pss;
            })))
          (text w.type_bytes w.type_uuid.0 ∙ sym w.type_text)
          (text w.guid_bytes w.guid_uuid.0 ∙ sym w.guid_text)
    where
      text :
          (c : List ℕ)
          → length c ≡ 16
          → to_upper (u.to_string (bytes_to_uuid_bytes (bytes_to_uuid_bytes c)))
            ≡ to_upper (u.to_string c)
      text c h = ap (λ z. to_upper (u.to_string z)) (bytes_to_uuid_bytes_self c h)

-- An entry that can hold the partition is 128 bytes, and partitionFromBytes reads the partition
-- from them, but for its size, which it leaves at 0, and its sector sizes, which it is given.
pub partition_from_bytes-to_bytes :
    (u : UuidLibrary) (p : Partition) (lss pss : ℕ)
    → IsUuidLibrary u
    → IsWritable u p
    → (b : List ℕ) × (to_bytes u p ≡ ok b)
      × (length b ≡ 128)
      × (from_bytes u b lss pss
          ≡ ok
              (some (record p { size = 0; logical_sector_size = lss; physical_sector_size = pss })))
unfolding entry_bytes
partition_from_bytes-to_bytes u p lss pss i w = (
  entry_bytes u i p w,
  to_bytes-entry u i p w,
  length-laid_out (bytes_to_uuid_bytes w.type_bytes) (bytes_to_uuid_bytes w.guid_bytes) p.start
      p.end p.attributes (unit_bytes (encode p.name))
      (length-bytes_to_uuid_bytes w.type_bytes w.type_uuid.0)
      (length-bytes_to_uuid_bytes w.guid_bytes w.guid_uuid.0),
  from_bytes-entry u i p w lss pss,
)
