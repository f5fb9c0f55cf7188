-- ===== src/Squashfs/Fragment.antt =====
-- filesystem/squashfs/fragment.go: an entry of the fragment table, 16 bytes.
use go_diskfs.Base.{
  ℕ, ◌+◌, ◌^◌, ◌<◌, ◌≡◌, refl, Bool, true, false, not, List, Result, ok, err, length, replicate,
  ltb, ◌==◌, if◌then◌else◌, bit_and, bit_or, arith,
}
use go_diskfs.Base.Bytes.{le_bytes, le_value, put_at, slice, le_value-le_bytes}
use go_diskfs.Base.Bits.{bit_or-pow, bit_and-pow_low, bit_and-pow_high, bit_and-mask}

-- type fragmentEntry struct
pub record FragmentEntry : Type 0 where
  pub start : ℕ
  pub size : ℕ
  pub compressed : Bool

pub data Error : Type 0 where
  too_short : ℕ → Error

-- The size with the flag `1 << 24` of data that is not compressed.
unfoldable pub flagged : Bool → ℕ → ℕ
flagged compressed size = if compressed then size else bit_or size (2 ^ 24)

-- toBytes
unfoldable pub to_bytes : FragmentEntry → List ℕ
unfolding flagged
to_bytes f =
    let b = put_at 0 (le_bytes 8 f.start) (replicate {A = ℕ} 16 0) in
    put_at 8 (le_bytes 4 (flagged f.compressed f.size)) b

-- `size&unCompFlag == unCompFlag`
unfoldable pub is_flagged : ℕ → Bool
is_flagged size = bit_and size (2 ^ 24) == 2 ^ 24

unfoldable pub without_flags : ℕ → ℕ
without_flags size = bit_and size 0xffffff

-- parseFragmentEntry
unfoldable pub parse : List ℕ → Result Error FragmentEntry
unfolding le_value is_flagged without_flags
parse b =
    let size = le_value (slice 8 12 b) in
    if ltb (length b) 16
    then err (too_short (length b))
    else ok (record {
      size = without_flags size;
      compressed = not (is_flagged size);
      start = le_value (slice 0 8 b);
    })

flagged-facts :
    (c : Bool) (size : ℕ)
    → size < 2 ^ 24
    → (flagged c size < 2 ^ 32)
      × (not (is_flagged (flagged c size)) ≡ c)
      × (without_flags (flagged c size) ≡ size)
unfolding flagged is_flagged without_flags
flagged-facts true size h =
    (omega arith, rw (bit_and-pow_low 24 size h), bit_and-mask 24 size 0 size (omega arith) h)
flagged-facts false size h = rw (bit_or-pow 24 size h) (
  omega arith,
  rw (bit_and-pow_high 24 size h),
  bit_and-mask 24 (size + 2 ^ 24) 1 size (omega arith) h,
)

-- A fragment entry whose size fits its 24 bits, and whose start fits eight bytes, is read back from
-- its bytes, with its compression flag.
pub parse_fragment-to_bytes :
    (f : FragmentEntry)
    → f.size < 2 ^ 24
    → f.start < 2 ^ 64
    → (length (to_bytes f) ≡ 16) × (parse (to_bytes f) ≡ ok f)
unfolding parse to_bytes
parse_fragment-to_bytes f h g =
    let (wide, flag, size) = flagged-facts f.compressed f.size h in
    (
      refl,
      rw (
        le_value-le_bytes 4 (flagged f.compressed f.size) wide,
        le_value-le_bytes 8 f.start g,
        flag,
        size,
      ),
    )
