-- ===== src/Squashfs/Metadata.antt =====
-- filesystem/squashfs/metadatablock.go: metadata blocks and reading a run of them. The compressor
-- is a parameter: its formats are those of packages outside the repository.
use go_diskfs.Base.{
  ℕ, ◌+◌, ◌-◌, ◌%◌, ◌^◌, ◌<◌, ◌≡◌, refl, ap, ◌∙◌, Bool, true, false, not, List, ◌++◌, Result, ok,
  err, panic, unfinished, ◌>>=◌, ◌>>◌, guard, map_err, length, ltb, leb, ◌==◌, if◌then◌else◌,
  bit_and, bit_or, arith, length-append,
}
use go_diskfs.Base.Bytes.{le_bytes, le_value, slice, le_value-le_bytes, take-take_append}
use go_diskfs.Base.Bits.{bit_or-pow, bit_or-zero, bit_and-pow_low, bit_and-pow_high, bit_and-mask}

-- compress and decompress of the interface Compressor.
pub record Compressor : Type 1 where
  pub CompressError : Type 0
  pub compress : List ℕ → Result CompressError (List ℕ)
  pub decompress : List ℕ → Result CompressError (List ℕ)

-- type metadatablock struct
pub record MetadataBlock : Type 0 where
  pub compressed : Bool
  pub block_data : List ℕ

-- getMetadataSize of a slice of two bytes or more: the size and whether it is compressed.
unfoldable pub metadata_size : ℕ → ℕ
metadata_size header = bit_and header 0x7fff

unfoldable pub metadata_compressed : ℕ → Bool
metadata_compressed header = not (bit_and header 0x8000 == 0x8000)

module _ (c : Compressor) where
  open c use {CompressError, compress, decompress}

  pub data Error : Type 0 where
    too_short : ℕ → Error
    cannot_read_size : ℕ → Error
    size_mismatch : ℕ → Error
    compression_failed : CompressError → Error
    decompression_failed : CompressError → Error

  unfoldable pub get_metadata_size : List ℕ → Result Error (ℕ × Bool)
  unfolding le_value metadata_size metadata_compressed
  get_metadata_size b =
      let header = le_value (slice 0 2 b) in
      if ltb (length b) 2
      then err (cannot_read_size (length b))
      else ok (metadata_size header, metadata_compressed header)

  -- The data of a block as it is in memory.
  unfoldable pub unpack : Bool → List ℕ → Result Error (List ℕ)
  unpack true raw = map_err decompression_failed (decompress raw)
  unpack false raw = ok raw

  -- parseMetadata. `2 + size` is a uint16; it does not wrap, as size is below 2^15.
  unfoldable pub parse : List ℕ → Result Error MetadataBlock
  unfolding get_metadata_size unpack
  parse b = do
    guard (leb 3 (length b)) (too_short (length b))
    (size, compressed) ← get_metadata_size (slice 0 2 b)
    guard (leb ((2 + size) % 2 ^ 16) (length b)) (size_mismatch size)
    raw ← unpack compressed (slice 2 ((2 + size) % 2 ^ 16) b)
    ok (record { compressed = compressed; block_data = raw })

  -- The header and the data on disk: `header |= uint16(len(data))`.
  unfoldable pub with_header : Bool → List ℕ → List ℕ
  with_header compressed raw =
      le_bytes 2 (bit_or (length raw % 2 ^ 16) (if compressed then 0 else 0x8000)) ++ raw

  unfoldable pub pack : Bool → List ℕ → Result Error (List ℕ)
  pack true raw = map_err compression_failed (compress raw)
  pack false raw = ok raw

  -- toBytes
  unfoldable pub to_bytes : MetadataBlock → Result Error (List ℕ)
  unfolding with_header pack
  to_bytes m = do raw ← pack m.compressed m.block_data; ok (with_header m.compressed raw)

header-facts :
    (c : Bool) (n : ℕ)
    → n < 2 ^ 15
    → let header = bit_or (n % 2 ^ 16) (if c then 0 else 0x8000) in
      (header < 2 ^ 16) × (metadata_size header ≡ n) × (metadata_compressed header ≡ c)
unfolding metadata_size metadata_compressed
header-facts true n h =
    let same : n % 2 ^ 16 ≡ n = omega arith in
    rw (same, bit_or-zero n)
      (omega arith, bit_and-mask 15 n 0 n (omega arith) h, rw (bit_and-pow_low 15 n h))
header-facts false n h =
    let same : n % 2 ^ 16 ≡ n = omega arith in
    rw (same, bit_or-pow 15 n h)
      (omega arith, bit_and-mask 15 (n + 2 ^ 15) 1 n (omega arith) h, rw (bit_and-pow_high 15 n h))

-- Reading what a block's header and data say.
module _ (c : Compressor) (compressed : Bool) (raw tail : List ℕ) (few : length raw < 2 ^ 15)
    (pos : 0 < length raw) where
  header : ℕ
  header = bit_or (length raw % 2 ^ 16) (if compressed then 0 else 0x8000)

  on_disk : List ℕ
  on_disk = with_header c compressed raw ++ tail

  read_header : get_metadata_size c (slice 0 2 on_disk) ≡ ok (length raw, compressed)
  unfolding get_metadata_size on_disk header with_header
  read_header =
      let (wide, size, flag) = header-facts compressed (length raw) few in
      rw (le_value-le_bytes 2 header wide, size, flag)

  read_data : slice 2 ((2 + length raw) % 2 ^ 16) on_disk ≡ raw
  unfolding on_disk with_header
  read_data =
      let e : (2 + length raw) % 2 ^ 16 - 2 ≡ length raw = omega arith in
      rw e (take-take_append (length raw) raw tail refl)

  length-on_disk : length on_disk ≡ 2 + length raw + length tail
  unfolding on_disk with_header
  length-on_disk = omega (arith, length-append raw tail)

  parse-on_disk :
      (content : List ℕ)
      → unpack c compressed raw ≡ ok content
      → parse c on_disk ≡ ok (record { compressed = compressed; block_data = content })
  unfolding parse
  parse-on_disk content e =
      let long : leb 3 (length on_disk) ≡ true = ground (arith, length-on_disk) in
      let fits : leb ((2 + length raw) % 2 ^ 16) (length on_disk) ≡ true =
        ground (arith, length-on_disk) in
      rw (long, read_header, fits, read_data, e)

-- What is compressed is decompressed to itself.
abbrev pub IsLossless : Compressor → Type 0
IsLossless c = (x y : List ℕ) → c.compress x ≡ ok y → c.decompress y ≡ ok x

unpack-pack :
    (c : Compressor)
    → IsLossless c
    → (flag : Bool) (content raw : List ℕ) → pack c flag content ≡ ok raw
    → unpack c flag raw ≡ ok content
unfolding pack unpack
unpack-pack c lossless true content raw e =
    rw (lossless content raw (map_err_ok (c.compress content) raw e)) refl
  where
    map_err_ok :
        (r : Result c.CompressError (List ℕ)) (x : List ℕ)
        → map_err {F = Error c} compression_failed r ≡ ok x
        → r ≡ ok x
    map_err_ok (ok y) x e = cc
    map_err_ok (err y) x e = cc
    map_err_ok panic x e = cc
    map_err_ok unfinished x e = cc
unpack-pack c lossless false content raw e = cc

packed :
    (c : Compressor) (flag : Bool) (b : List ℕ) (r : Result (Error c) (List ℕ))
    → (r >>= λ raw. ok (with_header c flag raw)) ≡ ok b
    → (raw : List ℕ) × (r ≡ ok raw) × (b ≡ with_header c flag raw)
packed c flag b (ok raw) e = (raw, refl, cc)
packed c flag b (err x) e = cc
packed c flag b panic e = cc
packed c flag b unfinished e = cc

-- With a compressor that is lossless, a metadata block that was turned into bytes, with some data
-- and less than 2^15 bytes of it, is read back from those bytes, whatever follows them.
pub parse_metadata-to_bytes :
    (c : Compressor)
    → IsLossless c
    → (m : MetadataBlock) (b tail : List ℕ) → to_bytes c m ≡ ok b
    → 2 < length b
    → length b < 2 ^ 15 + 2
    → parse c (b ++ tail) ≡ ok m
unfolding to_bytes on_disk
parse_metadata-to_bytes c lossless m b tail e more few =
    let (raw, p, same) = packed c m.compressed b (pack c m.compressed m.block_data) e in
    let size : length b ≡ 2 + length raw = ap length same ∙ length-with_header m.compressed raw in
    rw same (
      parse-on_disk c m.compressed raw tail (omega arith) (omega arith) m.block_data
        (unpack-pack c lossless m.compressed m.block_data raw p))
  where
    length-with_header :
        (flag : Bool) (raw : List ℕ) → length (with_header c flag raw) ≡ 2 + length raw
    length-with_header flag raw = unfold with_header in omega arith
