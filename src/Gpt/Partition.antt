-- ===== src/Gpt/Partition.antt =====
-- partition/gpt/partition.go: an entry of the partition array, 128 bytes. A name is the list of its
-- runes, and valid UTF-8; the other strings are ASCII. The loops of WriteContents and ReadContents
-- are those of partition/mbr/partition.go, word for word, behind other computations of the place.
pub mod Init
pub mod RoundTrip
pub mod Ready
pub mod Contents
use go_diskfs.Base.{
  ℕ, zero, suc, ◌+◌, ◌-◌, ◌*◌, ◌/◌, ◌%◌, ◌^◌, Bool, true, false, ◌&&◌, not, Option, none, some,
  List, [], ◌∷◌, ◌++◌, Result, ok, err, panic, unfinished, ◌>>=◌, ◌>>◌, guard, length, get_or, set,
  replicate, ltb, leb, ◌==◌, if◌then◌else◌,
}
use go_diskfs.Base.Bytes.{le_bytes, le_value, put_at, slice, bytes_equal}
use go_diskfs.Base.Storage.{Storage}
use go_diskfs.Gpt.Uuid.{
  add64, sub64, mul64, UuidLibrary, to_upper, reverse_slice, bytes_to_uuid_bytes,
}
use go_diskfs.Gpt.Names.{encode, decode, unit_bytes, read_units}
use go_diskfs.Mbr.Partition.{Source, Outcome, write_loop, read_loop}

-- type Partition struct
pub record Partition : Type 0 where
  pub start : ℕ
  pub end : ℕ
  pub size : ℕ
  pub type : List ℕ
  pub name : List ℕ
  pub guid : List ℕ
  pub attributes : ℕ
  pub logical_sector_size : ℕ
  pub physical_sector_size : ℕ

pub data Error : Type 0 where
  bad_type_guid : List ℕ → Error
  bad_partition_guid : List ℕ → Error
  long_name : ℕ → Error
  wrong_size : ℕ → Error
  invalid_uuid : List ℕ → Error
  invalid_entry : ℕ → ℕ → ℕ → Error

-- PartitionEntrySize
abbrev pub partition_entry_size : ℕ
partition_entry_size = 128

-- Unused: "00000000-0000-0000-0000-000000000000"
abbrev pub unused : List ℕ
unused =
    replicate 8 48
    ++ (45 ∷ replicate 4 48)
    ++ (45 ∷ replicate 4 48)
    ++ (45 ∷ replicate 4 48)
    ++ (45 ∷ replicate 12 48)

abbrev pub is_unused : Partition → Bool
is_unused p = bytes_equal p.type unused

-- An error of uuid.Parse as one of the package.
unfoldable pub parse_or : UuidLibrary → Error → List ℕ → Result Error (List ℕ)
parse_or u e s = elim (u.parse s) [ some b ↦ ok b | none ↦ err e ]

-- toBytes. The limit counts runes; more than 36 code units run over the entry's end.
unfoldable pub to_bytes : UuidLibrary → Partition → Result Error (List ℕ)
unfolding bytes_equal parse_or bytes_to_uuid_bytes encode unit_bytes
to_bytes u p =
    let b = replicate {A = ℕ} partition_entry_size 0 in
    if is_unused p then ok b else do
      type_guid ← parse_or u (bad_type_guid p.type) p.type
      let b = put_at 0 (bytes_to_uuid_bytes type_guid) b
      id_guid ← parse_or u (bad_partition_guid p.guid) p.guid
      let b = put_at 16 (bytes_to_uuid_bytes id_guid) b
      let b = put_at 32 (le_bytes 8 p.start) b
      let b = put_at 40 (le_bytes 8 p.end) b
      let b = put_at 48 (le_bytes 8 p.attributes) b
      guard (leb (length p.name) 36) (long_name (length p.name))
      let nameb = encode p.name
      (if leb (length nameb) 36 then ok (put_at 56 (unit_bytes nameb) b) else panic)

-- partitionFromBytes
unfoldable pub from_bytes : UuidLibrary → List ℕ → ℕ → ℕ → Result Error (Option Partition)
unfolding bytes_equal bytes_to_uuid_bytes le_value decode read_units
from_bytes u b logical_sector_size physical_sector_size = do
  guard (length b == partition_entry_size) (wrong_size (length b))
  (if bytes_equal (slice 0 16 b) (replicate 16 0)
      then ok none
      else ok (
          some (record {
            start = le_value (slice 32 40 b);
            end = le_value (slice 40 48 b);
            size = 0;
            name = decode (read_units (slice 56 128 b));
            guid = to_upper (u.to_string (bytes_to_uuid_bytes (slice 16 32 b)));
            attributes = le_value (slice 48 56 b);
            type = to_upper (u.to_string (bytes_to_uuid_bytes (slice 0 16 b)));
            logical_sector_size = logical_sector_size;
            physical_sector_size = physical_sector_size;
          })))

-- sectorSizes
unfoldable pub physical_of : Partition → ℕ
physical_of p = if p.physical_sector_size == 0 then 512 else p.physical_sector_size

unfoldable pub logical_of : Partition → ℕ
logical_of p = if p.logical_sector_size == 0 then 512 else p.logical_sector_size

-- GetSize and GetStart, of values below 2^63.
unfoldable pub get_size : Partition → ℕ
get_size p = p.size

unfoldable pub get_start : Partition → ℕ
unfolding logical_of
get_start p = p.start * logical_of p

-- `(end - start + 1) * blocksize`
abbrev pub calculated_size : ℕ → ℕ → ℕ → ℕ
calculated_size blocksize start end = mul64 (add64 (sub64 end start) 1) blocksize

-- The switch of initEntry. Go divides by the block size only for a size that is not zero.
unfoldable pub set_sizes : ℕ → ℕ → Partition → Result Error Partition
set_sizes blocksize starting p =
    let calculated = calculated_size blocksize p.start p.end in
    let last = λ (start : ℕ). sub64 (add64 start (p.size / blocksize)) 1 in
    if leb p.start p.end && p.size == calculated
    then ok p
    else if p.size == 0
    then (if leb p.start p.end
        then ok (record p { size = calculated })
        else err (invalid_entry p.size p.start p.end))
    else if blocksize == 0
    then panic
    else if p.size % blocksize == 0 && p.end == 0
    then (if ltb 0 p.start
        then ok (record p { end = last p.start })
        else ok (record p { start = starting; end = last starting }))
    else err (invalid_entry p.size p.start p.end)

-- The partition's GUID, or the one that uuid.NewRandom makes.
unfoldable pub own_guid : UuidLibrary → List ℕ → Partition → Result Error (List ℕ)
unfolding parse_or
own_guid u random p = elim p.guid [
  | [] ↦ ok random
  | c ∷ s ↦ parse_or u (invalid_uuid p.guid) p.guid
]

-- initEntry
unfoldable pub init_entry : UuidLibrary → List ℕ → ℕ → ℕ → Partition → Result Error Partition
unfolding bytes_equal own_guid set_sizes
init_entry u random blocksize starting p = if is_unused p then ok p else do
  guid ← own_guid u random p
  set_sizes blocksize starting (record p { guid = to_upper (u.to_string guid) })

-- Expand
unfoldable pub expand : ℕ → Partition → Partition
expand sectors p = record p {
  end = add64 p.end sectors;
  size = add64 p.size (mul64 sectors p.logical_sector_size);
}

-- The switch of WriteContents.
unfoldable pub reconcile : Partition → Option Partition
unfolding logical_of
reconcile p =
    let calculated = calculated_size (logical_of p) p.start p.end in
    if ltb 0 p.size && p.size == calculated
    then some p
    else if p.size == 0 && leb p.start p.end
    then some (record p { size = calculated })
    else if ltb 0 p.size && (p.size % logical_of p == 0 && p.end == 0)
    then some (record p { end = sub64 (add64 p.start (p.size / logical_of p)) 1 })
    else none

module _ (s : Storage) where
  open s use {Disk, IoError}

  -- WriteContents, with the partition after it. Its size does not fit where none is returned.
  unfoldable pub write_contents :
      (src : Source s) → ℕ → Partition → Disk → src.Reader → Partition × Option (Outcome s)
  unfolding reconcile logical_of physical_of write_loop
  write_contents src fuel p d r = elim (reconcile p) [
    | none ↦ (p, none)
    | some p' ↦ (
      p',
      some (write_loop s src fuel (physical_of p') (mul64 p'.start (logical_of p')) p'.size d 0 r),
    )
  ]

  -- ReadContents: what is written to `out`, and the count or the error.
  unfoldable pub read_contents : ℕ → Partition → Disk → List ℕ × Result IoError ℕ
  unfolding physical_of get_start get_size read_loop
  read_contents fuel p d = read_loop s fuel (physical_of p) (get_start p) (get_size p) d []
