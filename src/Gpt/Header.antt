-- ===== src/Gpt/Header.antt =====
-- partition/gpt/table.go: the header, at both ends of the disk. A buffer of less than 92 bytes
-- makes the code panic.
pub mod RoundTrip
use go_diskfs.Base.{
  ℕ, zero, suc, ◌+◌, ◌-◌, ◌*◌, ◌/◌, ◌%◌, ◌^◌, Bool, true, false, ◌&&◌, Option, none, some, List, [],
  ◌∷◌, ◌++◌, Result, ok, err, panic, unfinished, ◌>>=◌, ◌>>◌, guard, map_err, length, take, drop,
  replicate, ltb, ◌==◌, if◌then◌else◌,
}
use go_diskfs.Base.Bytes.{put_at, le_bytes, le_value, slice, bytes_equal}
use go_diskfs.Base.Crc.{checksum_ieee}
use go_diskfs.Gpt.Uuid.{UuidLibrary, to_upper, bytes_to_uuid_bytes}
use go_diskfs.Gpt.Table.{Table, partition_array_sector}
use go_diskfs.Gpt.Entries
use go_diskfs.Gpt.Entries.{to_partition_array_bytes}
use go_diskfs.Gpt.ProtectiveMbr.{read_protective_mbr}

-- getEfiSignature, getEfiRevision, getEfiHeaderSize, getEfiZeroes
abbrev pub efi_signature : List ℕ
efi_signature = 0x45 ∷ 0x46 ∷ 0x49 ∷ 0x20 ∷ 0x50 ∷ 0x41 ∷ 0x52 ∷ 0x54 ∷ []

abbrev pub efi_revision : List ℕ
efi_revision = 0x00 ∷ 0x00 ∷ 0x01 ∷ 0x00 ∷ []

abbrev pub efi_header_size : List ℕ
efi_header_size = 0x5c ∷ 0x00 ∷ 0x00 ∷ 0x00 ∷ []

abbrev pub efi_zeroes : List ℕ
efi_zeroes = 0x00 ∷ 0x00 ∷ 0x00 ∷ 0x00 ∷ []

pub data Error : Type 0 where
  invalid_uuid : List ℕ → Error
  partition_array : Entries.Error → Error
  invalid_signature : Error
  invalid_revision : Error
  invalid_header_size : Error
  invalid_zeroes : Error
  invalid_checksum : ℕ → ℕ → Error
  too_short : ℕ → ℕ → Error

-- The disk's GUID, or the one that uuid.NewRandom makes.
unfoldable pub disk_guid : UuidLibrary → List ℕ → Table → Result Error (List ℕ)
disk_guid u random t = elim t.guid [
  | [] ↦ ok random
  | c ∷ s ↦ elim (u.parse t.guid) [ some g ↦ ok g | none ↦ err (invalid_uuid t.guid) ]
]

-- The header's fields before its checksum, in a sector of n bytes.
unfoldable pub fields : ℕ → ℕ → ℕ → ℕ → ℕ → List ℕ → ℕ → ℕ → ℕ → List ℕ
fields n here there first last guid array entries array_checksum =
    let b = replicate {A = ℕ} n 0 in
    let b = put_at 0 efi_signature b in
    let b = put_at 8 efi_revision b in
    let b = put_at 12 efi_header_size b in
    let b = put_at 16 efi_zeroes b in
    let b = put_at 20 efi_zeroes b in
    let b = put_at 24 (le_bytes 8 here) b in
    let b = put_at 32 (le_bytes 8 there) b in
    let b = put_at 40 (le_bytes 8 first) b in
    let b = put_at 48 (le_bytes 8 last) b in
    let b = put_at 56 guid b in
    let b = put_at 72 (le_bytes 8 array) b in
    let b = put_at 80 (le_bytes 4 entries) b in
    let b = put_at 84 (le_bytes 4 0x80) b in put_at 88 (le_bytes 4 array_checksum) b

-- The checksum of the first 92 bytes goes into the place that was left for it.
unfoldable pub seal : List ℕ → List ℕ
seal b = put_at 16 (le_bytes 4 (checksum_ieee (slice 0 92 b))) b

-- toGPTBytes, with the table as it leaves it. The sector is filled with zeros from the start on.
unfoldable pub to_gpt_bytes :
    UuidLibrary → List ℕ → (ℕ → List ℕ) → Bool → Table → Result Error (Table × List ℕ)
unfolding disk_guid fields seal bytes_to_uuid_bytes partition_array_sector to_partition_array_bytes
to_gpt_bytes u random randoms primary t =
    let here = if primary then t.primary_header else t.secondary_header in
    let there = if primary then t.secondary_header else t.primary_header in
    (if ltb t.logical_sector_size 92 then panic else ok tt)
    >> (disk_guid u random t >>= λ guid.
        map_err partition_array (to_partition_array_bytes u randoms t) >>= λ (t', bpart). ok (
          t',
          seal (
              fields t.logical_sector_size here there t.first_data_sector t.last_data_sector
                (bytes_to_uuid_bytes guid) (partition_array_sector primary t)
                (t.partition_array_size % 2 ^ 32) (checksum_ieee bpart)),
        ))

-- readGPTHeader, which clears the checksum in the buffer. What it does not set is zero.
unfoldable pub read_gpt_header : UuidLibrary → List ℕ → Result Error Table
unfolding bytes_equal le_value checksum_ieee bytes_to_uuid_bytes
read_gpt_header u gpt =
    let crc = le_value (slice 16 20 gpt) in
    let checksum = checksum_ieee (slice 0 92 (put_at 16 efi_zeroes gpt)) in
    (if ltb (length gpt) 92 then panic else ok tt)
    >> (guard (bytes_equal (slice 0 8 gpt) efi_signature) invalid_signature
        >> (guard (bytes_equal (slice 8 12 gpt) efi_revision) invalid_revision
            >> (guard (bytes_equal (slice 12 16 gpt) efi_header_size) invalid_header_size
                >> (guard (bytes_equal (slice 20 24 gpt) efi_zeroes) invalid_zeroes
                    >> (guard (crc == checksum) (invalid_checksum checksum crc)
                        >> ok (record {
                          partitions = [];
                          logical_sector_size = 0;
                          physical_sector_size = 0;
                          guid = to_upper (u.to_string (bytes_to_uuid_bytes (slice 56 72 gpt)));
                          protective_mbr = false;
                          partition_array_size = le_value (slice 80 84 gpt);
                          partition_entry_size = le_value (slice 84 88 gpt);
                          partition_first_lba = le_value (slice 72 80 gpt);
                          partition_entry_checksum = le_value (slice 88 92 gpt);
                          primary_header = le_value (slice 24 32 gpt);
                          secondary_header = le_value (slice 32 40 gpt);
                          first_data_sector = le_value (slice 40 48 gpt);
                          last_data_sector = le_value (slice 48 56 gpt);
                          initialized = false;
                        }))))))

-- What both callers of readGPTHeader add to the table, where the buffer b begins with sector 0 or
-- what is taken for it.
unfoldable pub with_disk : List ℕ → ℕ → ℕ → Table → Table
unfolding read_protective_mbr
with_disk b lbs pbs t = record t {
  protective_mbr = read_protective_mbr (take lbs b) (t.secondary_header % 2 ^ 32);
  logical_sector_size = lbs;
  physical_sector_size = pbs;
  initialized = true;
}

-- tableHeaderFromBytes. Without skipMBR the buffer is the header's, with the checksum cleared.
unfoldable pub table_header_from_bytes : UuidLibrary → List ℕ → ℕ → ℕ → Bool → Result Error Table
unfolding read_gpt_header with_disk
table_header_from_bytes u b lbs pbs skip_mbr =
    let gpt = if skip_mbr then drop lbs b else b in
    let sector = if skip_mbr then b else put_at 16 efi_zeroes b in
    guard (if ltb (length b) lbs then false else true) (too_short (length b) lbs)
    >> (read_gpt_header u gpt >>= λ t. ok (with_disk sector lbs pbs t))

-- tableFromBytes
unfoldable pub table_from_bytes : UuidLibrary → List ℕ → ℕ → ℕ → Result Error Table
unfolding read_gpt_header with_disk
table_from_bytes u b lbs pbs =
    guard (if ltb (length b) (lbs * 2) then false else true) (too_short (length b) (lbs * 2))
    >> (read_gpt_header u (drop lbs b) >>= λ t. ok (with_disk b lbs pbs t))
