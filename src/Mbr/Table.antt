-- ===== src/Mbr/Table.antt =====
-- partition/mbr/table.go: the partition table in the first sector. The partitions of a table are
-- pointers that are not nil.
use go_diskfs.Base.{
  ℕ, zero, suc, ◌+◌, ◌-◌, ◌*◌, ◌/◌, ◌%◌, Bool, true, false, ◌&&◌, Option, none, some, List, [], ◌∷◌,
  ◌++◌, Result, ok, err, ◌>>=◌, ◌>>◌, guard, map_err, length, take, replicate, ltb, ◌==◌,
  if◌then◌else◌,
}
use go_diskfs.Base.Bytes.{le_value, slice, bytes_equal}
use go_diskfs.Base.Storage.{Storage}
use go_diskfs.Mbr.Partition
use go_diskfs.Mbr.Partition.{Partition, partition_entry_size}

-- type Table struct
pub record Table : Type 0 where
  pub partitions : List Partition
  pub logical_sector_size : ℕ
  pub physical_sector_size : ℕ
  pub partition_table_uuid : List ℕ

abbrev pub mbr_size : ℕ
mbr_size = 512

abbrev pub partition_entries_start : ℕ
partition_entries_start = 446

abbrev pub partition_entries_count : ℕ
partition_entries_count = 4

abbrev pub signature_start : ℕ
signature_start = 510

-- getMbrSignature
abbrev pub mbr_signature : List ℕ
mbr_signature = 0x55 ∷ 0xaa ∷ []

pub data Error : Type 0 where
  wrong_size : ℕ → Error
  invalid_signature : List ℕ → Error
  partition_entry : Partition.Error → Error

-- comparePartitionArray, of two slices that are not nil.
unfoldable pub compare_partition_array : List Partition → List Partition → Bool
unfolding Partition.equal
compare_partition_array [] [] = true
compare_partition_array [] (q ∷ qs) = false
compare_partition_array (p ∷ ps) [] = false
compare_partition_array (p ∷ ps) (q ∷ qs) = Partition.equal p q && compare_partition_array ps qs

-- Equal, of a table that is not nil.
unfoldable pub equal : Table → Table → Bool
unfolding compare_partition_array
equal t t2 =
    t.logical_sector_size == t2.logical_sector_size
    && (t.physical_sector_size == t2.physical_sector_size
        && compare_partition_array t.partitions t2.partitions)

-- A digit of `%x`.
abbrev digit : ℕ → ℕ
digit d = if ltb d 10 then 48 + d else 87 + d

-- `fmt.Sprintf("%x", v)` of at most as many digits as the fuel and one.
unfoldable pub hex : ℕ → ℕ → List ℕ
hex zero v = digit v ∷ []
hex (suc fuel) v = if ltb v 16 then digit v ∷ [] else hex fuel (v / 16) ++ (digit (v % 16) ∷ [])

-- readPartitionTableUUID: a uint32, so eight digits.
unfoldable pub read_partition_table_uuid : List ℕ → List ℕ
unfolding hex le_value
read_partition_table_uuid b = hex 7 (le_value (slice 440 444 b))

-- formatPartitionUUID, of ASCII text and an index of at most eight digits.
unfoldable pub format_partition_uuid : List ℕ → ℕ → List ℕ
unfolding hex
format_partition_uuid pt_uuid index =
    let digits = hex 7 index in take 33 pt_uuid ++ (45 ∷ replicate (2 - length digits) 48) ++ digits

-- The loop of tableFromBytes with n rounds left, at entry i.
unfoldable pub read_partitions : ℕ → ℕ → List ℕ → List ℕ → Result Error (List Partition)
unfolding Partition.from_bytes format_partition_uuid
read_partitions zero i b pt_uuid = ok []
read_partitions (suc n) i b pt_uuid =
    let start = partition_entries_start + i * partition_entry_size in
    let rest = read_partitions n (i + 1) b pt_uuid in
    map_err partition_entry
      (Partition.from_bytes (slice start (start + partition_entry_size) b) 512 512)
    >>= λ p.
        rest >>= λ ps. ok (record p { partition_uuid = format_partition_uuid pt_uuid (i + 1) } ∷ ps)

-- tableFromBytes
unfoldable pub table_from_bytes : List ℕ → Result Error Table
unfolding read_partition_table_uuid read_partitions bytes_equal
table_from_bytes b = do
  guard (length b == mbr_size) (wrong_size (length b))
  let signature = slice signature_start mbr_size b
  guard (bytes_equal signature mbr_signature) (invalid_signature signature)
  let pt_uuid = read_partition_table_uuid b
  parts ← read_partitions partition_entries_count 0 b pt_uuid
  ok (record {
    partitions = parts;
    logical_sector_size = 512;
    physical_sector_size = 512;
    partition_table_uuid = pt_uuid;
  })

-- The entries that toBytes writes with n rounds left: those of the partitions, then zeros.
unfoldable pub entries : ℕ → List Partition → List ℕ
unfolding Partition.to_bytes
entries zero ps = []
entries (suc n) [] = replicate {A = ℕ} partition_entry_size 0 ++ entries n []
entries (suc n) (p ∷ ps) = Partition.to_bytes p ++ entries n ps

-- toBytes
unfoldable pub to_bytes : Table → List ℕ
unfolding entries
to_bytes t = entries partition_entries_count t.partitions ++ mbr_signature

module _ (s : Storage) where
  open s use {Disk, IoError, write_at, read_at}

  pub data IoFailure : Type 0 where
    io : IoError → IoFailure
    short_read : ℕ → IoFailure
    short_write : ℕ → IoFailure
    table_bytes : Error → IoFailure

  -- What Read makes of ReadAt's results.
  unfoldable pub finish_read : List ℕ × Option IoError → Result IoFailure Table
  finish_read (b, some x) = err (io x)
  finish_read (b, none) =
      if length b == mbr_size
      then map_err table_bytes (table_from_bytes b)
      else err (short_read (length b))

  -- Read
  unfoldable pub read : Disk → Result IoFailure Table
  unfolding finish_read
  read d = finish_read (read_at mbr_size 0 d)

  -- What Write makes of WriteAt's results for `size` bytes.
  unfoldable pub finish_write : ℕ → Disk × ℕ × Option IoError → Disk × Result IoFailure (Unit {0})
  finish_write size (d, written, some x) = (d, err (io x))
  finish_write size (d, written, none) =
      (d, if written == size then ok tt else err (short_write written))

  -- Write. The size of the disk is not used.
  unfoldable pub write : Table → Disk → Disk × Result IoFailure (Unit {0})
  unfolding to_bytes finish_write
  write t d = finish_write (length (to_bytes t)) (write_at (to_bytes t) partition_entries_start d)
