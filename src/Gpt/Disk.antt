-- ===== src/Gpt/Disk.antt =====
-- partition/gpt/table.go: writing a table to a disk, reading it, and comparing it with the second
-- header. Offsets are below 2^63.
pub mod Writing
pub mod Reading
pub mod RoundTrip
pub mod Verify
use go_diskfs.Base.{
  ℕ, zero, suc, ◌+◌, ◌-◌, ◌*◌, ◌/◌, ◌%◌, ◌^◌, Bool, true, false, ◌&&◌, Option, none, some, List, [],
  ◌∷◌, ◌++◌, Result, ok, err, panic, unfinished, ◌>>=◌, ◌>>◌, guard, map_err, length, take, drop,
  replicate, ltb, ◌==◌, if◌then◌else◌,
}
use go_diskfs.Base.Crc.{checksum_ieee}
use go_diskfs.Base.Storage.{Storage}
use go_diskfs.Gpt.Uuid.{add64, sub64, mul64, UuidLibrary}
use go_diskfs.Gpt.Table.{Table, init_table, part_sectors, partition_array_sector}
use go_diskfs.Gpt.Entries
use go_diskfs.Gpt.Entries.{to_partition_array_bytes, read_partition_array_bytes}
use go_diskfs.Gpt.ProtectiveMbr.{generate_protective_mbr}
use go_diskfs.Gpt.Header
use go_diskfs.Gpt.Header.{to_gpt_bytes, table_from_bytes, table_header_from_bytes}

-- What uuid.NewRandom gives in one Write: to initTable, to the headers, and to the partitions in
-- each of the three conversions of the array.
pub record Randoms : Type 0 where
  pub for_table : List ℕ
  pub for_header : Bool → List ℕ
  pub for_partitions : ℕ → ℕ → List ℕ

module _ (s : Storage) (u : UuidLibrary) where
  open s use {Disk, IoError, write_at, read_at}

  pub data Failure : Type 0 where
    io : IoError → Failure
    short_write : ℕ → Failure
    short_read : ℕ → Failure
    header_bytes : Header.Error → Failure
    array_bytes : Entries.Error → Failure
    entry_checksum : ℕ → ℕ → Failure
    not_initialized : Failure
    wrong_disk_size : ℕ → ℕ → Failure
    other_first_sector : ℕ → ℕ → Failure
    other_last_sector : ℕ → ℕ → Failure

  -- The disk after a call, and the table as it leaves it where there was no error.
  abbrev pub Outcome : Type 0
  Outcome = Disk × Result Failure Table

  -- One WriteAt with its two checks.
  unfoldable pub put : List ℕ → ℕ → (Disk → Outcome) → Disk → Outcome
  put bs off more d =
      let (d', written, e) = write_at bs off d in
      let next = more d' in
      elim e [
        | some x ↦ (d', err (io x))
        | none ↦ if written == length bs then next else (d', err (short_write written))
      ]

  -- What becomes of bytes that could not be made.
  abbrev pub made :
      {E : Type 0} {A : Type 0} → (E → Failure) → Result E A → (A → Disk → Outcome) → Disk → Outcome
  made f (ok a) more d = more a d
  made f (err e) more d = (d, err (f e))
  made f panic more d = (d, panic)
  made f unfinished more d = (d, unfinished)

  -- The parts of Write from the end to the beginning: the second header,
  unfoldable pub write_secondary : Randoms → Table → Disk → Outcome
  write_secondary r t =
      made header_bytes (to_gpt_bytes u (r.for_header false) (r.for_partitions 2) false t)
        (λ (t', b). put b (t'.secondary_header * t'.logical_sector_size) (λ d. (d, ok t')))

  -- the two arrays,
  unfoldable pub write_arrays : Randoms → Table → Disk → Outcome
  write_arrays r t =
      made array_bytes (to_partition_array_bytes u (r.for_partitions 1) t) (λ (t', a).
        put a (t'.logical_sector_size * partition_array_sector true t')
          (put a (t'.logical_sector_size * partition_array_sector false t') (write_secondary r t')))

  -- the first header,
  unfoldable pub write_primary : Randoms → Table → Disk → Outcome
  write_primary r t =
      made header_bytes (to_gpt_bytes u (r.for_header true) (r.for_partitions 0) true t)
        (λ (t', b). put b t'.logical_sector_size (write_arrays r t'))

  -- and the protective MBR, of which the first 446 bytes are left as they are.
  unfoldable pub write_mbr : Randoms → Table → Disk → Outcome
  write_mbr r t =
      if t.protective_mbr
      then put (drop 446 (generate_protective_mbr t)) 446 (write_primary r t)
      else write_primary r t

  -- Write
  unfoldable pub write : Randoms → ℕ → Table → Disk → Outcome
  write r size t = write_mbr r (if t.initialized then t else init_table u r.for_table size t)

  -- The rest of Read behind the header.
  unfoldable pub read_array : ℕ → ℕ → Table → Disk → Result Failure Table
  read_array lbs pbs t d =
      let size = t.partition_array_size * t.partition_entry_size in
      let (b, e) = read_at size (t.partition_first_lba * t.logical_sector_size) d in
      guard (length b == size) (short_read (length b))
      >> (elim e [ none ↦ ok tt | some x ↦ err (io x) ]
          >> (guard (t.partition_entry_checksum == checksum_ieee b)
                (entry_checksum (checksum_ieee b) t.partition_entry_checksum)
              >> (map_err array_bytes
                    (read_partition_array_bytes u b t.partition_entry_size lbs pbs)
                  >>= λ parts. ok (record t { partitions = parts }))))

  -- Read
  unfoldable pub read : ℕ → ℕ → Disk → Result Failure Table
  read lbs pbs d =
      let (b, e) = read_at (lbs * 2) 0 d in
      elim e [ none ↦ ok tt | some x ↦ err (io x) ]
      >> (guard (length b == lbs * 2) (short_read (length b))
          >> (map_err header_bytes (table_from_bytes u b lbs pbs) >>= λ t. read_array lbs pbs t d))

  -- Verify. ReadAt's count is not looked at; a read that stops early comes with an error.
  unfoldable pub verify : ℕ → Table → Disk → Result Failure (Unit {0})
  verify disk_size t d =
      let expected = mul64 (add64 t.secondary_header 1) t.logical_sector_size in
      let (b, e) = read_at t.logical_sector_size (t.secondary_header * t.logical_sector_size) d in
      let last = sub64 (sub64 t.secondary_header (part_sectors t)) 1 in
      if t.logical_sector_size == 0
      then err not_initialized
      else if disk_size == expected
      then elim e [ none ↦ ok tt | some x ↦ err (io x) ]
        >> (map_err header_bytes
              (table_header_from_bytes u b t.logical_sector_size t.physical_sector_size false)
            >>= λ second.
                guard (t.first_data_sector == second.first_data_sector)
                  (other_first_sector t.first_data_sector second.first_data_sector)
                >> guard (t.last_data_sector == last) (other_last_sector t.last_data_sector last))
      else err (wrong_disk_size expected disk_size)
