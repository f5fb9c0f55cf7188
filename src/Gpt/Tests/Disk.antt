-- ===== src/Gpt/Tests/Disk.antt =====
-- The theorems on partition/gpt/table.go at a table with one partition on a disk of ten sectors.
use go_diskfs.Base.{
  ℕ, ◌*◌, ◌%◌, ◌^◌, ◌≡◌, refl, sym, subst, Bool, true, false, List, [], ◌∷◌, ok, length, replicate,
  arith, length-replicate,
}
use go_diskfs.Base.Crc.{checksum_ieee}
use go_diskfs.Base.Storage.{memory, memory-IsDisk}
use go_diskfs.Gpt.Uuid.{to_upper}
use go_diskfs.Gpt.Table.{
  Table, init_table, repair, resize, total_size, part_sectors, partition_array_sector,
}
use go_diskfs.Gpt.Table.Layout.{
  array_bytes, InOrder, init_table-InOrder, Ends, total_size-resize, total_size-repair,
}
use go_diskfs.Gpt.ProtectiveMbr.{
  read_protective_mbr, generate_protective_mbr, read_protective_mbr-generate,
}
use go_diskfs.Gpt.Entries.{to_partition_array_bytes, read_partition_array_bytes}
use go_diskfs.Gpt.Entries.RoundTrip.{
  with_sectors, read_partition_array_bytes-to_partition_array_bytes,
}
use go_diskfs.Gpt.Header.{to_gpt_bytes, read_gpt_header}
use go_diskfs.Gpt.Header.RoundTrip as HeaderRoundTrip
use go_diskfs.Gpt.Header.RoundTrip.{found, read_gpt_header-to_gpt_bytes}
use go_diskfs.Gpt.Disk.{Randoms, write, read, verify}
use go_diskfs.Gpt.Disk.Writing.{IsStorable}
use go_diskfs.Gpt.Disk.RoundTrip.{read-write_gpt}
use go_diskfs.Gpt.Disk.Verify.{IsWhole, verify-write}
use go_diskfs.Gpt.Tests.Samples.{
  text, plain, plain-IsUuidLibrary, guid_bytes, guid_bytes-IsUuid, data_partition,
  data_partition-IsReady,
}

abbrev blank : Table
blank = record {
  partitions = data_partition ∷ [];
  logical_sector_size = 512;
  physical_sector_size = 512;
  guid = to_upper (text guid_bytes);
  protective_mbr = true;
  partition_array_size = 0;
  partition_entry_size = 0;
  partition_first_lba = 0;
  partition_entry_checksum = 0;
  primary_header = 0;
  secondary_header = 0;
  first_data_sector = 0;
  last_data_sector = 0;
  initialized = false;
}

init_table-InOrder_example :
    (array_bytes (init_table plain guid_bytes 1048576 blank) ≡ 16384)
    × InOrder 2048 (init_table plain guid_bytes 1048576 blank)
init_table-InOrder_example =
    init_table-InOrder plain guid_bytes 1048576 blank
      (record {
        array_unset = refl;
        entry_unset = refl;
        primary_unset = refl;
        secondary_unset = refl;
        first_unset = refl;
        last_unset = refl;
      })
      (omega arith) (omega arith) (omega arith)

-- An array of four entries in a sector, on ten sectors.
abbrev table : Table
table = record blank {
  partition_array_size = 4;
  partition_entry_size = 128;
  primary_header = 1;
  secondary_header = 9;
  first_data_sector = 3;
  last_data_sector = 7;
  initialized = true;
}

total_size-resize_example :
    (t' : Table) × (resize (20 * 512) table ≡ ok t')
    × (t' ≡ record table {
      secondary_header = t'.secondary_header;
      last_data_sector = t'.last_data_sector;
    })
    × (total_size t' ≡ 20 * 512)
    × Ends 20 t'
total_size-resize_example =
    total_size-resize 20 table (omega arith) (omega arith) (omega arith) (omega arith) (omega arith)

total_size-repair_example :
    (t' : Table) × (repair (20 * 512) table ≡ ok t')
    × (t' ≡ record table {
      secondary_header = t'.secondary_header;
      last_data_sector = t'.last_data_sector;
    })
    × (total_size t' ≡ 20 * 512)
    × Ends 20 t'
total_size-repair_example =
    total_size-repair 20 table (omega arith) (omega arith) (omega arith) (omega arith) (omega arith)

read_protective_mbr-generate_example :
    read_protective_mbr (generate_protective_mbr table) (9 % 2 ^ 32) ≡ true
read_protective_mbr-generate_example = read_protective_mbr-generate table

read_partition_array_bytes-to_partition_array_bytes_example :
    (b : List ℕ) × ((random : ℕ → List ℕ)
      → to_partition_array_bytes plain random table ≡ ok (table, b))
    × (length b ≡ 512)
    × (read_partition_array_bytes plain b 128 512 4096
        ≡ ok (with_sectors 512 4096 (data_partition ∷ [])))
read_partition_array_bytes-to_partition_array_bytes_example =
    read_partition_array_bytes-to_partition_array_bytes plain 4096 table plain-IsUuidLibrary refl
      (omega arith) (omega arith) (data_partition-IsReady, tt)

table-IsWritable : HeaderRoundTrip.IsWritable plain table
table-IsWritable = record {
  guid_bytes = guid_bytes;
  guid_uuid = guid_bytes-IsUuid;
  guid_text = refl;
  sector_fits = omega arith;
  primary_fits = omega arith;
  secondary_fits = omega arith;
  first_fits = omega arith;
  last_fits = omega arith;
  array_fits = omega arith;
}

table_array :
    (b : List ℕ) × ((random : ℕ → List ℕ)
      → to_partition_array_bytes plain random table ≡ ok (table, b))
    × (length b ≡ 512)
    × (read_partition_array_bytes plain b 128 512 4096
        ≡ ok (with_sectors 512 4096 (data_partition ∷ [])))
table_array =
    read_partition_array_bytes-to_partition_array_bytes plain 4096 table plain-IsUuidLibrary refl
      (omega arith) (omega arith) (data_partition-IsReady, tt)

array : List ℕ
unfolding table_array
array = table_array.0

read_gpt_header-to_gpt_bytes_example :
    (b : List ℕ) × (to_gpt_bytes plain guid_bytes (λ i. guid_bytes) false table ≡ ok (table, b))
    × (length b ≡ 512)
    × (read_gpt_header plain b ≡ ok (found false table (checksum_ieee array)))
unfolding array table_array
read_gpt_header-to_gpt_bytes_example =
    read_gpt_header-to_gpt_bytes plain guid_bytes (λ i. guid_bytes) false table table array
      plain-IsUuidLibrary table-IsWritable (table_array.1 (λ i. guid_bytes))

abbrev zeros : List ℕ
zeros = replicate 5120 0

length-zeros : length zeros ≡ 5120
length-zeros = length-replicate {A = ℕ} 5120 0

ten_sectors-IsStorable : IsStorable plain 5120 table
unfolding partition_array_sector part_sectors
ten_sectors-IsStorable = record {
  initialized = refl;
  header = table-IsWritable;
  entry_size = refl;
  array_fits = omega arith;
  enough = omega arith;
  ready = (data_partition-IsReady, tt);
  sector = omega arith;
  first = refl;
  second = omega arith;
  last = omega arith;
  inside = omega arith;
}

table-IsStorable : IsStorable plain (length zeros) table
table-IsStorable = subst (λ n. IsStorable plain n table) (sym length-zeros) ten_sectors-IsStorable

abbrev randoms : Randoms
randoms = record {
  for_table = guid_bytes;
  for_header = λ b. guid_bytes;
  for_partitions = λ i j. guid_bytes;
}

read-write_gpt_example :
    (d' : List ℕ) × (m : Bool) × (sum : ℕ) × (write memory plain randoms 5120 table zeros
      ≡ (d', ok table))
    × (read memory plain 512 4096 d'
        ≡ ok (record table {
          partitions = with_sectors 512 4096 (data_partition ∷ []);
          physical_sector_size = 4096;
          protective_mbr = m;
          partition_first_lba = 2;
          partition_entry_checksum = sum;
        }))
read-write_gpt_example =
    read-write_gpt memory memory-IsDisk plain randoms 5120 4096 table zeros plain-IsUuidLibrary
      table-IsStorable

table-IsWhole : IsWhole 5120 table
unfolding part_sectors
table-IsWhole = record { whole = refl; size_fits = omega arith; last_sector = refl }

verify-write_example :
    (d' : List ℕ) × (write memory plain randoms (length zeros) table zeros ≡ (d', ok table))
    × (verify memory plain (length zeros) table d' ≡ ok tt)
verify-write_example =
    verify-write memory memory-IsDisk plain randoms table zeros plain-IsUuidLibrary table-IsStorable
      (subst (λ n. IsWhole n table) (sym length-zeros) table-IsWhole)
