-- ===== src/Mbr/Tests.antt =====
-- The theorems on partition/mbr at a table of one partition and a disk in memory.
use go_diskfs.Base.{ℕ, ◌≡◌, refl, true, List, [], ◌∷◌, take, drop, replicate, ok, arith}
use go_diskfs.Base.Bytes.{slice_at}
use go_diskfs.Base.Storage.{memory, memory-IsDisk}
use go_diskfs.Mbr.Partition
use go_diskfs.Mbr.Partition.{
  Partition, partition_equal_bytes, read_contents, physical_of, logical_of, get_start, get_size,
}
use go_diskfs.Mbr.Contents.{partition_equal_bytes-to_bytes, read_contents_lem}
use go_diskfs.Mbr.Table.{Table, read_partition_table_uuid, read, write}
use go_diskfs.Mbr.RoundTrip.{empty, reread, read-write}

abbrev linux : Partition
linux = record empty { bootable = true; type = 0x83; start = 2048; size = 20480 }

abbrev table : Table
table = record {
  partitions = linux ∷ [];
  logical_sector_size = 512;
  physical_sector_size = 512;
  partition_table_uuid = [];
}

abbrev blank : List ℕ
blank = replicate 520 0

read-write_example :
    (d' : List ℕ) × (write memory table blank ≡ (d', ok tt))
    × (read memory d'
        ≡ ok (record {
          partitions = reread 4 0 (read_partition_table_uuid blank) (linux ∷ []);
          logical_sector_size = 512;
          physical_sector_size = 512;
          partition_table_uuid = read_partition_table_uuid blank;
        }))
    × (take 446 d' ≡ take 446 blank)
    × (drop 512 d' ≡ drop 512 blank)
read-write_example =
    read-write memory memory-IsDisk blank table (omega arith) ((omega arith, omega arith), tt)

partition_equal_bytes-to_bytes_example :
    partition_equal_bytes (Partition.to_bytes linux) (Partition.to_bytes empty)
    ≡ ok (Partition.equal linux empty)
partition_equal_bytes-to_bytes_example =
    partition_equal_bytes-to_bytes linux empty (omega arith, omega arith) (omega arith, omega arith)

-- The second and third sectors.
abbrev two_sectors : Partition
two_sectors = record empty { start = 1; size = 2 }

read_contents_lem_example : read_contents memory 2 two_sectors (replicate 1536 7) ≡ (
  slice_at (get_start two_sectors) (get_size two_sectors) (replicate 1536 7),
  ok (get_size two_sectors),
)
unfolding physical_of logical_of get_size get_start
read_contents_lem_example =
    read_contents_lem memory memory-IsDisk (replicate 1536 7) two_sectors 1 2 (omega arith) refl
      (omega arith) (omega arith) (omega arith) (omega arith)
