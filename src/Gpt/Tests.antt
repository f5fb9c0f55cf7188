-- ===== src/Gpt/Tests.antt =====
-- The theorems on partition/gpt/partition.go at one partition.
mod Samples
mod Disk
use go_diskfs.Base.{
  suc, ◌≤◌, ==_of, ==_iff, ℕ, ◌+◌, ◌-◌, ◌*◌, ◌/◌, ◌%◌, ◌^◌, ◌<◌, ◌≡◌, ◌≢◌, refl, sym, ap, ap₂, ◌∙◌,
  subst, Bool, true, false, ◌&&◌, Option, none, some, List, [], ◌∷◌, ok, err, panic, length, All,
  replicate, ltb, leb, ◌⊎◌, ◌==◌, if◌then◌else◌, arith, length-replicate, Bool-cases, inl, inr,
}
use go_diskfs.Base.Bytes.{IsByte, bytes_equal}
use go_diskfs.Base.Crc.{checksum_ieee}
use go_diskfs.Base.Storage.{memory, memory-IsDisk}
use go_diskfs.Gpt.Uuid.{UuidLibrary, IsUuidLibrary, IsUuid, to_upper}
use go_diskfs.Gpt.Names.{encode, encode_rune, decode, decode-encode}
use go_diskfs.Gpt.Partition
use go_diskfs.Gpt.Partition.{Partition, init_entry, own_guid, set_sizes}
use go_diskfs.Gpt.Partition.RoundTrip
use go_diskfs.Gpt.Partition.RoundTrip.{partition_from_bytes-to_bytes}
use go_diskfs.Gpt.Partition.Ready.{IsReady}
use go_diskfs.Gpt.Partition.Init.{
  IsPlaced, Consistent, init_entry-init_entry, init_entry-Consistent,
}
use go_diskfs.Gpt.Table.{
  Table, init_table, repair, resize, total_size, part_sectors, partition_array_sector,
  not_initialized,
}
use go_diskfs.Gpt.ProtectiveMbr.{
  read_protective_mbr, generate_protective_mbr, read_protective_mbr-generate,
}
use go_diskfs.Gpt.Entries.{to_partition_array_bytes, read_partition_array_bytes}
use go_diskfs.Gpt.Entries.RoundTrip.{
  with_sectors, read_partition_array_bytes-to_partition_array_bytes,
}
use go_diskfs.Gpt.Header.{to_gpt_bytes, read_gpt_header}
use go_diskfs.Gpt.Header.RoundTrip as HeaderRoundTrip
use go_diskfs.Gpt.Header.RoundTrip.{found, read_gpt_header-to_gpt_bytes}
use go_diskfs.Gpt.Disk.{Randoms, write, read, verify}
use go_diskfs.Gpt.Disk.Writing.{IsStorable}
use go_diskfs.Gpt.Disk.RoundTrip.{read-write_gpt}
use go_diskfs.Gpt.Disk.Verify.{IsWhole, verify-write}
use go_diskfs.Base.{replicate, panic}
use go_diskfs.Base.Bytes.{bytes_equal, slice_at}
use go_diskfs.Base.Storage.{memory, memory-IsDisk}
use go_diskfs.Gpt.Names.{encode_rune}
use go_diskfs.Gpt.Partition.{read_contents, physical_of, logical_of, get_start, get_size}
use go_diskfs.Gpt.Partition.Contents.{gpt_read_contents_lem}
use go_diskfs.Gpt.Tests.Samples.{
  text, plain, plain-IsUuidLibrary, guid_bytes, guid_bytes-IsUuid, linux_bytes, data_partition,
  data_partition-IsWritable, data_partition-IsReady,
}

partition_from_bytes-to_bytes_example :
    (b : List ℕ) × (Partition.to_bytes plain data_partition ≡ ok b)
    × (length b ≡ 128)
    × (Partition.from_bytes plain b 512 4096
        ≡ ok (some (record data_partition { size = 0; physical_sector_size = 4096 })))
partition_from_bytes-to_bytes_example =
    partition_from_bytes-to_bytes plain data_partition 512 4096 plain-IsUuidLibrary
      data_partition-IsWritable

-- The same with its size, but no place and no GUID.
abbrev unplaced : Partition
unplaced = record data_partition { start = 0; end = 0; guid = [] }

unplaced-IsPlaced : IsPlaced 512 3 unplaced
unplaced-IsPlaced = record {
  start_fits = omega arith;
  end_fits = omega arith;
  size_fits = omega arith;
  starting_fits = omega arith;
}

placed_first : init_entry plain guid_bytes 512 3 unplaced ≡ ok data_partition
unfolding init_entry own_guid set_sizes bytes_equal
placed_first = refl

init_entry-init_entry_example :
    init_entry plain linux_bytes 512 9 data_partition ≡ ok data_partition
init_entry-init_entry_example =
    init_entry-init_entry plain guid_bytes linux_bytes 512 3 9 unplaced data_partition
      plain-IsUuidLibrary guid_bytes-IsUuid unplaced-IsPlaced placed_first

init_entry-Consistent_example :
    ((g : List ℕ) × IsUuid g × (data_partition.guid ≡ to_upper (text g)))
    × (data_partition.type ≡ unplaced.type)
    × (3 ≤ 5)
    × (1536 ≡ suc (5 - 3) * 512 % 2 ^ 64)
init_entry-Consistent_example =
    init_entry-Consistent plain guid_bytes 512 3 unplaced data_partition plain-IsUuidLibrary
      guid_bytes-IsUuid unplaced-IsPlaced data_partition-IsWritable.used placed_first

decode-encode_example : decode (encode (97 ∷ 0x1F600 ∷ [])) ≡ 97 ∷ 0x1F600 ∷ []
decode-encode_example = decode-encode (97 ∷ 0x1F600 ∷ []) (
  (omega arith, omega arith, inl (omega arith)),
  ((omega arith, omega arith, inr (omega arith)), tt),
)

-- The second and third sectors of a disk in memory.
abbrev two_sectors : Partition
two_sectors = record data_partition { start = 1; end = 2; size = 1024 }

gpt_read_contents_lem_example : read_contents memory 2 two_sectors (replicate 1536 7) ≡ (
  slice_at (get_start two_sectors) (get_size two_sectors) (replicate 1536 7),
  ok (get_size two_sectors),
)
unfolding physical_of get_start logical_of get_size
gpt_read_contents_lem_example =
    gpt_read_contents_lem memory memory-IsDisk (replicate 1536 7) two_sectors 1 2 (omega arith) refl
      (omega arith) (omega arith)
