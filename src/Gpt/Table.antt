-- ===== src/Gpt/Table.antt =====
-- partition/gpt/table.go: the table and where its parts lie on the disk. Its partitions are
-- pointers that are not nil; sector sizes are not negative. `uint64(x)` of an int of 63 bits is x.
pub mod Layout
use go_diskfs.Base.{
  ℕ, zero, suc, ◌+◌, ◌-◌, ◌*◌, ◌/◌, ◌%◌, ◌^◌, Bool, true, false, ◌&&◌, List, [], ◌∷◌, Result, ok,
  err, panic, ◌==◌, if◌then◌else◌,
}
use go_diskfs.Base.Bytes.{bytes_equal}
use go_diskfs.Gpt.Uuid.{add64, sub64, mul64, UuidLibrary}
use go_diskfs.Gpt.Partition.{Partition, is_unused}

-- type Table struct
pub record Table : Type 0 where
  pub partitions : List Partition
  pub logical_sector_size : ℕ
  pub physical_sector_size : ℕ
  pub guid : List ℕ
  pub protective_mbr : Bool
  pub partition_array_size : ℕ
  pub partition_entry_size : ℕ
  pub partition_first_lba : ℕ
  pub partition_entry_checksum : ℕ
  pub primary_header : ℕ
  pub secondary_header : ℕ
  pub first_data_sector : ℕ
  pub last_data_sector : ℕ
  pub initialized : Bool

-- A field that is zero takes its default.
abbrev pub or_default : ℕ → ℕ → ℕ
or_default v d = if v == 0 then d else v

-- `uint64(t.partitionArraySize) * uint64(t.partitionEntrySize) / uint64(t.LogicalSectorSize)`, of
-- a sector size that is not zero.
unfoldable pub part_sectors : Table → ℕ
part_sectors t = mul64 t.partition_array_size t.partition_entry_size / t.logical_sector_size

-- initTable, where uuid.NewRandom gives `random`.
unfoldable pub init_table : UuidLibrary → List ℕ → ℕ → Table → Table
unfolding part_sectors
init_table u random size t =
    let t = record t {
      logical_sector_size = or_default t.logical_sector_size 512;
      physical_sector_size = or_default t.physical_sector_size 512;
      primary_header = or_default t.primary_header 1;
      guid = elim t.guid [ [] ↦ u.to_string random | c ∷ s ↦ t.guid ];
      partition_array_size = or_default t.partition_array_size 128;
      partition_entry_size = or_default t.partition_entry_size 128;
    } in
    let disk_sectors = size / t.logical_sector_size in
    let t = record t {
      first_data_sector = or_default t.first_data_sector (add64 2 (part_sectors t));
      secondary_header = or_default t.secondary_header (sub64 disk_sectors 1);
    } in
    record t {
      last_data_sector =
          or_default t.last_data_sector (sub64 (sub64 t.secondary_header (part_sectors t)) 1);
      initialized = true;
    }

-- `*p == *q`
unfoldable pub same_partition : Partition → Partition → Bool
unfolding bytes_equal
same_partition p q =
    p.start == q.start
    && (p.end == q.end
        && (p.size == q.size
            && (bytes_equal p.type q.type
                && (bytes_equal p.name q.name
                    && (bytes_equal p.guid q.guid
                        && (p.attributes == q.attributes
                            && (p.logical_sector_size == q.logical_sector_size
                                && p.physical_sector_size == q.physical_sector_size)))))))

-- comparePartitionArray, of two slices that are not nil.
unfoldable pub compare_partition_array : List Partition → List Partition → Bool
unfolding bytes_equal same_partition
compare_partition_array [] [] = true
compare_partition_array [] (q ∷ qs) = false
compare_partition_array (p ∷ ps) [] = false
compare_partition_array (p ∷ ps) (q ∷ qs) =
    (if is_unused p && is_unused q then true else same_partition p q)
    && compare_partition_array ps qs

bool_equal : Bool → Bool → Bool
bool_equal true b = b
bool_equal false true = false
bool_equal false false = true

-- Equal, of a table that is not nil.
unfoldable pub equal : Table → Table → Bool
unfolding bool_equal bytes_equal compare_partition_array
equal t t2 =
    (t.logical_sector_size == t2.logical_sector_size
      && (t.physical_sector_size == t2.physical_sector_size
          && (t.partition_entry_size == t2.partition_entry_size
              && (t.primary_header == t2.primary_header
                  && (t.secondary_header == t2.secondary_header
                      && (t.first_data_sector == t2.first_data_sector
                          && (t.last_data_sector == t2.last_data_sector
                              && (t.partition_array_size == t2.partition_array_size
                                  && (bool_equal t.protective_mbr t2.protective_mbr
                                      && bytes_equal t.guid t2.guid)))))))))
    && compare_partition_array t.partitions t2.partitions

-- partitionArraySector
unfoldable pub partition_array_sector : Bool → Table → ℕ
unfolding part_sectors
partition_array_sector true t = add64 t.primary_header 1
partition_array_sector false t = sub64 t.secondary_header (part_sectors t)

-- Repair
pub data RepairError : Type 0 where
  not_initialized : RepairError

unfoldable pub repair : ℕ → Table → Result RepairError Table
unfolding part_sectors
repair disk_size t =
    let secondary = sub64 (disk_size / t.logical_sector_size) 1 in
    if t.logical_sector_size == 0
    then err not_initialized
    else ok (record t {
      secondary_header = secondary;
      last_data_sector = sub64 (sub64 secondary (part_sectors t)) 1;
    })

-- TotalSize
unfoldable pub total_size : Table → ℕ
total_size t = mul64 (add64 t.secondary_header 1) t.logical_sector_size

-- Resize, which divides by the sector size.
unfoldable pub resize : ℕ → Table → Result ⊥ Table
unfolding part_sectors
resize size t =
    let secondary = sub64 (size / t.logical_sector_size) 1 in
    if t.logical_sector_size == 0
    then panic
    else ok (record t {
      secondary_header = secondary;
      last_data_sector = sub64 (sub64 secondary 1) (part_sectors t);
    })
