-- ===== src/Gpt/Entries.antt =====
-- partition/gpt/table.go: the array of partition entries.
pub mod RoundTrip
use go_diskfs.Base.{
  ℕ, zero, suc, ◌+◌, ◌-◌, ◌*◌, ◌/◌, ◌%◌, ◌^◌, Bool, true, false, ◌&&◌, Option, none, some, List, [],
  ◌∷◌, Result, ok, err, panic, unfinished, ◌>>=◌, map_err, length, take, drop, replicate, ltb, ◌==◌,
  if◌then◌else◌,
}
use go_diskfs.Base.Bytes.{put_at}
use go_diskfs.Gpt.Uuid.{add64, UuidLibrary}
use go_diskfs.Gpt.Partition
use go_diskfs.Gpt.Partition.{Partition, init_entry, calculated_size}
use go_diskfs.Gpt.Table.{Table}

pub data Error : Type 0 where
  initialize : ℕ → Partition.Error → Error
  prepare : ℕ → Partition.Error → Error
  read_entry : ℕ → Partition.Error → Error

-- The first loop of toPartitionArrayBytes from partition i on, where uuid.NewRandom gives
-- `random i`.
unfoldable pub init_partitions :
    UuidLibrary → (ℕ → List ℕ) → ℕ → ℕ → ℕ → List Partition → Result Error (List Partition)
unfolding init_entry
init_partitions u random blocksize nextstart i [] = ok []
init_partitions u random blocksize nextstart i (p ∷ ps) =
    map_err (initialize i) (init_entry u (random i) blocksize nextstart p) >>= λ p'.
    init_partitions u random blocksize (add64 p'.end 1) (i + 1) ps >>= λ ps'. ok (p' ∷ ps')

-- The second loop: each partition's bytes in its slot.
unfoldable pub put_entries : UuidLibrary → ℕ → ℕ → List Partition → List ℕ → Result Error (List ℕ)
unfolding Partition.to_bytes
put_entries u entry_size i [] bpart = ok bpart
put_entries u entry_size i (p ∷ ps) bpart = map_err (prepare i) (Partition.to_bytes u p) >>= λ b2.
    let slot_start = i * entry_size in
    (if ltb (length bpart) (slot_start + entry_size)
      then panic
      else put_entries u entry_size (i + 1) ps (put_at slot_start (take entry_size b2) bpart))

-- toPartitionArrayBytes, with the table's partitions as it leaves them. The start given to the
-- first partition is the sector size in bytes.
unfoldable pub to_partition_array_bytes :
    UuidLibrary → (ℕ → List ℕ) → Table → Result Error (Table × List ℕ)
unfolding init_partitions put_entries
to_partition_array_bytes u random t =
    init_partitions u random t.logical_sector_size t.logical_sector_size 0 t.partitions >>= λ ps.
    let part_size = t.partition_entry_size * (t.partition_array_size % 2 ^ 32) % 2 ^ 32 in
    put_entries u t.partition_entry_size 0 ps (replicate part_size 0) >>= λ bpart.
    ok (record t { partitions = ps }, bpart)

-- The loop of readPartitionArrayBytes. A round takes entry_size bytes, and is the last one where
-- that is 0, for partitionFromBytes takes no empty slice; so as many rounds as bytes are enough.
unfoldable pub read_entries :
    ℕ → UuidLibrary → ℕ → ℕ → ℕ → ℕ → List ℕ → Result Error (List Partition)
unfolding Partition.from_bytes
read_entries zero u i entry_size lss pss c = unfinished
read_entries (suc fuel) u i entry_size lss pss c =
    let rest = read_entries fuel u (i + 1) entry_size lss pss (drop entry_size c) in
    if ltb (length c) entry_size
    then ok []
    else (map_err (read_entry i) (Partition.from_bytes u (take entry_size c) lss pss) >>= λ found.
        elim found [
          | none ↦ rest
          | some p ↦ rest >>= λ ps. ok (record p { size = calculated_size lss p.start p.end } ∷ ps)
        ])

unfoldable pub read_partition_array_bytes :
    UuidLibrary → List ℕ → ℕ → ℕ → ℕ → Result Error (List Partition)
unfolding read_entries
read_partition_array_bytes u b entry_size lss pss =
    read_entries (suc (length b)) u 0 entry_size lss pss b
