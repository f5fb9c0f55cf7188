-- ===== src/Fat32/FileSystem.antt =====
-- filesystem/fat32/fat32.go: the filesystem's head on disk, and allocateSpace.
pub mod Allocate
pub mod NewChain
pub mod Shrink
use go_diskfs.Base.{
  ℕ, zero, suc, ◌+◌, ◌-◌, ◌*◌, ◌/◌, ◌%◌, ◌^◌, Bool, true, false, Option, none, some, List, [], ◌∷◌,
  ◌++◌, Result, ok, err, panic, unfinished, ◌>>=◌, ◌>>◌, guard, map_err, get_elem?, get_or, length,
  set, drop, ltb, leb, ◌==◌, if◌then◌else◌,
}
use go_diskfs.Base.Storage.{Storage}
use go_diskfs.Fat32.Table
use go_diskfs.Fat32.Table.{Table}
use go_diskfs.Fat32.Chain
use go_diskfs.Fat32.Chain.{get_cluster_list, find_free, extend, unmark}
use go_diskfs.Fat32.Dos20Bpb.{sector_size_512}
use go_diskfs.Fat32.BootSector
use go_diskfs.Fat32.BootSector.{MsDosBootSector}
use go_diskfs.Fat32.Fsis
use go_diskfs.Fat32.Fsis.{FsInformationSector}

module _ (s : Storage) where
  open s use {Disk, IoError, writable, write_at}

  -- type FileSystem struct, with the disk behind its backend.
  pub record FileSystem : Type 0 where
    pub boot_sector : MsDosBootSector
    pub fsis : FsInformationSector
    pub table : Table
    pub data_start : ℕ
    pub bytes_per_cluster : ℕ
    pub size : ℕ
    pub start : ℕ
    pub disk : Disk

  pub data Error : Type 0 where
    io : IoError → Error
    boot_sector_bytes : BootSector.Error → Error
    short_write : ℕ → Error
    cluster_list : Chain.Error → Error
    invalid_cluster_chain : ℕ → Error
    no_space : Error

  -- One WriteAt whose count the caller does not look at.
  unfoldable pub write_all : FileSystem → List ℕ → ℕ → FileSystem × Result Error (Unit {0})
  write_all fs b off =
      let (disk, count, e) = write_at b off fs.disk in
      (record fs { disk = disk }, elim e [ none ↦ ok tt | some x ↦ err (io x) ])

  -- One WriteAt of a sector, which fails on a short count.
  unfoldable pub write_sector : FileSystem → List ℕ → ℕ → FileSystem × Result Error (Unit {0})
  write_sector fs b off =
      let (disk, count, e) = write_at b off fs.disk in
      (
        record fs { disk = disk },
        elim e [
          | none ↦ if count == sector_size_512 then ok tt else err (short_write count)
          | some x ↦ err (io x)
        ],
      )

  -- The second step is taken if the first one succeeded.
  unfoldable pub and_then :
      FileSystem × Result Error (Unit {0})
      → (FileSystem → FileSystem × Result Error (Unit {0}))
      → FileSystem × Result Error (Unit {0})
  and_then (fs, ok u) next = next fs
  and_then (fs, err e) next = (fs, err e)
  and_then (fs, panic) next = (fs, panic)
  and_then (fs, unfinished) next = (fs, unfinished)

  unfoldable pub if_writable :
      FileSystem
      → (FileSystem → FileSystem × Result Error (Unit {0}))
      → FileSystem × Result Error (Unit {0})
  if_writable fs next = elim (writable fs.disk) [ none ↦ next fs | some x ↦ (fs, err (io x)) ]

  -- writeBootSector
  unfoldable pub write_boot_sector : FileSystem → FileSystem × Result Error (Unit {0})
  unfolding if_writable and_then write_sector
  write_boot_sector fs =
      let backup = fs.boot_sector.bios_parameter_block.backup_boot_sector in
      if_writable fs (λ fs. elim (BootSector.to_bytes fs.boot_sector) [
        | err e ↦ (fs, err (boot_sector_bytes e))
        | panic ↦ (fs, panic)
        | unfinished ↦ (fs, unfinished)
        | ok b ↦ and_then (write_sector fs b fs.start) (λ fs.
            if ltb 0 backup
            then write_sector fs b (backup * sector_size_512 + fs.start)
            else (fs, ok tt))
      ])

  -- The place of the information sector: a product of two uint16, so modulo 2^16.
  unfoldable pub fsis_primary : FileSystem → ℕ
  fsis_primary fs =
      fs.boot_sector.bios_parameter_block.fs_information_sector * sector_size_512 % 2 ^ 16

  -- writeFsis: the sector, and its backup if there is a backup boot sector.
  unfoldable pub write_backup_fsis : FileSystem → FileSystem × Result Error (Unit {0})
  unfolding write_all
  write_backup_fsis fs =
      let backup = fs.boot_sector.bios_parameter_block.backup_boot_sector in
      if ltb 0 backup
      then write_all fs (Fsis.to_bytes fs.fsis) ((backup + 1) % 2 ^ 16 * sector_size_512 + fs.start)
      else (fs, ok tt)

  unfoldable pub write_both_fsis : FileSystem → FileSystem × Result Error (Unit {0})
  unfolding and_then write_all fsis_primary
  write_both_fsis fs =
      and_then (write_all fs (Fsis.to_bytes fs.fsis) (fsis_primary fs + fs.start)) write_backup_fsis

  unfoldable pub write_fsis : FileSystem → FileSystem × Result Error (Unit {0})
  unfolding if_writable
  write_fsis fs = if_writable fs write_both_fsis

  unfoldable pub fat_primary_start : FileSystem → ℕ
  fat_primary_start fs =
      fs.boot_sector.bios_parameter_block.dos331_bpb.dos20_bpb.reserved_sectors * sector_size_512

  -- writeFat. The table's bytes are made before the file is asked for.
  unfoldable pub write_backup_fat : List ℕ → FileSystem → FileSystem × Result Error (Unit {0})
  unfolding write_all fat_primary_start
  write_backup_fat b fs = write_all fs b (fat_primary_start fs + fs.table.size + fs.start)

  unfoldable pub write_both_fats : List ℕ → FileSystem → FileSystem × Result Error (Unit {0})
  unfolding and_then write_all fat_primary_start
  write_both_fats b fs =
      and_then (write_all fs b (fat_primary_start fs + fs.start)) (write_backup_fat b)

  unfoldable pub write_fat_bytes :
      FileSystem → Result ⊥ (List ℕ) → FileSystem × Result Error (Unit {0})
  unfolding if_writable
  write_fat_bytes fs (err e) = absurd e
  write_fat_bytes fs panic = (fs, panic)
  write_fat_bytes fs unfinished = (fs, unfinished)
  write_fat_bytes fs (ok b) = if_writable fs (write_both_fats b)

  unfoldable pub write_fat : FileSystem → FileSystem × Result Error (Unit {0})
  write_fat fs = write_fat_bytes fs (Table.bytes fs.table)

  -- What allocateSpace has done to the structures in memory when it comes to the writes, or how it
  -- returned before.
  pub data Plan : Type 0 where
    done : Result Error (List ℕ) → Plan
    failed : Table → Error → Plan
    write : Table → ℕ → List ℕ → Plan

  -- The number of clusters for `size` bytes.
  unfoldable pub cluster_count : ℕ → ℕ → ℕ
  cluster_count size bytes_per_cluster =
      size / bytes_per_cluster + (if ltb 0 (size % bytes_per_cluster) then 1 else 0)

  -- `extraClusterCount > 0`: `clusters` is the chain so far and `previous` its last cluster, or 0.
  unfoldable pub grow_by : Table → List ℕ → ℕ → ℕ → Result Chain.Error (List ℕ) → Plan
  unfolding extend
  grow_by t clusters previous extra (err e) = done (err (cluster_list e))
  grow_by t clusters previous extra panic = done panic
  grow_by t clusters previous extra unfinished = done unfinished
  grow_by t clusters previous extra (ok allocated) =
      if ltb (length allocated) extra
      then done (err no_space)
      else write (record t { clusters = extend previous allocated t.eoc_marker t.clusters })
          (get_or allocated (length allocated - 1) 0) (clusters ++ allocated)

  unfoldable pub grow : Table → List ℕ → ℕ → ℕ → Plan
  unfolding find_free grow_by
  grow t clusters previous extra =
      grow_by t clusters previous extra (find_free (t.max_cluster - 2) 2 extra t.clusters [])

  -- `extraClusterCount < 0`: `to_remove` is its absolute value, and `-` stops at 0 as `lastAlloc`.
  unfoldable pub shrink : Table → FsInformationSector → List ℕ → ℕ → Plan
  unfolding unmark
  shrink t fsis clusters to_remove =
      let last_alloc = length clusters - to_remove - 1 in
      elim (get_elem? clusters last_alloc) [
        | none ↦ done panic
        | some last_cluster ↦
            if ltb t.max_cluster last_alloc
            then done (err (invalid_cluster_chain last_alloc))
            else if ltb t.max_cluster last_cluster
            then done (err (invalid_cluster_chain last_alloc))
            else let (t', last, bad) =
                unmark (drop (last_alloc + 1) clusters)
                  (record t { clusters = set t.clusters last_cluster t.eoc_marker })
                  fsis.last_allocated_cluster in
              elim bad [
                | some cl ↦ failed t' (invalid_cluster_chain cl)
                | none ↦ write t' last clusters
              ]
      ]

  unfoldable pub change : Table → FsInformationSector → List ℕ → ℕ → ℕ → Plan
  change t fsis clusters previous count =
      if count == length clusters
      then done (ok clusters)
      else if ltb (length clusters) count
      then grow t clusters previous (count - length clusters)
      else shrink t fsis clusters (length clusters - count)

  -- An existing chain, or the error of reading it.
  unfoldable pub plan_chain : Table → FsInformationSector → ℕ → Result Chain.Error (List ℕ) → Plan
  plan_chain t fsis count (err e) = done (err (cluster_list e))
  plan_chain t fsis count panic = done panic
  plan_chain t fsis count unfinished = done unfinished
  plan_chain t fsis count (ok clusters) =
      change t fsis clusters (get_or clusters (length clusters - 1) 0) count

  unfoldable pub plan : Table → FsInformationSector → ℕ → ℕ → ℕ → Plan
  plan t fsis bytes_per_cluster size previous =
      let count = cluster_count size bytes_per_cluster in
      if ltb t.max_cluster previous
      then done (err (invalid_cluster_chain previous))
      else if bytes_per_cluster == 0
      then done panic
      else if ltb previous 2
      then change t fsis [] previous count
      else plan_chain t fsis count (get_cluster_list t previous)

  -- The writes at the end of allocateSpace, and the value returned after them.
  unfoldable pub finish :
      FileSystem × Result Error (Unit {0}) → List ℕ → FileSystem × Result Error (List ℕ)
  finish (fs, r) clusters = (fs, r >>= λ _. ok clusters)

  -- How a plan is carried out: the return before the writes, or the writes.
  unfoldable pub carry_out : FileSystem → Plan → FileSystem × Result Error (List ℕ)
  unfolding finish and_then
  carry_out fs (done r) = (fs, r)
  carry_out fs (failed t e) = (record fs { table = t }, err e)
  carry_out fs (write t last clusters) =
      finish
        (and_then
          (write_fsis
            (record fs { table = t; fsis = record fs.fsis { last_allocated_cluster = last } }))
          write_fat)
        clusters

  -- allocateSpace
  unfoldable pub allocate_space : FileSystem → ℕ → ℕ → FileSystem × Result Error (List ℕ)
  allocate_space fs size previous =
      carry_out fs (plan fs.table fs.fsis fs.bytes_per_cluster size previous)
