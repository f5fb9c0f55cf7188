-- ===== src/Fat32/FileSystem/NewChain.antt =====
-- allocateSpace of filesystem/fat32/fat32.go for a file without clusters, and where nothing is to
-- change.
use go_diskfs.Base.{ℕ, ◌-◌, ◌≤◌, ◌<◌, ◌≡◌, ◌≢◌, refl, ap, ◌∙◌, List, [], length, ok, err, arith}
use go_diskfs.Base.Storage.{Storage}
use go_diskfs.Base.Distinct.{All-map}
use go_diskfs.Fat32.Chain.Walk.{ChainOf}
use go_diskfs.Fat32.Chain.Link.{IsFree, end}
use go_diskfs.Fat32.Chain.Grow.{IsUsable}
use go_diskfs.Fat32.FileSystem.{
  FileSystem, carry_out, allocate_space, plan, grow, cluster_count, no_space,
}
use go_diskfs.Fat32.FileSystem.Allocate.{
  free_clusters, grow_some, grow_none, plan-chain, plan-new, change-more, change-same, Allocates,
  Allocates-carry_out,
}

module _ (s : Storage) (fs : FileSystem s) (size : ℕ) (u : IsUsable fs.table)
    (two : 2 ≤ fs.table.max_cluster) (pos : 0 < fs.bytes_per_cluster) where
  planned :
      0 < cluster_count s size fs.bytes_per_cluster
      → plan s fs.table fs.fsis fs.bytes_per_cluster size 0
        ≡ grow s fs.table [] 0 (cluster_count s size fs.bytes_per_cluster - 0)
  planned some =
      plan-new s fs.table u two fs.fsis fs.bytes_per_cluster size pos
      ∙ change-more s fs.table u two fs.fsis fs.bytes_per_cluster size pos [] 0 some

  -- allocateSpace of a file that has no clusters and needs some, where the table is usable and
  -- numbers at least one data cluster, and clusters are not of size 0. With enough free clusters it
  -- makes a chain of exactly as many as the size needs, all distinct and free before, and leaves the
  -- entry of every other cluster, those of 0 and 1 too, as it was; the clusters returned, if no
  -- write fails, are that chain. With fewer it returns the error and changes nothing.
  pub allocate_space_new-Allocates :
      0 < cluster_count s size fs.bytes_per_cluster
      → (cluster_count s size fs.bytes_per_cluster - 0 ≤ free_clusters fs.table
          → Allocates s fs [] 0
              (cluster_count s size fs.bytes_per_cluster - 0)
              (allocate_space s fs size 0))
        × (free_clusters fs.table < cluster_count s size fs.bytes_per_cluster - 0
            → allocate_space s fs size 0 ≡ (fs, err no_space))
  unfolding allocate_space
  allocate_space_new-Allocates some = (
    λ enough. rw (planned some) (
        Allocates-carry_out s fs u two [] 0 _ _ (
          grow_some s fs.table u two [] 0 (cluster_count s size fs.bytes_per_cluster - 0)
            (omega arith) enough (omega arith)
            (λ ys free.
              All-map (IsFree fs.table.clusters fs.table.max_cluster) (λ y. y ≢ 0) ys
                (λ y (low, below, at) e. absurd (omega arith)) free))),
    λ few. rw (planned some) (
        ap (carry_out s fs)
          (grow_none s fs.table u two [] 0 (cluster_count s size fs.bytes_per_cluster - 0) few)
        ∙ unfold carry_out in refl),
  )

  -- allocateSpace of a file whose chain already has as many clusters as the size needs, where the
  -- table is usable and clusters are not of size 0, returns the chain, and neither changes the
  -- table nor writes to the disk.
  pub allocate_space-unchanged :
      (c : ℕ) (cs : List ℕ)
      → c ≤ fs.table.max_cluster
      → ChainOf fs.table c cs
      → 2 ≤ c
      → cluster_count s size fs.bytes_per_cluster ≡ length cs
      → allocate_space s fs size c ≡ (fs, ok cs)
  unfolding allocate_space
  allocate_space-unchanged c cs low chain data_cluster same =
      ap (carry_out s fs) (
        plan-chain s fs.table u two fs.fsis fs.bytes_per_cluster size pos low chain data_cluster
        ∙ change-same s fs.table u two fs.fsis fs.bytes_per_cluster size pos cs (end cs) same)
      ∙ unfold carry_out in refl
