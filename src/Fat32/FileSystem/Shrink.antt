-- ===== src/Fat32/FileSystem/Shrink.antt =====
-- allocateSpace of filesystem/fat32/fat32.go for a file that needs fewer clusters than it has.
use go_diskfs.Base.{
  ℕ, suc, ◌+◌, ◌-◌, ◌≤◌, ◌<◌, ◌≡◌, ◌≢◌, ap, ◌∙◌, subst, false, Option, none, some, List, ◌∷◌, ok,
  get_elem?, set, take, drop, length, All, ltb, ◌==◌, arith, length-set, get_elem?-set_self,
  get_elem?-set_ne, get_elem?_inside,
}
use go_diskfs.Base.Storage.{Storage}
use go_diskfs.Base.Distinct.{Fresh, Distinct, All-map, length-Distinct}
use go_diskfs.Fat32.Table.{Table}
use go_diskfs.Fat32.Fsis.{FsInformationSector}
use go_diskfs.Fat32.Chain.{unmark}
use go_diskfs.Fat32.Chain.Walk.{Chain, ChainOf, Chain-Distinct, Chain-below}
use go_diskfs.Fat32.Chain.Grow.{IsUsable}
use go_diskfs.Fat32.Chain.Cut.{
  cleared, cleared_other, cleared_self, unmark-cleared, drop-get_elem?, All-drop, Distinct-drop,
  take-Fresh, cut-Chain,
}
use go_diskfs.Fat32.FileSystem.{
  FileSystem, write, allocate_space, plan, change, shrink, cluster_count,
}
use go_diskfs.Fat32.FileSystem.Allocate.{plan-chain, carry_out-write}

-- The entries after the chain `cs` was cut to its first suc i clusters: these are a chain, the others
-- are unused, and the entries of clusters that are not in the chain are as before.
pub record Cut (t : Table) (c i : ℕ) (cs after : List ℕ) : Type 0 where
  pub kept : Chain after t.max_cluster c (take (suc i) cs)
  pub dropped : All (λ x. get_elem? after x ≡ some t.unused_marker) (drop (suc i) cs)
  pub others : (k : ℕ) → Fresh k cs → get_elem? after k ≡ get_elem? t.clusters k

module _ (t : Table) (u : IsUsable t) (c i : ℕ) (cs : List ℕ) (low : c ≤ t.max_cluster)
    (chain : ChainOf t c cs) (inside : i < length cs) where
  below : All (λ x. x < suc t.max_cluster) cs
  below = Chain-below t.clusters t.max_cluster low chain

  module _ (x : ℕ) (found : get_elem? cs i ≡ some x) where
    abbrev rest : List ℕ
    rest = drop (suc i) cs

    split : drop i cs ≡ x ∷ rest
    split = drop-get_elem? i x cs found

    distinct : Distinct (x ∷ rest)
    distinct =
        subst Distinct split (Distinct-drop i cs (Chain-Distinct t.clusters t.max_cluster chain))

    in_table : All (λ y. y < suc t.max_cluster) (x ∷ rest)
    in_table = subst (All (λ y. y < suc t.max_cluster)) split (All-drop _ i cs below)

    abbrev base : List ℕ
    base = set t.clusters x t.eoc_marker

    abbrev after : List ℕ
    after = cleared rest t.unused_marker base

    apart : (k : ℕ) → Fresh k (x ∷ rest) → get_elem? after k ≡ get_elem? t.clusters k
    apart k f =
        cleared_other rest t.unused_marker base k f.1
        ∙ get_elem?-set_ne t.clusters x k t.eoc_marker f.0

    marked : get_elem? after x ≡ some t.eoc_marker
    marked =
        cleared_other rest t.unused_marker base x distinct.0
        ∙ get_elem?-set_self t.clusters x t.eoc_marker (omega (arith, in_table.0, u.slots))

    after-Cut : Cut t c i cs after
    after-Cut = record {
      kept =
          cut-Chain i chain found
            (All-map (λ k. Fresh k (drop i cs)) (λ k. get_elem? after k ≡ get_elem? t.clusters k)
              (take i cs) (λ k f. apart k (subst (Fresh k) split f))
              (take-Fresh i cs (Chain-Distinct t.clusters t.max_cluster chain)))
            marked u.marks;
      dropped = cleared_self rest t.unused_marker base distinct.1 (
          All-map (λ y. y < suc t.max_cluster) (λ y. y < length base) rest
            (λ y h. omega (arith, length-set t.clusters x t.eoc_marker, u.slots)) in_table.1);
      others = λ k f. apart k (subst (Fresh k) split (All-drop (λ y. y ≢ k) i cs f));
    }

    -- The plan of shrinking to the first suc i clusters.
    shrunk :
        (s : Storage) (fsis : FsInformationSector) (count : ℕ)
        → count < length cs
        → length cs - (length cs - count) - 1 ≡ i
        → (at : ℕ) × (shrink s t fsis cs (length cs - count)
            ≡ write (record t { clusters = after }) at cs)
    unfolding shrink
    shrunk s fsis count less e =
        let cluster_low : ltb t.max_cluster x ≡ false = ground (arith, in_table.0) in
        let place = length cs - (length cs - count) - 1 in
        let index_low : ltb t.max_cluster place ≡ false = ground (
          arith,
          e,
          length-Distinct (suc t.max_cluster) cs below
              (Chain-Distinct t.clusters t.max_cluster chain),
        ) in
        let next : place + 1 ≡ suc i = omega arith in
        let (at, ran) =
          unmark-cleared rest (record t { clusters = base }) fsis.last_allocated_cluster
            (All-map (λ y. y < suc t.max_cluster) (λ y. y ≤ t.max_cluster) rest (λ y h. omega arith)
              in_table.1) in
        let unmarked : unmark (drop (place + 1) cs) (record t { clusters = base })
              fsis.last_allocated_cluster
            ≡ (record t { clusters = after }, at, none) =
          ap (λ z. unmark (drop z cs) (record t { clusters = base }) fsis.last_allocated_cluster)
            next
          ∙ ran in
        (
          at,
          rw (e, shrink)
              (rw found (
                rw index_low (
                  rw cluster_low
                    (rw unmarked (ap (λ (r : Table × ℕ × Option ℕ). write r.0 r.1 cs) unmarked))))),
        )

module _ (s : Storage) (fs : FileSystem s) (size c : ℕ) (cs : List ℕ) (u : IsUsable fs.table)
    (two : 2 ≤ fs.table.max_cluster) (pos : 0 < fs.bytes_per_cluster)
    (low : c ≤ fs.table.max_cluster) (chain : ChainOf fs.table c cs) (data_cluster : 2 ≤ c) where
  -- allocateSpace of a file that has the cluster chain `cs` and needs fewer clusters, where the table
  -- is usable and clusters are not of size 0: whether or not a write fails, the table in memory
  -- then has as the chain from c the first clusters of `cs`, as many as the size needs and at least
  -- one; the others of `cs` are unused, and the entries of all clusters that were not in `cs` are as
  -- before. The clusters returned, if no write fails, are nevertheless all of `cs`.
  pub allocate_space-Cut :
      cluster_count s size fs.bytes_per_cluster < length cs
      → (after : List ℕ) × ((allocate_space s fs size c).0.table
          ≡ record fs.table { clusters = after })
        × Cut fs.table c (cluster_count s size fs.bytes_per_cluster - 1) cs after
        × ((l : List ℕ) → (allocate_space s fs size c).1 ≡ ok l → l ≡ cs)
  unfolding allocate_space change
  allocate_space-Cut less =
      let t = fs.table in
      let count = cluster_count s size fs.bytes_per_cluster in
      let i = count - 1 in
      let inside : i < length cs = omega arith in
      let (x, found) = get_elem?_inside cs i inside in
      let index : length cs - (length cs - count) - 1 ≡ i = omega arith in
      let (at, ran) = shrunk t u c i cs low chain inside x found s fs.fsis count less index in
      let differ : (count == length cs) ≡ false = ground arith in
      let fewer : ltb (length cs) count ≡ false = ground arith in
      let planned : plan s t fs.fsis fs.bytes_per_cluster size c
          ≡ write (record t { clusters = after t u c i cs low chain inside x found }) at cs =
        plan-chain s t u two fs.fsis fs.bytes_per_cluster size pos low chain data_cluster
        ∙ rw (differ, change) (rw fewer ran) in
      let (table, returned) =
        carry_out-write s fs (record t { clusters = after t u c i cs low chain inside x found }) at
          cs in
      rw planned (
        after t u c i cs low chain inside x found,
        table,
        after-Cut t u c i cs low chain inside x found,
        returned,
      )
