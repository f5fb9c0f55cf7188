-- ===== src/Fat32/Chain.antt =====
-- Cluster chains in the allocation table: getClusterList and the steps of allocateSpace in
-- filesystem/fat32/fat32.go. Indices into `clusters` are within it whenever the table has
-- max_cluster + 1 slots, as the table that is read has; a read outside is a panic.
pub mod Walk
pub mod Link
pub mod Grow
pub mod Cut
use go_diskfs.Base.{
  ℕ, zero, suc, ◌+◌, ◌-◌, ◌%◌, ◌^◌, Bool, true, false, Option, none, some, List, [], ◌∷◌, ◌++◌,
  Result, ok, err, panic, unfinished, get_elem?, length, set, drop, ltb, ◌==◌, if◌then◌else◌,
}
use go_diskfs.Fat32.Table.{Table, is_eoc}

pub data Error : Type 0 where
  invalid_start_cluster : ℕ → Error
  invalid_cluster_chain : ℕ → Error

-- One round of getClusterList's loop, with the clusters up to `cluster` in `list` and the entry of
-- `cluster` in the table. `more` is the rest of the loop.
unfoldable pub chain_step :
    Table → ℕ → List ℕ → (ℕ → List ℕ → Result Error (List ℕ)) → Option ℕ → Result Error (List ℕ)
unfolding is_eoc
chain_step t cluster list more none = panic
chain_step t cluster list more (some new_cluster) =
    let rest = more new_cluster list in
    if is_eoc new_cluster
    then ok list
    else if ltb t.max_cluster new_cluster
    then err (invalid_cluster_chain new_cluster)
    else if ltb cluster 2
    then err (invalid_cluster_chain cluster)
    else rest

-- The source's loop has no bound: on a cyclic chain it does not end.
unfoldable pub chain_loop : ℕ → Table → ℕ → List ℕ → Result Error (List ℕ)
unfolding chain_step
chain_loop zero t cluster list = unfinished
chain_loop (suc fuel) t cluster list =
    chain_step t cluster (list ++ (cluster ∷ [])) (chain_loop fuel t) (get_elem? t.clusters cluster)

-- Each cluster of a chain that ends is in it once, so `max_cluster + 2` rounds are enough.
unfoldable pub start_chain : Table → ℕ → Option ℕ → Result Error (List ℕ)
unfolding chain_loop
start_chain t first_cluster none = panic
start_chain t first_cluster (some v) =
    if v == 0
    then err (invalid_start_cluster first_cluster)
    else chain_loop (t.max_cluster + 2) t first_cluster []

unfoldable pub get_cluster_list : Table → ℕ → Result Error (List ℕ)
unfolding start_chain
get_cluster_list t first_cluster =
    if ltb t.max_cluster first_cluster
    then err (invalid_start_cluster first_cluster)
    else start_chain t first_cluster (get_elem? t.clusters first_cluster)

-- One round of the search for free clusters, at cluster i with its entry. `more` is the rest.
unfoldable pub find_step :
    (List ℕ → Result Error (List ℕ)) → ℕ → List ℕ → Option ℕ → Result Error (List ℕ)
find_step more i allocated none = panic
find_step more i allocated (some v) = more (if v == 0 then allocated ++ (i ∷ []) else allocated)

-- The search with n rounds left, at cluster i.
unfoldable pub find_free : ℕ → ℕ → ℕ → List ℕ → List ℕ → Result Error (List ℕ)
unfolding find_step
find_free zero i extra clusters allocated = ok allocated
find_free (suc n) i extra clusters allocated =
    let rest = find_step (find_free n (i + 1) extra clusters) i allocated (get_elem? clusters i) in
    if ltb (length allocated) extra then rest else ok allocated

-- Each allocated cluster is linked to the next one, and the last is marked.
unfoldable pub link : List ℕ → ℕ → List ℕ → List ℕ
link [] eoc clusters = clusters
link (a ∷ []) eoc clusters = set clusters a eoc
link (a ∷ b ∷ rest) eoc clusters = link (b ∷ rest) eoc (set clusters a b)

-- `fs.table.clusters[previous] = allocated[0]`, if there is a previous cluster, and the links.
unfoldable pub extend : ℕ → List ℕ → ℕ → List ℕ → List ℕ
unfolding link
extend previous [] eoc clusters = clusters
extend previous (a ∷ rest) eoc clusters =
    link (a ∷ rest) eoc (if ltb 0 previous then set clusters previous a else clusters)

-- The loop that unmarks the clusters beyond the end, with `last` of the information sector. It
-- stops with an error at a cluster that the table does not have, leaving those before it unmarked.
unfoldable pub unmark : List ℕ → Table → ℕ → Table × ℕ × Option ℕ
unmark [] t last = (t, last, none)
unmark (cl ∷ rest) t last = elim (ltb t.max_cluster cl) [
  | true ↦ (t, last, some cl)
  | false ↦
      unmark rest (record t { clusters = set t.clusters cl t.unused_marker })
        (if cl == last then (last + 2 ^ 32 - 1) % 2 ^ 32 else last)
]
