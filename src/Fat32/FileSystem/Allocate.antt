-- ===== src/Fat32/FileSystem/Allocate.antt =====
-- What allocateSpace does to the allocation table.
use Prim.Native.Nat.{min}
use go_diskfs.Base.{
  ℕ, suc, ◌+◌, ◌-◌, ◌≤◌, ◌<◌, ◌≡◌, refl, sym, ap, ◌∙◌, subst, true, false, List, [], ◌∷◌, ◌++◌,
  Result, ok, err, panic, unfinished, length, All, ltb, ◌==◌, arith,
}
use go_diskfs.Base.Storage.{Storage}
use go_diskfs.Fat32.Table.{Table, bytes}
use go_diskfs.Fat32.Chain.{find_free, extend}
use go_diskfs.Base.Distinct.{Fresh, Distinct}
use go_diskfs.Fat32.Chain.Walk.{ChainOf, Chain-below, get_cluster_list-Chain}
use go_diskfs.Fat32.Chain.Link.{
  IsFree, Finds, count_free, find_free-Finds, end, end-get_or, Chain-pos,
}
use go_diskfs.Fat32.Chain.Grow.{IsUsable, Extended, extend-Extended, entry_ne_zero, end-Fresh_free}
use go_diskfs.Fat32.Fsis
use go_diskfs.Fat32.Fsis.{FsInformationSector}
use go_diskfs.Fat32.FileSystem
use go_diskfs.Fat32.FileSystem.{
  FileSystem, and_then, if_writable, write_all, write_backup_fsis, write_both_fsis, write_fsis,
  fsis_primary, fat_primary_start, write_backup_fat, write_both_fats, write_fat_bytes, write_fat,
  finish, carry_out, allocate_space,
}
use go_diskfs.Fat32.FileSystem.{
  Plan, done, write, grow, grow_by, plan_chain, change, plan, cluster_count, no_space,
}

end_below : (n : ℕ) (cs : List ℕ) → All (λ x. x < n) cs → 0 < length cs → end cs < n
end_below n [] all h = elim h [ ]
end_below n (x ∷ []) all h = all.0
end_below n (x ∷ y ∷ rest) all h = end_below n (y ∷ rest) all.1 (omega arith)

end_low :
    {t : Table} {c : ℕ} {cs : List ℕ}
    → IsUsable t
    → ChainOf t c cs
    → c ≤ t.max_cluster
    → end cs ≤ t.max_cluster
end_low {t} {cs} u chain low = omega (
  arith,
  end_below (suc t.max_cluster) cs (Chain-below t.clusters t.max_cluster low chain)
      (Chain-pos chain),
)

-- The free clusters of the data area.
abbrev pub free_clusters : Table → ℕ
free_clusters t = count_free (t.max_cluster - 2) 2 t.clusters

module _ (s : Storage) (t : Table) (u : IsUsable t) (two : 2 ≤ t.max_cluster) where
  -- What the search finds: the first free clusters, as many as are wanted and there.
  abbrev Found : ℕ → List ℕ → Type 0
  Found extra r = Finds t.clusters t.max_cluster (min extra (free_clusters t)) r

  search :
      (extra : ℕ)
      → (r : List ℕ) × (find_free (t.max_cluster - 2) 2 extra t.clusters [] ≡ ok r) × Found extra r
  search extra =
      let (r, e, f) =
        find_free-Finds (t.max_cluster - 2) 2 extra t.clusters [] (omega (arith, u.slots))
          (omega arith) (omega arith) tt tt in
      (
        r,
        e,
        record {
          distinct = f.distinct;
          free =
              let e' : 2 + (t.max_cluster - 2) ≡ t.max_cluster = omega arith in
              subst (λ hi. All (IsFree t.clusters hi) r) e' f.free;
          count = f.count ∙ omega arith;
        },
      )

  -- The outcome of growing: the free clusters `a ∷ new` extend the chain, in memory.
  pub record Grown (clusters : List ℕ) (previous extra : ℕ) (p : Plan s) : Type 0 where
    pub a : ℕ
    pub new : List ℕ
    pub after : List ℕ
    pub is_write : p ≡ write (record t { clusters = after }) (end (a ∷ new)) (clusters ++ (a ∷ new))
    pub distinct : Distinct (a ∷ new)
    pub free : All (IsFree t.clusters t.max_cluster) (a ∷ new)
    pub count : length (a ∷ new) ≡ extra
    pub extended : Extended t previous a new after

  pub grow_some :
      (clusters : List ℕ) (previous extra : ℕ)
      → 0 < extra
      → extra ≤ free_clusters t
      → previous ≤ t.max_cluster
      → ((ys : List ℕ) → All (IsFree t.clusters t.max_cluster) ys → Fresh previous ys)
      → Grown clusters previous extra (grow s t clusters previous extra)
  unfolding grow
  grow_some clusters previous extra pos fits low apart =
      let (r, e, f) = search extra in rw e (go r f.distinct f.free (f.count ∙ omega arith))
    where
      go :
          (r : List ℕ)
          → Distinct r
          → All (IsFree t.clusters t.max_cluster) r
          → length r ≡ extra
          → Grown clusters previous extra (grow_by s t clusters previous extra (ok r))
      go [] d free count = absurd (omega arith)
      go (a ∷ new) d free count =
          let enough : ltb (length (a ∷ new)) extra ≡ false = ground arith in
          rw enough (record {
            a = a;
            new = new;
            after = extend previous (a ∷ new) t.eoc_marker t.clusters;
            is_write =
                ap
                  (λ (e : ℕ).
                    write
                      (record t { clusters = extend previous (a ∷ new) t.eoc_marker t.clusters }) e
                      (clusters ++ (a ∷ new)))
                  (sym (end-get_or (a ∷ new)));
            distinct = d;
            free = free;
            count = count;
            extended = extend-Extended t u a new d free previous low (apart (a ∷ new) free);
          })

  pub grow_none :
      (clusters : List ℕ) (previous extra : ℕ)
      → free_clusters t < extra
      → grow s t clusters previous extra ≡ done (err no_space)
  unfolding grow
  grow_none clusters previous extra h =
      let (r, e, f) = search extra in
      let few : ltb (length r) extra ≡ true = ground (arith, f.count) in rw (e, few)

  module _ (fsis : FsInformationSector) (bytes_per_cluster size : ℕ)
      (pos : 0 < bytes_per_cluster) where
    abbrev wanted : ℕ
    wanted = cluster_count s size bytes_per_cluster

    -- The plan for a chain of the table that is to have more clusters.
    pub plan-chain :
        {c : ℕ} {cs : List ℕ}
        → c ≤ t.max_cluster
        → ChainOf t c cs
        → 2 ≤ c
        → plan s t fsis bytes_per_cluster size c ≡ change s t fsis cs (end cs) wanted
    unfolding plan plan_chain
    plan-chain {c} {cs} low chain data_cluster =
        let inside : ltb t.max_cluster c ≡ false = ground arith in
        let divides : (bytes_per_cluster == 0) ≡ false = ground arith in
        let high : ltb c 2 ≡ false = ground arith in
        let (v, at, used) = entry_ne_zero t u chain in
        rw (
          inside,
          divides,
          high,
          (get_cluster_list-Chain t c cs v low at used).0.1 chain,
          end-get_or cs,
        )

    pub plan-new : plan s t fsis bytes_per_cluster size 0 ≡ change s t fsis [] 0 wanted
    unfolding plan
    plan-new =
        let divides : (bytes_per_cluster == 0) ≡ false = ground arith in
        let inside : ltb t.max_cluster 0 ≡ false = ground arith in rw (divides, inside)

    pub change-more :
        (cs : List ℕ) (previous : ℕ)
        → length cs < wanted
        → change s t fsis cs previous wanted ≡ grow s t cs previous (wanted - length cs)
    unfolding change
    change-more cs previous h =
        let differ : (wanted == length cs) ≡ false = ground arith in
        let less : ltb (length cs) wanted ≡ true = ground arith in rw (differ, less)

    pub change-same :
        (cs : List ℕ) (previous : ℕ)
        → wanted ≡ length cs
        → change s t fsis cs previous wanted ≡ done (ok cs)
    unfolding change
    change-same cs previous h = let same : (wanted == length cs) ≡ true = ground arith in rw same

-- The writes leave the structures in memory as they are.
module _ (s : Storage) where
  abbrev Keeps : Table → FileSystem s × Result (FileSystem.Error s) (Unit {0}) → Type 0
  Keeps t x = x.0.table ≡ t

  and_then-Keeps :
      (t : Table) (x : FileSystem s × Result (FileSystem.Error s) (Unit {0}))
      (next : FileSystem s → FileSystem s × Result (FileSystem.Error s) (Unit {0}))
      → Keeps t x
      → ((fs : FileSystem s) → fs.table ≡ t → Keeps t (next fs))
      → Keeps t (and_then s x next)
  unfolding and_then
  and_then-Keeps t (fs, ok v) next h k = k fs h
  and_then-Keeps t (fs, err e) next h k = h
  and_then-Keeps t (fs, panic) next h k = h
  and_then-Keeps t (fs, unfinished) next h k = h

  if_writable-Keeps :
      (t : Table) (fs : FileSystem s)
      (next : FileSystem s → FileSystem s × Result (FileSystem.Error s) (Unit {0}))
      → fs.table ≡ t
      → Keeps t (next fs)
      → Keeps t (if_writable s fs next)
  unfolding if_writable
  if_writable-Keeps t fs next h k = ground arith

  write_all-Keeps :
      (t : Table) (fs : FileSystem s) (b : List ℕ) (off : ℕ)
      → fs.table ≡ t
      → Keeps t (write_all s fs b off)
  unfolding write_all
  write_all-Keeps t fs b off h = h

  write_fsis-Keeps : (t : Table) (fs : FileSystem s) → fs.table ≡ t → Keeps t (write_fsis s fs)
  unfolding write_fsis write_both_fsis write_backup_fsis
  write_fsis-Keeps t fs h = if_writable-Keeps t fs (write_both_fsis s) h (
      and_then-Keeps t (write_all s fs (Fsis.to_bytes fs.fsis) (fsis_primary s fs + fs.start))
        (write_backup_fsis s) h (λ fs' h'. ground arith))

  write_fat-Keeps : (t : Table) (fs : FileSystem s) → fs.table ≡ t → Keeps t (write_fat s fs)
  unfolding write_fat
  write_fat-Keeps t fs h = go (bytes fs.table)
    where
      go : (r : Result ⊥ (List ℕ)) → Keeps t (write_fat_bytes s fs r)
      go (ok b) =
          unfold write_fat_bytes write_both_fats write_backup_fat in
          if_writable-Keeps t fs (write_both_fats s b) h (
            and_then-Keeps t (write_all s fs b (fat_primary_start s fs + fs.start))
              (write_backup_fat s b) h (λ fs' h'. h'))
      go (err e) = absurd e
      go panic = unfold write_fat_bytes in h
      go unfinished = unfold write_fat_bytes in h

  -- What a plan with writes leaves: its table, also where a write fails, and its clusters where
  -- none does.
  pub carry_out-write :
      (fs : FileSystem s) (t : Table) (last : ℕ) (clusters : List ℕ)
      → ((carry_out s fs (write t last clusters)).0.table ≡ t)
        × ((l : List ℕ) → (carry_out s fs (write t last clusters)).1 ≡ ok l → l ≡ clusters)
  unfolding carry_out
  carry_out-write fs t last clusters = (
    finish-table written (
        and_then-Keeps t (write_fsis s fs') (write_fat s) (write_fsis-Keeps t fs' refl)
          (write_fat-Keeps t)),
    finish-ok written,
  )
    where
      fs' : FileSystem s
      fs' = record fs { table = t; fsis = record fs.fsis { last_allocated_cluster = last } }

      written : FileSystem s × Result (FileSystem.Error s) (Unit {0})
      written = and_then s (write_fsis s fs') (write_fat s)

      finish-table :
          (x : FileSystem s × Result (FileSystem.Error s) (Unit {0}))
          → Keeps t x
          → (finish s x clusters).0.table ≡ t
      finish-table (fs, r) h = unfold finish in h

      finish-ok :
          (x : FileSystem s × Result (FileSystem.Error s) (Unit {0})) (l : List ℕ)
          → (finish s x clusters).1 ≡ ok l
          → l ≡ clusters
      finish-ok (fs, ok v) l e = unfold finish in cc
      finish-ok (fs, err x) l e = unfold finish in cc
      finish-ok (fs, panic) l e = unfold finish in cc
      finish-ok (fs, unfinished) l e = unfold finish in cc

  -- What extending a chain comes to: the table in memory, and the clusters returned where every
  -- write succeeds.
  pub record Allocates (fs : FileSystem s) (cs : List ℕ) (previous extra : ℕ)
      (out : FileSystem s × Result (FileSystem.Error s) (List ℕ)) : Type 0 where
    pub a : ℕ
    pub new : List ℕ
    pub after : List ℕ
    pub table : out.0.table ≡ record fs.table { clusters = after }
    pub returned : (l : List ℕ) → out.1 ≡ ok l → l ≡ cs ++ (a ∷ new)
    pub distinct : Distinct (a ∷ new)
    pub free : All (IsFree fs.table.clusters fs.table.max_cluster) (a ∷ new)
    pub count : length (a ∷ new) ≡ extra
    pub extended : Extended fs.table previous a new after

  pub Allocates-carry_out :
      (fs : FileSystem s) (u : IsUsable fs.table) (two : 2 ≤ fs.table.max_cluster) (cs : List ℕ)
      (previous extra : ℕ) (p : Plan s)
      → Grown s fs.table u two cs previous extra p
      → Allocates fs cs previous extra (carry_out s fs p)
  Allocates-carry_out fs u two cs previous extra p g =
      let t = record fs.table { clusters = g.after } in
      let w = carry_out-write fs t (end (g.a ∷ g.new)) (cs ++ (g.a ∷ g.new)) in
      rw g.is_write (record {
        a = g.a;
        new = g.new;
        after = g.after;
        table = w.0;
        returned = w.1;
        distinct = g.distinct;
        free = g.free;
        count = g.count;
        extended = g.extended;
      })

  module _ (fs : FileSystem s) (size c : ℕ) (cs : List ℕ) (u : IsUsable fs.table)
      (pos : 0 < fs.bytes_per_cluster) (low : c ≤ fs.table.max_cluster)
      (chain : ChainOf fs.table c cs) (data_cluster : 2 ≤ c)
      (more : length cs < cluster_count s size fs.bytes_per_cluster) where
    planned :
        plan s fs.table fs.fsis fs.bytes_per_cluster size c
        ≡ grow s fs.table cs (end cs) (cluster_count s size fs.bytes_per_cluster - length cs)
    planned =
        plan-chain s fs.table u (omega arith) fs.fsis fs.bytes_per_cluster size pos low chain
          data_cluster
        ∙ change-more s fs.table u (omega arith) fs.fsis fs.bytes_per_cluster size pos cs (end cs)
            more

    -- allocateSpace of a file that has the cluster chain `cs` and needs more clusters, where the
    -- table is usable. With enough free clusters it takes exactly those that are missing: they are
    -- distinct and were free, the chain from c goes on with them in the table, and every entry of
    -- another cluster is as before; the clusters returned, if no write fails, are the chain. With
    -- fewer it returns the error and changes nothing.
    pub allocate_space-Allocates :
        (cluster_count s size fs.bytes_per_cluster - length cs ≤ free_clusters fs.table
          → Allocates fs cs
              (end cs)
              (cluster_count s size fs.bytes_per_cluster - length cs)
              (allocate_space s fs size c))
        × (free_clusters fs.table < cluster_count s size fs.bytes_per_cluster - length cs
            → allocate_space s fs size c ≡ (fs, err no_space))
    unfolding allocate_space
    allocate_space-Allocates = (
      λ enough. rw planned (
          Allocates-carry_out fs u (omega arith) cs (end cs) _ _ (
            grow_some s fs.table u (omega arith) cs (end cs)
              (cluster_count s size fs.bytes_per_cluster - length cs) (omega arith) enough
              (end_low u chain low) (λ ys free. end-Fresh_free fs.table u ys chain free))),
      λ few. rw planned (
          ap (carry_out s fs) (
            grow_none s fs.table u (omega arith) cs (end cs)
              (cluster_count s size fs.bytes_per_cluster - length cs) few)
          ∙ unfold carry_out in refl),
    )
