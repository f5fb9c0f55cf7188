-- ===== src/Fat32/Chain/Grow.antt =====
-- Extending a chain by free clusters.
use go_diskfs.Base.{
  ℕ, zero, suc, ◌+◌, ◌≤◌, ◌<◌, ◌≡◌, ◌≢◌, refl, sym, ◌∙◌, true, some, List, [], ◌∷◌, ◌++◌, get_elem?,
  set, length, All, ltb, arith, length-set, get_elem?-set_self, ◌⊎◌, inl, inr, get_elem?-set_ne,
}
use go_diskfs.Fat32.Table.{Table, is_eoc}
use go_diskfs.Fat32.Chain.{link, extend}
use go_diskfs.Base.Distinct.{Fresh, Distinct, All-map}
use go_diskfs.Fat32.Chain.Walk.{Chain, last, step, ChainOf, Chain-Distinct}
use go_diskfs.Fat32.Chain.Link.{
  not-eoc, IsFree, end, Chain-pos, InData, link-Chain, link-other, length-link, Chain-on,
}

-- A table that chains can live in: a slot more than entries, entries too few to look like a marker,
-- the slots 0 and 1 free, and the marker one.
pub record IsUsable (t : Table) : Type 0 where
  pub slots : length t.clusters ≡ t.max_cluster + 1
  pub small : t.max_cluster < 0xFFFFFF8
  pub slot_zero : get_elem? t.clusters 0 ≡ some 0
  pub slot_one : get_elem? t.clusters 1 ≡ some 0
  pub marks : is_eoc t.eoc_marker ≡ true

end-data : (cs : List ℕ) → All (λ x. 2 ≤ x) cs → 0 < length cs → 2 ≤ end cs
end-data [] all h = elim h [ ]
end-data (x ∷ []) all h = all.0
end-data (x ∷ y ∷ rest) all h = end-data (y ∷ rest) all.1 (omega arith)

module _ (t : Table) (u : IsUsable t) where
  low_entry : (c v : ℕ) → c < 2 → get_elem? t.clusters c ≡ some v → v ≡ 0
  low_entry zero v h e = cc (u.slot_zero)
  low_entry (suc zero) v h e = cc (u.slot_one)
  low_entry (suc (suc c)) v h e = absurd (omega arith)

  Chain-two : {c : ℕ} {cs : List ℕ} → ChainOf t c cs → 2 ≤ c
  Chain-two (step e more small two rest) = two
  Chain-two (last {c} {v} e eoc) = two_of (dec c)
    where
      dec : (c : ℕ) → (2 ≤ c) ⊎ (c < 2)
      dec zero = inr (omega arith)
      dec (suc zero) = inr (omega arith)
      dec (suc (suc c)) = inl (omega arith)

      two_of : (2 ≤ c) ⊎ (c < 2) → 2 ≤ c
      two_of (inl h) = h
      two_of (inr h) = cc (low_entry c v h e, not-eoc 0 (omega arith))

  pub Chain-data : {c : ℕ} {cs : List ℕ} → ChainOf t c cs → All (λ x. 2 ≤ x) cs
  Chain-data (last e eoc) = (Chain-two (last e eoc), tt)
  Chain-data (step e more small two rest) = (two, Chain-data rest)

  -- A free cluster is in no chain.
  Chain-not-free :
      (y : ℕ) {c : ℕ} {cs : List ℕ} → get_elem? t.clusters y ≡ some 0 → ChainOf t c cs → Fresh y cs
  Chain-not-free y free (last {c} {v} e eoc) = ((λ h. cc (h, not-eoc 0 (omega arith))), tt)
  Chain-not-free y free (step {c} {n} e more small two rest) =
      ((λ h. absurd (zero_next h (Chain-two rest))), Chain-not-free y free rest)
    where
      zero_next : c ≡ y → 2 ≤ n → ⊥
      zero_next h two' = let e' : n ≡ 0 = cc h in omega arith

  pub end-Fresh_free :
      {c : ℕ} {cs : List ℕ} (ys : List ℕ)
      → ChainOf t c cs
      → All (IsFree t.clusters t.max_cluster) ys
      → Fresh (end cs) ys
  end-Fresh_free {cs} ys chain free =
      All-map (IsFree t.clusters t.max_cluster) (λ y. y ≢ end cs) ys
        (λ y (two, low, e) same.
          end_ne y cs (Chain-not-free y e chain) (Chain-pos chain) (sym same))
        free
    where
      end_ne : (y : ℕ) (xs : List ℕ) → Fresh y xs → 0 < length xs → end xs ≢ y
      end_ne y [] f h = elim h [ ]
      end_ne y (x ∷ []) f h = f.0
      end_ne y (x ∷ z ∷ xs) f h = end_ne y (z ∷ xs) f.1 (omega arith)

  pub entry_ne_zero :
      {c : ℕ} {cs : List ℕ} → ChainOf t c cs → (v : ℕ) × (get_elem? t.clusters c ≡ some v) × (v ≢ 0)
  entry_ne_zero (last {v} e eoc) = (v, e, λ h. cc (h, not-eoc 0 (omega arith)))
  entry_ne_zero (step {n} e more small two rest) =
      (n, e, λ h. absurd (omega (arith, Chain-two rest)))

-- The clusters after a chain that ends in `previous`, or none where that is 0, was extended by the
-- clusters a ∷ new: they follow the chain, and all entries but those of `previous`, where it is not
-- 0, and of the new clusters are as before.
pub record Extended (t : Table) (previous a : ℕ) (new clusters : List ℕ) : Type 0 where
  pub slots : length clusters ≡ length t.clusters
  pub tail : Chain clusters t.max_cluster a (a ∷ new)
  pub whole :
      (c : ℕ) (cs : List ℕ)
      → ChainOf t c cs
      → end cs ≡ previous
      → Chain clusters t.max_cluster c (cs ++ (a ∷ new))
  pub others :
      (k : ℕ)
      → (0 < previous → k ≢ previous)
      → Fresh k (a ∷ new)
      → get_elem? clusters k ≡ get_elem? t.clusters k

module _ (t : Table) (u : IsUsable t) (a : ℕ) (new : List ℕ) (d : Distinct (a ∷ new))
    (free : All (IsFree t.clusters t.max_cluster) (a ∷ new)) where
  data_clusters : All (InData t.max_cluster) (a ∷ new)
  data_clusters =
      All-map (IsFree t.clusters t.max_cluster) (InData t.max_cluster) (a ∷ new)
        (λ x (two, low, e). (two, low)) free

  start_new :
      (base : List ℕ)
      → length base ≡ length t.clusters
      → Chain (link (a ∷ new) t.eoc_marker base) t.max_cluster a (a ∷ new)
  start_new base size =
      link-Chain t.eoc_marker t.max_cluster u.marks u.small a new base (size ∙ u.slots) d
        data_clusters

  apart_from : {c : ℕ} {cs : List ℕ} → ChainOf t c cs → All (λ x. Fresh x (a ∷ new)) cs
  apart_from {cs} chain = flip cs (a ∷ new) (
      All-map (IsFree t.clusters t.max_cluster) (λ y. Fresh y cs) (a ∷ new)
        (λ y (two, low, e). Chain-not-free t u y e chain) free)
    where
      flip : (xs ys : List ℕ) → All (λ y. Fresh y xs) ys → All (λ x. Fresh x ys) xs
      flip [] ys h = tt
      flip (x ∷ xs) ys h = (
        All-map (λ y. Fresh y (x ∷ xs)) (λ y. y ≢ x) ys (λ y f e. f.0 (sym e)) h,
        flip xs ys (All-map (λ y. Fresh y (x ∷ xs)) (λ y. Fresh y xs) ys (λ y f. f.1) h),
      )

  pub extend-Extended :
      (previous : ℕ)
      → previous ≤ t.max_cluster
      → Fresh previous (a ∷ new)
      → Extended t previous a new (extend previous (a ∷ new) t.eoc_marker t.clusters)
  unfolding extend
  extend-Extended zero low apart = record {
    slots = length-link (a ∷ new) t.eoc_marker t.clusters;
    tail = start_new t.clusters refl;
    whole = λ c cs chain e.
        absurd (omega (arith, e, end-data cs (Chain-data t u chain) (Chain-pos chain)));
    others = λ k ne f. link-other (a ∷ new) t.eoc_marker t.clusters k f;
  }
  extend-Extended (suc p) low apart =
      let base = set t.clusters (suc p) a in
      let size : length base ≡ length t.clusters = length-set t.clusters (suc p) a in
      let same : (k : ℕ)
          → k ≢ suc p
          → Fresh k (a ∷ new)
          → get_elem? (link (a ∷ new) t.eoc_marker base) k ≡ get_elem? t.clusters k =
        λ k ne f.
          link-other (a ∷ new) t.eoc_marker base k f
          ∙ get_elem?-set_ne t.clusters (suc p) k a (λ e. ne (sym e)) in
      let pos : ltb 0 (suc p) ≡ true = ground arith in
      rw pos (record {
        slots = length-link (a ∷ new) t.eoc_marker base ∙ size;
        tail = start_new base size;
        whole = λ c cs chain e.
            Chain-on t.eoc_marker t.max_cluster u.marks u.small (suc p) a (a ∷ new)
              (data_clusters.0.1)
              (link-other (a ∷ new) t.eoc_marker base (suc p) apart
                ∙ get_elem?-set_self t.clusters (suc p) a (omega (arith, u.slots)))
              same (start_new base size) chain (sym e)
              (Chain-Distinct t.clusters t.max_cluster chain) (Chain-data t u chain)
              (apart_from chain);
        others = λ k ne f. same k (ne (omega arith)) f;
      })
