-- ===== src/Fat32/Chain/Link.antt =====
-- What the search for free clusters finds, and the chains that linking them makes.
use Prim.Native.Nat.{min}
use go_diskfs.Base.{
  ℕ, zero, suc, ◌+◌, ◌-◌, ◌≤◌, ◌<◌, ◌≡◌, ◌≢◌, refl, sym, ◌∙◌, true, false, some, List, [], ◌∷◌,
  ◌++◌, ok, get_elem?, get_or, set, length, All, ltb, ◌==◌, arith, if◌then◌else◌, Bool-cases, inl,
  inr, length-append, length-set, get_elem?-set_self, get_elem?-set_ne, get_elem?_inside,
}
use go_diskfs.Base.Bits.{bit_and-le}
use go_diskfs.Fat32.Table.{is_eoc}
use go_diskfs.Fat32.Chain.{find_free, link}
use go_diskfs.Base.Distinct.{Fresh, Distinct, All-append, All-map, Distinct-append}
use go_diskfs.Fat32.Chain.Walk.{Chain, last, step}

-- A number below the marker's bits is no marker.
pub not-eoc : (n : ℕ) → n < 0xFFFFFF8 → is_eoc n ≡ false
unfolding is_eoc
not-eoc n h = ground (arith, bit_and-le n 0xFFFFFF8)

-- A cluster of the data area that the table has as free.
abbrev pub IsFree : List ℕ → ℕ → ℕ → Type 0
IsFree clusters hi x = (2 ≤ x) × (x < hi) × (get_elem? clusters x ≡ some 0)

-- The free clusters among the n from i on.
unfoldable pub count_free : ℕ → ℕ → List ℕ → ℕ
count_free zero i clusters = 0
count_free (suc n) i clusters =
    (if get_or clusters i 1 == 0 then 1 else 0) + count_free n (i + 1) clusters

get_or_of : (clusters : List ℕ) (i v : ℕ) → get_elem? clusters i ≡ some v → get_or clusters i 1 ≡ v
get_or_of [] i v e = cc
get_or_of (x ∷ xs) zero v e = cc
get_or_of (x ∷ xs) (suc i) v e = get_or_of xs i v e

-- The clusters that the search returns.
pub record Finds (clusters : List ℕ) (hi size : ℕ) (r : List ℕ) : Type 0 where
  pub distinct : Distinct r
  pub free : All (IsFree clusters hi) r
  pub count : length r ≡ size

module _ (n i extra : ℕ) (clusters acc : List ℕ) where
  find_full : ltb (length acc) extra ≡ false → find_free (suc n) i extra clusters acc ≡ ok acc
  unfolding find_free
  find_full h = rw h

  find_next :
      (v : ℕ)
      → ltb (length acc) extra ≡ true
      → get_elem? clusters i ≡ some v
      → find_free (suc n) i extra clusters acc
        ≡ find_free n (i + 1) extra clusters (if v == 0 then acc ++ (i ∷ []) else acc)
  unfolding find_free
  find_next v room at = rw (room, at)

pub find_free-Finds :
    (n i extra : ℕ) (clusters acc : List ℕ)
    → i + n ≤ length clusters
    → 2 ≤ i
    → length acc ≤ extra
    → Distinct acc
    → All (IsFree clusters i) acc
    → (r : List ℕ) × (find_free n i extra clusters acc ≡ ok r)
      × Finds clusters (i + n) (min extra (length acc + count_free n i clusters)) r
unfolding count_free
find_free-Finds zero i extra clusters acc slots two fits d f = (
  acc,
  unfold find_free in refl,
  record { distinct = d; free = let e : i + 0 ≡ i = omega arith in rw e f; count = omega arith },
)
find_free-Finds (suc n) i extra clusters acc slots two fits d f =
    elim (Bool-cases (ltb (length acc) extra)) [
      | inr full ↦ (
        acc,
        find_full n i extra clusters acc full,
        record {
          distinct = d;
          free =
              All-map (IsFree clusters i) (IsFree clusters (i + suc n)) acc
                (λ x (a, b, c). (a, omega arith, c)) f;
          count = ground arith;
        },
      )
      | inl room ↦
          let (v, at) = get_elem?_inside clusters i (omega arith) in
          elim (Bool-cases (v == 0)) [
            | inl free ↦
                let e : v ≡ 0 = ground arith in
                let (r, found, w) =
                  find_free-Finds n (i + 1) extra clusters (acc ++ (i ∷ [])) (omega arith)
                    (omega arith) (ground (arith, length-append acc (i ∷ [])))
                    (Distinct-append acc (i ∷ []) d (tt, tt)
                      (
                        All-map (IsFree clusters i) (λ x. x ≢ i) acc (λ x (a, b, c). omega arith) f,
                        tt,
                      ))
                    (All-append (IsFree clusters (i + 1)) acc (i ∷ [])
                      (All-map (IsFree clusters i) (IsFree clusters (i + 1)) acc
                        (λ x (a, b, c). (a, omega arith, c)) f)
                      ((two, omega arith, rw e at at), tt)) in
                (
                  r,
                  find_next n i extra clusters acc v room at ∙ rw free found,
                  record {
                    distinct = w.distinct;
                    free = let e' : i + suc n ≡ i + 1 + n = omega arith in rw e' w.free;
                    count =
                        w.count
                        ∙ ground (arith, get_or_of clusters i v at, length-append acc (i ∷ []));
                  },
                )
            | inr taken ↦
                let (r, found, w) =
                  find_free-Finds n (i + 1) extra clusters acc (omega arith) (omega arith) fits d (
                    All-map (IsFree clusters i) (IsFree clusters (i + 1)) acc
                      (λ x (a, b, c). (a, omega arith, c)) f) in
                (
                  r,
                  find_next n i extra clusters acc v room at ∙ rw taken found,
                  record {
                    distinct = w.distinct;
                    free = let e' : i + suc n ≡ i + 1 + n = omega arith in rw e' w.free;
                    count = w.count ∙ ground (arith, get_or_of clusters i v at);
                  },
                )
          ]
    ]

pub length-link :
    (xs : List ℕ) (eoc : ℕ) (clusters : List ℕ) → length (link xs eoc clusters) ≡ length clusters
unfolding link
length-link [] eoc clusters = refl
length-link (a ∷ []) eoc clusters = length-set clusters a eoc
length-link (a ∷ b ∷ rest) eoc clusters =
    length-link (b ∷ rest) eoc (set clusters a b) ∙ length-set clusters a b

-- Linking changes the entries of the linked clusters only.
pub link-other :
    (xs : List ℕ) (eoc : ℕ) (clusters : List ℕ) (k : ℕ)
    → Fresh k xs
    → get_elem? (link xs eoc clusters) k ≡ get_elem? clusters k
unfolding link
link-other [] eoc clusters k f = refl
link-other (a ∷ []) eoc clusters k f = get_elem?-set_ne clusters a k eoc f.0
link-other (a ∷ b ∷ rest) eoc clusters k f =
    link-other (b ∷ rest) eoc (set clusters a b) k f.1 ∙ get_elem?-set_ne clusters a k b f.0

-- The last cluster of a list.
abbrev pub end : List ℕ → ℕ
end [] = 0
end (x ∷ []) = x
end (x ∷ y ∷ rest) = end (y ∷ rest)

pub end-get_or : (xs : List ℕ) → end xs ≡ get_or xs (length xs - 1) 0
end-get_or [] = refl
end-get_or (x ∷ []) = refl
end-get_or (x ∷ y ∷ rest) =
    let e : suc (suc (length rest)) - 1 ≡ suc (suc (length rest) - 1) = omega arith in
    rw e (end-get_or (y ∷ rest))

end-cons : (x : ℕ) (xs : List ℕ) → 0 < length xs → end (x ∷ xs) ≡ end xs
end-cons x [] h = elim h [ ]
end-cons x (y ∷ rest) h = refl

end-Fresh : (x : ℕ) (xs : List ℕ) → Fresh x xs → 0 < length xs → x ≢ end xs
end-Fresh x [] f h = elim h [ ]
end-Fresh x (y ∷ []) f h = λ e. f.0 (sym e)
end-Fresh x (y ∷ z ∷ rest) f h = end-Fresh x (z ∷ rest) f.1 (omega arith)

pub Chain-pos :
    {clusters : List ℕ} {max c : ℕ} {cs : List ℕ} → Chain clusters max c cs → 0 < length cs
Chain-pos (last e eoc) = omega arith
Chain-pos (step e more small two rest) = omega arith

abbrev pub InData : ℕ → ℕ → Type 0
InData max x = (2 ≤ x) × (x < max)

module _ (eoc max : ℕ) (marks : is_eoc eoc ≡ true) (small : max < 0xFFFFFF8) where
  -- Distinct data clusters become a chain, in their order.
  pub link-Chain :
      (a : ℕ) (xs : List ℕ) (clusters : List ℕ)
      → length clusters ≡ max + 1
      → Distinct (a ∷ xs)
      → All (InData max) (a ∷ xs)
      → Chain (link (a ∷ xs) eoc clusters) max a (a ∷ xs)
  unfolding link
  link-Chain a [] clusters slots d data_clusters =
      last (get_elem?-set_self clusters a eoc (omega (arith, data_clusters.0))) marks
  link-Chain a (b ∷ rest) clusters slots d data_clusters =
      step
        (link-other (b ∷ rest) eoc (set clusters a b) a d.0
          ∙ get_elem?-set_self clusters a b (omega (arith, data_clusters.0)))
        (not-eoc b (omega (arith, data_clusters.1.0))) (omega (arith, data_clusters.1.0))
        (data_clusters.0.0)
        (link-Chain b rest (set clusters a b) (length-set clusters a b ∙ slots) d.1 data_clusters.1)

  -- The chain's last cluster is linked on to a new chain that shares no cluster with it.
  module _ {clusters after : List ℕ} (p a : ℕ) (new : List ℕ) (low : a < max)
      (linked : get_elem? after p ≡ some a)
      (same : (k : ℕ) → k ≢ p → Fresh k new → get_elem? after k ≡ get_elem? clusters k)
      (rest : Chain after max a new) where
    pub Chain-on :
        {c : ℕ} {cs : List ℕ}
        → Chain clusters max c cs
        → p ≡ end cs
        → Distinct cs
        → All (λ x. 2 ≤ x) cs
        → All (λ x. Fresh x new) cs
        → Chain after max c (cs ++ new)
    Chain-on (last e eoc') at d two apart =
        step (rw at at linked) (not-eoc a (omega arith)) (omega arith) two.0 rest
    Chain-on (step {c} {n} {cs} e more small' two' tail) at d two apart =
        let at' : p ≡ end cs = at ∙ end-cons c cs (Chain-pos tail) in
        let ne : c ≢ p = λ h. end-Fresh c cs d.0 (Chain-pos tail) (h ∙ at') in
        step (same c ne apart.0 ∙ e) more small' two' (Chain-on tail at' d.1 two.1 apart.1)
