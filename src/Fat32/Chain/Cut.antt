-- ===== src/Fat32/Chain/Cut.antt =====
-- Cutting a chain off behind one of its clusters.
use go_diskfs.Base.{
  ℕ, zero, suc, ◌+◌, ◌-◌, ◌%◌, ◌^◌, ◌==◌, if◌then◌else◌, ◌≤◌, ◌<◌, ◌≡◌, ◌≢◌, refl, ap, ◌∙◌, true,
  false, none, some, List, [], ◌∷◌, get_elem?, set, take, drop, length, All, ltb, arith, length-set,
  get_elem?-set_self, get_elem?-set_ne,
}
use go_diskfs.Fat32.Table.{Table, is_eoc}
use go_diskfs.Fat32.Chain.{unmark}
use go_diskfs.Base.Distinct.{Fresh, Distinct, All-map}
use go_diskfs.Fat32.Chain.Walk.{Chain, last, step}

-- The entries of the clusters set to v.
abbrev pub cleared : List ℕ → ℕ → List ℕ → List ℕ
cleared [] v clusters = clusters
cleared (x ∷ xs) v clusters = cleared xs v (set clusters x v)

pub cleared_other :
    (xs : List ℕ) (v : ℕ) (clusters : List ℕ) (k : ℕ)
    → Fresh k xs
    → get_elem? (cleared xs v clusters) k ≡ get_elem? clusters k
cleared_other [] v clusters k f = refl
cleared_other (x ∷ xs) v clusters k f =
    cleared_other xs v (set clusters x v) k f.1 ∙ get_elem?-set_ne clusters x k v f.0

pub cleared_self :
    (xs : List ℕ) (v : ℕ) (clusters : List ℕ)
    → Distinct xs
    → All (λ x. x < length clusters) xs
    → All (λ x. get_elem? (cleared xs v clusters) x ≡ some v) xs
cleared_self [] v clusters d inside = tt
cleared_self (x ∷ xs) v clusters d inside = (
  cleared_other xs v (set clusters x v) x d.0 ∙ get_elem?-set_self clusters x v inside.0,
  cleared_self xs v (set clusters x v) d.1 (
      All-map (λ y. y < length clusters) (λ y. y < length (set clusters x v)) xs
        (λ y h. omega (arith, length-set clusters x v)) inside.1),
)

-- Unmarking clusters of the table ends without an error.
pub unmark-cleared :
    (xs : List ℕ) (t : Table) (found : ℕ)
    → All (λ x. x ≤ t.max_cluster) xs
    → (found' : ℕ) × (unmark xs t found
        ≡ (record t { clusters = cleared xs t.unused_marker t.clusters }, found', none))
unfolding unmark
unmark-cleared [] t found low = (found, refl)
unmark-cleared (x ∷ xs) t found low =
    let inside : ltb t.max_cluster x ≡ false = ground (arith, low.0) in
    let (found', e) =
      unmark-cleared xs (record t { clusters = set t.clusters x t.unused_marker })
        (if x == found then (found + 2 ^ 32 - 1) % 2 ^ 32 else found) low.1 in
    (found', rw (inside, unmark) e)

-- Where a list has an element, what is left from there begins with it.
pub drop-get_elem? :
    (i x : ℕ) (xs : List ℕ) → get_elem? xs i ≡ some x → drop i xs ≡ x ∷ drop (suc i) xs
drop-get_elem? i x [] h = absurd (ground arith)
drop-get_elem? zero x (y ∷ ys) h = ap (λ o. elim o [ none ↦ y ∷ ys | some z ↦ z ∷ ys ]) h
drop-get_elem? (suc i) x (y ∷ ys) h = drop-get_elem? i x ys h

pub All-drop {κ} : (P : ℕ → Type κ) (i : ℕ) (xs : List ℕ) → All P xs → All P (drop i xs)
All-drop P zero xs h = h
All-drop P (suc i) [] h = tt
All-drop P (suc i) (x ∷ xs) h = All-drop P i xs h.1

pub Distinct-drop : (i : ℕ) (xs : List ℕ) → Distinct xs → Distinct (drop i xs)
Distinct-drop zero xs h = h
Distinct-drop (suc i) [] h = tt
Distinct-drop (suc i) (x ∷ xs) h = Distinct-drop i xs h.1

-- What comes before is not among what comes after.
pub take-Fresh : (i : ℕ) (xs : List ℕ) → Distinct xs → All (λ k. Fresh k (drop i xs)) (take i xs)
take-Fresh zero xs d = tt
take-Fresh (suc i) [] d = tt
take-Fresh (suc i) (x ∷ xs) d = (All-drop (λ y. y ≢ x) i xs d.0, take-Fresh i xs d.1)

first_marked :
    (after : List ℕ) (c x v : ℕ)
    → some c ≡ some x
    → get_elem? after x ≡ some v
    → get_elem? after c ≡ some v
first_marked after c x v found marked = cc

-- The chain up to its cluster x, which has the marker now, where the entries before x are as before.
pub cut-Chain :
    (i : ℕ) {clusters after : List ℕ} {max c x v : ℕ} {cs : List ℕ}
    → Chain clusters max c cs
    → get_elem? cs i ≡ some x
    → All (λ k. get_elem? after k ≡ get_elem? clusters k) (take i cs)
    → get_elem? after x ≡ some v
    → is_eoc v ≡ true
    → Chain after max c (take (suc i) cs)
cut-Chain zero (last e eoc) found same marked marks = last (first_marked _ _ _ _ found marked) marks
cut-Chain zero (step e more small two rest) found same marked marks =
    last (first_marked _ _ _ _ found marked) marks
cut-Chain (suc i) (last e eoc) found same marked marks = absurd (ground arith)
cut-Chain (suc i) (step e more small two rest) found same marked marks =
    step (same.0 ∙ e) more small two (cut-Chain i rest found same.1 marked marks)
