-- ===== src/Base/Distinct.antt =====
-- Lists of distinct numbers.
use Prim.Native.Nat.{ℕ, zero, suc, ◌≤◌, ◌<◌}
use mathlib.Core.Path.{◌≡◌, refl, sym}
use mathlib.Core.Logic.{◌≢◌, inl, inr}
use mathlib.Core.List.{List, [], ◌∷◌, ◌++◌}
use native.Mathlib.Omega.{arith}
use go_diskfs.Base.Tests.{◌==◌, if◌then◌else◌, Bool-cases}
use go_diskfs.Base.Lists.{length, All}

abbrev pub Fresh : ℕ → List ℕ → Type 0
Fresh k xs = All (λ x. x ≢ k) xs

abbrev pub Distinct : List ℕ → Type 0
Distinct [] = Unit {0}
Distinct (x ∷ xs) = Fresh x xs × Distinct xs

remove : ℕ → List ℕ → List ℕ
remove k [] = []
remove k (x ∷ xs) = if x == k then remove k xs else x ∷ remove k xs

remove-Fresh : (k : ℕ) (xs : List ℕ) → Fresh k xs → remove k xs ≡ xs
unfolding remove
remove-Fresh k [] f = refl
remove-Fresh k (x ∷ xs) (h, f) = ground (arith, remove-Fresh k xs f)

length-remove : (k : ℕ) (xs : List ℕ) → Distinct xs → length xs ≤ suc (length (remove k xs))
unfolding remove
length-remove k [] d = omega arith
length-remove k (x ∷ xs) (f, d) = elim (Bool-cases (x == k)) [
  | inl e ↦
      let e' : x ≡ k = ground arith in rw e (rw (remove-Fresh k xs (rw e' at f)) (omega arith))
  | inr e ↦ rw e (omega (arith, length-remove k xs d))
]

All-remove {κ} :
    (P Q : ℕ → Type κ) (k : ℕ) (xs : List ℕ)
    → ((x : ℕ) → x ≢ k → P x → Q x)
    → All P xs
    → All Q (remove k xs)
unfolding remove
All-remove P Q k [] h all = tt
All-remove P Q k (x ∷ xs) h (p, all) = elim (Bool-cases (x == k)) [
  | inl e ↦ rw e (All-remove P Q k xs h all)
  | inr e ↦ rw e (h x (ground arith) p, All-remove P Q k xs h all)
]

Distinct-remove : (k : ℕ) (xs : List ℕ) → Distinct xs → Distinct (remove k xs)
unfolding remove
Distinct-remove k [] d = tt
Distinct-remove k (x ∷ xs) (f, d) = elim (Bool-cases (x == k)) [
  | inl e ↦ rw e (Distinct-remove k xs d)
  | inr e ↦ rw e (All-remove (λ y. y ≢ x) (λ y. y ≢ x) k xs (λ y ne p. p) f, Distinct-remove k xs d)
]

-- Distinct numbers below n are n at most.
pub length-Distinct : (n : ℕ) (xs : List ℕ) → All (λ x. x < n) xs → Distinct xs → length xs ≤ n
length-Distinct zero [] b d = omega arith
length-Distinct zero (x ∷ xs) b d = absurd (omega (arith, b.0))
length-Distinct (suc n) xs b d = omega (
  arith,
  length-remove n xs d,
  length-Distinct n (remove n xs)
      (All-remove (λ x. x < suc n) (λ x. x < n) n xs (λ x ne h. omega arith) b)
      (Distinct-remove n xs d),
)

pub All-append {κ} : (P : ℕ → Type κ) (xs ys : List ℕ) → All P xs → All P ys → All P (xs ++ ys)
All-append P [] ys a b = b
All-append P (x ∷ xs) ys (h, a) b = (h, All-append P xs ys a b)

pub All-map {κ λ'} :
    (P : ℕ → Type κ) (Q : ℕ → Type λ') (xs : List ℕ) → ((x : ℕ) → P x → Q x) → All P xs → All Q xs
All-map P Q [] h a = tt
All-map P Q (x ∷ xs) h (p, a) = (h x p, All-map P Q xs h a)

pub Distinct-append :
    (xs ys : List ℕ) → Distinct xs → Distinct ys → All (λ y. Fresh y xs) ys → Distinct (xs ++ ys)
Distinct-append [] ys d e apart = e
Distinct-append (x ∷ xs) ys (f, d) e apart = (
  All-append (λ y. y ≢ x) xs ys f
      (All-map (λ y. Fresh y (x ∷ xs)) (λ y. y ≢ x) ys (λ y p q. p.0 (sym q)) apart),
  Distinct-append xs ys d e
      (All-map (λ y. Fresh y (x ∷ xs)) (λ y. Fresh y xs) ys (λ y p. p.1) apart),
)

pub Fresh-left : (k : ℕ) (xs ys : List ℕ) → Fresh k (xs ++ ys) → Fresh k xs
Fresh-left k [] ys f = tt
Fresh-left k (x ∷ xs) ys (h, f) = (h, Fresh-left k xs ys f)

pub Fresh-right : (k : ℕ) (xs ys : List ℕ) → Fresh k (xs ++ ys) → Fresh k ys
Fresh-right k [] ys f = f
Fresh-right k (x ∷ xs) ys (h, f) = Fresh-right k xs ys f
