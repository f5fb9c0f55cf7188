-- ===== src/Squashfs/Lru/Index.antt =====
-- The map of the cache from positions to blocks: looking up and deleting, and the block that stands
-- for a position in the circular list.
use go_diskfs.Base.{
  ℕ, suc, ◌≡◌, ◌≢◌, refl, sym, ap, ◌∙◌, Option, none, some, List, [], ◌∷◌, ◌++◌, length, inl, inr,
  ◌==◌, if◌then◌else◌, Bool-cases, arith,
}
use go_diskfs.Base.Distinct.{Fresh, Distinct}
use go_diskfs.Squashfs.Lru.{lookup, delete}

-- Each key stands once.
abbrev pub Single : List (ℕ × ℕ) → Type 0
Single [] = Unit {0}
Single ((j, a) ∷ m) = (lookup j m ≡ none) × Single m

pub lookup-delete_self : (k : ℕ) (m : List (ℕ × ℕ)) → lookup k (delete k m) ≡ none
lookup-delete_self k [] = refl
lookup-delete_self k ((j, a) ∷ m) = ground (arith, lookup-delete_self k m)

pub lookup-delete_ne : (j k : ℕ) (m : List (ℕ × ℕ)) → j ≢ k → lookup j (delete k m) ≡ lookup j m
lookup-delete_ne j k [] ne = refl
lookup-delete_ne j k ((i, a) ∷ m) ne = ground (arith, lookup-delete_ne j k m ne)

lookup-delete_absent :
    (j k : ℕ) (m : List (ℕ × ℕ)) → lookup j m ≡ none → lookup j (delete k m) ≡ none
lookup-delete_absent j k m h = elim (Bool-cases (j == k)) [
  | inl e ↦ let e' : k ≡ j = ground arith in rw e' (lookup-delete_self j m)
  | inr e ↦ lookup-delete_ne j k m (ground arith) ∙ h
]

pub Single-delete : (k : ℕ) (m : List (ℕ × ℕ)) → Single m → Single (delete k m)
Single-delete k [] s = tt
Single-delete k ((j, a) ∷ m) (h, s) = elim (Bool-cases (j == k)) [
  | inl e ↦ rw e (Single-delete k m s)
  | inr e ↦ rw e (lookup-delete_absent j k m h, Single-delete k m s)
]

pub length-delete_absent :
    (k : ℕ) (m : List (ℕ × ℕ)) → lookup k m ≡ none → length (delete k m) ≡ length m
length-delete_absent k [] h = refl
length-delete_absent k ((j, a) ∷ m) h = ground (arith, length-delete_absent k m)

pub length-delete :
    (k a : ℕ) (m : List (ℕ × ℕ))
    → Single m
    → lookup k m ≡ some a
    → length m ≡ suc (length (delete k m))
length-delete k a [] s h = absurd (ground arith)
length-delete k a ((j, b) ∷ m) (g, s) h = elim (Bool-cases (j == k)) [
  | inl e ↦
      let e' : k ≡ j = ground arith in rw e (omega (arith, length-delete_absent k m (rw e' g)))
  | inr e ↦ rw e (omega (arith, length-delete k a m s (rw e at h)))
]

-- The first block of the list for position k.
abbrev pub find : (ℕ → ℕ) → ℕ → List ℕ → Option ℕ
find pos k [] = none
find pos k (a ∷ bs) = if pos a == k then some a else find pos k bs

-- The positions of the blocks.
abbrev pub positions : (ℕ → ℕ) → List ℕ → List ℕ
positions pos [] = []
positions pos (a ∷ bs) = pos a ∷ positions pos bs

pub Fresh-positions :
    (pos : ℕ → ℕ) (k : ℕ) (xs : List ℕ) (a : ℕ) (ys : List ℕ)
    → Fresh k (positions pos (xs ++ (a ∷ ys)))
    → pos a ≢ k
Fresh-positions pos k [] a ys (h, t) = h
Fresh-positions pos k (x ∷ xs) a ys (h, t) = Fresh-positions pos k xs a ys t

-- Bringing a block to the front changes nothing of the finding.
pub find-front :
    (pos : ℕ → ℕ) (k : ℕ) (xs : List ℕ) (a : ℕ) (ys : List ℕ)
    → Distinct (positions pos (xs ++ (a ∷ ys)))
    → find pos k (xs ++ (a ∷ ys)) ≡ find pos k (a ∷ (xs ++ ys))
find-front pos k [] a ys d = refl
find-front pos k (x ∷ xs) a ys (f, d) =
    ground (arith, find-front pos k xs a ys d, Fresh-positions pos (pos x) xs a ys f)

-- A found block stands somewhere in the list, and has the position.
pub find_inside :
    (pos : ℕ → ℕ) (k a : ℕ) (bs : List ℕ)
    → find pos k bs ≡ some a
    → (pos a ≡ k) × ((xs : List ℕ) × (ys : List ℕ) × (bs ≡ xs ++ (a ∷ ys)))
find_inside pos k a [] h = absurd (ground arith)
find_inside pos k a (b ∷ bs) h = elim (Bool-cases (pos b == k)) [
  | inl e ↦
      let same : b ≡ a = ground arith in
      (rw (sym same) (ground arith), ([], bs, ap (λ c. c ∷ bs) same))
  | inr e ↦
      let (g, (xs, ys, split)) = find_inside pos k a bs (rw e at h) in
      (g, (b ∷ xs, ys, ap (λ t. b ∷ t) split))
]

pub find_missing :
    (pos : ℕ → ℕ) (k : ℕ) (bs : List ℕ) → find pos k bs ≡ none → Fresh k (positions pos bs)
find_missing pos k [] h = tt
find_missing pos k (b ∷ bs) h = elim (Bool-cases (pos b == k)) [
  | inl e ↦ absurd (ground arith)
  | inr e ↦ (ground arith, find_missing pos k bs (rw e at h))
]

pub find-Fresh :
    (pos : ℕ → ℕ) (k : ℕ) (bs : List ℕ) → Fresh k (positions pos bs) → find pos k bs ≡ none
find-Fresh pos k [] f = refl
find-Fresh pos k (b ∷ bs) (h, f) = ground (arith, find-Fresh pos k bs f)

-- Distinct positions stay so when a block goes, or goes to the front.
Fresh-middle :
    (pos : ℕ → ℕ) (k : ℕ) (xs : List ℕ) (a : ℕ) (ys : List ℕ)
    → Fresh k (positions pos (xs ++ (a ∷ ys)))
    → Fresh k (positions pos (xs ++ ys))
Fresh-middle pos k [] a ys (h, f) = f
Fresh-middle pos k (x ∷ xs) a ys (h, f) = (h, Fresh-middle pos k xs a ys f)

pub Distinct-front :
    (pos : ℕ → ℕ) (xs : List ℕ) (a : ℕ) (ys : List ℕ)
    → Distinct (positions pos (xs ++ (a ∷ ys)))
    → Distinct (positions pos (a ∷ (xs ++ ys)))
Distinct-front pos [] a ys d = d
Distinct-front pos (x ∷ xs) a ys (f, d) =
    let (g, e) = Distinct-front pos xs a ys d in
    (
      (λ p. Fresh-positions pos (pos x) xs a ys f (sym p), g),
      (Fresh-middle pos (pos x) xs a ys f, e),
    )
