-- ===== src/Squashfs/Lru/Reachable.antt =====
-- The caches that newLRU, get and setMaxBlocks of filesystem/squashfs/lru.go make.
use go_diskfs.Base.{
  ok_injective, Option-cases, ℕ, suc, ◌-◌, ◌≤◌, ◌≡◌, refl, sym, ap, ◌∙◌, subst, some, List, [], ◌∷◌,
  Result, ok, length, take, length-take, inl, inr, ◌==◌, Bool-cases, arith,
}
use Prim.Native.Nat.{max}
use go_diskfs.Squashfs.Lru.{Lru, new_lru, get, set_max_blocks}
use go_diskfs.Squashfs.Lru.Entry.{Entry, entry_at, without, use_entry, get_entry, Represents}
use go_diskfs.Squashfs.Lru.Refinement.{
  length-Represents, get-get_entry, new_lru-Represents, set_max_blocks-take,
}

-- One call: of get, whatever its fetch returns and with an error of any type, or of setMaxBlocks.
pub data Step : Lru → Lru → Type 1 where
  get_step :
      {E : Type 0} {l l' : Lru} {r : Result E (List ℕ × ℕ)}
      → (p : ℕ) (fetch : Result E (List ℕ × ℕ)) → get l p fetch ≡ ok (l', r)
      → Step l l'
  set_step : {l l' : Lru} → (n : ℕ) → set_max_blocks l n ≡ ok l' → Step l l'

pub data Reachable : Lru → Type 1 where
  start : (n : ℕ) → Reachable (new_lru n)
  step : {l l' : Lru} → Reachable l → Step l l' → Reachable l'

-- A well-formed cache whose map holds no more blocks than its bound, or one where that is 0.
abbrev pub Bounded : Lru → Type 0
Bounded l = (es : List Entry) × Represents l es × (length l.cache ≤ max 1 l.max_blocks)

length-without :
    (p : ℕ) (e : Entry) (es : List Entry)
    → entry_at p es ≡ some e
    → length es ≡ suc (length (without p es))
length-without p e [] h = absurd (ground arith)
length-without p e (x ∷ es) h = elim (Bool-cases (x.pos == p)) [
  | inl b ↦ rw b refl
  | inr b ↦ rw b (ap suc (length-without p e es (rw b at h)))
]

length-get_entry :
    {E : Type 0} (n p : ℕ) (fetch : Result E (List ℕ × ℕ)) (es : List Entry)
    → length es ≤ max 1 n
    → length (get_entry n p fetch es).0 ≤ max 1 n
length-get_entry n p fetch es h = elim (Option-cases (entry_at p es)) [
  | inl (e, there) ↦ rw (there, use_entry) (omega (arith, length-without p e es there))
  | inr missing ↦ rw (missing, use_entry) (omega (arith, length-take (n - 1) es))
]

bounded : (l : Lru) (es : List Entry) → Represents l es → length es ≤ max 1 l.max_blocks → Bounded l
bounded l es rep h = (es, rep, omega (arith, length-Represents l es rep))

-- Whatever calls of get and setMaxBlocks are made of a new cache, and whatever the calls of fetch
-- return: the cache is well-formed, and its map holds at most as many blocks as its bound says, or
-- one where the bound is 0.
pub Reachable-Bounded : (l : Lru) → Reachable l → Bounded l
unfolding new_lru
Reachable-Bounded l (start n) = ([], new_lru-Represents n, omega arith)
Reachable-Bounded l (step {l = l₀} r (get_step p fetch ran)) =
    let (es, rep, fits) = Reachable-Bounded l₀ r in
    let (l', ran', rep', bound) = get-get_entry l₀ es p fetch rep in
    let same : l' ≡ l = ap (λ x. x.0) (ok_injective _ _ (sym ran' ∙ ran)) in
    let few : length es ≤ max 1 l₀.max_blocks = omega (arith, length-Represents l₀ es rep) in
    let fits' : length (get_entry l₀.max_blocks p fetch es).0 ≤ max 1 l'.max_blocks =
      rw bound (length-get_entry l₀.max_blocks p fetch es few) in
    subst Bounded same (bounded l' (get_entry l₀.max_blocks p fetch es).0 rep' fits')
Reachable-Bounded l (step {l = l₀} r (set_step n ran)) =
    let (es, rep, fits) = Reachable-Bounded l₀ r in
    let (l', ran', rep', bound) = set_max_blocks-take l₀ es n rep in
    let same : l' ≡ l = ok_injective l' l (sym ran' ∙ ran) in
    subst Bounded same (bounded l' (take n es) rep' (rw bound (omega (arith, length-take n es))))

-- Of a cache that such calls made get returns: no pointer it follows is nil, and its loop ends.
pub Reachable-get :
    {E : Type 0} (l : Lru) (p : ℕ) (fetch : Result E (List ℕ × ℕ))
    → Reachable l
    → (l' : Lru) × (r : Result E (List ℕ × ℕ)) × (get l p fetch ≡ ok (l', r))
Reachable-get l p fetch r =
    let (es, rep, fits) = Reachable-Bounded l r in
    let (l', ran, rep', bound) = get-get_entry l es p fetch rep in
    (l', (get_entry l.max_blocks p fetch es).1, ran)
