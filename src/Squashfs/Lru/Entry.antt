-- ===== src/Squashfs/Lru/Entry.antt =====
-- What the cache of filesystem/squashfs/lru.go promises: a list of the blocks' data, with the
-- block used last first; and the entries of a cache as the code keeps it.
use go_diskfs.Base.{
  ℕ, zero, suc, ◌-◌, ◌≡◌, ◌≢◌, refl, ap, ap₂, false, Option, none, some, List, [], ◌∷◌, ◌++◌, All,
  Result, ok, err, panic, unfinished, length, take, inl, inr, ◌==◌, if◌then◌else◌, Bool-cases,
  arith,
}
use go_diskfs.Base.Distinct.{Fresh, Distinct}
use go_diskfs.Squashfs.Lru.{Lru, new_block}
use go_diskfs.Squashfs.Lru.Links.{update_self, update_ne}
use go_diskfs.Squashfs.Lru.Index.{find, positions, Fresh-positions}
use go_diskfs.Squashfs.Lru.Order.{Holds}
use go_diskfs.Squashfs.Lru.Trim.{Same}

-- A cached block: its data is none until it has been fetched.
pub record Entry : Type 0 where
  pub pos : ℕ
  pub content : Option (List ℕ)
  pub size : ℕ

-- The entry for a position, and the list without it.
abbrev pub entry_at : ℕ → List Entry → Option Entry
entry_at p [] = none
entry_at p (e ∷ es) = if e.pos == p then some e else entry_at p es

abbrev pub without : ℕ → List Entry → List Entry
without p [] = []
without p (e ∷ es) = if e.pos == p then es else e ∷ without p es

-- The entry for a position, or an empty one, comes to the front of the list; a new one takes the
-- place of the one that was not used for the longest time.
abbrev pub use_entry : ℕ → ℕ → List Entry → Entry × List Entry
use_entry max p es = elim (entry_at p es) [
  | some e ↦ (e, without p es)
  | none ↦ (record { pos = p; content = none; size = 0 }, take (max - 1) es)
]

-- The data of the entry in front, or that of fetch.
abbrev pub read_entry : {E : Type 0} → Entry → Result E (List ℕ × ℕ) → Entry × Result E (List ℕ × ℕ)
read_entry e fetch = elim e.content [
  | some d ↦ (e, ok (d, e.size))
  | none ↦ elim fetch [
    | ok (d, n) ↦ (record e { content = some d; size = n }, ok (d, n))
    | err x ↦ (e, err x)
    | panic ↦ (e, panic)
    | unfinished ↦ (e, unfinished)
  ]
]

abbrev pub get_entry :
    {E : Type 0} → ℕ → ℕ → Result E (List ℕ × ℕ) → List Entry → List Entry × Result E (List ℕ × ℕ)
get_entry max p fetch es =
    let (e, rest) = use_entry max p es in let (e', got) = read_entry e fetch in (e' ∷ rest, got)

-- The entries of a cache.
abbrev pub entry : Lru → ℕ → Entry
entry l a = record { pos = l.pos a; content = l.content a; size = l.size a }

abbrev pub entries : Lru → List ℕ → List Entry
entries l [] = []
entries l (a ∷ bs) = entry l a ∷ entries l bs

-- A well-formed cache with these entries.
abbrev pub Represents : Lru → List Entry → Type 0
Represents l es = (bs : List ℕ) × Holds l bs × (entries l bs ≡ es)

pub entries-take : (l : Lru) (n : ℕ) (bs : List ℕ) → entries l (take n bs) ≡ take n (entries l bs)
entries-take l zero bs = refl
entries-take l (suc n) [] = refl
entries-take l (suc n) (b ∷ bs) = ap (λ t. entry l b ∷ t) (entries-take l n bs)

pub length-entries : (l : Lru) (bs : List ℕ) → length (entries l bs) ≡ length bs
length-entries l [] = refl
length-entries l (b ∷ bs) = ap suc (length-entries l bs)

-- The abstract operations read the list as the concrete ones do.
pub entry_at-find :
    (l : Lru) (p : ℕ) (bs : List ℕ)
    → entry_at p (entries l bs) ≡ elim (find l.pos p bs) [ some a ↦ some (entry l a) | none ↦ none ]
entry_at-find l p [] = refl
entry_at-find l p (b ∷ bs) = elim (Bool-cases (l.pos b == p)) [
  | inl e ↦ rw e refl
  | inr e ↦ rw e (entry_at-find l p bs)
]

pub without-middle :
    (l : Lru) (p a : ℕ) (xs ys : List ℕ)
    → Distinct (positions l.pos (xs ++ (a ∷ ys)))
    → l.pos a ≡ p
    → without p (entries l (xs ++ (a ∷ ys))) ≡ entries l (xs ++ ys)
without-middle l p a [] ys d at = ground arith
without-middle l p a (x ∷ xs) ys (f, d) at =
    let skip : (l.pos x == p) ≡ false =
      let ne = Fresh-positions l.pos (l.pos x) xs a ys f in ground arith in
    rw skip (ap (λ t. entry l x ∷ t) (without-middle l p a xs ys d at))

-- Two caches with the same data at the blocks of the list have the same entries.
pub entries_eq :
    (l l' : Lru) (bs : List ℕ) → All (λ b. entry l b ≡ entry l' b) bs → entries l bs ≡ entries l' bs
entries_eq l l' [] all = refl
entries_eq l l' (b ∷ bs) (h, all) = ap₂ ◌∷◌ h (entries_eq l l' bs all)

entry-new_block : (l : Lru) (p : ℕ) (b : ℕ) → b ≢ l.fresh → entry (new_block l p) b ≡ entry l b
unfolding new_block
entry-new_block l p b ne =
    rw (update_ne l.pos l.fresh p b ne)
      (rw (update_ne l.content l.fresh none b ne) (rw (update_ne l.size l.fresh 0 b ne) refl))

pub entry-Same : (l l' : Lru) (b : ℕ) → Same l l' → entry l' b ≡ entry l b
entry-Same l l' b s i = record { pos = s.pos i b; content = s.content i b; size = s.size i b }

pub entries-Same : (l l' : Lru) (bs : List ℕ) → Same l l' → entries l' bs ≡ entries l bs
entries-Same l l' [] s = refl
entries-Same l l' (b ∷ bs) s = ap₂ ◌∷◌ (entry-Same l l' b s) (entries-Same l l' bs s)

pub entries-new_block :
    (l : Lru) (p : ℕ) (bs : List ℕ) → Fresh l.fresh bs → entries (new_block l p) bs ≡ entries l bs
entries-new_block l p [] f = refl
entries-new_block l p (b ∷ bs) (h, f) =
    ap₂ ◌∷◌ (entry-new_block l p b h) (entries-new_block l p bs f)

pub entry-new_block_self :
    (l : Lru) (p : ℕ) → entry (new_block l p) l.fresh ≡ record { pos = p; content = none; size = 0 }
unfolding new_block
entry-new_block_self l p =
    rw (update_self l.pos l.fresh p)
      (rw (update_self l.content l.fresh none) (rw (update_self l.size l.fresh 0) refl))
