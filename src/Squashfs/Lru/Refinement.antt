-- ===== src/Squashfs/Lru/Refinement.antt =====
-- The cache of filesystem/squashfs/lru.go does to its entries what Lru/Entry promises.
use go_diskfs.Base.{
  Option-cases, ℕ, ◌-◌, ◌≡◌, ◌≢◌, refl, sym, ap, ap₂, ◌∙◌, none, some, List, [], ◌∷◌, ◌++◌, Result,
  ok, length, take, inl, inr, arith,
}
use go_diskfs.Squashfs.Lru.{
  Lru, unlink_between, push_before, new_lru, new_block, locate, fill, get, set_max_blocks,
}
use go_diskfs.Squashfs.Lru.Links.{update_self}
use go_diskfs.Squashfs.Lru.Index.{find, find_inside}
use go_diskfs.Squashfs.Lru.Order.{Holds, unlinked, pushed}
use go_diskfs.Squashfs.Lru.Trim.{trim-Holds}
use go_diskfs.Squashfs.Lru.Locate.{All-take, Fresh-fresh, locate_found, locate_missing}
use go_diskfs.Squashfs.Lru.Fill.{fill_front, fill_rest}
use go_diskfs.Squashfs.Lru.Entry.{
  Entry, entry_at, without, use_entry, get_entry, entry, entries, Represents, entries-take,
  length-entries, entry_at-find, without-middle, entry-Same, entries-Same, entries-new_block,
  entry-new_block_self,
}

entry_at_some :
    (l : Lru) (p a : ℕ) (bs : List ℕ)
    → find l.pos p bs ≡ some a
    → entry_at p (entries l bs) ≡ some (entry l a)
entry_at_some l p a bs e = entry_at-find l p bs ∙ rw e refl

entry_at_missing :
    (l : Lru) (p : ℕ) (bs : List ℕ) → find l.pos p bs ≡ none → entry_at p (entries l bs) ≡ none
entry_at_missing l p bs e = entry_at-find l p bs ∙ rw e refl

-- The first half of get is use_entry.
record Located (l : Lru) (p : ℕ) (bs : List ℕ) : Type 0 where
  state : Lru
  block : ℕ
  rest : List ℕ
  ran : locate l p ≡ ok (state, block)
  holds : Holds state (block ∷ rest)
  max_blocks : state.max_blocks ≡ l.max_blocks
  abstract : (entry state block, entries state rest) ≡ use_entry l.max_blocks p (entries l bs)

locate-Located : (l : Lru) (p : ℕ) (bs : List ℕ) → Holds l bs → Located l p bs
unfolding unlink_between push_before new_block
locate-Located l p bs h = elim (Option-cases (find l.pos p bs)) [
  | inl (a, e) ↦
      let (at, (xs, ys, split)) = find_inside l.pos p a bs e in
      let h' : Holds l (xs ++ (a ∷ ys)) = rw split at h in
      let (ran, holds) = locate_found l p a xs ys h' at in
      record {
        state = pushed (unlinked l xs a ys) a (xs ++ ys);
        block = a;
        rest = xs ++ ys;
        ran = ran;
        holds = holds;
        max_blocks = refl;
        abstract =
            rw (entry_at_some l p a bs e, use_entry)
              (ap₂ (λ x y. (x, y)) refl
                (entries-Same l (pushed (unlinked l xs a ys) a (xs ++ ys)) (xs ++ ys) (record {
                  max_blocks = refl;
                  fresh = refl;
                  pos = refl;
                  content = refl;
                  size = refl;
                })
                  ∙ sym (without-middle l p a xs ys h'.index.apart at)
                  ∙ ap (λ t. without p (entries l t)) (sym split)));
      }
  | inr e ↦
      let (l', ran, holds, same) = locate_missing l p bs h e in
      record {
        state = l';
        block = l.fresh;
        rest = take (l.max_blocks - 1) bs;
        ran = ran;
        holds = holds;
        max_blocks = same.max_blocks;
        abstract =
            rw (entry_at_missing l p bs e, use_entry)
              (ap₂ (λ x y. (x, y))
                (entry-Same (new_block l p) l' l.fresh same ∙ entry-new_block_self l p)
                (entries-Same (new_block l p) l' (take (l.max_blocks - 1) bs) same
                  ∙ entries-new_block l p (take (l.max_blocks - 1) bs)
                      (All-take (λ b. b ≢ l.fresh) (l.max_blocks - 1) bs (Fresh-fresh l bs h))
                  ∙ entries-take l (l.max_blocks - 1) bs));
      }
]

-- On a well-formed cache get does not panic, and does to its entries what get_entry does: the data
-- of the entry for the position if it has been fetched, and otherwise that of fetch, which stays
-- in the cache if there was no error. The entry comes to the front, and a new one drives out the
-- entries at the end that exceed the bound. The cache is well-formed again and keeps its bound.
pub get-get_entry :
    {E : Type 0} (l : Lru) (es : List Entry) (p : ℕ) (fetch : Result E (List ℕ × ℕ))
    → Represents l es
    → (l' : Lru) × (get l p fetch ≡ ok (l', (get_entry l.max_blocks p fetch es).1))
      × Represents l' (get_entry l.max_blocks p fetch es).0
      × (l'.max_blocks ≡ l.max_blocks)
unfolding get
get-get_entry l es p fetch (bs, h, same) =
    let c = locate-Located l p bs h in
    let (holds, rest, bound) = fill_rest c.state c.block c.rest fetch c.holds in
    let front = fill_front c.state c.block fetch in
    let both : use_entry l.max_blocks p es ≡ (entry c.state c.block, entries c.state c.rest) =
      ap (use_entry l.max_blocks p) (sym same) ∙ sym c.abstract in
    (
      (fill c.state c.block fetch).0,
      rw both (rw (c.ran, get) (ap (λ r. ok ((fill c.state c.block fetch).0, r.1)) front)),
      (c.block ∷ c.rest, holds, rw both (ap₂ ◌∷◌ (ap (λ r. r.0) front) rest)),
      bound ∙ c.max_blocks,
    )

-- newLRU makes a well-formed cache without entries.
pub new_lru-Represents : (max : ℕ) → Represents (new_lru max) []
unfolding new_lru
new_lru-Represents max = (
  [],
  record {
    ring = record {
      distinct = (tt, tt);
      allocated = omega arith;
      below = tt;
      forward = update_self (λ a. none) 0 (some 0);
      backward = update_self (λ a. none) 0 (some 0);
    };
    index = record { single = tt; found = λ k. refl; apart = tt; count = refl };
  },
  refl,
)

bounded-Holds :
    (l : Lru) (max : ℕ) (bs : List ℕ) → Holds l bs → Holds (record l { max_blocks = max }) bs
bounded-Holds l max bs h = record {
  ring = record {
    distinct = h.ring.distinct;
    allocated = h.ring.allocated;
    below = h.ring.below;
    forward = h.ring.forward;
    backward = h.ring.backward;
  };
  index = record {
    single = h.index.single;
    found = h.index.found;
    apart = h.index.apart;
    count = h.index.count;
  };
}

entries-bounded :
    (l : Lru) (max : ℕ) (bs : List ℕ) → entries (record l { max_blocks = max }) bs ≡ entries l bs
entries-bounded l max [] = refl
entries-bounded l max (b ∷ bs) = ap (λ t. entry l b ∷ t) (entries-bounded l max bs)

-- On a well-formed cache setMaxBlocks does not panic and its loop ends: it leaves the entries that
-- were used last, as many as it is told, and sets the bound.
pub set_max_blocks-take :
    (l : Lru) (es : List Entry) (max : ℕ)
    → Represents l es
    → (l' : Lru) × (set_max_blocks l max ≡ ok l')
      × Represents l' (take max es)
      × (l'.max_blocks ≡ max)
unfolding set_max_blocks
set_max_blocks-take l es max (bs, h, same) =
    let l₀ : Lru = record l { max_blocks = max } in
    let (l', ran, holds, kept) = trim-Holds max l₀ bs (bounded-Holds l max bs h) in
    (
      l',
      ran,
      (
        take max bs,
        holds,
        entries-Same l₀ l' (take max bs) kept
            ∙ entries-take l₀ max bs
            ∙ ap (take max) (entries-bounded l max bs ∙ same),
      ),
      kept.max_blocks,
    )

-- A well-formed cache has as many blocks in its map as it has entries.
pub length-Represents : (l : Lru) (es : List Entry) → Represents l es → length l.cache ≡ length es
length-Represents l es (bs, h, same) = h.index.count ∙ sym (length-entries l bs) ∙ ap length same
