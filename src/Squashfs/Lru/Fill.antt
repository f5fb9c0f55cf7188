-- ===== src/Squashfs/Lru/Fill.antt =====
-- The second half of get: fetching the data of the block in front of the cache.
use go_diskfs.Base.{
  Option-cases, ℕ, ◌≡◌, ◌≢◌, refl, none, some, List, ◌∷◌, Result, ok, err, panic, unfinished, ◌⊎◌,
  inl, inr,
}
use go_diskfs.Base.Distinct.{All-map}
use go_diskfs.Squashfs.Lru.{Lru, update, fill}
use go_diskfs.Squashfs.Lru.Links.{update_self, update_ne}
use go_diskfs.Squashfs.Lru.Order.{Holds}
use go_diskfs.Squashfs.Lru.Entry.{read_entry, entry, entries, entries_eq}

-- The second half of get: what it makes of the front entry.
fill_empty :
    {E : Type 0} (l : Lru) (a : ℕ) (fetch : Result E (List ℕ × ℕ))
    → l.content a ≡ none
    → (entry (fill l a fetch).0 a, (fill l a fetch).1) ≡ read_entry (entry l a) fetch
unfolding fill
fill_empty l a (ok (d, n)) e =
    rw (e, fill) (rw (update_self l.content a (some d)) (rw (update_self l.size a n) refl))
fill_empty l a (err x) e = rw (e, fill) refl
fill_empty l a panic e = rw (e, fill) refl
fill_empty l a unfinished e = rw (e, fill) refl

pub fill_front :
    {E : Type 0} (l : Lru) (a : ℕ) (fetch : Result E (List ℕ × ℕ))
    → (entry (fill l a fetch).0 a, (fill l a fetch).1) ≡ read_entry (entry l a) fetch
unfolding fill
fill_front l a fetch = elim (Option-cases (l.content a)) [
  | inl (d, e) ↦ rw (e, fill) refl
  | inr e ↦ fill_empty l a fetch e
]

-- The cache with data put into one block.
abbrev stored : Lru → ℕ → List ℕ → ℕ → Lru
stored l a d n = record l { content = update l.content a (some d); size = update l.size a n }

fill_empty_state :
    {E : Type 0} (l : Lru) (a : ℕ) (fetch : Result E (List ℕ × ℕ))
    → l.content a ≡ none
    → ((fill l a fetch).0 ≡ l) ⊎ ((d : List ℕ) × (n : ℕ) × ((fill l a fetch).0 ≡ stored l a d n))
unfolding fill
fill_empty_state l a (ok (d, n)) e = inr (d, n, rw (e, fill) refl)
fill_empty_state l a (err x) e = inl (rw (e, fill) refl)
fill_empty_state l a panic e = inl (rw (e, fill) refl)
fill_empty_state l a unfinished e = inl (rw (e, fill) refl)

fill_state :
    {E : Type 0} (l : Lru) (a : ℕ) (fetch : Result E (List ℕ × ℕ))
    → ((fill l a fetch).0 ≡ l) ⊎ ((d : List ℕ) × (n : ℕ) × ((fill l a fetch).0 ≡ stored l a d n))
unfolding fill
fill_state l a fetch = elim (Option-cases (l.content a)) [
  | inl (d, e) ↦ inl (rw (e, fill) refl)
  | inr e ↦ fill_empty_state l a fetch e
]

stored-Holds :
    (l : Lru) (a : ℕ) (d : List ℕ) (n : ℕ) (bs : List ℕ) → Holds l bs → Holds (stored l a d n) bs
stored-Holds l a d n bs h = record {
  ring = record {
    distinct = h.ring.distinct;
    allocated = h.ring.allocated;
    below = h.ring.below;
    forward = h.ring.forward;
    backward = h.ring.backward;
  };
  index = record {
    single = h.index.single;
    found = h.index.found;
    apart = h.index.apart;
    count = h.index.count;
  };
}

-- It leaves the list, the map, the bound and the other blocks alone.
pub fill_rest :
    {E : Type 0} (l : Lru) (a : ℕ) (bs : List ℕ) (fetch : Result E (List ℕ × ℕ))
    → Holds l (a ∷ bs)
    → Holds (fill l a fetch).0 (a ∷ bs)
      × (entries (fill l a fetch).0 bs ≡ entries l bs)
      × ((fill l a fetch).0.max_blocks ≡ l.max_blocks)
fill_rest l a bs fetch h = elim (fill_state l a fetch) [
  | inl e ↦ rw e (h, refl, refl)
  | inr (d, n, e) ↦ rw e (
    stored-Holds l a d n (a ∷ bs) h,
    entries_eq (stored l a d n) l bs (
        All-map (λ b. b ≢ a) (λ b. entry (stored l a d n) b ≡ entry l b) bs
          (λ b ne. rw (update_ne l.content a (some d) b ne) (rw (update_ne l.size a n b ne) refl))
          h.ring.distinct.1.0),
    refl,
  )
]
