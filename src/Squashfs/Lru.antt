-- ===== src/Squashfs/Lru.antt =====
-- filesystem/squashfs/lru.go: the cache of blocks, a map and a circular list through its root. The
-- blocks stand in a heap: a pointer is an address, `none` is nil, the root has address 0, and each
-- field of the blocks is a function of the address. The fields `pos` and `maxBlocks` are taken as
-- not negative; the root's `pos`, -1, is never looked at. A call runs alone: its locks are not
-- modelled.
pub mod Links
pub mod Index
pub mod Order
pub mod Trim
pub mod Locate
pub mod Entry
pub mod Fill
pub mod Refinement
pub mod Reachable
mod Tests
use go_diskfs.Base.{
  ℕ, zero, suc, ◌+◌, ◌-◌, Bool, ◌&&◌, Option, none, some, List, [], ◌∷◌, Result, ok, err, panic,
  unfinished, ◌>>=◌, length, ltb, ◌==◌, if◌then◌else◌,
}

-- type lru struct, and the fields of type lruBlock struct.
pub record Lru : Type 0 where
  pub cache : List (ℕ × ℕ)
  pub max_blocks : ℕ
  pub fresh : ℕ
  pub prev : ℕ → Option ℕ
  pub next : ℕ → Option ℕ
  pub pos : ℕ → ℕ
  pub content : ℕ → Option (List ℕ)
  pub size : ℕ → ℕ

-- One field of one block changed.
abbrev pub update {ℓ} : {A : Type ℓ} → (ℕ → A) → ℕ → A → ℕ → A
update f a v b = if b == a then v else f b

-- The map: each key stands once.
abbrev pub lookup : ℕ → List (ℕ × ℕ) → Option ℕ
lookup k [] = none
lookup k ((j, a) ∷ m) = if j == k then some a else lookup k m

abbrev pub delete : ℕ → List (ℕ × ℕ) → List (ℕ × ℕ)
delete k [] = []
delete k ((j, a) ∷ m) = if j == k then delete k m else (j, a) ∷ delete k m

abbrev pub insert : ℕ → ℕ → List (ℕ × ℕ) → List (ℕ × ℕ)
insert k a m = (k, a) ∷ delete k m

-- newLRU
unfoldable pub new_lru : ℕ → Lru
new_lru max_blocks = record {
  cache = [];
  max_blocks = max_blocks;
  fresh = 1;
  prev = update (λ a. none) 0 (some 0);
  next = update (λ a. none) 0 (some 0);
  pos = λ a. 0;
  content = λ a. none;
  size = λ a. 0;
}

-- unlink, of a block whose prev is p and whose next is n.
unfoldable pub unlink_between : Lru → ℕ → ℕ → ℕ → Lru
unlink_between l block p n = record l {
  next = update (update l.next p (some n)) block none;
  prev = update (update l.prev n (some p)) block none;
}

-- unlink. Of a block that is its own neighbour the first write leaves `next` as it is, so it is
-- read once; a nil neighbour panics.
unfoldable pub unlink : Lru → ℕ → Result ⊥ Lru
unfolding unlink_between
unlink l block = elim (l.prev block) [
  | none ↦ panic
  | some p ↦ elim (l.next block) [ none ↦ panic | some n ↦ ok (unlink_between l block p n) ]
]

-- pop, with the block popped.
unfoldable pub pop : Lru → Result ⊥ (Lru × ℕ)
pop l = elim (l.prev 0) [
  | none ↦ panic
  | some block ↦ if block == 0 then panic else unlink l block >>= λ l'. ok (l', block)
]

-- push, where the list's first block is old_head.
unfoldable pub push_before : Lru → ℕ → ℕ → Lru
push_before l block old_head = record l {
  next = update (update l.next 0 (some block)) block (some old_head);
  prev = update (update l.prev block (some 0)) old_head (some block);
}

unfoldable pub push : Lru → ℕ → Result ⊥ Lru
unfolding push_before
push l block = elim (l.next 0) [ none ↦ panic | some old_head ↦ ok (push_before l block old_head) ]

-- trim: each round takes a block out of the map, so as many rounds as it has are enough.
unfoldable pub trim_loop : ℕ → ℕ → Lru → Result ⊥ Lru
trim_loop zero max l = unfinished
trim_loop (suc fuel) max l =
    let rest = pop l >>= λ (l', block).
    trim_loop fuel max (record l' { cache = delete (l'.pos block) l'.cache }) in
    if ltb max (length l.cache) && ltb 0 (length l.cache) then rest else ok l

unfoldable pub trim : ℕ → Lru → Result ⊥ Lru
trim max l = trim_loop (suc (length l.cache)) max l

-- add. For maxBlocks = 0 the argument of trim is -1, with the same effect as 0.
unfoldable pub add : Lru → ℕ → Result ⊥ Lru
add l block = trim (l.max_blocks - 1) l >>= λ l'.
    push (record l' { cache = insert (l'.pos block) block l'.cache }) block

-- The empty block that get makes for a position.
unfoldable pub new_block : Lru → ℕ → Lru
new_block l p = record l {
  fresh = suc l.fresh;
  pos = update l.pos l.fresh p;
  content = update l.content l.fresh none;
  size = update l.size l.fresh 0;
  prev = update l.prev l.fresh none;
  next = update l.next l.fresh none;
}

-- The first half of get: the block for the position, at the front of the list.
unfoldable pub locate : Lru → ℕ → Result ⊥ (Lru × ℕ)
locate l p = elim (lookup p l.cache) [
  | none ↦ add (new_block l p) l.fresh >>= λ l'. ok (l', l.fresh)
  | some block ↦ unlink l block >>= λ l'. push l' block >>= λ l''. ok (l'', block)
]

-- The second half: the block's data, or that of fetch, which is called if there is none. What
-- fetch returns without an error is not nil.
unfoldable pub fill : {E : Type 0} → Lru → ℕ → Result E (List ℕ × ℕ) → Lru × Result E (List ℕ × ℕ)
fill l block fetch = elim (l.content block) [
  | some d ↦ (l, ok (d, l.size block))
  | none ↦ elim fetch [
    | ok (d, n) ↦ (
      record l { content = update l.content block (some d); size = update l.size block n },
      ok (d, n),
    )
    | err e ↦ (l, err e)
    | panic ↦ (l, panic)
    | unfinished ↦ (l, unfinished)
  ]
]

-- get, of a cache that is not nil.
unfoldable pub get :
    {E : Type 0} → Lru → ℕ → Result E (List ℕ × ℕ) → Result ⊥ (Lru × Result E (List ℕ × ℕ))
get l p fetch = locate l p >>= λ (l', block). ok (fill l' block fetch)

-- setMaxBlocks
unfoldable pub set_max_blocks : Lru → ℕ → Result ⊥ Lru
set_max_blocks l max_blocks = trim max_blocks (record l { max_blocks = max_blocks })
