-- ===== src/Squashfs/Lru/Tests.antt =====
-- Runs of the cache of filesystem/squashfs/lru.go.
use go_diskfs.Base.{
  All, true, ℕ, ◌≡◌, refl, none, some, List, [], ◌∷◌, Result, ok, err, panic, unfinished, arith,
}
use go_diskfs.Base.Storage.{memory}
use go_diskfs.Squashfs.Metadata.{Compressor, get_metadata_size, unpack}
use go_diskfs.Squashfs.MetaRead.{read_meta_block, fetch_block, finish_block}
use go_diskfs.Squashfs.MetaRead.Cached.{Fetched, read_meta_block-fetch_block}
use go_diskfs.Squashfs.Lru.{
  Lru, update, new_lru, get, locate, add, trim, trim_loop, push, push_before, new_block, fill,
  set_max_blocks,
}
use go_diskfs.Squashfs.Lru.Entry.{Entry, Represents}
use go_diskfs.Squashfs.Lru.Refinement.{get-get_entry, set_max_blocks-take}
use go_diskfs.Squashfs.Lru.Reachable.{
  Reachable, start, step, get_step, Bounded, Reachable-Bounded, Reachable-get,
}

-- A cache for one block, with the block of position 5.
abbrev one_block : Lru
one_block = record {
  cache = (5, 1) ∷ [];
  max_blocks = 1;
  fresh = 2;
  prev = update (update (λ a. none) 0 (some 1)) 1 (some 0);
  next = update (update (λ a. none) 0 (some 1)) 1 (some 0);
  pos = update (λ a. 0) 1 5;
  content = update (λ a. none) 1 (some (7 ∷ []));
  size = update (λ a. 0) 1 3;
}

abbrev at_five : Entry
at_five = record { pos = 5; content = some (7 ∷ []); size = 3 }

abbrev at_six : Entry
at_six = record { pos = 6; content = some (8 ∷ []); size = 2 }

one_block-Represents : Represents one_block (at_five ∷ [])
one_block-Represents = (
  1 ∷ [],
  record {
    ring = record {
      distinct = (((λ e. omega arith), tt), (tt, tt));
      allocated = omega arith;
      below = (omega arith, tt);
      forward = (refl, refl);
      backward = (refl, refl);
    };
    index = record { single = (refl, tt); found = λ k. refl; apart = (tt, tt); count = refl };
  },
  refl,
)

-- The new block drives out the old one.
get-get_entry_example :
    (l' : Lru) × (get {E = ℕ} one_block 6 (ok (8 ∷ [], 2)) ≡ ok (l', ok (8 ∷ [], 2)))
    × Represents l' (at_six ∷ [])
    × (l'.max_blocks ≡ 1)
get-get_entry_example =
    get-get_entry one_block (at_five ∷ []) 6 (ok (8 ∷ [], 2)) one_block-Represents

set_max_blocks-take_example :
    (l' : Lru) × (set_max_blocks one_block 0 ≡ ok l') × Represents l' [] × (l'.max_blocks ≡ 0)
set_max_blocks-take_example = set_max_blocks-take one_block (at_five ∷ []) 0 one_block-Represents

-- The cache that a first block makes.
abbrev filled : Lru
filled = elim (get {E = ℕ} (new_lru 1) 5 (ok (7 ∷ [], 3))) [
  | ok (l, r) ↦ l
  | err e ↦ new_lru 1
  | panic ↦ new_lru 1
  | unfinished ↦ new_lru 1
]

filled-Reachable : Reachable filled
unfolding get locate add trim trim_loop push push_before new_block new_lru fill
filled-Reachable = step (start 1) (get_step {E = ℕ} {r = ok (7 ∷ [], 3)} 5 (ok (7 ∷ [], 3)) refl)

Reachable-Bounded_example : Bounded filled
Reachable-Bounded_example = Reachable-Bounded filled filled-Reachable

Reachable-get_example :
    (l' : Lru) × (r : Result ℕ (List ℕ × ℕ)) × (get filled 6 (err 9) ≡ ok (l', r))
Reachable-get_example = Reachable-get filled 6 (err 9) filled-Reachable

-- A compressor that keeps the data.
abbrev stored : Compressor
stored = record { CompressError = Unit {0}; compress = λ x. ok x; decompress = λ x. ok x }

-- A disk with an uncompressed block of one byte at position 5, and a compressed one behind it.
abbrev two_blocks : List ℕ
two_blocks = 0 ∷ 0 ∷ 0 ∷ 0 ∷ 0 ∷ 1 ∷ 128 ∷ 7 ∷ 2 ∷ 0 ∷ 8 ∷ 9 ∷ []

fetched_five : fetch_block memory stored true two_blocks 5 ≡ ok (7 ∷ [], 3)
unfolding fetch_block get_metadata_size finish_block unpack
fetched_five = refl

fetched_behind : fetch_block memory stored true two_blocks 8 ≡ ok (8 ∷ 9 ∷ [], 4)
unfolding fetch_block get_metadata_size finish_block unpack
fetched_behind = refl

-- The block behind comes through a cache that holds the one at position 5.
read_meta_block-fetch_block_example :
    (l' : Lru) × (es' : List Entry) × (read_meta_block memory stored true two_blocks one_block 8
      ≡ ok (l', fetch_block memory stored true two_blocks 8))
    × Represents l' es'
    × All (Fetched (fetch_block memory stored true two_blocks)) es'
read_meta_block-fetch_block_example =
    read_meta_block-fetch_block memory stored true two_blocks one_block (at_five ∷ []) 8
      one_block-Represents (fetched_five, tt)
