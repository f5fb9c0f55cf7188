-- ===== src/Squashfs/Lru/Order.antt =====
-- The cache in order: its blocks, the one used last first, as the circular list and the map hold
-- them; and what unlinking and pushing make of them.
use go_diskfs.Base.{ℕ, ◌<◌, ◌≡◌, ◌≢◌, refl, sym, List, [], ◌∷◌, ◌++◌, All, ok, length}
use go_diskfs.Base.Distinct.{Fresh, Distinct, Fresh-right}
use go_diskfs.Squashfs.Lru.{Lru, lookup, unlink_between, unlink, push_before, push}
use go_diskfs.Squashfs.Lru.Links.{
  end_of, first_or, Next, Prev, Next-first, Next-unlink, Prev-unlink, Next-push, Prev-push,
}
use go_diskfs.Squashfs.Lru.Index.{Single, find, positions}

-- The circular list: through the root over the blocks and back, in both directions.
pub record Ring (l : Lru) (bs : List ℕ) : Type 0 where
  pub distinct : Distinct (0 ∷ bs)
  pub allocated : 0 < l.fresh
  pub below : All (λ a. a < l.fresh) bs
  pub forward : Next l.next 0 bs 0
  pub backward : Prev l.prev 0 bs 0

-- The map: it has the blocks of the list, each under its position.
pub record Indexed (l : Lru) (bs : List ℕ) : Type 0 where
  pub single : Single l.cache
  pub found : (k : ℕ) → lookup k l.cache ≡ find l.pos k bs
  pub apart : Distinct (positions l.pos bs)
  pub count : length l.cache ≡ length bs

All-middle {κ} :
    (P : ℕ → Type κ) (xs : List ℕ) (a : ℕ) (ys : List ℕ) → All P (xs ++ (a ∷ ys)) → All P (xs ++ ys)
All-middle P [] a ys (h, t) = t
All-middle P (x ∷ xs) a ys (h, t) = (h, All-middle P xs a ys t)

pub Distinct-middle :
    (xs : List ℕ) (a : ℕ) (ys : List ℕ)
    → Distinct (xs ++ (a ∷ ys))
    → Fresh a (xs ++ ys) × Distinct (xs ++ ys)
Distinct-middle [] a ys d = d
Distinct-middle (x ∷ xs) a ys (f, d) =
    let (g, e) = Distinct-middle xs a ys d in
    (((λ p. (Fresh-right x xs (a ∷ ys) f).0 (sym p)), g), (All-middle (λ y. y ≢ x) xs a ys f, e))

pub All_at {κ} : (P : ℕ → Type κ) (xs : List ℕ) (a : ℕ) (ys : List ℕ) → All P (xs ++ (a ∷ ys)) → P a
All_at P [] a ys (h, t) = h
All_at P (x ∷ xs) a ys (h, t) = All_at P xs a ys t

-- The cache with one block of the list unlinked.
abbrev pub unlinked : Lru → List ℕ → ℕ → List ℕ → Lru
unlinked l xs a ys = unlink_between l a (end_of 0 xs) (first_or ys 0)

pub unlink-Ring :
    (l : Lru) (xs : List ℕ) (a : ℕ) (ys : List ℕ)
    → Ring l (xs ++ (a ∷ ys))
    → (unlink l a ≡ ok (unlinked l xs a ys)) × Ring (unlinked l xs a ys) (xs ++ ys)
unfolding unlink unlink_between
unlink-Ring l xs a ys r =
    let (n, forward) = Next-unlink l.next 0 xs a ys 0 r.distinct r.forward in
    let (p, backward) = Prev-unlink l.prev 0 xs a ys 0 r.distinct.1 r.distinct.0 r.backward in
    (
      rw (p, unlink) (rw n refl),
      record {
        distinct = (
          All-middle (λ y. y ≢ 0) xs a ys r.distinct.0,
          (Distinct-middle xs a ys r.distinct.1).1,
        );
        allocated = r.allocated;
        below = All-middle (λ x. x < l.fresh) xs a ys r.below;
        forward = forward;
        backward = backward;
      },
    )

-- The cache with one block put in front of the list.
abbrev pub pushed : Lru → ℕ → List ℕ → Lru
pushed l a bs = push_before l a (first_or bs 0)

pub push-Ring :
    (l : Lru) (a : ℕ) (bs : List ℕ)
    → Ring l bs
    → a < l.fresh
    → a ≢ 0
    → Fresh a bs
    → (push l a ≡ ok (pushed l a bs)) × Ring (pushed l a bs) (a ∷ bs)
unfolding push push_before
push-Ring l a bs r old ne f = (
  rw (Next-first l.next 0 bs 0 r.forward, push) refl,
  record {
    distinct = ((ne, r.distinct.0), (f, r.distinct.1));
    allocated = r.allocated;
    below = (old, r.below);
    forward = Next-push l.next 0 a bs 0 (λ e. ne (sym e)) r.distinct.0 f r.forward;
    backward = Prev-push l.prev 0 a bs 0 ne r.distinct.1 r.distinct.0 f r.backward;
  },
)

-- Both: a well-formed cache of the blocks `bs`.
pub record Holds (l : Lru) (bs : List ℕ) : Type 0 where
  pub ring : Ring l bs
  pub index : Indexed l bs
