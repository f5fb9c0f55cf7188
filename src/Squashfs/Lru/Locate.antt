-- ===== src/Squashfs/Lru/Locate.antt =====
-- The first half of get: a block that is there goes to the front, a new one comes to the front of a
-- trimmed list.
use go_diskfs.Base.{
  ℕ, zero, suc, ◌-◌, ◌<◌, ◌≡◌, ◌≢◌, refl, sym, ap, ◌∙◌, subst, none, some, List, [], ◌∷◌, ◌++◌, All,
  ok, take, length-append, inl, inr, ◌==◌, Bool-cases, arith,
}
use go_diskfs.Base.Distinct.{Fresh, All-map}
use go_diskfs.Squashfs.Lru.{
  Lru, update, lookup, insert, push, add, new_block, locate, unlink_between, push_before,
}
use go_diskfs.Squashfs.Lru.Links.{Next-frame, Prev-frame, update_self, update_ne}
use go_diskfs.Squashfs.Lru.Index.{
  lookup-delete_self, lookup-delete_ne, Single-delete, length-delete_absent, find, positions,
  find-front, find-Fresh, find_missing, Distinct-front,
}
use go_diskfs.Squashfs.Lru.Order.{
  Holds, unlinked, pushed, unlink-Ring, push-Ring, All_at, Distinct-middle,
}
use go_diskfs.Squashfs.Lru.Trim.{Same, trim-Holds}

-- A block outside the list may get a position.
positions-update :
    (pos : ℕ → ℕ) (a p : ℕ) (bs : List ℕ)
    → Fresh a bs
    → positions (update pos a p) bs ≡ positions pos bs
positions-update pos a p [] f = refl
positions-update pos a p (b ∷ bs) (h, f) =
    rw (update_ne pos a p b h) (ap (λ t. pos b ∷ t) (positions-update pos a p bs f))

find-update :
    (pos : ℕ → ℕ) (a p k : ℕ) (bs : List ℕ)
    → Fresh a bs
    → find (update pos a p) k bs ≡ find pos k bs
find-update pos a p k [] f = refl
find-update pos a p k (b ∷ bs) (h, f) =
    rw (update_ne pos a p b h) (rw (find-update pos a p k bs f) refl)

pub All-take {κ} : (P : ℕ → Type κ) (n : ℕ) (xs : List ℕ) → All P xs → All P (take n xs)
All-take P zero xs all = tt
All-take P (suc n) [] all = tt
All-take P (suc n) (x ∷ xs) (h, all) = (h, All-take P n xs all)

Fresh-positions-take :
    (pos : ℕ → ℕ) (k n : ℕ) (bs : List ℕ)
    → Fresh k (positions pos bs)
    → Fresh k (positions pos (take n bs))
Fresh-positions-take pos k zero bs f = tt
Fresh-positions-take pos k (suc n) [] f = tt
Fresh-positions-take pos k (suc n) (b ∷ bs) (h, f) = (h, Fresh-positions-take pos k n bs f)

pub Fresh-fresh : (l : Lru) (bs : List ℕ) → Holds l bs → Fresh l.fresh bs
Fresh-fresh l bs h =
    All-map (λ a. a < l.fresh) (λ a. a ≢ l.fresh) bs (λ a lt e. omega arith) h.ring.below

-- The list that get leaves when the block is there.
pub locate_found :
    (l : Lru) (p a : ℕ) (xs ys : List ℕ)
    → Holds l (xs ++ (a ∷ ys))
    → l.pos a ≡ p
    → (locate l p ≡ ok (pushed (unlinked l xs a ys) a (xs ++ ys), a))
      × Holds (pushed (unlinked l xs a ys) a (xs ++ ys)) (a ∷ (xs ++ ys))
unfolding locate unlink_between push_before
locate_found l p a xs ys h at =
    let (d, r) = unlink-Ring l xs a ys h.ring in
    let (e, r') =
      push-Ring (unlinked l xs a ys) a (xs ++ ys) r (All_at (λ x. x < l.fresh) xs a ys h.ring.below)
        (All_at (λ x. x ≢ 0) xs a ys h.ring.distinct.0)
        (Distinct-middle xs a ys h.ring.distinct.1).0 in
    let there : lookup p l.cache ≡ some a =
      h.index.found p ∙ find-front l.pos p xs a ys h.index.apart ∙ rw at (ground arith) in
    (
      rw (there, locate) (rw d (rw e refl)),
      record {
        ring = r';
        index = record {
          single = h.index.single;
          found = λ k. h.index.found k ∙ find-front l.pos k xs a ys h.index.apart;
          apart = Distinct-front l.pos xs a ys h.index.apart;
          count = omega (arith, h.index.count, length-append xs (a ∷ ys), length-append xs ys);
        };
      },
    )

new_block-Holds : (l : Lru) (p : ℕ) (bs : List ℕ) → Holds l bs → Holds (new_block l p) bs
unfolding new_block
new_block-Holds l p bs h =
    let f = Fresh-fresh l bs h in
    let ne : 0 ≢ l.fresh = λ e. omega (arith, h.ring.allocated) in
    record {
      ring = record {
        distinct = h.ring.distinct;
        allocated = omega arith;
        below =
            All-map (λ a. a < l.fresh) (λ a. a < suc l.fresh) bs (λ a lt. omega arith) h.ring.below;
        forward = Next-frame l.next l.fresh none 0 bs 0 ne f h.ring.forward;
        backward = Prev-frame l.prev l.fresh none 0 bs 0 ne f h.ring.backward;
      };
      index = record {
        single = h.index.single;
        found = λ k. h.index.found k ∙ sym (find-update l.pos l.fresh p k bs f);
        apart = rw (positions-update l.pos l.fresh p bs f) h.index.apart;
        count = h.index.count;
      };
    }

-- A block with a new position goes into the map and in front of the list.
insert-Holds :
    (l : Lru) (a : ℕ) (bs : List ℕ)
    → Holds l bs
    → a < l.fresh
    → a ≢ 0
    → Fresh a bs
    → Fresh (l.pos a) (positions l.pos bs)
    → let l' = record l { cache = insert (l.pos a) a l.cache } in
      (push l' a ≡ ok (pushed l' a bs)) × Holds (pushed l' a bs) (a ∷ bs)
unfolding push_before
insert-Holds l a bs h old ne f new =
    let (e, r) =
      push-Ring (record l { cache = insert (l.pos a) a l.cache }) a bs
        (record {
          distinct = h.ring.distinct;
          allocated = h.ring.allocated;
          below = h.ring.below;
          forward = h.ring.forward;
          backward = h.ring.backward;
        })
        old ne f in
    let missing : lookup (l.pos a) l.cache ≡ none =
      h.index.found (l.pos a) ∙ find-Fresh l.pos (l.pos a) bs new in
    (
      e,
      record {
        ring = r;
        index = record {
          single = (
            lookup-delete_self (l.pos a) l.cache,
            Single-delete (l.pos a) l.cache h.index.single,
          );
          found = λ k. elim (Bool-cases (l.pos a == k)) [
            | inl e ↦ rw e refl
            | inr e ↦ rw e (lookup-delete_ne k (l.pos a) l.cache (ground arith) ∙ h.index.found k)
          ];
          apart = (new, h.index.apart);
          count = omega (arith, length-delete_absent (l.pos a) l.cache missing, h.index.count);
        };
      },
    )

-- The list that get leaves when the block is not there.
pub locate_missing :
    (l : Lru) (p : ℕ) (bs : List ℕ)
    → Holds l bs
    → find l.pos p bs ≡ none
    → (l' : Lru) × (locate l p ≡ ok (l', l.fresh))
      × Holds l' (l.fresh ∷ take (l.max_blocks - 1) bs)
      × Same (new_block l p) l'
unfolding locate add new_block push_before
locate_missing l p bs h none_there =
    let h' = new_block-Holds l p bs h in
    let (t, ran, holds, same) = trim-Holds (l.max_blocks - 1) (new_block l p) bs h' in
    let at : t.pos l.fresh ≡ p = ap (λ f. f l.fresh) same.pos ∙ update_self l.pos l.fresh p in
    let kept = take (l.max_blocks - 1) bs in
    let f = All-take (λ b. b ≢ l.fresh) (l.max_blocks - 1) bs (Fresh-fresh l bs h) in
    let new : Fresh (t.pos l.fresh) (positions t.pos kept) =
      subst (λ q. Fresh q (positions t.pos kept)) (sym at)
        (subst (λ ps. Fresh p ps)
          (sym (ap (λ g. positions g kept) same.pos ∙ positions-update l.pos l.fresh p kept f))
          (Fresh-positions-take l.pos p (l.max_blocks - 1) bs
            (find_missing l.pos p bs none_there))) in
    let (e, holds') =
      insert-Holds t l.fresh kept holds (rw same.fresh (omega arith))
        (λ e. omega (arith, h.ring.allocated)) f new in
    let missing : lookup p l.cache ≡ none = h.index.found p ∙ none_there in
    (
      pushed (record t { cache = insert (t.pos l.fresh) l.fresh t.cache }) l.fresh kept,
      rw (missing, locate) (rw (ran, add) (rw e refl)),
      holds',
      record {
        max_blocks = same.max_blocks;
        fresh = same.fresh;
        pos = same.pos;
        content = same.content;
        size = same.size;
      },
    )
