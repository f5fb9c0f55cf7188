-- ===== src/Squashfs/Lru/Trim.antt =====
-- Trimming the cache of filesystem/squashfs/lru.go: blocks leave at the end of the list.
use go_diskfs.Base.{
  take_all, ℕ, zero, suc, ◌+◌, ◌≤◌, ◌<◌, ◌≡◌, ◌≢◌, refl, sym, ap, ◌∙◌, true, false, some, List, [],
  ◌∷◌, ◌++◌, append-nil, ok, length, take, length-append, ltb, inl, inr, ◌==◌, Bool-cases, arith,
}
use go_diskfs.Base.Distinct.{Distinct}
use go_diskfs.Squashfs.Lru.{Lru, delete, unlink_between, pop, trim_loop, trim}
use go_diskfs.Squashfs.Lru.Links.{end_of, Prev-end}
use go_diskfs.Squashfs.Lru.Index.{
  lookup-delete_self, lookup-delete_ne, Single-delete, length-delete, find, positions, find-front,
  find-Fresh, Distinct-front,
}
use go_diskfs.Squashfs.Lru.Order.{Ring, Indexed, Holds, unlinked, unlink-Ring, All_at}

-- The same blocks with the same data, and the same bound.
pub record Same (l l' : Lru) : Type 0 where
  pub max_blocks : l'.max_blocks ≡ l.max_blocks
  pub fresh : l'.fresh ≡ l.fresh
  pub pos : l'.pos ≡ l.pos
  pub content : l'.content ≡ l.content
  pub size : l'.size ≡ l.size

end_of-last : (p : ℕ) (xs : List ℕ) (a : ℕ) → end_of p (xs ++ (a ∷ [])) ≡ a
end_of-last p [] a = refl
end_of-last p (x ∷ xs) a = end_of-last x xs a

-- One round of trim: the last block leaves the list and the map.
abbrev dropped : Lru → List ℕ → ℕ → Lru
dropped l xs a = record (unlinked l xs a []) { cache = delete (l.pos a) l.cache }

found_first : (pos : ℕ → ℕ) (a : ℕ) (bs : List ℕ) → find pos (pos a) (a ∷ bs) ≡ some a
found_first pos a bs = ground arith

dropped-Indexed :
    (l : Lru) (xs : List ℕ) (a : ℕ) → Indexed l (xs ++ (a ∷ [])) → Indexed (dropped l xs a) xs
unfolding unlink_between
dropped-Indexed l xs a i =
    let apart : Distinct (positions l.pos (a ∷ xs)) =
      rw (append-nil xs) at (Distinct-front l.pos xs a [] i.apart) in
    let front : (k : ℕ) → find l.pos k (xs ++ (a ∷ [])) ≡ find l.pos k (a ∷ xs) =
      λ k. find-front l.pos k xs a [] i.apart ∙ ap (λ t. find l.pos k (a ∷ t)) (append-nil xs) in
    record {
      single = Single-delete (l.pos a) l.cache i.single;
      found = λ k. elim (Bool-cases (l.pos a == k)) [
        | inl e ↦
            let e' : k ≡ l.pos a = ground arith in
            rw e'
              (lookup-delete_self (l.pos a) l.cache ∙ sym (find-Fresh l.pos (l.pos a) xs apart.0))
        | inr e ↦
            lookup-delete_ne k (l.pos a) l.cache (ground arith) ∙ i.found k ∙ front k ∙ rw e refl
      ];
      apart = apart.1;
      count = omega (
        arith,
        length-delete (l.pos a) a l.cache i.single
            (i.found (l.pos a) ∙ front (l.pos a) ∙ found_first l.pos a xs),
        length-append xs (a ∷ []),
        i.count,
      );
    }

take_last : (n : ℕ) (xs : List ℕ) (a : ℕ) → n ≤ length xs → take n (xs ++ (a ∷ [])) ≡ take n xs
take_last zero xs a h = refl
take_last (suc n) [] a h = absurd (omega arith)
take_last (suc n) (x ∷ xs) a h = ap (λ t. x ∷ t) (take_last n xs a (omega arith))

last_of : (bs : List ℕ) → 0 < length bs → (xs : List ℕ) × (a : ℕ) × (bs ≡ xs ++ (a ∷ []))
last_of [] h = absurd (omega arith)
last_of (x ∷ []) h = ([], x, refl)
last_of (x ∷ (y ∷ ys)) h =
    let (xs, a, e) = last_of (y ∷ ys) (omega arith) in (x ∷ xs, a, ap (λ t. x ∷ t) e)

pop-Holds :
    (l : Lru) (xs : List ℕ) (a : ℕ)
    → Holds l (xs ++ (a ∷ []))
    → (pop l ≡ ok (unlinked l xs a [], a)) × Holds (dropped l xs a) xs
unfolding pop unlink_between
pop-Holds l xs a h =
    let (e, r) = unlink-Ring l xs a [] h.ring in
    let r' : Ring (unlinked l xs a []) xs = rw (append-nil xs) at r in
    let last : l.prev 0 ≡ some a =
      Prev-end l.prev 0 (xs ++ (a ∷ [])) 0 h.ring.backward ∙ ap some (end_of-last 0 xs a) in
    let ne : (a == 0) ≡ false =
      let g : a ≢ 0 = All_at (λ x. x ≢ 0) xs a [] h.ring.distinct.0 in ground arith in
    (
      rw (last, pop) (rw ne (rw e refl)),
      record {
        ring = record {
          distinct = r'.distinct;
          allocated = r'.allocated;
          below = r'.below;
          forward = r'.forward;
          backward = r'.backward;
        };
        index = dropped-Indexed l xs a h.index;
      },
    )

trim_loop_stop : (fuel max : ℕ) (l : Lru) → length l.cache ≤ max → trim_loop (suc fuel) max l ≡ ok l
unfolding trim_loop
trim_loop_stop fuel max l h = let e : ltb max (length l.cache) ≡ false = ground arith in rw e refl

trim_loop_round :
    (fuel max : ℕ) (l : Lru) (xs : List ℕ) (a : ℕ)
    → Holds l (xs ++ (a ∷ []))
    → max < length l.cache
    → trim_loop (suc fuel) max l ≡ trim_loop fuel max (dropped l xs a)
unfolding trim_loop unlink_between
trim_loop_round fuel max l xs a h more =
    let e : ltb max (length l.cache) ≡ true = ground arith in
    let e' : ltb 0 (length l.cache) ≡ true = ground arith in
    rw e (rw e' (rw (pop-Holds l xs a h).0 refl))

-- Trimming leaves the first blocks, as many as are wanted.
trim_loop-Holds :
    (fuel max : ℕ) (l : Lru) (bs : List ℕ)
    → Holds l bs
    → length bs < fuel
    → (l' : Lru) × (trim_loop fuel max l ≡ ok l') × Holds l' (take max bs) × Same l l'
unfolding unlink_between
trim_loop-Holds zero max l bs h enough = absurd (omega arith)
trim_loop-Holds (suc fuel) max l bs h enough = elim (Bool-cases (ltb max (length l.cache))) [
  | inr e ↦
      let few : length l.cache ≤ max = ground arith in
      (
        l,
        trim_loop_stop fuel max l few,
        rw (take_all max bs (omega (arith, h.index.count))) h,
        record { max_blocks = refl; fresh = refl; pos = refl; content = refl; size = refl },
      )
  | inl e ↦
      let more : max < length l.cache = ground arith in
      let (xs, a, split) = last_of bs (omega (arith, h.index.count)) in
      let h' : Holds l (xs ++ (a ∷ [])) = rw split at h in
      let few : length bs ≡ length xs + 1 = ap length split ∙ length-append xs (a ∷ []) in
      let (l', ran, holds, same) =
        trim_loop-Holds fuel max (dropped l xs a) xs (pop-Holds l xs a h').1 (omega arith) in
      let kept : take max xs ≡ take max bs =
        sym (ap (take max) split ∙ take_last max xs a (omega (arith, h.index.count))) in
      (
        l',
        trim_loop_round fuel max l xs a h' more ∙ ran,
        rw kept at holds,
        record {
          max_blocks = same.max_blocks;
          fresh = same.fresh;
          pos = same.pos;
          content = same.content;
          size = same.size;
        },
      )
]

pub trim-Holds :
    (max : ℕ) (l : Lru) (bs : List ℕ)
    → Holds l bs
    → (l' : Lru) × (trim max l ≡ ok l') × Holds l' (take max bs) × Same l l'
unfolding trim
trim-Holds max l bs h =
    trim_loop-Holds (suc (length l.cache)) max l bs h (omega (arith, h.index.count))
