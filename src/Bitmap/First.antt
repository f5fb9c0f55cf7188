-- ===== src/Bitmap/First.antt =====
-- FirstFree and FirstSet of util/bitmap.go.
use go_diskfs.Base.{
  ℕ, zero, suc, ◌+◌, ◌-◌, ◌*◌, ◌/◌, ◌%◌, ◌≤◌, ◌<◌, ◌≡◌, refl, sym, ap, ◌∙◌, ltb, Bool, true, false,
  not, List, [], ◌∷◌, ok, panic, length, drop, All, ◌==◌, if◌then◌else◌, arith, bit_and, inl, inr,
  Bool-cases, Option, none, some,
}
use go_diskfs.Base.Bytes.{IsByte}
use go_diskfs.Base.Tables.{every_below, every_below_lem}
use go_diskfs.Bitmap.{
  Bitmap, free_test, used_test, first_bit, first_free_loop, first_free, first_set_loop, first_set,
}
use go_diskfs.Bitmap.Bits.{bit, bit_at, mask-test, complement-test, same, same→eq}

-- `m` is the first location of `bs` with a bit of value `v`.
pub record First (v : Bool) (bs : List ℕ) (m : ℕ) : Type 0 where
  pub inside : m < 8 * length bs
  pub here : bit_at bs m ≡ v
  pub before : (k : ℕ) → k < m → bit_at bs k ≡ not v

-- Every bit of `bs` has the other value.
abbrev pub Without : Bool → List ℕ → Type 0
Without v bs = (k : ℕ) → k < 8 * length bs → bit_at bs k ≡ not v

-- A scan answers `none` exactly where no bit is `v`, and else `f m` for the first such location m.
abbrev pub Answers : Bool → List ℕ → (ℕ → ℕ) → Option ℕ → Type 0
Answers v bs f none = Without v bs
Answers v bs f (some l) = (m : ℕ) × First v bs m × (l ≡ f m)

module _ (b : ℕ) (bs : List ℕ) where
  pub bit_at-head : (k : ℕ) → k < 8 → bit_at (b ∷ bs) k ≡ bit b k
  unfolding bit_at
  bit_at-head k h =
      let e : k / 8 ≡ 0 = omega arith in let e' : k % 8 ≡ k = omega arith in rw (e, e')

  pub bit_at-tail : (k : ℕ) → bit_at (b ∷ bs) (8 + k) ≡ bit_at bs k
  unfolding bit_at
  bit_at-tail k =
      let e : (8 + k) / 8 ≡ suc (k / 8) = omega arith in
      let e' : (8 + k) % 8 ≡ k % 8 = omega arith in rw (e, e')

  bit_at-rest : (k : ℕ) → 8 ≤ k → bit_at (b ∷ bs) k ≡ bit_at bs (k - 8)
  bit_at-rest k h =
      let e : k ≡ 8 + (k - 8) = omega arith in ap (bit_at (b ∷ bs)) e ∙ bit_at-tail (k - 8)

  module _ (v : Bool) where
    First-here :
        (j : ℕ) → j < 8 → bit b j ≡ v → ((k : ℕ) → k < j → bit b k ≡ not v) → First v (b ∷ bs) j
    First-here j h e below = record {
      inside = omega arith;
      here = bit_at-head j h ∙ e;
      before = λ k hk. bit_at-head k (omega arith) ∙ below k hk;
    }

    module _ (full : (k : ℕ) → k < 8 → bit b k ≡ not v) where
      First-later : (m : ℕ) → First v bs m → First v (b ∷ bs) (8 + m)
      First-later m found = record {
        inside = omega (arith, found.inside);
        here = bit_at-tail m ∙ found.here;
        before = λ k hk. elim (Bool-cases (ltb k 8)) [
          | inl e ↦ bit_at-head k (ground arith) ∙ full k (ground arith)
          | inr e ↦ bit_at-rest k (ground arith) ∙ found.before (k - 8) (ground arith)
        ];
      }

      Without-later : Without v bs → Without v (b ∷ bs)
      Without-later rest k hk = elim (Bool-cases (ltb k 8)) [
        | inl e ↦ bit_at-head k (ground arith) ∙ full k (ground arith)
        | inr e ↦ bit_at-rest k (ground arith) ∙ rest (k - 8) (ground arith)
      ]

      Answers-later :
          (f g : ℕ → ℕ) (r : Option ℕ)
          → ((m : ℕ) → g m ≡ f (8 + m))
          → Answers v bs g r
          → Answers v (b ∷ bs) f r
      Answers-later f g none same rest = Without-later rest
      Answers-later f g (some l) same (m, found, e) = (8 + m, First-later m found, e ∙ same m)

-- What the inner loop of both finds.
abbrev Picks : (ℕ → Bool) → ℕ → ℕ → Option ℕ → Type 0
Picks test n j none = (k : ℕ) → j ≤ k → k < j + n → test k ≡ false
Picks test n j (some m) =
    (j ≤ m) × (m < j + n) × (test m ≡ true) × ((k : ℕ) → j ≤ k → k < m → test k ≡ false)

Picks-next :
    (test : ℕ → Bool) (n j : ℕ) (r : Option ℕ)
    → test j ≡ false
    → Picks test n (j + 1) r
    → Picks test (suc n) j r
Picks-next test n j none e rest = λ k lo hi. elim (Bool-cases (k == j)) [
  | inl same ↦ let e' : k ≡ j = ground arith in rw e' e
  | inr other ↦ rest k (ground arith) (omega arith)
]
Picks-next test n j (some m) e (lo, hi, hit, below) = (
  omega arith,
  omega arith,
  hit,
  λ k a b. elim (Bool-cases (k == j)) [
    | inl same ↦ let e' : k ≡ j = ground arith in rw e' e
    | inr other ↦ below k (ground arith) b
  ],
)

first_bit-Picks : (test : ℕ → Bool) (n j : ℕ) → Picks test n j (first_bit test n j)
unfolding first_bit
first_bit-Picks test zero j = λ k lo hi. absurd (omega arith)
first_bit-Picks test (suc n) j = elim (Bool-cases (test j)) [
  | inl e ↦ rw e (omega arith, omega arith, e, λ k lo hi. absurd (omega arith))
  | inr e ↦ rw e (Picks-next test n j (first_bit test n (j + 1)) e (first_bit-Picks test n (j + 1)))
]

every_below_complete :
    (n : ℕ) (p : ℕ → Bool) → ((k : ℕ) → k < n → p k ≡ true) → every_below n p ≡ true
unfolding every_below
every_below_complete zero p h = refl
every_below_complete (suc n) p h =
    rw (every_below_complete n p (λ k hk. h k (omega arith))) (h n (omega arith))

full_test : (b : ℕ) → b < 256 → (bit_and b 0xff == 0xff) ≡ every_below 8 (bit b)
unfolding every_below bit
full_test b h =
    same→eq _ _
      (every_below_lem 256 (λ b. same (bit_and b 0xff == 0xff) (every_below 8 (bit b))) b refl h)

empty_test : (b : ℕ) → b < 256 → (b == 0) ≡ every_below 8 (λ j. not (bit b j))
unfolding every_below bit
empty_test b h =
    same→eq _ _
      (every_below_lem 256 (λ b. same (b == 0) (every_below 8 (λ j. not (bit b j)))) b refl h)

free_test-bit : (b j : ℕ) → IsByte b → j < 8 → free_test b j ≡ not (bit b j)
free_test-bit b j hb hj = rw (mask-test b j hb hj) (if-not (bit b j))
  where
    if-not : (x : Bool) → (if x then false else true) ≡ not x
    if-not true = refl
    if-not false = refl

-- The bytes that FirstFree skips are those with no free bit.
full_byte : (b k : ℕ) → IsByte b → (bit_and b 0xff == 0xff) ≡ true → k < 8 → bit b k ≡ true
full_byte b k hb e hk = every_below_lem 8 (bit b) k (sym (full_test b hb) ∙ e) hk

not-full : (b : ℕ) → IsByte b → Picks (free_test b) 8 0 none → (bit_and b 0xff == 0xff) ≡ true
not-full b hb h =
    full_test b hb
    ∙ every_below_complete 8 (bit b) (λ k hk.
      not-false (bit b k) (sym (free_test-bit b k hb hk) ∙ h k (omega arith) (omega arith)))
  where
    not-false : (x : Bool) → not x ≡ false → x ≡ true
    not-false true e = refl
    not-false false e = cc

empty_byte : (b k : ℕ) → IsByte b → (b == 0) ≡ true → k < 8 → bit b k ≡ false
empty_byte b k hb e hk =
    not-true (bit b k) (every_below_lem 8 (λ j. not (bit b j)) k (sym (empty_test b hb) ∙ e) hk)
  where
    not-true : (x : Bool) → not x ≡ true → x ≡ false
    not-true true e = cc
    not-true false e = refl

not-empty : (b : ℕ) → IsByte b → Picks (used_test b) 8 0 none → (b == 0) ≡ true
not-empty b hb h =
    empty_test b hb
    ∙ every_below_complete 8 (λ j. not (bit b j))
        (λ k hk. ap not (sym (complement-test b k hb hk) ∙ h k (omega arith) (omega arith)))

not-true-eq : (x : Bool) → not x ≡ true → x ≡ false
not-true-eq true e = cc
not-true-eq false e = refl

not-false-eq : (x : Bool) → not x ≡ false → x ≡ true
not-false-eq true e = refl
not-false-eq false e = cc

-- What the loop over the bytes does with a byte that it does not skip.
free_pick :
    (b : ℕ) (bs : List ℕ) (i : ℕ) (r : Option ℕ)
    → IsByte b
    → (bit_and b 0xff == 0xff) ≡ false
    → Picks (free_test b) 8 0 r
    → Answers false (b ∷ bs) (λ m. 8 * i + m) (elim r [ none ↦ none | some j ↦ some (8 * i + j) ])
free_pick b bs i none hb e h = cc (not-full b hb h)
free_pick b bs i (some j) hb e (lo, hi, hit, below) = (
  j,
  First-here b bs false j (omega arith)
      (not-true-eq _ (sym (free_test-bit b j hb (omega arith)) ∙ hit))
      (λ k hk.
        not-false-eq _ (sym (free_test-bit b k hb (omega arith)) ∙ below k (omega arith) hk)),
  refl,
)

first_free_loop-Answers :
    (bs : List ℕ) (i : ℕ) → All IsByte bs → Answers false bs (λ m. 8 * i + m) (first_free_loop bs i)
unfolding first_free_loop
first_free_loop-Answers [] i all = λ k h. absurd (omega arith)
first_free_loop-Answers (b ∷ bs) i (hb, all) = elim (Bool-cases (bit_and b 0xff == 0xff)) [
  | inl e ↦ rw e (
      Answers-later b bs false (λ k hk. full_byte b k hb e hk) (λ m. 8 * i + m)
        (λ m. 8 * (i + 1) + m) (first_free_loop bs (i + 1)) (λ m. omega arith)
        (first_free_loop-Answers bs (i + 1) all))
  | inr e ↦ rw e (free_pick b bs i _ hb e (first_bit-Picks (free_test b) 8 0))
]

-- FirstFree looks at the bytes from start/8 on. It answers -1 exactly where none of them has a
-- free bit, and else the first location, counted from the beginning of byte start/8, whose bit is
-- free. It panics where that byte is past the end of the slice.
pub first_free-Answers :
    (bm : Bitmap) (start : ℕ)
    → All IsByte bm.bits
    → (start / 8 ≤ length bm.bits
        → (r : Option ℕ) × (first_free bm start ≡ ok r)
          × Answers false (drop (start / 8) bm.bits) (λ m. m) r)
      × (length bm.bits < start / 8 → first_free bm start ≡ panic)
unfolding first_free
first_free-Answers bm start all = (
  λ h. (
    first_free_loop (drop (start / 8) bm.bits) 0,
    ground arith,
    Answers-same (λ m. 8 * 0 + m) (λ m. m) _ (drop (start / 8) bm.bits) (λ m. omega arith)
        (first_free_loop-Answers (drop (start / 8) bm.bits) 0 (All-drop (start / 8) bm.bits all)),
  ),
  λ h. ground arith,
)
  where
    Answers-same :
        (f g : ℕ → ℕ) (r : Option ℕ) (bs : List ℕ)
        → ((m : ℕ) → f m ≡ g m)
        → Answers false bs f r
        → Answers false bs g r
    Answers-same f g none bs same h = h
    Answers-same f g (some l) bs same (m, found, e) = (m, found, e ∙ same m)

    All-drop : (n : ℕ) (bs : List ℕ) → All IsByte bs → All IsByte (drop n bs)
    All-drop zero bs h = h
    All-drop (suc n) [] h = h
    All-drop (suc n) (b ∷ bs) h = All-drop n bs h.1

set_pick :
    (b : ℕ) (bs : List ℕ) (i : ℕ) (r : Option ℕ)
    → IsByte b
    → (b == 0) ≡ false
    → Picks (used_test b) 8 0 r
    → Answers true
        (b ∷ bs)
        (λ m. 8 * (i + m / 8) + (8 - m % 8))
        (elim r [ none ↦ none | some j ↦ some (8 * i + (8 - j)) ])
set_pick b bs i none hb e h = cc (not-empty b hb h)
set_pick b bs i (some j) hb e (lo, hi, hit, below) = (
  j,
  First-here b bs true j (omega arith) (sym (complement-test b j hb (omega arith)) ∙ hit)
      (λ k hk. sym (complement-test b k hb (omega arith)) ∙ below k (omega arith) hk),
  omega arith,
)

first_set_loop-Answers :
    (bs : List ℕ) (i : ℕ)
    → All IsByte bs
    → Answers true bs (λ m. 8 * (i + m / 8) + (8 - m % 8)) (first_set_loop bs i)
unfolding first_set_loop
first_set_loop-Answers [] i all = λ k h. absurd (omega arith)
first_set_loop-Answers (b ∷ bs) i (hb, all) = elim (Bool-cases (b == 0)) [
  | inl e ↦ rw e (
      Answers-later b bs true (λ k hk. empty_byte b k hb e hk) (λ m. 8 * (i + m / 8) + (8 - m % 8))
        (λ m. 8 * (i + 1 + m / 8) + (8 - m % 8)) (first_set_loop bs (i + 1)) (λ m. omega arith)
        (first_set_loop-Answers bs (i + 1) all))
  | inr e ↦ rw e (set_pick b bs i _ hb e (first_bit-Picks (used_test b) 8 0))
]

-- FirstSet answers -1 exactly where no bit is set. Else, for the first set location m, it answers
-- 8 * (m/8) + (8 - m%8), which counts m's bit number from the other end of its byte.
pub first_set-Answers :
    (bm : Bitmap)
    → All IsByte bm.bits
    → Answers true bm.bits (λ m. 8 * (0 + m / 8) + (8 - m % 8)) (first_set bm)
unfolding first_set
first_set-Answers bm all = first_set_loop-Answers bm.bits 0 all
