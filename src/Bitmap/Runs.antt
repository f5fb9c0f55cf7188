-- ===== src/Bitmap/Runs.antt =====
-- FreeList of util/bitmap.go: the runs of free bits.
use go_diskfs.Base.{
  subst, ℕ, zero, suc, ◌+◌, ◌*◌, ◌≤◌, ◌<◌, ◌≡◌, refl, sym, ◌∙◌, ltb, leb, Bool, true, false, not,
  ◌&&◌, ◌||◌, List, [], ◌∷◌, ◌++◌, length, All, ◌==◌, arith, inl, inr, Bool-cases, Option, none,
  some, bit_and,
}
use go_diskfs.Base.Bytes.{IsByte}
use go_diskfs.Bitmap.{
  Bitmap, Contiguous, Scan, mask, close_run, free_step, free_byte, free_loop, free_list,
}
use go_diskfs.Bitmap.Bits.{bit_at, mask-test}
use go_diskfs.Bitmap.First.{bit_at-head, bit_at-tail}

-- Whether location k lies in one of the runs.
unfoldable pub covers : List Contiguous → ℕ → Bool
covers [] k = false
covers (c ∷ cs) k = (leb c.position k && ltb k (c.position + c.count)) || covers cs k

-- The runs are not empty, stand in ascending order from `lo` on, and never touch.
abbrev pub Separated : ℕ → List Contiguous → Type 0
Separated lo [] = Unit {0}
Separated lo (c ∷ cs) = (lo ≤ c.position) × (0 < c.count) × Separated (c.position + c.count + 1) cs

abbrev EndBelow : ℕ → List Contiguous → Type 0
EndBelow p cs = All (λ c. c.position + c.count < p) cs

EndBelow-mono : (p q : ℕ) (cs : List Contiguous) → p ≤ q → EndBelow p cs → EndBelow q cs
EndBelow-mono p q [] h e = tt
EndBelow-mono p q (c ∷ cs) h e = (omega (arith, e.0), EndBelow-mono p q cs h e.1)

covers-append :
    (cs : List Contiguous) (c : Contiguous) (k : ℕ)
    → covers (cs ++ (c ∷ [])) k
      ≡ (covers cs k || (leb c.position k && ltb k (c.position + c.count)))
unfolding covers
covers-append [] c k = ground arith
covers-append (x ∷ xs) c k = ground (arith, covers-append xs c k)

Separated-append :
    (lo : ℕ) (cs : List Contiguous) (c : Contiguous)
    → Separated lo cs
    → EndBelow c.position cs
    → lo ≤ c.position
    → 0 < c.count
    → Separated lo (cs ++ (c ∷ []))
Separated-append lo [] c s e h pos = (h, pos, tt)
Separated-append lo (x ∷ xs) c (a, b, rest) e h pos =
    (a, b, Separated-append (x.position + x.count + 1) xs c rest e.1 (omega (arith, e.0)) pos)

EndBelow-append :
    (p : ℕ) (cs : List Contiguous) (c : Contiguous)
    → EndBelow p cs
    → c.position + c.count < p
    → EndBelow p (cs ++ (c ∷ []))
EndBelow-append p [] c e h = (h, tt)
EndBelow-append p (x ∷ xs) c e h = (e.0, EndBelow-append p xs c e.1 h)

abbrev run_start : ℕ → Option ℕ → ℕ
run_start at none = at
run_start at (some p) = p

abbrev Open : ℕ → ℕ → Option ℕ → Type 0
Open at n none = n ≡ 0
Open at n (some p) = (p + n ≡ at) × (0 < n)

-- The loops' invariant with the locations below `at` behind them; `used k` says that bit k is set.
record Inv (used : ℕ → Bool) (at : ℕ) (s : Scan) : Type 0 where
  is_open : Open at s.count s.location
  separated : Separated 0 s.list
  ends : EndBelow (run_start at s.location) s.list
  past : (k : ℕ) → covers s.list k ≡ (ltb k (run_start at s.location) && not (used k))
  current : (k : ℕ) → run_start at s.location ≤ k → k < at → used k ≡ false

abbrev scan : List Contiguous → Option ℕ → ℕ → Scan
scan l o n = record { list = l; location = o; count = n }

abbrev start_scan : Scan
start_scan = record { list = []; location = none; count = 0 }

and-false : (b : Bool) → (b && false) ≡ false
and-false true = refl
and-false false = refl

module _ (used : ℕ → Bool) where
  Inv-start : Inv used 0 start_scan
  unfolding covers
  Inv-start = record {
    is_open = refl;
    separated = tt;
    ends = tt;
    past = λ k. ground arith;
    current = λ k lo hi. absurd (omega arith);
  }

  module _ (at : ℕ) (l : List Contiguous) where
    -- The state that `close_run` leaves.
    Closed : Option ℕ → ℕ → Type 0
    Closed o n =
        ((k : ℕ) → covers (close_run (scan l o n)).list k ≡ (ltb k at && not (used k)))
        × Separated 0 (close_run (scan l o n)).list
        × EndBelow (at + 1) (close_run (scan l o n)).list

    close-Closed : (o : Option ℕ) (n : ℕ) → Inv used at (scan l o n) → Closed o n
    unfolding Closed close_run
    close-Closed none n inv =
        (inv.past, inv.separated, EndBelow-mono at (at + 1) l (omega arith) inv.ends)
    close-Closed (some p) n inv = (
      λ k. covers-append l (record { position = p; count = n }) k ∙ whole k,
      Separated-append 0 l (record { position = p; count = n }) inv.separated inv.ends (omega arith)
          inv.is_open.1,
      EndBelow-append (at + 1) l (record { position = p; count = n })
          (EndBelow-mono p (at + 1) l (omega (arith, inv.is_open.0)) inv.ends)
          (omega (arith, inv.is_open.0)),
    )
      where
        whole : (k : ℕ) → (covers l k || (leb p k && ltb k (p + n))) ≡ (ltb k at && not (used k))
        whole k = ground (arith, inv.past k, inv.current k, inv.is_open.0)

    step-used :
        (o : Option ℕ) (n : ℕ)
        → Inv used at (scan l o n)
        → used at ≡ true
        → Inv used (at + 1) (close_run (scan l o n))
    unfolding Closed close_run
    step-used none n inv e = record {
      is_open = inv.is_open;
      separated = (close-Closed none n inv).1;
      ends = (close-Closed none n inv).2;
      past = λ k. (close-Closed none n inv).0 k ∙ used-next k;
      current = λ k lo hi. absurd (omega arith);
    }
      where
        used-next : (k : ℕ) → (ltb k at && not (used k)) ≡ (ltb k (at + 1) && not (used k))
        used-next k = elim (Bool-cases (k == at)) [
          | inl same ↦ let e' : k ≡ at = ground arith in rw e' (rw e (ground arith))
          | inr other ↦ ground arith
        ]
    step-used (some p) n inv e = record {
      is_open = refl;
      separated = (close-Closed (some p) n inv).1;
      ends = (close-Closed (some p) n inv).2;
      past = λ k. (close-Closed (some p) n inv).0 k ∙ used-next k;
      current = λ k lo hi. absurd (omega arith);
    }
      where
        used-next : (k : ℕ) → (ltb k at && not (used k)) ≡ (ltb k (at + 1) && not (used k))
        used-next k = elim (Bool-cases (k == at)) [
          | inl same ↦ let e' : k ≡ at = ground arith in rw e' (rw e (ground arith))
          | inr other ↦ ground arith
        ]

    step-free :
        (o : Option ℕ) (n : ℕ)
        → Inv used at (scan l o n)
        → used at ≡ false
        → Inv used (at + 1) (scan l (some (run_start at o)) (n + 1))
    step-free none n inv e = record {
      is_open = (omega (arith, inv.is_open), omega arith);
      separated = inv.separated;
      ends = inv.ends;
      past = inv.past;
      current = λ k lo hi. let e' : k ≡ at = omega arith in rw e' e;
    }
    step-free (some p) n inv e = record {
      is_open = (omega (arith, inv.is_open.0), omega arith);
      separated = inv.separated;
      ends = inv.ends;
      past = inv.past;
      current = λ k lo hi. elim (Bool-cases (k == at)) [
        | inl same ↦ let e' : k ≡ at = ground arith in rw e' e
        | inr other ↦ inv.current k lo (ground arith)
      ];
    }

-- One round of the inner loop, at bit j of byte i.
free_step-Inv :
    (used : ℕ → Bool) (i b j : ℕ) (s : Scan)
    → Inv used (8 * i + j) s
    → (bit_and b (mask j) == mask j) ≡ used (8 * i + j)
    → Inv used (8 * i + j + 1) (free_step i b j s)
unfolding free_step
free_step-Inv used i b j s inv e = elim (Bool-cases (used (8 * i + j))) [
  | inl u ↦ rw (e, u) (step-used used (8 * i + j) s.list s.location s.count inv u)
  | inr u ↦
      rw (e, u)
        (rw (← starts s.location) (step-free used (8 * i + j) s.list s.location s.count inv u))
]
  where
    starts :
        (o : Option ℕ)
        → some (run_start (8 * i + j) o) ≡ elim o [ none ↦ some (8 * i + j) | some p ↦ some p ]
    starts none = refl
    starts (some p) = refl

free_byte-Inv :
    (used : ℕ → Bool) (n i b j : ℕ) (s : Scan)
    → j + n ≡ 8
    → ((m : ℕ) → m < 8 → (bit_and b (mask m) == mask m) ≡ used (8 * i + m))
    → Inv used (8 * i + j) s
    → Inv used (8 * i + 8) (free_byte n i b j s)
unfolding free_byte
free_byte-Inv used zero i b j s e reads inv =
    let e' : j ≡ 8 = omega arith in subst (λ t. Inv used (8 * i + t) s) e' inv
free_byte-Inv used (suc n) i b j s e reads inv =
    free_byte-Inv used n i b (j + 1) (free_step i b j s) (omega arith) reads (
      let e' : 8 * i + (j + 1) ≡ 8 * i + j + 1 = omega arith in
      rw e' (free_step-Inv used i b j s inv (reads j (omega arith))))

free_loop-Inv :
    (used : ℕ → Bool) (bs : List ℕ) (i : ℕ) (s : Scan)
    → All IsByte bs
    → ((k : ℕ) → k < 8 * length bs → used (8 * i + k) ≡ bit_at bs k)
    → Inv used (8 * i) s
    → Inv used (8 * (i + length bs)) (free_loop bs i s)
unfolding free_loop
free_loop-Inv used [] i s all reads inv = let e : 8 * (i + 0) ≡ 8 * i = omega arith in rw e inv
free_loop-Inv used (b ∷ bs) i s (hb, all) reads inv =
    let e : 8 * (i + suc (length bs)) ≡ 8 * (i + 1 + length bs) = omega arith in
    rw e (
      free_loop-Inv used bs (i + 1) (free_byte 8 i b 0 s) all
        (λ k hk. moved k ∙ reads (8 + k) (omega arith) ∙ bit_at-tail b bs k)
        (let e' : 8 * (i + 1) ≡ 8 * i + 8 = omega arith in
          rw e' (
            free_byte-Inv used 8 i b 0 s (omega arith)
              (λ m hm.
                mask-test b m hb hm ∙ sym (bit_at-head b bs m hm) ∙ sym (reads m (omega arith)))
              (let e'' : 8 * i + 0 ≡ 8 * i = omega arith in rw e'' inv))))
  where
    moved : (k : ℕ) → used (8 * (i + 1) + k) ≡ used (8 * i + (8 + k))
    moved k = let e : 8 * (i + 1) + k ≡ 8 * i + (8 + k) = omega arith in rw e

-- FreeList lists exactly the free locations of the bitmap: its runs are not empty, stand in
-- ascending order with a used bit at least between two of them, and location k is in a run exactly
-- where the bitmap has k and its bit is free.
pub free_list_lem :
    (bm : Bitmap)
    → All IsByte bm.bits
    → Separated 0 (free_list bm)
      × ((k : ℕ) → covers (free_list bm) k ≡ (ltb k (8 * length bm.bits) && not (bit_at bm.bits k)))
unfolding free_list Closed
free_list_lem bm all =
    let used = bit_at bm.bits in
    let last : Scan = free_loop bm.bits 0 start_scan in
    let inv : Inv used (8 * (0 + length bm.bits)) last =
      free_loop-Inv used bm.bits 0 start_scan all
        (λ k hk. let e : 8 * 0 + k ≡ k = omega arith in rw e) (Inv-start used) in
    let done =
      close-Closed used (8 * (0 + length bm.bits)) last.list last.location last.count inv in
    (
      done.1,
      λ k. let e : 8 * length bm.bits ≡ 8 * (0 + length bm.bits) = omega arith in rw e (done.0 k),
    )
