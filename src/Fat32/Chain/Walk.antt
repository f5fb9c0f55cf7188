-- ===== src/Fat32/Chain/Walk.antt =====
-- getClusterList answers exactly the chains of the table.
use go_diskfs.Base.{
  ℕ, zero, suc, ◌+◌, ◌≤◌, ◌<◌, ◌≡◌, ◌≢◌, refl, sym, ap, ◌∙◌, true, false, Option, none, some, List,
  [], ◌∷◌, ◌++◌, append_assoc, Result, ok, get_elem?, length, All, ltb, ◌==◌, arith, Bool-cases,
  inl, inr, ◌↔◌,
}
use go_diskfs.Fat32.Table.{Table, is_eoc}
use go_diskfs.Fat32.Chain.{Error, chain_step, start_chain, chain_loop, get_cluster_list}
use go_diskfs.Base.Distinct.{Fresh, Distinct, length-Distinct, All-map}

-- The clusters from c to an end-of-chain marker, each the table's entry of the one before.
pub data Chain (clusters : List ℕ) (max : ℕ) : ℕ → List ℕ → Type 0 where
  last : {c v : ℕ} → get_elem? clusters c ≡ some v → is_eoc v ≡ true → Chain clusters max c (c ∷ [])
  step :
      {c n : ℕ} {cs : List ℕ}
      → get_elem? clusters c ≡ some n
      → is_eoc n ≡ false
      → n ≤ max
      → 2 ≤ c
      → Chain clusters max n cs
      → Chain clusters max c (c ∷ cs)

abbrev pub ChainOf : Table → ℕ → List ℕ → Type 0
ChainOf t c cs = Chain t.clusters t.max_cluster c cs

-- With a round for each cluster the loop finds the chain.
chain_loop-Chain :
    (fuel : ℕ) (t : Table) {c : ℕ} {cs : List ℕ} (before : List ℕ)
    → ChainOf t c cs
    → length cs ≤ fuel
    → chain_loop fuel t c before ≡ ok (before ++ cs)
unfolding chain_loop
chain_loop-Chain zero t before (last e eoc) h = absurd (omega arith)
chain_loop-Chain zero t before (step e more small two rest) h = absurd (omega arith)
chain_loop-Chain (suc fuel) t before (last {c} e eoc) h = rw (e, eoc)
chain_loop-Chain (suc fuel) t before (step {c} {n} {cs} e more small two rest) h =
    let inside : ltb t.max_cluster n ≡ false = ground arith in
    let data_cluster : ltb c 2 ≡ false = ground arith in
    rw (e, more, inside, data_cluster)
      (chain_loop-Chain fuel t (before ++ (c ∷ [])) rest (omega arith)
        ∙ ap ok (append_assoc before (c ∷ []) cs))

ok-eq : {x y : List ℕ} → ◌≡◌ {A = Result Error (List ℕ)} (ok x) (ok y) → x ≡ y
ok-eq h = cc

step_sound :
    (t : Table) (c : ℕ) (before out : List ℕ) (more : ℕ → List ℕ → Result Error (List ℕ))
    → ((n : ℕ)
        → more n (before ++ (c ∷ [])) ≡ ok out
        → (cs : List ℕ) × ChainOf t n cs × (out ≡ (before ++ (c ∷ [])) ++ cs))
    → (o : Option ℕ) → get_elem? t.clusters c ≡ o
    → chain_step t c (before ++ (c ∷ [])) more o ≡ ok out
    → (cs : List ℕ) × ChainOf t c cs × (out ≡ before ++ cs)
unfolding chain_step
step_sound t c before out more ih none at e = cc
step_sound t c before out more ih (some n) at e = elim (Bool-cases (is_eoc n)) [
  | inl eoc ↦ (c ∷ [], last at eoc, sym (ok-eq (rw eoc at e)))
  | inr on ↦ elim (Bool-cases (ltb t.max_cluster n)) [
    | inl big ↦ cc (rw (on, big) at e)
    | inr small ↦ elim (Bool-cases (ltb c 2)) [
      | inl low ↦ cc (rw (on, small, low) at e)
      | inr high ↦
          let (cs, chain, eq) = ih n (rw (on, small, high) at e) in
          (
            c ∷ cs,
            step at on (ground arith) (ground arith) chain,
            eq ∙ append_assoc before (c ∷ []) cs,
          )
    ]
  ]
]

-- What the loop finds is a chain.
chain_loop_sound :
    (fuel : ℕ) (t : Table) (c : ℕ) (before out : List ℕ)
    → chain_loop fuel t c before ≡ ok out
    → (cs : List ℕ) × ChainOf t c cs × (out ≡ before ++ cs)
unfolding chain_loop
chain_loop_sound zero t c before out e = ground arith
chain_loop_sound (suc fuel) t c before out e =
    step_sound t c before out (chain_loop fuel t)
      (λ n. chain_loop_sound fuel t n (before ++ (c ∷ [])) out) (get_elem? t.clusters c) refl e

module _ (clusters : List ℕ) (max : ℕ) where
  -- An entry is no end of a chain and a link at once.
  two_ends :
      (c d v n : ℕ)
      → c ≡ d
      → get_elem? clusters c ≡ some v
      → get_elem? clusters d ≡ some n
      → is_eoc v ≡ true
      → is_eoc n ≡ false
      → ⊥
  two_ends c d v n same a b x y = cc

  same_next :
      (c d v n : ℕ) → c ≡ d → get_elem? clusters c ≡ some v → get_elem? clusters d ≡ some n → v ≡ n
  same_next c d v n same a b = cc

  -- A chain is determined by its first cluster; here, its length.
  Chain-length :
      {c d : ℕ} {xs ys : List ℕ}
      → Chain clusters max c xs
      → Chain clusters max d ys
      → c ≡ d
      → length xs ≡ length ys
  Chain-length (last e eoc) (last e' eoc') same = refl
  Chain-length (last e eoc) (step e' more small two rest) same =
      absurd (two_ends _ _ _ _ same e e' eoc more)
  Chain-length (step e more small two rest) (last e' eoc') same =
      absurd (two_ends _ _ _ _ (sym same) e' e eoc' more)
  Chain-length (step e more small two rest) (step e' more' small' two' rest') same =
      ap suc (Chain-length rest rest' (same_next _ _ _ _ same e e'))

  -- Each cluster of a chain begins a chain that is no longer.
  abbrev Suffix : ℕ → ℕ → Type 0
  Suffix n x = (ys : List ℕ) × Chain clusters max x ys × (length ys ≤ n)

  Chain-suffixes : {c : ℕ} {xs : List ℕ} → Chain clusters max c xs → All (Suffix (length xs)) xs
  Chain-suffixes (last {c} e eoc) = ((c ∷ [], last e eoc, omega arith), tt)
  Chain-suffixes (step {c} {cs} e more small two rest) = (
    (c ∷ cs, step e more small two rest, omega arith),
    All-map (Suffix (length cs)) (Suffix (suc (length cs))) cs
        (λ x (ys, chain, h). (ys, chain, omega arith)) (Chain-suffixes rest),
  )

  Chain-Fresh :
      {c n : ℕ} {cs xs : List ℕ}
      → Chain clusters max c xs
      → length xs ≡ suc (length cs)
      → Chain clusters max n cs
      → Fresh c cs
  Chain-Fresh {c} {cs} whole size rest =
      All-map (Suffix (length cs)) (λ x. x ≢ c) cs
        (λ x (ys, chain, h) same. absurd (omega (arith, Chain-length chain whole same, size)))
        (Chain-suffixes rest)

  -- No cluster is in a chain twice.
  pub Chain-Distinct : {c : ℕ} {cs : List ℕ} → Chain clusters max c cs → Distinct cs
  Chain-Distinct (last e eoc) = (tt, tt)
  Chain-Distinct (step e more small two rest) =
      (Chain-Fresh (step e more small two rest) refl rest, Chain-Distinct rest)

  pub Chain-below :
      {c : ℕ} {cs : List ℕ} → c ≤ max → Chain clusters max c cs → All (λ x. x < suc max) cs
  Chain-below h (last e eoc) = (omega arith, tt)
  Chain-below h (step e more small two rest) = (omega arith, Chain-below small rest)

-- getClusterList of a cluster that the table has, with an entry that is not free, returns exactly
-- the cluster chain from it: a list is returned if and only if it is the table's chain, and the
-- chain has no cluster twice.
pub get_cluster_list-Chain :
    (t : Table) (c : ℕ) (cs : List ℕ) (v : ℕ)
    → c ≤ t.max_cluster
    → get_elem? t.clusters c ≡ some v
    → v ≢ 0
    → ((get_cluster_list t c ≡ ok cs) ↔ ChainOf t c cs) × (ChainOf t c cs → Distinct cs)
unfolding get_cluster_list start_chain
get_cluster_list-Chain t c cs v h at used = (
  (
    (λ e.
        let (ys, chain, eq) = chain_loop_sound (t.max_cluster + 2) t c [] cs (rw (← starts) e) in
        rw eq chain),
    (λ chain.
        starts
        ∙ chain_loop-Chain (t.max_cluster + 2) t [] chain (
            omega (
              arith,
              length-Distinct (suc t.max_cluster) cs (Chain-below t.clusters t.max_cluster h chain)
                  (Chain-Distinct t.clusters t.max_cluster chain),
            ))),
  ),
  Chain-Distinct t.clusters t.max_cluster,
)
  where
    starts : get_cluster_list t c ≡ chain_loop (t.max_cluster + 2) t c []
    starts =
        let inside : ltb t.max_cluster c ≡ false = ground arith in
        let taken : (v == 0) ≡ false = ground arith in rw (inside, at, taken)
