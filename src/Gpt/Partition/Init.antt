-- ===== src/Gpt/Partition/Init.antt =====
-- initEntry of partition/gpt/partition.go, which each conversion of a table to bytes calls again.
use native.Mathlib.Nat.{div-add-mod'}
use go_diskfs.Base.Bits.{mod-mul}
use go_diskfs.Base.Bytes.{bytes_equal}
use go_diskfs.Base.{
  ok_injective, suc, ℕ, ◌+◌, ◌-◌, ◌*◌, ◌/◌, ◌%◌, ◌^◌, ◌≤◌, ◌<◌, ◌≡◌, ◌≢◌, refl, sym, ap, ◌∙◌, subst,
  true, false, ◌&&◌, some, List, [], ◌∷◌, Result, ok, err, panic, unfinished, length, ltb, leb, ◌⊎◌,
  inl, inr, ◌==◌, Bool-cases, Option-cases, arith,
}
use go_diskfs.Gpt.Uuid.{length-to_upper, add64, sub64, UuidLibrary, IsUuidLibrary, IsUuid, to_upper}
use go_diskfs.Gpt.Partition.{
  Partition, Error, invalid_uuid, parse_or, calculated_size, set_sizes, own_guid, init_entry,
  is_unused, unused,
}

-- The fields fit 64 bits, and neither the partition's start nor the start that a partition without
-- one is given runs out of 64 bits when the sectors of its size are added.
pub record IsPlaced (blocksize starting : ℕ) (p : Partition) : Type 0 where
  pub start_fits : p.start + p.size / blocksize < 2 ^ 64
  pub end_fits : p.end < 2 ^ 64
  pub size_fits : p.size < 2 ^ 64
  pub starting_fits : starting + p.size / blocksize < 2 ^ 64

-- The sectors from start to end have the partition's size.
abbrev pub Consistent : ℕ → Partition → Type 0
Consistent blocksize p = (p.start ≤ p.end) × (p.size ≡ calculated_size blocksize p.start p.end)

-- The size that initEntry computes, without the wrap-around of its steps.
calculated_size-suc :
    (blocksize start end : ℕ)
    → start ≤ end
    → calculated_size blocksize start end ≡ suc (end - start) * blocksize % 2 ^ 64
calculated_size-suc blocksize start end h =
    let count : add64 (sub64 end start) 1 ≡ suc (end - start) % 2 ^ 64 = omega arith in
    rw count (mod-mul (suc (end - start)) blocksize (2 ^ 64))

-- What set_sizes makes of a partition where it returns one.
Sized : ℕ → Partition → Result Error Partition → Type 0
Sized blocksize p (ok p') = Consistent blocksize p' × (p'.type ≡ p.type) × (p'.guid ≡ p.guid)
Sized blocksize p (err e) = Unit {0}
Sized blocksize p panic = Unit {0}
Sized blocksize p unfinished = Unit {0}

last_sector :
    (blocksize start size : ℕ)
    → blocksize ≢ 0
    → size ≢ 0
    → size % blocksize ≡ 0
    → size < 2 ^ 64
    → start + size / blocksize < 2 ^ 64
    → let end = sub64 (add64 start (size / blocksize)) 1 in
      (start ≤ end) × (size ≡ calculated_size blocksize start end)
last_sector blocksize start size nb ns whole h fits =
    let q = size / blocksize in
    let whole' : q * blocksize ≡ size = omega (arith, div-add-mod' size blocksize) in
    let some_sectors : 0 < q = elim (Bool-cases (q == 0)) [
      | inl z ↦
          let z' : q ≡ 0 = ground arith in
          absurd (ns (sym whole' ∙ ap (λ k. k * blocksize) z' ∙ omega arith))
      | inr n ↦ ground arith
    ] in
    let last : sub64 (add64 start q) 1 ≡ start + q - 1 = omega arith in
    let count : add64 (sub64 (start + q - 1) start) 1 ≡ q = omega arith in
    rw last (omega arith, rw count (rw whole' (omega arith)))

set_sizes-Sized :
    (blocksize starting : ℕ) (p : Partition)
    → IsPlaced blocksize starting p
    → Sized blocksize p (set_sizes blocksize starting p)
unfolding set_sizes Sized
set_sizes-Sized blocksize starting p h =
    let calculated = calculated_size blocksize p.start p.end in
    elim (Bool-cases (leb p.start p.end && p.size == calculated)) [
      | inl e ↦ rw e ((ground arith, ground arith), refl, refl)
      | inr e ↦ rw e (elim (Bool-cases (p.size == 0)) [
        | inl z ↦ rw z (elim (Bool-cases (leb p.start p.end)) [
          | inl l ↦ rw l ((ground arith, refl), refl, refl)
          | inr l ↦ rw l tt
        ])
        | inr z ↦ rw z (elim (Bool-cases (blocksize == 0)) [
          | inl b ↦ rw b tt
          | inr b ↦ rw b (elim (Bool-cases (p.size % blocksize == 0 && p.end == 0)) [
            | inr w ↦ rw w tt
            | inl w ↦ rw w (elim (Bool-cases (ltb 0 p.start)) [
              | inl g ↦ rw g (
                last_sector blocksize p.start p.size (ground arith) (ground arith) (ground arith)
                    h.size_fits h.start_fits,
                refl,
                refl,
              )
              | inr g ↦ rw g (
                last_sector blocksize starting p.size (ground arith) (ground arith) (ground arith)
                    h.size_fits h.starting_fits,
                refl,
                refl,
              )
            ])
          ])
        ])
      ])
    ]

-- A consistent partition stays as it is.
pub set_sizes-Consistent :
    (blocksize starting : ℕ) (p : Partition)
    → Consistent blocksize p
    → set_sizes blocksize starting p ≡ ok p
unfolding set_sizes
set_sizes-Consistent blocksize starting p (a, b) =
    let e : (leb p.start p.end && p.size == calculated_size blocksize p.start p.end) ≡ true =
      ground arith in
    rw e refl

pub own_guid_parsed :
    (u : UuidLibrary) (random : List ℕ) (p : Partition) (s g : List ℕ)
    → p.guid ≡ s
    → 0 < length s
    → u.parse s ≡ some g
    → own_guid u random p ≡ ok g
unfolding own_guid parse_or
own_guid_parsed u random p [] g e h parsed = absurd (omega arith)
own_guid_parsed u random p (c ∷ s) g e h parsed =
    rw (e, own_guid) (rw (ap u.parse e ∙ parsed, parse_or) refl)

parse_or-cases :
    (u : UuidLibrary) (i : IsUuidLibrary u) (x : Error) (s : List ℕ)
    → ((g : List ℕ) × (parse_or u x s ≡ ok g) × (IsUuid g)) ⊎ (parse_or u x s ≡ err x)
unfolding parse_or
parse_or-cases u i x s = elim (Option-cases (u.parse s)) [
  | inl (g, e) ↦ inl (g, rw (e, parse_or) refl, i.parse-IsUuid s g e)
  | inr e ↦ inr (rw (e, parse_or) refl)
]

own_guid-cases :
    (u : UuidLibrary) (i : IsUuidLibrary u) (random : List ℕ) (p : Partition)
    → IsUuid random
    → ((g : List ℕ) × (own_guid u random p ≡ ok g) × (IsUuid g))
      ⊎ ((x : Error) × (own_guid u random p ≡ err x))
unfolding own_guid
own_guid-cases u i random p h = go p.guid refl
  where
    go :
        (s : List ℕ)
        → p.guid ≡ s
        → ((g : List ℕ) × (own_guid u random p ≡ ok g) × (IsUuid g))
          ⊎ ((x : Error) × (own_guid u random p ≡ err x))
    go [] e = inl (random, rw (e, own_guid) refl, h)
    go (c ∷ s) e = elim (parse_or-cases u i (invalid_uuid p.guid) p.guid) [
      | inl (g, r, l) ↦ inl (g, rw (e, own_guid) r, l)
      | inr r ↦ inr (invalid_uuid p.guid, rw (e, own_guid) (r ∙ ap (λ z. err (invalid_uuid z)) e))
    ]

-- What set_sizes returned is the consistent partition, with the type and the GUID it was given.
sized :
    (blocksize starting : ℕ) (p p' : Partition)
    → IsPlaced blocksize starting p
    → set_sizes blocksize starting p ≡ ok p'
    → Consistent blocksize p' × (p'.type ≡ p.type) × (p'.guid ≡ p.guid)
unfolding Sized
sized blocksize starting p p' h e =
    subst (Sized blocksize p) e (set_sizes-Sized blocksize starting p h)

module _ (u : UuidLibrary) (i : IsUuidLibrary u) (random : List ℕ) (blocksize starting : ℕ)
    (p p' : Partition) (random_uuid : IsUuid random) (h : IsPlaced blocksize starting p)
    (ran : init_entry u random blocksize starting p ≡ ok p') (used : is_unused p ≡ false) where
  -- What initEntry does to an entry that is in use.
  entered :
      (g : List ℕ) × (IsUuid g)
      × (p'.guid ≡ to_upper (u.to_string g))
      × (p'.type ≡ p.type)
      × Consistent blocksize p'
  unfolding init_entry
  entered = elim (own_guid-cases u i random p random_uuid) [
    | inl (g, e, l) ↦
        let q : Partition = record p { guid = to_upper (u.to_string g) } in
        let placed : IsPlaced blocksize starting q = record {
          start_fits = h.start_fits;
          end_fits = h.end_fits;
          size_fits = h.size_fits;
          starting_fits = h.starting_fits;
        } in
        let done : set_sizes blocksize starting q ≡ ok p' =
          sym (rw (used, init_entry) (rw e refl)) ∙ ran in
        let (fits, type, guid) = sized blocksize starting q p' placed done in
        (g, l, guid, type, fits)
    | inr (x, e) ↦
        let bad : err x ≡ ok p' = sym (rw (used, init_entry) (rw e refl)) ∙ ran in
        absurd (ground arith)
  ]

  consistent_again :
      (random' : List ℕ) (starting' : ℕ) → init_entry u random' blocksize starting' p' ≡ ok p'
  unfolding init_entry
  consistent_again random' starting' =
      let (g, l, guid, type, fits) = entered in
      let used' : is_unused p' ≡ false = ap (λ t. bytes_equal t unused) type ∙ used in
      let e =
        own_guid_parsed u random' p' (to_upper (u.to_string g)) g guid
          (omega (arith, length-to_upper (u.to_string g), i.not_empty g l)) (i.parse-upper g l) in
      rw (used', init_entry)
        (rw e (
          ap (λ z. set_sizes blocksize starting' (record p' { guid = z })) (sym guid)
          ∙ set_sizes-Consistent blocksize starting' p' fits))

-- Where initEntry succeeds on a partition in use, the result has its type, a GUID in capitals, a
-- start that is not behind its end, and for its size that of the sectors from start to end, both
-- included, modulo 2^64, whichever of the three were given. The condition is that end and size fit
-- 64 bits, and that the start, and the start for a partition without one, still do with the sectors
-- of the size added.
pub init_entry-Consistent :
    (u : UuidLibrary) (random : List ℕ) (blocksize starting : ℕ) (p p' : Partition)
    → IsUuidLibrary u
    → IsUuid random
    → IsPlaced blocksize starting p
    → is_unused p ≡ false
    → init_entry u random blocksize starting p ≡ ok p'
    → ((g : List ℕ) × (IsUuid g) × (p'.guid ≡ to_upper (u.to_string g)))
      × (p'.type ≡ p.type)
      × (p'.start ≤ p'.end)
      × (p'.size ≡ suc (p'.end - p'.start) * blocksize % 2 ^ 64)
init_entry-Consistent u random blocksize starting p p' i r h used ran =
    let (g, l, guid, type, (order, size)) =
      entered u i random blocksize starting p p' r h ran used in
    ((g, l, guid), type, order, size ∙ calculated_size-suc blocksize p'.start p'.end order)

-- A second initEntry, wherever the partition before it ends and whatever uuid.NewRandom gives,
-- leaves the partition as the first one made it. The condition on the first is that end and size fit
-- 64 bits, and that the start, and the start for a partition without one, still do with the sectors
-- of the size added.
pub init_entry-init_entry :
    (u : UuidLibrary) (random random' : List ℕ) (blocksize starting starting' : ℕ)
    (p p' : Partition)
    → IsUuidLibrary u
    → IsUuid random
    → IsPlaced blocksize starting p
    → init_entry u random blocksize starting p ≡ ok p'
    → init_entry u random' blocksize starting' p' ≡ ok p'
unfolding init_entry
init_entry-init_entry u random random' blocksize starting starting' p p' i r h ran =
    elim (Bool-cases (is_unused p)) [
      | inl e ↦
          let same : ok p ≡ ok p' = sym (rw (e, init_entry) refl) ∙ ran in
          subst (λ q. init_entry u random' blocksize starting' q ≡ ok q) (ok_injective p p' same)
            (rw (e, init_entry) refl)
      | inr e ↦ consistent_again u i random blocksize starting p p' r h ran e random' starting'
    ]
