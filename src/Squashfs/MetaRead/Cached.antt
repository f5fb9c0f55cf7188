-- ===== src/Squashfs/MetaRead/Cached.antt =====
-- filesystem/squashfs/metadatablock.go: readMetaBlock and the entries of the cache that it reads through.
use go_diskfs.Base.{
  ℕ, zero, suc, ◌-◌, ◌≡◌, refl, sym, ap, ◌∙◌, subst, Bool, Option, none, some, List, [], ◌∷◌,
  Result, ok, err, panic, unfinished, All, take, inl, inr, ◌==◌, Bool-cases, Option-cases, ==_iff,
  arith,
}
use go_diskfs.Base.Storage.{Storage}
use go_diskfs.Squashfs.Metadata.{Compressor}
use go_diskfs.Squashfs.Lru.{Lru}
use go_diskfs.Squashfs.Lru.Entry.{
  Entry, entry_at, without, use_entry, read_entry, get_entry, Represents,
}
use go_diskfs.Squashfs.Lru.Refinement.{get-get_entry}
use go_diskfs.Squashfs.MetaRead.{fetch_block, read_meta_block}

module _ {E : Type 0} (fetch : ℕ → Result E (List ℕ × ℕ)) where
  -- The entry's data, if there are any, are those that fetch gives for its position.
  abbrev pub Fetched : Entry → Type 0
  Fetched e = elim e.content [ none ↦ Unit {0} | some d ↦ fetch e.pos ≡ ok (d, e.size) ]

  take-Fetched : (n : ℕ) (es : List Entry) → All Fetched es → All Fetched (take n es)
  take-Fetched zero es all = tt
  take-Fetched (suc n) [] all = tt
  take-Fetched (suc n) (e ∷ es) (h, all) = (h, take-Fetched n es all)

  without-Fetched : (p : ℕ) (es : List Entry) → All Fetched es → All Fetched (without p es)
  without-Fetched p [] all = tt
  without-Fetched p (e ∷ es) (h, all) = elim (Bool-cases (e.pos == p)) [
    | inl b ↦ rw b all
    | inr b ↦ rw b (h, without-Fetched p es all)
  ]

  found : {p : ℕ} (x e : Entry) → some x ≡ some e → Fetched x → x.pos ≡ p → Fetched e × (e.pos ≡ p)
  found {p = p} x e h g same =
      subst (λ y. Fetched y × (y.pos ≡ p)) (ap (λ o. elim o [ none ↦ x | some y ↦ y ]) h) (g, same)

  entry_at-Fetched :
      (p : ℕ) (e : Entry) (es : List Entry)
      → All Fetched es
      → entry_at p es ≡ some e
      → Fetched e × (e.pos ≡ p)
  entry_at-Fetched p e [] all h = absurd (ground arith)
  entry_at-Fetched p e (x ∷ es) (g, all) h = elim (Bool-cases (x.pos == p)) [
    | inl b ↦ found x e (rw b at h) g ((==_iff x.pos p).0 b)
    | inr b ↦ entry_at-Fetched p e es all (rw b at h)
  ]

  -- What is read at a position is what fetch gives for it, and what is kept is what was read.
  read_entry-Fetched :
      (content : Option (List ℕ)) (p size : ℕ) (r : Result E (List ℕ × ℕ))
      → fetch p ≡ r
      → Fetched (record { pos = p; content = content; size = size })
      → ((read_entry (record { pos = p; content = content; size = size }) r).1 ≡ r)
        × Fetched (read_entry (record { pos = p; content = content; size = size }) r).0
  read_entry-Fetched (some d) p size r q f = (sym f ∙ q, f)
  read_entry-Fetched none p size (ok (d, n)) q f = (refl, q)
  read_entry-Fetched none p size (err x) q f = (refl, f)
  read_entry-Fetched none p size panic q f = (refl, f)
  read_entry-Fetched none p size unfinished q f = (refl, f)

  front-Fetched :
      (p : ℕ) (e : Entry)
      → Fetched e
      → e.pos ≡ p
      → ((read_entry e (fetch p)).1 ≡ fetch p) × Fetched (read_entry e (fetch p)).0
  front-Fetched p e f h =
      let b : fetch e.pos ≡ fetch p = ap fetch h in
      read_entry-Fetched e.content e.pos e.size (fetch p) b f

  abbrev Used : ℕ → Entry × List Entry → Type 0
  Used p (e, es) = Fetched e × (e.pos ≡ p) × All Fetched es

  use_entry-Fetched : (max p : ℕ) (es : List Entry) → All Fetched es → Used p (use_entry max p es)
  use_entry-Fetched max p es all = elim (Option-cases (entry_at p es)) [
    | inl (e, h) ↦
        let (f, same) = entry_at-Fetched p e es all h in
        let used : use_entry max p es ≡ (e, without p es) = rw (h, use_entry) refl in
        subst (Used p) (sym used) (f, same, without-Fetched p es all)
    | inr h ↦
        let new : Entry = record { pos = p; content = none; size = 0 } in
        let used : use_entry max p es ≡ (new, take (max - 1) es) = rw (h, use_entry) refl in
        subst (Used p) (sym used) (tt, refl, take-Fetched (max - 1) es all)
  ]

  get_entry-Fetched :
      (max p : ℕ) (es : List Entry)
      → All Fetched es
      → ((get_entry max p (fetch p) es).1 ≡ fetch p) × All Fetched (get_entry max p (fetch p) es).0
  get_entry-Fetched max p es all =
      let (f, same, others) = use_entry-Fetched max p es all in
      let (got, kept) = front-Fetched p (use_entry max p es).0 f same in (got, (kept, others))

-- Read through a well-formed cache whose entries hold what the disk gives at their positions,
-- a metadata block, or the error for it, is the one that reading from the disk gives; the cache
-- stays well-formed and keeps to what the disk gives.
pub read_meta_block-fetch_block :
    (s : Storage) (c : Compressor) (provided : Bool) (d : s.Disk) (l : Lru) (es : List Entry)
    (location : ℕ)
    → Represents l es
    → All (Fetched (fetch_block s c provided d)) es
    → (l' : Lru) × (es' : List Entry) × (read_meta_block s c provided d l location
        ≡ ok (l', fetch_block s c provided d location))
      × Represents l' es'
      × All (Fetched (fetch_block s c provided d)) es'
unfolding read_meta_block
read_meta_block-fetch_block s c provided d l es location h all =
    let fetch = fetch_block s c provided d in
    let (l', ran, h', bound) = get-get_entry l es location (fetch location) h in
    let (got, kept) = get_entry-Fetched fetch l.max_blocks location es all in
    (
      l',
      (get_entry l.max_blocks location (fetch location) es).0,
      ran ∙ ap (λ r. ok (l', r)) got,
      h',
      kept,
    )
