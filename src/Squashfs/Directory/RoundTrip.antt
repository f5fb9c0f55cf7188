-- ===== src/Squashfs/Directory/RoundTrip.antt =====
-- Reading back the bytes of a directory.
use go_diskfs.Base.{
  ℕ, zero, suc, ◌+◌, ◌-◌, ◌%◌, ◌^◌, ◌≤◌, ◌<◌, ◌≡◌, refl, sym, ap, ◌∙◌, true, false, List, [], ◌∷◌,
  ◌++◌, append_assoc, append-nil, ok, length, drop, All, ltb, leb, ◌==◌, arith, length-append,
  Bool-cases, inl, inr, take-length, drop-length,
}
use go_diskfs.Base.Bytes.{le_value-le_bytes}
use go_diskfs.Squashfs.Directory.{
  DirectoryEntryRaw, DirectoryHeader, DirectoryEntryGroup, entry_to_bytes, header_to_bytes,
  is_directory, parse_header, parse_entry, parse_entries, parse_headers, parse, new_group,
  add_to_group, add_entry, group_entries, entries_to_bytes, groups_to_bytes, to_bytes,
}

-- An entry of Go's types, within reach of the directory's inode `in_`, whose name is neither empty
-- nor too long and whose flag agrees with its type.
pub record IsValid (in_ : ℕ) (e : DirectoryEntryRaw) : Type 0 where
  pub offset : e.offset < 2 ^ 16
  pub above : in_ ≤ e.inode_number
  pub near : e.inode_number < in_ + 2 ^ 16
  pub inode : e.inode_number < 2 ^ 32
  pub type : e.inode_type < 2 ^ 16
  pub named : 0 < length e.name
  pub short : length e.name ≤ 257
  pub flag : is_directory e.inode_type ≡ e.is_subdirectory
  pub block : e.start_block < 2 ^ 32

parse_entry-append :
    (e : DirectoryEntryRaw) (in_ : ℕ) (rest : List ℕ)
    → IsValid in_ e
    → parse_entry (entry_to_bytes e in_ ++ rest) in_
      ≡ ok (record e { start_block = 0 }, 8 + length e.name)
unfolding parse_entry entry_to_bytes
parse_entry-append e in_ rest v =
    let delta = (e.inode_number + 2 ^ 32 - in_) % 2 ^ 32 % 2 ^ 16 in
    let d : delta ≡ e.inode_number - in_ = omega (arith, v.above, v.near, v.inode) in
    let size = (length e.name + 2 ^ 16 - 1) % 2 ^ 16 in
    let n : size ≡ length e.name - 1 = omega (arith, v.named, v.short) in
    let one = le_value-le_bytes 2 e.offset v.offset in
    let two = le_value-le_bytes 2 delta (omega arith) in
    let three = le_value-le_bytes 2 e.inode_type v.type in
    let four = le_value-le_bytes 2 size (omega arith) in
    let behind : length (e.name ++ rest) ≡ length e.name + length rest =
      length-append e.name rest in
    let g1 : leb 8 (length (entry_to_bytes e in_ ++ rest)) ≡ true = ground arith in
    let real : (length e.name - 1 + 1) % 2 ^ 16 ≡ length e.name = omega (arith, v.named, v.short) in
    let g2 : leb (length e.name - 1) 256 ≡ true = ground (arith, v.short) in
    let g3 : leb ((length e.name + 8) % 2 ^ 16) (length (entry_to_bytes e in_ ++ rest)) ≡ true =
      ground (arith, v.short) in
    let s : (8 + length e.name) % 2 ^ 16 ≡ 8 + length e.name = omega (arith, v.short) in
    let s' : 8 + length e.name - 8 ≡ length e.name = omega arith in
    let i : (e.inode_number - in_ + in_) % 2 ^ 32 ≡ e.inode_number =
      omega (arith, v.above, v.inode) in
    rw (one, two, three, four, g1, n, real, g2, g3, s, s', d, i, take-length e.name rest, v.flag)
      refl

pub length-entry_to_bytes :
    (e : DirectoryEntryRaw) (in_ : ℕ) → length (entry_to_bytes e in_) ≡ 8 + length e.name
unfolding entry_to_bytes
length-entry_to_bytes e in_ = omega arith

entries_step :
    (h : DirectoryHeader) (b tail rest : List ℕ) (n k : ℕ) (e : DirectoryEntryRaw)
    (es : List DirectoryEntryRaw)
    → parse_entry b h.inode ≡ ok (e, n)
    → drop n b ≡ tail
    → parse_entries k h tail ≡ ok (es, rest)
    → parse_entries (suc k) h b ≡ ok (record e { start_block = h.start_block } ∷ es, rest)
unfolding parse_entries
entries_step h b tail rest n k e es p d q = rw (p, d, q) refl

-- A header's entries, with its start block, are read and what follows them is left.
parse_entries-append :
    (in_ : ℕ) (h : DirectoryHeader) (same : h.inode ≡ in_) (rest : List ℕ)
    (es : List DirectoryEntryRaw)
    → All (IsValid in_) es
    → All (λ e. e.start_block ≡ h.start_block) es
    → parse_entries (length es) h (entries_to_bytes in_ es ++ rest) ≡ ok (es, rest)
unfolding entries_to_bytes
parse_entries-append in_ h same rest [] v b = unfold parse_entries in refl
parse_entries-append in_ h same rest (e ∷ es) (v, vs) (b, bs) =
    let tail = entries_to_bytes in_ es ++ rest in
    let split : (entry_to_bytes e in_ ++ entries_to_bytes in_ es) ++ rest
        ≡ entry_to_bytes e in_ ++ tail =
      append_assoc (entry_to_bytes e in_) (entries_to_bytes in_ es) rest in
    let behind : drop (8 + length e.name) (entry_to_bytes e in_ ++ tail) ≡ tail =
      ap (λ k. drop k (entry_to_bytes e in_ ++ tail)) (sym (length-entry_to_bytes e in_))
      ∙ drop-length (entry_to_bytes e in_) tail in
    ap (parse_entries (suc (length es)) h) split
    ∙ entries_step h (entry_to_bytes e in_ ++ tail) tail rest (8 + length e.name) (length es)
        (record e { start_block = 0 }) es
        (ap (parse_entry (entry_to_bytes e in_ ++ tail)) same ∙ parse_entry-append e in_ tail v)
        behind (parse_entries-append in_ h same rest es vs bs)
    ∙ λ i. ok (record e { start_block = sym b i } ∷ es, rest)

-- A group as toBytes makes them: its count is that of its entries, which share its start block.
pub record IsGroup (in_ : ℕ) (g : DirectoryEntryGroup) : Type 0 where
  pub inode : g.header.inode ≡ in_
  pub count : g.header.count ≡ length g.entries % 2 ^ 32
  pub some : 0 < length g.entries
  pub block : g.header.start_block < 2 ^ 32
  pub valid : All (IsValid in_) g.entries
  pub shared : All (λ e. e.start_block ≡ g.header.start_block) g.entries

abbrev pub IsShort : DirectoryEntryGroup → Type 0
IsShort g = length g.entries ≤ 256

abbrev flatten : List DirectoryEntryGroup → List DirectoryEntryRaw
flatten [] = []
flatten (g ∷ gs) = g.entries ++ flatten gs

parse_header-append :
    (h : DirectoryHeader) (rest : List ℕ)
    → 0 < h.count
    → h.count < 2 ^ 32
    → h.start_block < 2 ^ 32
    → h.inode < 2 ^ 32
    → (parse_header (header_to_bytes h ++ rest) ≡ ok h)
      × (drop 12 (header_to_bytes h ++ rest) ≡ rest)
      × (length (header_to_bytes h ++ rest) ≡ 12 + length rest)
unfolding parse_header header_to_bytes
parse_header-append h rest pos count block inode =
    let less = (h.count + 2 ^ 32 - 1) % 2 ^ 32 in
    let back : (less + 1) % 2 ^ 32 ≡ h.count = omega arith in
    let one = le_value-le_bytes 4 less (omega arith) in
    let two = le_value-le_bytes 4 h.start_block block in
    let three = le_value-le_bytes 4 h.inode inode in
    let g : ltb (length (header_to_bytes h ++ rest)) 12 ≡ false = ground arith in
    (rw (g, one, two, three, back) refl, refl, omega arith)

headers_step :
    (fuel : ℕ) (b rest : List ℕ) (h : DirectoryHeader) (es out : List DirectoryEntryRaw)
    → 12 ≤ length b
    → parse_header b ≡ ok h
    → 0 < h.count
    → h.count ≤ 256
    → parse_entries h.count h (drop 12 b) ≡ ok (es, rest)
    → parse_headers fuel rest ≡ ok out
    → parse_headers (suc fuel) b ≡ ok (es ++ out)
unfolding parse_headers
headers_step fuel b rest h es out long p pos few q r =
    let g1 : leb 12 (length b) ≡ true = ground arith in
    let g2 : ltb 0 h.count ≡ true = ground arith in
    let g3 : leb h.count 256 ≡ true = ground arith in rw (g1, p, g2, g3, q, r) refl

module _ (in_ : ℕ) (g : DirectoryEntryGroup) where
  parse_group :
      (rest : List ℕ)
      → IsGroup in_ g
      → IsShort g
      → in_ < 2 ^ 32
      → (parse_header (header_to_bytes g.header ++ rest) ≡ ok g.header)
        × (drop 12 (header_to_bytes g.header ++ rest) ≡ rest)
        × (length (header_to_bytes g.header ++ rest) ≡ 12 + length rest)
  parse_group rest v s low =
      parse_header-append g.header rest (omega (arith, v.some, v.count)) (omega (arith, v.count))
        v.block (omega (arith, v.inode))

  length-group :
      (gs : List DirectoryEntryGroup)
      → IsGroup in_ g
      → IsShort g
      → in_ < 2 ^ 32
      → (groups_to_bytes in_ (g ∷ gs)
          ≡ header_to_bytes g.header ++ (entries_to_bytes in_ g.entries ++ groups_to_bytes in_ gs))
        × (length (groups_to_bytes in_ (g ∷ gs))
            ≡ 12 + length (entries_to_bytes in_ g.entries ++ groups_to_bytes in_ gs))
  unfolding groups_to_bytes
  length-group gs v s low =
      let rest = groups_to_bytes in_ gs in
      let split : groups_to_bytes in_ (g ∷ gs)
          ≡ header_to_bytes g.header ++ (entries_to_bytes in_ g.entries ++ rest) =
        append_assoc (header_to_bytes g.header) (entries_to_bytes in_ g.entries) rest in
      (split, ap length split ∙ (parse_group (entries_to_bytes in_ g.entries ++ rest) v s low).2)

-- The bytes of the groups are read back to their entries.
parse_headers-groups :
    (in_ fuel : ℕ) (gs : List DirectoryEntryGroup)
    → in_ < 2 ^ 32
    → All (IsGroup in_) gs
    → All IsShort gs
    → length (groups_to_bytes in_ gs) ≤ fuel
    → parse_headers fuel (groups_to_bytes in_ gs) ≡ ok (flatten gs)
unfolding groups_to_bytes
parse_headers-groups in_ zero [] low v s h = unfold parse_headers in refl
parse_headers-groups in_ (suc fuel) [] low v s h = unfold parse_headers in refl
parse_headers-groups in_ zero (g ∷ gs) low (v, vs) (s, ss) h =
    absurd (omega (arith, length-group in_ g gs v s low))
parse_headers-groups in_ (suc fuel) (g ∷ gs) low (v, vs) (s, ss) h =
    let rest = groups_to_bytes in_ gs in
    let body = entries_to_bytes in_ g.entries in
    let b = header_to_bytes g.header ++ (body ++ rest) in
    let (split, total) = length-group in_ g gs v s low in
    let (p, d, size) = parse_group in_ g (body ++ rest) v s low in
    let exact : g.header.count ≡ length g.entries = omega (arith, v.count) in
    let pos : 0 < g.header.count = omega (arith, v.some) in
    let shorter : length rest ≤ fuel =
      omega (arith, length-append body rest, total, ap length split) in
    ap (parse_headers (suc fuel)) split
    ∙ headers_step fuel b rest g.header g.entries (flatten gs) (omega arith) p pos (omega arith)
        (ap (λ k. parse_entries k g.header (drop 12 b)) exact
          ∙ ap (parse_entries (length g.entries) g.header) d
          ∙ parse_entries-append in_ g.header v.inode rest g.entries v.valid v.shared)
        (parse_headers-groups in_ fuel gs low vs ss shorter)

flatten-append :
    (gs : List DirectoryEntryGroup) (g : DirectoryEntryGroup)
    → flatten (gs ++ (g ∷ [])) ≡ flatten gs ++ g.entries
flatten-append [] g = append-nil g.entries
flatten-append (h ∷ gs) g =
    ap (λ z. h.entries ++ z) (flatten-append gs g)
    ∙ sym (append_assoc h.entries (flatten gs) g.entries)

All-snoc {κ} :
    (P : DirectoryEntryRaw → Type κ) (es : List DirectoryEntryRaw) (e : DirectoryEntryRaw)
    → All P es
    → P e
    → All P (es ++ (e ∷ []))
All-snoc P [] e h p = (p, tt)
All-snoc P (x ∷ es) e (q, h) p = (q, All-snoc P es e h p)

new_group-IsGroup :
    (in_ : ℕ) (e : DirectoryEntryRaw) → IsValid in_ e → IsGroup in_ (new_group in_ e)
unfolding new_group
new_group-IsGroup in_ e v = record {
  inode = refl;
  count = refl;
  some = omega arith;
  block = v.block;
  valid = (v, tt);
  shared = (refl, tt);
}

add_to_group-IsGroup :
    (in_ : ℕ) (g : DirectoryEntryGroup) (e : DirectoryEntryRaw)
    → IsGroup in_ g
    → IsValid in_ e
    → e.start_block ≡ g.header.start_block
    → IsGroup in_ (add_to_group g e)
unfolding add_to_group
add_to_group-IsGroup in_ g e w v same =
    let size : length (g.entries ++ (e ∷ [])) ≡ length g.entries + 1 =
      length-append g.entries (e ∷ []) in
    record {
      inode = w.inode;
      count = omega (arith, w.count);
      some = omega arith;
      block = w.block;
      valid = All-snoc (IsValid in_) g.entries e w.valid v;
      shared = All-snoc (λ x. x.start_block ≡ g.header.start_block) g.entries e w.shared same;
    }

-- A round of the grouping adds the entry at the end and keeps the groups well-formed.
add_entry-groups :
    (in_ : ℕ) (gs : List DirectoryEntryGroup) (e : DirectoryEntryRaw)
    → All (IsGroup in_) gs
    → IsValid in_ e
    → All (IsGroup in_) (add_entry in_ gs e)
      × (flatten (add_entry in_ gs e) ≡ flatten gs ++ (e ∷ []))
unfolding add_entry
add_entry-groups in_ [] e h v = ((new_group-IsGroup in_ e v, tt), unfold new_group in refl)
add_entry-groups in_ (g ∷ []) e (w, h) v =
    elim (Bool-cases (g.header.start_block == e.start_block)) [
      | inl same ↦ rw same (
        (add_to_group-IsGroup in_ g e w v (ground arith), tt),
        unfold add_to_group in
            append-nil (g.entries ++ (e ∷ []))
            ∙ ap (λ z. z ++ (e ∷ [])) (sym (append-nil g.entries)),
      )
      | inr new ↦ rw new (
        (w, (new_group-IsGroup in_ e v, tt)),
        unfold new_group in ap (λ z. z ++ (e ∷ [])) (sym (append-nil g.entries)),
      )
    ]
add_entry-groups in_ (g ∷ g' ∷ gs) e (w, h) v =
    let (k, f) = add_entry-groups in_ (g' ∷ gs) e h v in
    ((w, k), ap (λ z. g.entries ++ z) f ∙ sym (append_assoc g.entries (flatten (g' ∷ gs)) (e ∷ [])))

group_entries-groups :
    (in_ : ℕ) (gs : List DirectoryEntryGroup) (es : List DirectoryEntryRaw)
    → All (IsGroup in_) gs
    → All (IsValid in_) es
    → All (IsGroup in_) (group_entries in_ gs es)
      × (flatten (group_entries in_ gs es) ≡ flatten gs ++ es)
unfolding group_entries
group_entries-groups in_ gs [] h v = (h, sym (append-nil (flatten gs)))
group_entries-groups in_ gs (e ∷ es) h (v, vs) =
    let (k, f) = add_entry-groups in_ gs e h v in
    let (k', f') = group_entries-groups in_ (add_entry in_ gs e) es k vs in
    (k', f' ∙ ap (λ z. z ++ es) f ∙ append_assoc (flatten gs) (e ∷ []) es)

-- A directory of valid entries, none of whose groups has more entries than the 256 that a header
-- may announce, is read back from its bytes: the same entries in the same order.
pub parse_directory-to_bytes :
    (es : List DirectoryEntryRaw) (in_ : ℕ)
    → in_ < 2 ^ 32
    → All (IsValid in_) es
    → All IsShort (group_entries in_ [] es)
    → parse (to_bytes es in_) ≡ ok es
unfolding parse to_bytes
parse_directory-to_bytes es in_ low v short =
    let (k, f) = group_entries-groups in_ [] es tt v in
    parse_headers-groups in_ (length (groups_to_bytes in_ (group_entries in_ [] es)))
      (group_entries in_ [] es) low k short (omega arith)
    ∙ ap ok f
