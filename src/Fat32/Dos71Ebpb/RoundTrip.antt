-- ===== src/Fat32/Dos71Ebpb/RoundTrip.antt =====
-- Writing an extended BIOS parameter block and reading it back.
use go_diskfs.Base.{
  ℕ, zero, suc, ◌+◌, ◌-◌, ◌≤◌, ◌≡◌, refl, sym, ap, ◌∙◌, subst, true, ◌⊎◌, inl, inr, List, [], ◌∷◌,
  ◌++◌, ok, length, take, drop, replicate, All, leb, ◌==◌, arith, length-append, length-replicate,
  drop-drop, cells, cells_lem,
}
use go_diskfs.Base.Bytes.{
  le_value, put_at, slice, le_value-le_bytes, be_value-be_bytes_4, slice_at-put_at,
  slice_at-put_at_before, length-put_at,
}
use go_diskfs.Base.Text.{
  rune_count, pad_right, trim_spaces, IsAscii, IsTrimmed, rune_count_ascii, trim_spaces-append,
}
use go_diskfs.Fat32.Dos331Bpb
use go_diskfs.Fat32.Dos331Bpb.{Dos331Bpb}
use go_diskfs.Fat32.Dos71Ebpb.{
  Dos71Ebpb, IsValid, from_bytes, to_bytes, blank_or_labels, fill_common, read_common, read_variant,
  short_dos71_ebpb, long_dos71_ebpb,
}

take-pad :
    (n k : ℕ) (s : List ℕ)
    → length s ≤ n
    → n ≤ length s + k
    → take n (s ++ replicate k 32) ≡ s ++ replicate (n - length s) 32
take-pad zero k [] h g = refl
take-pad zero k (x ∷ s) h g = absurd (omega arith)
take-pad (suc n) zero [] h g = absurd (omega arith)
take-pad (suc n) (suc k) [] h g =
    ap (λ t. 32 ∷ t) (take-pad n k [] (omega arith) (omega arith) ∙ all_pad) ∙ whole_pad
  where
    all_pad : replicate {A = ℕ} (n - 0) 32 ≡ replicate {A = ℕ} n 32
    all_pad = let e : n - 0 ≡ n = omega arith in rw e

    whole_pad : 32 ∷ replicate {A = ℕ} n 32 ≡ replicate {A = ℕ} (suc n - 0) 32
    whole_pad = let e : suc n - 0 ≡ suc n = omega arith in rw e
take-pad (suc n) k (x ∷ s) h g =
    ap (λ t. x ∷ t) (take-pad n k s (omega arith) (omega arith) ∙ rest_pad)
  where
    rest_pad : s ++ replicate (n - length s) 32 ≡ s ++ replicate (suc n - suc (length s)) 32
    rest_pad = let e : n - length s ≡ suc n - suc (length s) = omega arith in rw e

-- What a field of n bytes holds after padding to m and cutting gives the text back.
trim-field :
    (n m : ℕ) (s : List ℕ)
    → n ≤ m
    → length s ≤ n
    → All IsAscii s
    → IsTrimmed s
    → trim_spaces (take n (pad_right m s)) ≡ s
unfolding pad_right
trim-field n m s h k a t =
    ap trim_spaces (take-pad n (m - rune_count s) s k (omega (arith, rune_count_ascii s a)))
    ∙ trim_spaces-append s (n - length s)
    ∙ t

length-field :
    (n m : ℕ) (s : List ℕ)
    → n ≤ m
    → length s ≤ n
    → All IsAscii s
    → length (take n (pad_right m s)) ≡ n
unfolding pad_right
length-field n m s h k a =
    ap length (take-pad n (m - rune_count s) s k (omega (arith, rune_count_ascii s a)))
    ∙ length-append s (replicate (n - length s) 32)
    ∙ omega (arith, length-replicate {A = ℕ} (n - length s) 32)

-- The last 19 bytes of a long block.
unfoldable labels : List ℕ → List ℕ → List ℕ
labels label fstype = put_at 11 fstype (put_at 0 label (replicate {A = ℕ} 19 0))

module _ (label fstype : List ℕ) (eleven : length label ≡ 11) (eight : length fstype ≡ 8) where
  length-labels : length (labels label fstype) ≡ 19
  unfolding labels
  length-labels =
      length-put_at 11 fstype (put_at 0 label (replicate {A = ℕ} 19 0))
      ∙ length-put_at 0 label (replicate {A = ℕ} 19 0)

  labels-label : take 11 (labels label fstype) ≡ label
  unfolding labels
  labels-label =
      slice_at-put_at_before 0 11 11 fstype (put_at 0 label (replicate {A = ℕ} 19 0)) (omega arith)
      ∙ slice_at-put_at 0 11 label (replicate {A = ℕ} 19 0) eleven (omega arith)

  labels-fstype : take 8 (drop 11 (labels label fstype)) ≡ fstype
  unfolding labels
  labels-fstype =
      slice_at-put_at 11 8 fstype (put_at 0 label (replicate {A = ℕ} 19 0)) eight
        (omega (arith, length-put_at 0 label (replicate {A = ℕ} 19 0)))

-- The common part over 60 bytes and any tail reads back, and keeps the tail. The array of the
-- boot file's name is taken apart into its cells.
module _ (p : Dos71Ebpb) (v : IsValid p) (tail : List ℕ) where
  with_cells : Dos71Ebpb
  with_cells = record p { boot_file_name = cells 0 12 p.boot_file_name }

  filled : List ℕ
  filled = fill_common with_cells (replicate {A = ℕ} 60 0 ++ tail)

  read-filled :
      read_common p.dos331_bpb filled
      ≡ record with_cells { volume_label = []; file_system_type = [] }
  unfolding with_cells filled fill_common read_common
  read-filled = ground (
    arith,
    v.version,
    le_value-le_bytes 4 p.sectors_per_fat,
    le_value-le_bytes 2 p.mirror_flags,
    le_value-le_bytes 4 p.root_directory_cluster,
    le_value-le_bytes 2 p.fs_information_sector,
    le_value-le_bytes 2 p.backup_boot_sector,
    be_value-be_bytes_4 p.volume_serial_number,
  )

  embedded-filled : Dos331Bpb.from_bytes (slice 0 25 filled) ≡ ok p.dos331_bpb
  unfolding with_cells filled fill_common Dos331Bpb.to_bytes
  embedded-filled = Dos331Bpb.from_bytes-to_bytes p.dos331_bpb v.dos331

  version-filled : le_value (slice 31 33 filled) ≡ 0
  unfolding with_cells filled fill_common le_value
  version-filled = omega (arith, v.version)

  length-filled : length filled ≡ 60 + length tail
  unfolding with_cells filled fill_common
  length-filled = omega arith

  drop-filled : drop 60 filled ≡ tail
  unfolding with_cells filled fill_common
  drop-filled = refl

  from_bytes-filled :
      (length tail ≡ 0) ⊎ (length tail ≡ 19)
      → from_bytes filled
        ≡ read_variant (record with_cells { volume_label = []; file_system_type = [] }) filled
  unfolding from_bytes
  from_bytes-filled (inl e) =
      let size : length filled ≡ 60 = omega (arith, length-filled) in
      rw (size, embedded-filled, version-filled, read-filled)
  from_bytes-filled (inr e) =
      let size : length filled ≡ 79 = omega (arith, length-filled) in
      rw (size, embedded-filled, version-filled, read-filled)

-- What the theorem below says, with the boot file's name in the form `s`.
abbrev ReadsBack : Dos71Ebpb → List ℕ → Type 0
ReadsBack p s =
    (b : List ℕ) × (to_bytes (record p { boot_file_name = s }) ≡ ok b)
    × (from_bytes b ≡ ok (record p { boot_file_name = s }, length b))

variant-short :
    (q : Dos71Ebpb) (b : List ℕ)
    → q.extended_boot_signature ≡ short_dos71_ebpb
    → length b ≡ 60
    → read_variant q b ≡ ok (q, length b)
unfolding read_variant
variant-short q b e size = rw (e, size)

variant-long :
    (q : Dos71Ebpb) (b : List ℕ)
    → q.extended_boot_signature ≡ long_dos71_ebpb
    → length b ≡ 79
    → read_variant q b
      ≡ ok (
        record q {
          volume_label = trim_spaces (take 11 (drop 60 b));
          file_system_type = trim_spaces (take 8 (drop 11 (drop 60 b)));
        },
        length b,
      )
unfolding read_variant
variant-long q b e size = rw (e, size, drop-drop 11 60 b)

short-ReadsBack :
    (p : Dos71Ebpb)
    → IsValid p
    → p.extended_boot_signature ≡ short_dos71_ebpb
    → p.volume_label ≡ []
    → p.file_system_type ≡ []
    → ReadsBack p (cells 0 12 p.boot_file_name)
unfolding to_bytes blank_or_labels filled with_cells
short-ReadsBack p v e label fstype = (
  filled p v [],
  rw e,
  from_bytes-filled p v [] (inl refl)
      ∙ variant-short (record (with_cells p v []) { volume_label = []; file_system_type = [] })
          (filled p v []) e (length-filled p v [])
      ∙ λ i. ok (
        record (with_cells p v []) { volume_label = sym label i; file_system_type = sym fstype i },
        length (filled p v []),
      ),
)

long-ReadsBack :
    (p : Dos71Ebpb)
    → IsValid p
    → p.extended_boot_signature ≡ long_dos71_ebpb
    → length p.volume_label ≤ 11
    → All IsAscii p.volume_label
    → IsTrimmed p.volume_label
    → length p.file_system_type ≤ 8
    → All IsAscii p.file_system_type
    → IsTrimmed p.file_system_type
    → ReadsBack p (cells 0 12 p.boot_file_name)
unfolding to_bytes blank_or_labels filled with_cells labels
long-ReadsBack p v e l1 a1 t1 l2 a2 t2 =
    let label = take 11 (pad_right 11 p.volume_label) in
    let fstype = take 8 (pad_right 11 p.file_system_type) in
    let eleven : length label ≡ 11 = length-field 11 11 p.volume_label (omega arith) l1 a1 in
    let eight : length fstype ≡ 8 = length-field 8 11 p.file_system_type (omega arith) l2 a2 in
    let tail = labels label fstype in
    let b = filled p v tail in
    let size : length b ≡ 79 =
      omega (arith, length-filled p v tail, length-labels label fstype eleven eight) in
    let label_fits : leb (length p.volume_label) 11 ≡ true = ground arith in
    let type_fits : leb (length p.file_system_type) 8 ≡ true = ground arith in
    let label_ascii : (length p.volume_label == rune_count p.volume_label) ≡ true =
      ground (arith, rune_count_ascii p.volume_label a1) in
    let type_ascii : (length p.file_system_type == rune_count p.file_system_type) ≡ true =
      ground (arith, rune_count_ascii p.file_system_type a2) in
    (
      b,
      rw (e, label_fits, label_ascii, type_fits, type_ascii),
      from_bytes-filled p v tail (inr (length-labels label fstype eleven eight))
          ∙ variant-long (record (with_cells p v tail) { volume_label = []; file_system_type = [] })
              b e size
          ∙ λ i. ok (
            record (with_cells p v tail) {
              volume_label =
                  (ap trim_spaces (
                        ap (take 11) (drop-filled p v tail)
                        ∙ labels-label label fstype eleven eight)
                      ∙ trim-field 11 11 p.volume_label (omega arith) l1 a1 t1)
                    i;
              file_system_type =
                  (ap trim_spaces (
                        ap (λ t. take 8 (drop 11 t)) (drop-filled p v tail)
                        ∙ labels-fstype label fstype eleven eight)
                      ∙ trim-field 8 11 p.file_system_type (omega arith) l2 a2 t2)
                    i;
            },
            length b,
          ),
    )

-- A valid block is written, 60 bytes if short and 79 if long, and reading those bytes gives the
-- block and its size back.
pub ebpb_from_bytes-to_bytes :
    (p : Dos71Ebpb)
    → IsValid p
    → (b : List ℕ) × (to_bytes p ≡ ok b) × (from_bytes b ≡ ok (p, length b))
ebpb_from_bytes-to_bytes p v =
    subst (ReadsBack p) (cells_lem 0 12 p.boot_file_name v.boot_file) (elim v.labels [
      | inl (e, label, fstype) ↦ short-ReadsBack p v e label fstype
      | inr (e, l1, a1, t1, l2, a2, t2) ↦ long-ReadsBack p v e l1 a1 t1 l2 a2 t2
    ])
