-- ===== src/Gpt/Entries/RoundTrip.antt =====
-- The array of partition entries of partition/gpt/table.go, read back.
use go_diskfs.Base.{
  ltb_ge, ℕ, zero, suc, ◌+◌, ◌-◌, ◌*◌, ◌%◌, ◌^◌, ◌≤◌, ◌<◌, ◌≡◌, refl, sym, ap, ◌∙◌, false, some,
  List, [], ◌∷◌, ◌++◌, ok, ◌>>=◌, length, All, take, drop, replicate, ltb, arith, append_assoc,
  length-append, length-replicate, take-length, drop-length, take_all, drop-replicate,
  take-replicate, Bool-cases, inl, inr,
}
use go_diskfs.Base.Bytes.{put_at, overlay, overlay_fits, bytes_equal}
use go_diskfs.Gpt.Uuid.{add64, UuidLibrary, IsUuidLibrary}
use go_diskfs.Gpt.Partition
use go_diskfs.Gpt.Partition.{Partition, calculated_size}
use go_diskfs.Gpt.Partition.RoundTrip.{partition_from_bytes-to_bytes}
use go_diskfs.Gpt.Partition.Ready.{IsReady, init_entry-IsReady}
use go_diskfs.Gpt.Table.{Table}
use go_diskfs.Gpt.Entries.{
  init_partitions, put_entries, to_partition_array_bytes, read_entries, read_partition_array_bytes,
}

-- The partitions as they are read: with the sector sizes that the reader is given.
abbrev pub with_sectors : ℕ → ℕ → List Partition → List Partition
with_sectors lss pss [] = []
with_sectors lss pss (p ∷ ps) =
    record p { logical_sector_size = lss; physical_sector_size = pss } ∷ with_sectors lss pss ps

init_partitions-IsReady :
    (u : UuidLibrary) (random : ℕ → List ℕ) (blocksize next i : ℕ) (ps : List Partition)
    → IsUuidLibrary u
    → All (IsReady u blocksize) ps
    → init_partitions u random blocksize next i ps ≡ ok ps
unfolding init_partitions
init_partitions-IsReady u random blocksize next i [] l all = refl
init_partitions-IsReady u random blocksize next i (p ∷ ps) l (r, all) =
    rw (init_entry-IsReady u (random i) blocksize next p l r)
      (rw (init_partitions-IsReady u random blocksize (add64 p.end 1) (i + 1) ps l all) refl)

put_at_end : (pre bs rest : List ℕ) → put_at (length pre) bs (pre ++ rest) ≡ pre ++ overlay bs rest
put_at_end [] bs rest = refl
put_at_end (x ∷ pre) bs rest = ap (λ t. x ∷ t) (put_at_end pre bs rest)

-- Zeros hold no partitions.
read_entries-replicate :
    (fuel : ℕ) (u : UuidLibrary) (i lss pss r : ℕ)
    → r < fuel
    → read_entries fuel u i 128 lss pss (replicate r 0) ≡ ok []
unfolding read_entries Partition.from_bytes bytes_equal
read_entries-replicate zero u i lss pss r h = absurd (omega arith)
read_entries-replicate (suc fuel) u i lss pss r h =
    let n = length-replicate {A = ℕ} r 0 in
    elim (Bool-cases (ltb r 128)) [
      | inl e ↦ rw n (rw e refl)
      | inr e ↦
          let whole : 128 ≤ r = ground arith in
          rw n (
            rw e (
              rw (take-replicate {A = ℕ} 128 r 0 whole) (
                (rw (drop-replicate {A = ℕ} 128 r 0)
                  (read_entries-replicate fuel u (i + 1) lss pss (r - 128) (omega arith))))))
    ]

-- A round on the bytes of an entry in use.
read_entries-append :
    (fuel : ℕ) (u : UuidLibrary) (i lss pss : ℕ) (b c : List ℕ) (p : Partition)
    → length b ≡ 128
    → Partition.from_bytes u b lss pss ≡ ok (some p)
    → read_entries (suc fuel) u i 128 lss pss (b ++ c) ≡ (
        read_entries fuel u (i + 1) 128 lss pss c >>= λ ps.
        ok (record p { size = calculated_size lss p.start p.end } ∷ ps))
unfolding read_entries
read_entries-append fuel u i lss pss b c p h e =
    let enough : ltb (length (b ++ c)) 128 ≡ false =
      ltb_ge (length (b ++ c)) 128 (omega (arith, h, length-append b c)) in
    let front : take 128 (b ++ c) ≡ b = ap (λ k. take k (b ++ c)) (sym h) ∙ take-length b c in
    let back : drop 128 (b ++ c) ≡ c = ap (λ k. drop k (b ++ c)) (sym h) ∙ drop-length b c in
    rw enough (rw front (rw e (rw back refl)))

put :
    (u : UuidLibrary) (i r : ℕ) (p : Partition) (ps : List Partition) (pre b es : List ℕ)
    → Partition.to_bytes u p ≡ ok b
    → length b ≡ 128
    → length pre ≡ i * 128
    → put_entries u 128 (i + 1) ps ((pre ++ b) ++ replicate (length ps * 128 + r) 0)
      ≡ ok ((pre ++ b) ++ (es ++ replicate r 0))
    → put_entries u 128 i (p ∷ ps) (pre ++ replicate (length (p ∷ ps) * 128 + r) 0)
      ≡ ok (pre ++ ((b ++ es) ++ replicate r 0))
unfolding put_entries
put u i r p ps pre b es written size h puts =
    let zeros = replicate {A = ℕ} (length (p ∷ ps) * 128 + r) 0 in
    let room : length (pre ++ zeros) ≡ i * 128 + (length ps * 128 + 128 + r) =
      length-append pre zeros
      ∙ omega (arith, h, length-replicate {A = ℕ} (length (p ∷ ps) * 128 + r) 0) in
    let inside : ltb (length (pre ++ zeros)) (i * 128 + 128) ≡ false = ground (arith, room) in
    let whole : take 128 b ≡ b = take_all 128 b (omega (arith, size)) in
    let place : put_at (i * 128) b (pre ++ zeros)
        ≡ (pre ++ b) ++ replicate (length ps * 128 + r) 0 =
      ap (λ k. put_at k b (pre ++ zeros)) (sym h)
      ∙ put_at_end pre b zeros
      ∙ ap (λ z. pre ++ z)
          (overlay_fits b zeros
              (omega (arith, size, length-replicate {A = ℕ} (length (p ∷ ps) * 128 + r) 0))
            ∙ ap (λ z. b ++ z)
                (ap (λ k. drop k zeros) size
                  ∙ drop-replicate 128 (length (p ∷ ps) * 128 + r) 0
                  ∙ ap (λ k. replicate {A = ℕ} k 0) (omega arith)))
      ∙ sym (append_assoc pre b (replicate (length ps * 128 + r) 0)) in
    rw (written, put_entries)
      (rw inside (
        rw whole (
          rw place (
            puts
            ∙ ap ok (
                append_assoc pre b (es ++ replicate r 0)
                ∙ ap (λ z. pre ++ z) (sym (append_assoc b es (replicate r 0))))))))

first_read :
    (u : UuidLibrary) (lss pss r : ℕ) (p : Partition) (ps : List Partition) (b es : List ℕ)
    → length b ≡ 128
    → Partition.from_bytes u b lss pss
      ≡ ok (some (record p { size = 0; logical_sector_size = lss; physical_sector_size = pss }))
    → p.size ≡ calculated_size lss p.start p.end
    → (fuel j : ℕ) → length (p ∷ ps) + r < fuel
    → ((fuel j : ℕ)
        → length ps + r < fuel
        → read_entries fuel u j 128 lss pss (es ++ replicate r 0) ≡ ok (with_sectors lss pss ps))
    → read_entries fuel u j 128 lss pss ((b ++ es) ++ replicate r 0)
      ≡ ok (with_sectors lss pss (p ∷ ps))
first_read u lss pss r p ps b es size back fits zero j more reads = absurd (omega arith)
first_read u lss pss r p ps b es size back fits (suc fuel) j more reads =
    ap (read_entries (suc fuel) u j 128 lss pss) (append_assoc b es (replicate r 0))
    ∙ read_entries-append fuel u j lss pss b (es ++ replicate r 0)
        (record p { size = 0; logical_sector_size = lss; physical_sector_size = pss }) size back
    ∙ rw (reads fuel (j + 1) (omega arith)) (
        ap
          (λ n. ok (
            record p { size = n; logical_sector_size = lss; physical_sector_size = pss }
            ∷ with_sectors lss pss ps))
          (sym fits))

module _ (u : UuidLibrary) (l : IsUuidLibrary u) (lss pss : ℕ) where
  -- The bytes of some partitions with r zeros behind them: they come behind what was written, and
  -- give the partitions back.
  entries-IsReady :
      (i r : ℕ) (ps : List Partition) (pre : List ℕ)
      → All (IsReady u lss) ps
      → length pre ≡ i * 128
      → (es : List ℕ) × (put_entries u 128 i ps (pre ++ replicate (length ps * 128 + r) 0)
          ≡ ok (pre ++ (es ++ replicate r 0)))
        × (length es ≡ length ps * 128)
        × ((fuel j : ℕ)
            → length ps + r < fuel
            → read_entries fuel u j 128 lss pss (es ++ replicate r 0)
              ≡ ok (with_sectors lss pss ps))
  unfolding put_entries
  entries-IsReady i r [] pre all h = (
    [],
    ap (λ k. ok (pre ++ replicate k 0)) (omega arith),
    refl,
    λ fuel j more. read_entries-replicate fuel u j lss pss r (omega arith),
  )
  entries-IsReady i r (p ∷ ps) pre (ready, all) h =
      let (b, written, size, back) = partition_from_bytes-to_bytes u p lss pss l ready.writable in
      let (es, puts, total, reads) =
        entries-IsReady (i + 1) r ps (pre ++ b) all (omega (arith, length-append pre b, size, h)) in
      (
        b ++ es,
        put u i r p ps pre b es written size h puts,
        omega (arith, length-append b es, size, total),
        λ fuel j more.
            first_read u lss pss r p ps b es size back ready.consistent.1 fuel j more reads,
      )

-- The array of a table whose partitions are ready, in entries of 128 bytes of which there are
-- enough, and fewer than 2^25, so that the array's size fits 32 bits: toPartitionArrayBytes changes nothing of the table and makes the same array of the size
-- that the table says, whatever uuid.NewRandom gives, and readPartitionArrayBytes reads exactly
-- the table's partitions from it, with the sector sizes it is given.
pub read_partition_array_bytes-to_partition_array_bytes :
    (u : UuidLibrary) (pss : ℕ) (t : Table)
    → IsUuidLibrary u
    → t.partition_entry_size ≡ 128
    → 128 * t.partition_array_size < 2 ^ 32
    → length t.partitions ≤ t.partition_array_size
    → All (IsReady u t.logical_sector_size) t.partitions
    → (b : List ℕ) × ((random : ℕ → List ℕ) → to_partition_array_bytes u random t ≡ ok (t, b))
      × (length b ≡ 128 * t.partition_array_size)
      × (read_partition_array_bytes u b 128 t.logical_sector_size pss
          ≡ ok (with_sectors t.logical_sector_size pss t.partitions))
unfolding to_partition_array_bytes read_partition_array_bytes
read_partition_array_bytes-to_partition_array_bytes u pss t l entry small room ready =
    let lss = t.logical_sector_size in
    let r = (t.partition_array_size - length t.partitions) * 128 in
    let (es, puts, size, reads) = entries-IsReady u l lss pss 0 r t.partitions [] ready refl in
    let part : 128 * (t.partition_array_size % 2 ^ 32) % 2 ^ 32 ≡ length t.partitions * 128 + r =
      omega arith in
    (
      es ++ replicate r 0,
      (λ random.
          rw (init_partitions-IsReady u random lss lss 0 t.partitions l ready)
            (rw entry (rw part (rw puts refl)))),
      omega (arith, length-append es (replicate r 0), length-replicate {A = ℕ} r 0, size),
      reads (suc (length (es ++ replicate r 0))) 0
          (omega (arith, length-append es (replicate r 0), length-replicate {A = ℕ} r 0, size)),
    )
