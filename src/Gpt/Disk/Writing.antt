-- ===== src/Gpt/Disk/Writing.antt =====
-- What Write of partition/gpt/table.go puts on a disk, and where.
use go_diskfs.Base.{
  ==_refl, ℕ, ◌+◌, ◌*◌, ◌^◌, ◌≤◌, ◌<◌, ◌≡◌, refl, ap, ◌∙◌, true, false, List, Result, ok, length,
  All, drop, if◌then◌else◌, arith, Bool-cases, inl, inr,
}
use go_diskfs.Base.Bytes.{put_at, slice_at, length-put_at, slice_at-put_at, slice_at-put_at_before}
use go_diskfs.Base.Storage.{Storage, IsDisk}
use go_diskfs.Gpt.Uuid.{UuidLibrary}
use go_diskfs.Gpt.Table.{Table, partition_array_sector}
use go_diskfs.Gpt.Partition.Ready.{IsReady}
use go_diskfs.Gpt.Entries.{to_partition_array_bytes}
use go_diskfs.Gpt.ProtectiveMbr.{generate_protective_mbr}
use go_diskfs.Gpt.Header.{to_gpt_bytes}
use go_diskfs.Gpt.Header.RoundTrip
use go_diskfs.Gpt.Header.RoundTrip.{found, read_gpt_header-to_gpt_bytes}
use go_diskfs.Gpt.Disk.{
  Failure, Randoms, put, write_secondary, write_arrays, write_primary, write_mbr,
}

-- A table that can be written to a disk of `size` bytes: it is initialized, its header's fields fit,
-- its partitions are ready and fit into its array, which has entries of 128 bytes, and its parts
-- lie on the disk in order.
pub record IsStorable (u : UuidLibrary) (size : ℕ) (t : Table) : Type 0 where
  pub initialized : t.initialized ≡ true
  pub header : RoundTrip.IsWritable u t
  pub entry_size : t.partition_entry_size ≡ 128
  pub array_fits : 128 * t.partition_array_size < 2 ^ 32
  pub enough : length t.partitions ≤ t.partition_array_size
  pub ready : All (IsReady u t.logical_sector_size) t.partitions
  pub sector : 512 ≤ t.logical_sector_size
  pub first : partition_array_sector true t ≡ 2
  pub second :
      t.logical_sector_size * 2 + 128 * t.partition_array_size
      ≤ t.logical_sector_size * partition_array_sector false t
  pub last :
      t.logical_sector_size * partition_array_sector false t + 128 * t.partition_array_size
      ≤ t.secondary_header * t.logical_sector_size
  pub inside : t.secondary_header * t.logical_sector_size + t.logical_sector_size ≤ size

length-mbr : (t : Table) → length (drop 446 (generate_protective_mbr t)) ≡ 66
unfolding generate_protective_mbr
length-mbr t = refl

module _ (s : Storage) (w : IsDisk s) (u : UuidLibrary) where
  put-IsDisk :
      (bs : List ℕ) (off : ℕ) (more : s.Disk → s.Disk × Result (Failure s u) Table) (d : s.Disk)
      → off + length bs ≤ length (w.contents d)
      → put s u bs off more d ≡ more (w.after bs off d)
  unfolding put
  put-IsDisk bs off more d h =
      rw (w.writes bs off d h, put) (rw (w.writes bs off d h) (rw (==_refl (length bs)) refl))

  length-after :
      (bs : List ℕ) (off : ℕ) (d : s.Disk)
      → off + length bs ≤ length (w.contents d)
      → length (w.contents (w.after bs off d)) ≡ length (w.contents d)
  length-after bs off d h =
      ap length (w.contents_after bs off d h) ∙ length-put_at off bs (w.contents d)

  primary_part :
      (r : Randoms) (t : Table) (d : s.Disk) (b : List ℕ)
      → to_gpt_bytes u (r.for_header true) (r.for_partitions 0) true t ≡ ok (t, b)
      → write_primary s u r t d ≡ put s u b t.logical_sector_size (write_arrays s u r t) d
  unfolding write_primary
  primary_part r t d b e = rw (e, write_primary) refl

  arrays_part :
      (r : Randoms) (t : Table) (d : s.Disk) (a : List ℕ)
      → to_partition_array_bytes u (r.for_partitions 1) t ≡ ok (t, a)
      → write_arrays s u r t d
        ≡ put s u a
            (t.logical_sector_size * partition_array_sector true t)
            (put s u a
              (t.logical_sector_size * partition_array_sector false t)
              (write_secondary s u r t))
            d
  unfolding write_arrays
  arrays_part r t d a e = rw (e, write_arrays) refl

  secondary_part :
      (r : Randoms) (t : Table) (d : s.Disk) (b : List ℕ)
      → to_gpt_bytes u (r.for_header false) (r.for_partitions 2) false t ≡ ok (t, b)
      → write_secondary s u r t d
        ≡ put s u b (t.secondary_header * t.logical_sector_size) (λ d. (d, ok t)) d
  unfolding write_secondary
  secondary_part r t d b e = rw (e, write_secondary) refl

  -- Writing the four parts one after the other.
  pub write_primary-IsDisk :
      (r : Randoms) (t : Table) (d : s.Disk) (b1 a b2 : List ℕ)
      → to_gpt_bytes u (r.for_header true) (r.for_partitions 0) true t ≡ ok (t, b1)
      → to_partition_array_bytes u (r.for_partitions 1) t ≡ ok (t, a)
      → to_gpt_bytes u (r.for_header false) (r.for_partitions 2) false t ≡ ok (t, b2)
      → length b1 ≡ t.logical_sector_size
      → length a ≡ 128 * t.partition_array_size
      → length b2 ≡ t.logical_sector_size
      → IsStorable u (length (w.contents d)) t
      → (d' : s.Disk) × (write_primary s u r t d ≡ (d', ok t))
        × (w.contents d'
            ≡ put_at (t.secondary_header * t.logical_sector_size) b2 (
                put_at (t.logical_sector_size * partition_array_sector false t) a (
                  put_at
                    (t.logical_sector_size * partition_array_sector true t)
                    a
                    (put_at t.logical_sector_size b1 (w.contents d)))))
  write_primary-IsDisk r t d b1 a b2 e1 ea e2 l1 la l2 i =
      let lss = t.logical_sector_size in
      let o2 = lss * partition_array_sector true t in
      let o3 = lss * partition_array_sector false t in
      let o4 = t.secondary_header * lss in
      let at2 : o2 ≡ lss * 2 = ap (λ k. lss * k) i.first in
      let h1 : lss + length b1 ≤ length (w.contents d) =
        omega (arith, l1, i.second, i.last, i.inside) in
      let d1 = w.after b1 lss d in
      let h2 : o2 + length a ≤ length (w.contents d1) =
        omega (arith, at2, la, i.second, i.last, i.inside, length-after b1 lss d h1) in
      let d2 = w.after a o2 d1 in
      let h3 : o3 + length a ≤ length (w.contents d2) =
        omega (arith, la, i.last, i.inside, length-after b1 lss d h1, length-after a o2 d1 h2) in
      let d3 = w.after a o3 d2 in
      let h4 : o4 + length b2 ≤ length (w.contents d3) = omega (
        arith,
        l2,
        i.inside,
        length-after b1 lss d h1,
        length-after a o2 d1 h2,
        length-after a o3 d2 h3,
      ) in
      (
        w.after b2 o4 d3,
        primary_part r t d b1 e1
            ∙ put-IsDisk b1 lss (write_arrays s u r t) d h1
            ∙ arrays_part r t d1 a ea
            ∙ put-IsDisk a o2 (put s u a o3 (write_secondary s u r t)) d1 h2
            ∙ put-IsDisk a o3 (write_secondary s u r t) d2 h3
            ∙ secondary_part r t d3 b2 e2
            ∙ put-IsDisk b2 o4 (λ d. (d, ok t)) d3 h4,
        w.contents_after b2 o4 d3 h4
            ∙ ap (put_at o4 b2) (
                w.contents_after a o3 d2 h3
                ∙ ap (put_at o3 a) (
                    w.contents_after a o2 d1 h2 ∙ ap (put_at o2 a) (w.contents_after b1 lss d h1))),
      )

  -- Three of the four parts, found again.
  pub first_parts :
      (t : Table) (size : ℕ) (b1 a b2 c : List ℕ)
      → IsStorable u size t
      → length c ≡ size
      → length b1 ≡ t.logical_sector_size
      → length a ≡ 128 * t.partition_array_size
      → length b2 ≡ t.logical_sector_size
      → let c' = put_at (t.secondary_header * t.logical_sector_size) b2 (
          put_at (t.logical_sector_size * partition_array_sector false t) a (
            put_at
              (t.logical_sector_size * partition_array_sector true t)
              a
              (put_at t.logical_sector_size b1 c))) in
        (slice_at t.logical_sector_size t.logical_sector_size c' ≡ b1)
        × (slice_at (t.logical_sector_size * 2) (128 * t.partition_array_size) c' ≡ a)
        × (slice_at (t.secondary_header * t.logical_sector_size) t.logical_sector_size c' ≡ b2)
        × (length c' ≡ size)
  first_parts t size b1 a b2 c i lc l1 la l2 =
      let lss = t.logical_sector_size in
      let o2 = lss * partition_array_sector true t in
      let o3 = lss * partition_array_sector false t in
      let o4 = t.secondary_header * lss in
      let n = 128 * t.partition_array_size in
      let at2 : o2 ≡ lss * 2 = ap (λ k. lss * k) i.first in
      let c1 = put_at lss b1 c in
      let c2 = put_at o2 a c1 in
      let c3 = put_at o3 a c2 in
      let r2 : lss + lss ≤ o2 = omega (arith, at2) in
      let r3 : lss + lss ≤ o3 = omega (arith, i.second) in
      let r4 : lss + lss ≤ o4 = omega (arith, i.second, i.last) in
      let q3 : lss * 2 + n ≤ o3 = i.second in
      let q4 : lss * 2 + n ≤ o4 = omega (arith, i.second, i.last) in
      let room1 : lss + lss ≤ length c = omega (arith, lc, r4, i.inside) in
      let room2 : lss * 2 + n ≤ length c1 =
        omega (arith, lc, q4, i.inside, length-put_at lss b1 c) in
      (
        slice_at-put_at_before lss lss o4 b2 c3 r4
            ∙ slice_at-put_at_before lss lss o3 a c2 r3
            ∙ slice_at-put_at_before lss lss o2 a c1 r2
            ∙ slice_at-put_at lss lss b1 c l1 room1,
        slice_at-put_at_before (lss * 2) n o4 b2 c3 q4
            ∙ slice_at-put_at_before (lss * 2) n o3 a c2 q3
            ∙ ap (λ o. slice_at (lss * 2) n (put_at o a c1)) at2
            ∙ slice_at-put_at (lss * 2) n a c1 la room2,
        slice_at-put_at o4 lss b2 c3 l2 (
            omega (
              arith,
              lc,
              i.inside,
              length-put_at lss b1 c,
              length-put_at o2 a c1,
              length-put_at o3 a c2,
            )),
        length-put_at o4 b2 c3
            ∙ length-put_at o3 a c2
            ∙ length-put_at o2 a c1
            ∙ length-put_at lss b1 c
            ∙ lc,
      )

  -- The protective MBR, where it is written.
  pub write_mbr-IsDisk :
      (r : Randoms) (t : Table) (d : s.Disk) (size : ℕ)
      → IsStorable u size t
      → length (w.contents d) ≡ size
      → (d0 : s.Disk) × (write_mbr s u r t d ≡ write_primary s u r t d0)
        × (length (w.contents d0) ≡ length (w.contents d))
  unfolding write_mbr
  write_mbr-IsDisk r t d size i long = elim (Bool-cases t.protective_mbr) [
    | inr e ↦ (
      d,
      ap
          (λ m.
            (if m
                then put s u (drop 446 (generate_protective_mbr t)) 446 (write_primary s u r t)
                else write_primary s u r t)
              d)
          e,
      refl,
    )
    | inl e ↦
        let bs = drop 446 (generate_protective_mbr t) in
        let n : length bs ≡ 66 = length-mbr t in
        let fits : 446 + length bs ≤ length (w.contents d) =
          omega (arith, n, long, i.inside, i.sector) in
        (
          w.after bs 446 d,
          ap (λ m. (if m then put s u bs 446 (write_primary s u r t) else write_primary s u r t) d)
                e
              ∙ put-IsDisk bs 446 (write_primary s u r t) d fits,
          length-after bs 446 d fits,
        )
  ]
