-- ===== src/Gpt/Disk/Reading.antt =====
-- What Read of partition/gpt/table.go makes of a disk, by its parts.
use go_diskfs.Base.{
  ltb_ge, ==_refl, ℕ, zero, suc, ◌+◌, ◌*◌, ◌%◌, ◌^◌, ◌≤◌, ◌≡◌, refl, sym, ap, ap₂, ◌∙◌, true, none,
  List, [], ◌∷◌, ok, length, take, drop, arith, length-take, length-drop,
}
use go_diskfs.Base.Bytes.{slice_at}
use go_diskfs.Base.Crc.{checksum_ieee}
use go_diskfs.Base.Storage.{Storage, IsDisk}
use go_diskfs.Gpt.Uuid.{UuidLibrary}
use go_diskfs.Gpt.Table.{Table, partition_array_sector}
use go_diskfs.Gpt.Partition.{Partition}
use go_diskfs.Gpt.Entries.{read_partition_array_bytes}
use go_diskfs.Gpt.Entries.RoundTrip.{with_sectors}
use go_diskfs.Gpt.ProtectiveMbr.{read_protective_mbr}
use go_diskfs.Gpt.Header.{read_gpt_header, with_disk, table_from_bytes}
use go_diskfs.Gpt.Header.RoundTrip.{found}
use go_diskfs.Gpt.Disk.{read_array, read}
use go_diskfs.Gpt.Disk.Writing.{IsStorable}

drop-take : (n : ℕ) (c : List ℕ) → drop n (take (n * 2) c) ≡ take n (drop n c)
drop-take n c = let e : n * 2 ≡ n + n = omega arith in ap (λ k. drop n (take k c)) e ∙ go n n c
  where
    go : (m k : ℕ) (c : List ℕ) → drop m (take (m + k) c) ≡ take k (drop m c)
    go zero k c = let e : 0 + k ≡ k = omega arith in ap (λ j. take j c) e
    go (suc m) k [] =
        let e : suc m + k ≡ suc (m + k) = omega arith in
        ap (λ j. drop (suc m) (take {A = ℕ} j [])) e ∙ sym (take-nil k)
      where
        take-nil : (k : ℕ) → take {A = ℕ} k [] ≡ []
        take-nil zero = refl
        take-nil (suc k) = refl
    go (suc m) k (x ∷ c) =
        let e : suc m + k ≡ suc (m + k) = omega arith in
        ap (λ j. drop (suc m) (take j (x ∷ c))) e ∙ go m k c

take-take : (m n : ℕ) (c : List ℕ) → m ≤ n → take m (take n c) ≡ take m c
take-take zero n c h = refl
take-take (suc m) zero c h = absurd (omega arith)
take-take (suc m) (suc n) [] h = refl
take-take (suc m) (suc n) (x ∷ c) h = ap (λ t. x ∷ t) (take-take m n c (omega arith))

-- A header behind the first sector.
table_from_bytes_parts :
    (u : UuidLibrary) (b b1 : List ℕ) (lbs pbs : ℕ) (t : Table)
    → length b ≡ lbs * 2
    → drop lbs b ≡ b1
    → read_gpt_header u b1 ≡ ok t
    → table_from_bytes u b lbs pbs ≡ ok (with_disk b lbs pbs t)
unfolding table_from_bytes
table_from_bytes_parts u b b1 lbs pbs t long tail header =
    rw (ltb_ge (length b) (lbs * 2) (omega (arith, long))) (rw tail (rw header refl))

module _ (s : Storage) (w : IsDisk s) (u : UuidLibrary) where
  -- What Read does behind a header whose array is there.
  read_array_parts :
      (lbs pbs : ℕ) (t : Table) (d : s.Disk) (a : List ℕ) (ps : List Partition)
      → s.read_at
          (t.partition_array_size * t.partition_entry_size)
          (t.partition_first_lba * t.logical_sector_size)
          d
        ≡ (a, none)
      → length a ≡ t.partition_array_size * t.partition_entry_size
      → t.partition_entry_checksum ≡ checksum_ieee a
      → read_partition_array_bytes u a t.partition_entry_size lbs pbs ≡ ok ps
      → read_array s u lbs pbs t d ≡ ok (record t { partitions = ps })
  unfolding read_array
  read_array_parts lbs pbs t d a ps got long sum parts =
      rw (got, read_array)
        (rw long (
          rw (==_refl (t.partition_array_size * t.partition_entry_size))
            (rw sum (rw (==_refl (checksum_ieee a)) (rw parts refl)))))

  -- What Read makes of a disk with a header and an array, by its parts.
  pub read_parts :
      (t : Table) (pss : ℕ) (d : s.Disk) (b1 a : List ℕ)
      → IsStorable u (length (w.contents d)) t
      → slice_at t.logical_sector_size t.logical_sector_size (w.contents d) ≡ b1
      → slice_at (t.logical_sector_size * 2) (128 * t.partition_array_size) (w.contents d) ≡ a
      → read_gpt_header u b1 ≡ ok (found true t (checksum_ieee a))
      → read_partition_array_bytes u a 128 t.logical_sector_size pss
        ≡ ok (with_sectors t.logical_sector_size pss t.partitions)
      → read s u t.logical_sector_size pss d
        ≡ ok (record (found true t (checksum_ieee a)) {
          partitions = with_sectors t.logical_sector_size pss t.partitions;
          logical_sector_size = t.logical_sector_size;
          physical_sector_size = pss;
          protective_mbr =
              read_protective_mbr
                (slice_at 0 t.logical_sector_size (w.contents d))
                (t.secondary_header % 2 ^ 32);
          initialized = true;
        })
  unfolding read with_disk
  read_parts t pss d b1 a i at1 at2 header array =
      let lss = t.logical_sector_size in
      let c = w.contents d in
      let b = slice_at 0 (lss * 2) c in
      let inside : lss * 2 + 128 * t.partition_array_size ≤ length c =
        omega (arith, i.second, i.last, i.inside) in
      let whole : length b ≡ lss * 2 = omega (arith, length-take (lss * 2) c, inside) in
      let tail : drop lss b ≡ b1 = drop-take lss c ∙ at1 in
      let begin : s.read_at (lss * 2) 0 d ≡ (b, none) =
        w.reads (lss * 2) 0 d (omega (arith, inside)) in
      let size : t.partition_array_size * 128 ≡ 128 * t.partition_array_size = omega arith in
      let place : partition_array_sector true t * lss ≡ lss * 2 =
        ap (λ k. k * lss) i.first ∙ omega arith in
      let entries : s.read_at (t.partition_array_size * 128) (partition_array_sector true t * lss) d
          ≡ (a, none) =
        ap₂ (λ n o. s.read_at n o d) size place
        ∙ w.reads (128 * t.partition_array_size) (lss * 2) d inside
        ∙ ap (λ z. (z, none)) at2 in
      let long : length a ≡ t.partition_array_size * 128 =
        ap length (sym at2)
        ∙ omega (
          arith,
          length-take (128 * t.partition_array_size) (drop (lss * 2) c),
          length-drop (lss * 2) c,
          inside,
        ) in
      rw (begin, read)
        (rw (whole) (
          rw (==_refl (lss * 2)) (
            rw
              (table_from_bytes_parts u b b1 lss pss (found true t (checksum_ieee a)) whole tail
                header)
              (read_array_parts lss pss (with_disk b lss pss (found true t (checksum_ieee a))) d a
                  (with_sectors lss pss t.partitions) entries long refl array
                ∙ ap
                    (λ m. ok (record (found true t (checksum_ieee a)) {
                      partitions = with_sectors lss pss t.partitions;
                      logical_sector_size = lss;
                      physical_sector_size = pss;
                      protective_mbr = read_protective_mbr m (t.secondary_header % 2 ^ 32);
                      initialized = true;
                    }))
                    (take-take lss (lss * 2) c (omega arith))))))
