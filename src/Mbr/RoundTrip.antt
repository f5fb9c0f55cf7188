-- ===== src/Mbr/RoundTrip.antt =====
-- Writing a partition table and reading it back from the disk.
use go_diskfs.Base.{
  ℕ, zero, suc, ◌+◌, ◌-◌, ◌*◌, ◌^◌, ◌≤◌, ◌<◌, ◌≡◌, refl, sym, ap, ◌∙◌, Bool, true, false, none,
  List, [], ◌∷◌, ◌++◌, append_assoc, ok, length, take, drop, replicate, All, arith, if◌then◌else◌,
  length-append, length-take, length-drop, drop-length, drop-drop, ==_refl,
}
use go_diskfs.Base.Bytes.{
  le_value, put_at, slice, le_value-le_bytes, overlay_fits, drop-put_at, length-put_at,
  take-take_append, slice_at-put_at_before, bytes_equal_refl, take-put_at, drop-put_at_after,
}
use go_diskfs.Base.Storage.{Storage, IsDisk}
use go_diskfs.Mbr.Partition
use go_diskfs.Mbr.Partition.{Partition, partition_entry_size}
use go_diskfs.Mbr.Table
use go_diskfs.Mbr.Table.{
  Table, hex, read_partition_table_uuid, format_partition_uuid, read_partitions, entries,
  mbr_signature, read, write, finish_read, finish_write,
}

-- The fields that are written in four bytes fit them.
abbrev pub IsWritable : Partition → Type 0
IsWritable p = (p.start < 2 ^ 32) × (p.size < 2 ^ 32)

-- The partition as it is read back: with the sector sizes of the reader, and no name yet.
unfoldable pub as_read : Partition → ℕ → ℕ → Partition
as_read p l ph = record p {
  logical_sector_size = l;
  physical_sector_size = ph;
  partition_uuid = [];
}

bootable_of_lem : (x : Bool) → Partition.bootable_of (if x then 0x80 else 0x00) ≡ ok x
unfolding Partition.bootable_of
bootable_of_lem true = refl
bootable_of_lem false = refl

pub from_bytes-to_bytes :
    (p : Partition) (l ph : ℕ)
    → IsWritable p
    → Partition.from_bytes (Partition.to_bytes p) l ph ≡ ok (as_read p l ph)
unfolding Partition.from_bytes Partition.to_bytes as_read
from_bytes-to_bytes p l ph (h, g) =
    rw (bootable_of_lem p.bootable)
      (ground (arith, le_value-le_bytes 4 p.start, le_value-le_bytes 4 p.size))

length-to_bytes : (p : Partition) → length (Partition.to_bytes p) ≡ 16
unfolding Partition.to_bytes
length-to_bytes p = refl

-- The partition of sixteen zero bytes.
abbrev pub empty : Partition
empty = record {
  bootable = false;
  type = 0;
  start = 0;
  size = 0;
  start_cylinder = 0;
  start_head = 0;
  start_sector = 0;
  end_cylinder = 0;
  end_head = 0;
  end_sector = 0;
  logical_sector_size = 0;
  physical_sector_size = 0;
  partition_uuid = [];
}

empty-bytes : Partition.to_bytes empty ≡ replicate 16 0
unfolding Partition.to_bytes
empty-bytes = refl

-- The n partitions from index i on that are read back where `ps` were written: they have the
-- default sector sizes and names made of the table's, and empty ones fill up.
unfoldable pub reread : ℕ → ℕ → List ℕ → List Partition → List Partition
unfolding as_read format_partition_uuid
reread zero i uuid ps = []
reread (suc n) i uuid [] =
    record (as_read empty 512 512) { partition_uuid = format_partition_uuid uuid (i + 1) }
    ∷ reread n (i + 1) uuid []
reread (suc n) i uuid (p ∷ ps) =
    record (as_read p 512 512) { partition_uuid = format_partition_uuid uuid (i + 1) }
    ∷ reread n (i + 1) uuid ps

length-entries : (n : ℕ) (ps : List Partition) → length (entries n ps) ≡ n * 16
unfolding entries
length-entries zero ps = refl
length-entries (suc n) [] = omega (arith, length-entries n [])
length-entries (suc n) (p ∷ ps) =
    length-append (Partition.to_bytes p) (entries n ps)
    ∙ omega (arith, length-to_bytes p, length-entries n ps)

-- One entry of the loop: the sixteen bytes of a partition, and those behind them.
module _ (p : Partition) (h : IsWritable p) (rest b : List ℕ) (i n : ℕ) (uuid : List ℕ)
    (at : drop (446 + i * 16) b ≡ Partition.to_bytes p ++ rest) where
  entry_behind : drop (446 + (i + 1) * 16) b ≡ rest
  entry_behind =
      let e : 446 + (i + 1) * 16 ≡ (446 + i * 16) + 16 = omega arith in
      ap (λ k. drop k b) e
      ∙ sym (drop-drop 16 (446 + i * 16) b)
      ∙ ap (drop 16) at
      ∙ ap (λ k. drop k (Partition.to_bytes p ++ rest)) (sym (length-to_bytes p))
      ∙ drop-length (Partition.to_bytes p) rest

  entry_bytes : slice (446 + i * 16) (446 + i * 16 + 16) b ≡ Partition.to_bytes p
  entry_bytes =
      let e : 446 + i * 16 + 16 - (446 + i * 16) ≡ 16 = omega arith in
      ap (λ k. take k (drop (446 + i * 16) b)) e
      ∙ ap (take 16) at
      ∙ take-take_append 16 (Partition.to_bytes p) rest (length-to_bytes p)

  entry_step :
      (out : List Partition)
      → read_partitions n (i + 1) b uuid ≡ ok out
      → read_partitions (suc n) i b uuid
        ≡ ok (
            record (as_read p 512 512) { partition_uuid = format_partition_uuid uuid (i + 1) }
            ∷ out)
  unfolding read_partitions
  entry_step out e = rw (entry_bytes, from_bytes-to_bytes p 512 512 h, e)

read_partitions-entries :
    (n i : ℕ) (uuid tail : List ℕ) (ps : List Partition) (b : List ℕ)
    → All IsWritable ps
    → drop (446 + i * 16) b ≡ entries n ps ++ tail
    → read_partitions n i b uuid ≡ ok (reread n i uuid ps)
unfolding reread entries
read_partitions-entries zero i uuid tail ps b h at = unfold read_partitions in refl
read_partitions-entries (suc n) i uuid tail [] b h at =
    let at' : drop (446 + i * 16) b ≡ Partition.to_bytes empty ++ (entries n [] ++ tail) =
      at
      ∙ ap (λ z. (z ++ entries n []) ++ tail) (sym empty-bytes)
      ∙ append_assoc (Partition.to_bytes empty) (entries n []) tail in
    let w : IsWritable empty = (omega arith, omega arith) in
    entry_step empty w (entries n [] ++ tail) b i n uuid at' (reread n (i + 1) uuid []) (
      read_partitions-entries n (i + 1) uuid tail [] b tt
        (entry_behind empty w (entries n [] ++ tail) b i n uuid at'))
read_partitions-entries (suc n) i uuid tail (p ∷ ps) b (w, h) at =
    let at' : drop (446 + i * 16) b ≡ Partition.to_bytes p ++ (entries n ps ++ tail) =
      at ∙ append_assoc (Partition.to_bytes p) (entries n ps) tail in
    entry_step p w (entries n ps ++ tail) b i n uuid at' (reread n (i + 1) uuid ps) (
      read_partitions-entries n (i + 1) uuid tail ps b h
        (entry_behind p w (entries n ps ++ tail) b i n uuid at'))

-- The first sector of a disk after its table was written.
module _ (t : Table) (h : All IsWritable t.partitions) (c : List ℕ) (fits : 512 ≤ length c) where
  sector : List ℕ
  sector = take 512 (put_at 446 (Table.to_bytes t) c)

  length-table : length (Table.to_bytes t) ≡ 66
  unfolding Table.to_bytes
  length-table =
      length-append (entries 4 t.partitions) mbr_signature
      ∙ omega (arith, length-entries 4 t.partitions)

  length-sector : length sector ≡ 512
  unfolding sector
  length-sector = omega (
    arith,
    length-take 512 (put_at 446 (Table.to_bytes t) c),
    length-put_at 446 (Table.to_bytes t) c,
  )

  drop-take : (m n : ℕ) (xs : List ℕ) → drop m (take (m + n) xs) ≡ take n (drop m xs)
  drop-take zero n xs = let e : 0 + n ≡ n = omega arith in ap (λ k. take k xs) e
  drop-take (suc m) n [] =
      let e : suc m + n ≡ suc (m + n) = omega arith in
      ap (λ k. drop (suc m) (take k [])) e ∙ sym (take-nil n)
    where
      take-nil : (k : ℕ) → take {A = ℕ} k [] ≡ []
      take-nil zero = refl
      take-nil (suc k) = refl
  drop-take (suc m) n (x ∷ xs) =
      let e : suc m + n ≡ suc (m + n) = omega arith in
      ap (λ k. drop (suc m) (take k (x ∷ xs))) e ∙ drop-take m n xs

  take-take : (m n : ℕ) (xs : List ℕ) → take m (take (m + n) xs) ≡ take m xs
  take-take zero n xs = refl
  take-take (suc m) n [] =
      let e : suc m + n ≡ suc (m + n) = omega arith in ap (λ k. take (suc m) (take k [])) e
  take-take (suc m) n (x ∷ xs) =
      let e : suc m + n ≡ suc (m + n) = omega arith in
      ap (λ k. take (suc m) (take k (x ∷ xs))) e ∙ ap (λ z. x ∷ z) (take-take m n xs)

  sector-entries : drop 446 sector ≡ entries 4 t.partitions ++ mbr_signature
  unfolding sector Table.to_bytes
  sector-entries =
      drop-take 446 66 (put_at 446 (Table.to_bytes t) c)
      ∙ ap (take 66) (
          drop-put_at 446 (Table.to_bytes t) c
          ∙ overlay_fits (Table.to_bytes t) (drop 446 c)
              (omega (arith, length-table, length-drop 446 c)))
      ∙ take-take_append 66 (Table.to_bytes t) _ length-table

  sector-signature : slice 510 512 sector ≡ mbr_signature
  sector-signature = ap (take 2) (
      sym (drop-drop 64 446 sector)
      ∙ ap (drop 64) sector-entries
      ∙ ap (λ k. drop k (entries 4 t.partitions ++ mbr_signature))
          (sym (length-entries 4 t.partitions))
      ∙ drop-length (entries 4 t.partitions) mbr_signature)

  sector-uuid : read_partition_table_uuid sector ≡ read_partition_table_uuid c
  unfolding sector read_partition_table_uuid
  sector-uuid =
      ap (λ z. hex 7 (le_value (take 4 z))) (drop-take 440 72 (put_at 446 (Table.to_bytes t) c))
      ∙ ap (λ z. hex 7 (le_value z))
          (take-take 4 68 (drop 440 (put_at 446 (Table.to_bytes t) c))
            ∙ slice_at-put_at_before 440 4 446 (Table.to_bytes t) c (omega arith))

  read-sector :
      Table.table_from_bytes sector
      ≡ ok (record {
        partitions = reread 4 0 (read_partition_table_uuid c) t.partitions;
        logical_sector_size = 512;
        physical_sector_size = 512;
        partition_table_uuid = read_partition_table_uuid c;
      })
  unfolding Table.table_from_bytes
  read-sector = rw (
    length-sector,
    sector-signature,
    bytes_equal_refl mbr_signature,
    sector-uuid,
    read_partitions-entries 4 0 (read_partition_table_uuid c) mbr_signature t.partitions sector h
        sector-entries,
  )

module _ (s : Storage) where
  wrote : (n : ℕ) (d : s.Disk) → finish_write s n (d, n, none) ≡ (d, ok tt)
  unfolding finish_write
  wrote n d = rw (==_refl n)

  read_it :
      (b : List ℕ)
      → length b ≡ 512
      → (t : Table) → Table.table_from_bytes b ≡ ok t
      → finish_read s (b, none) ≡ ok t
  unfolding finish_read
  read_it b size t e = rw (size, e)

-- Write of a table on a disk that has a first sector succeeds. Read gives back its first four
-- partitions, filled up with empty ones, with the sector sizes that a read gives and with names
-- made of the identifier that the disk has, which the write leaves as it was, like all bytes but
-- those from 446 to 511.
pub read-write :
    (s : Storage) (w : IsDisk s) (d : s.Disk) (t : Table)
    → 512 ≤ length (w.contents d)
    → All IsWritable t.partitions
    → (d' : s.Disk) × (write s t d ≡ (d', ok tt))
      × (read s d'
          ≡ ok (record {
            partitions = reread 4 0 (read_partition_table_uuid (w.contents d)) t.partitions;
            logical_sector_size = 512;
            physical_sector_size = 512;
            partition_table_uuid = read_partition_table_uuid (w.contents d);
          }))
      × (take 446 (w.contents d') ≡ take 446 (w.contents d))
      × (drop 512 (w.contents d') ≡ drop 512 (w.contents d))
unfolding read write sector
read-write s w d t fits h =
    let c = w.contents d in
    let size : length (Table.to_bytes t) ≡ 66 = length-table t h c fits in
    let inside : 446 + length (Table.to_bytes t) ≤ length c = omega arith in
    let d' = w.after (Table.to_bytes t) 446 d in
    let c' : w.contents d' ≡ put_at 446 (Table.to_bytes t) c =
      w.contents_after (Table.to_bytes t) 446 d inside in
    let wide : 0 + 512 ≤ length (w.contents d') =
      omega (arith, ap length c', length-put_at 446 (Table.to_bytes t) c) in
    (
      d',
      ap (finish_write s (length (Table.to_bytes t))) (w.writes (Table.to_bytes t) 446 d inside)
          ∙ wrote s (length (Table.to_bytes t)) d',
      ap (finish_read s) (w.reads 512 0 d' wide ∙ ap (λ z. (take 512 z, none)) c')
          ∙ read_it s (sector t h c fits) (length-sector t h c fits) _ (read-sector t h c fits),
      ap (take 446) c' ∙ take-put_at 446 (Table.to_bytes t) c,
      ap (drop 512) c' ∙ drop-put_at_after 512 446 (Table.to_bytes t) c (omega arith),
    )
