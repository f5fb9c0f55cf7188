-- ===== src/Gpt/Disk/RoundTrip.antt =====
-- What Read of partition/gpt/table.go finds after Write.
use go_diskfs.Base.{
  ℕ, ◌*◌, ◌%◌, ◌^◌, ◌≡◌, refl, sym, ap, ap₂, ◌∙◌, subst, Bool, true, false, List, ok, length,
  if◌then◌else◌,
}
use go_diskfs.Base.Bytes.{slice_at}
use go_diskfs.Base.Crc.{checksum_ieee}
use go_diskfs.Base.Storage.{Storage, IsDisk}
use go_diskfs.Gpt.Uuid.{UuidLibrary, IsUuidLibrary}
use go_diskfs.Gpt.Table.{Table, init_table}
use go_diskfs.Gpt.Entries.{read_partition_array_bytes}
use go_diskfs.Gpt.Entries.RoundTrip.{
  with_sectors, read_partition_array_bytes-to_partition_array_bytes,
}
use go_diskfs.Gpt.ProtectiveMbr.{read_protective_mbr}
use go_diskfs.Gpt.Header.{read_gpt_header}
use go_diskfs.Gpt.Header.RoundTrip.{found, read_gpt_header-to_gpt_bytes}
use go_diskfs.Gpt.Disk.{Randoms, write_mbr, write, read}
use go_diskfs.Gpt.Disk.Writing.{IsStorable, first_parts, write_mbr-IsDisk, write_primary-IsDisk}
use go_diskfs.Gpt.Disk.Reading.{read_parts}

-- A disk after Write: the two headers and an array, and what the reading functions make of them.
pub record Written (s : Storage) (w : IsDisk s) (u : UuidLibrary) (pss : ℕ) (t : Table) (d : s.Disk)
    : Type 0 where
  pub first_header : List ℕ
  pub array : List ℕ
  pub second_header : List ℕ
  pub at_first : slice_at t.logical_sector_size t.logical_sector_size (w.contents d) ≡ first_header
  pub at_array :
      slice_at (t.logical_sector_size * 2) (128 * t.partition_array_size) (w.contents d) ≡ array
  pub at_second :
      slice_at (t.secondary_header * t.logical_sector_size) t.logical_sector_size (w.contents d)
      ≡ second_header
  pub length_second : length second_header ≡ t.logical_sector_size
  pub first_found : read_gpt_header u first_header ≡ ok (found true t (checksum_ieee array))
  pub second_found : read_gpt_header u second_header ≡ ok (found false t (checksum_ieee array))
  pub parts :
      read_partition_array_bytes u array 128 t.logical_sector_size pss
      ≡ ok (with_sectors t.logical_sector_size pss t.partitions)
  pub storable : IsStorable u (length (w.contents d)) t

pub write-Written :
    (s : Storage) (w : IsDisk s) (u : UuidLibrary) (r : Randoms) (size pss : ℕ) (t : Table)
    (d : s.Disk)
    → IsUuidLibrary u
    → IsStorable u (length (w.contents d)) t
    → (d' : s.Disk) × (write s u r size t d ≡ (d', ok t))
      × Written s w u pss t d'
      × (length (w.contents d') ≡ length (w.contents d))
unfolding write
write-Written s w u r size pss t d l i =
    let (a, arrays, la, parts) =
      read_partition_array_bytes-to_partition_array_bytes u pss t l i.entry_size i.array_fits
        i.enough i.ready in
    let (b1, e1, l1, found1) =
      read_gpt_header-to_gpt_bytes u (r.for_header true) (r.for_partitions 0) true t t a l i.header
        (arrays (r.for_partitions 0)) in
    let (b2, e2, l2, found2) =
      read_gpt_header-to_gpt_bytes u (r.for_header false) (r.for_partitions 2) false t t a l
        i.header (arrays (r.for_partitions 2)) in
    let (d0, begun, same) = write_mbr-IsDisk s w u r t d (length (w.contents d)) i refl in
    let i0 : IsStorable u (length (w.contents d0)) t = subst (λ n. IsStorable u n t) (sym same) i in
    let (d', ran, content) =
      write_primary-IsDisk s w u r t d0 b1 a b2 e1 (arrays (r.for_partitions 1)) e2 l1 la l2 i0 in
    let (p1, p2, p3, long) =
      first_parts s w u t (length (w.contents d0)) b1 a b2 (w.contents d0) i0 refl l1 la l2 in
    let lss = t.logical_sector_size in
    (
      d',
      ap (λ b. write_mbr s u r (if b then t else init_table u r.for_table size t) d) i.initialized
          ∙ begun
          ∙ ran,
      record {
        first_header = b1;
        array = a;
        second_header = b2;
        at_first = ap (slice_at lss lss) content ∙ p1;
        at_array = ap (slice_at (lss * 2) (128 * t.partition_array_size)) content ∙ p2;
        at_second = ap (slice_at (t.secondary_header * lss) lss) content ∙ p3;
        length_second = l2;
        first_found = found1;
        second_found = found2;
        parts = parts;
        storable = subst (λ n. IsStorable u n t) (sym (ap length content ∙ long)) i0;
      },
      ap length content ∙ long ∙ same,
    )

-- Write of a storable table to a disk that takes all writes succeeds, whatever uuid.NewRandom
-- gives, and leaves the table as it is; Read of the disk afterwards gives the table: its layout, its
-- GUID, and its partitions with the sector sizes that Read is given. Only the place and the
-- checksum of the array, and whether there is a protective MBR, are read anew.
pub read-write_gpt :
    (s : Storage) (w : IsDisk s) (u : UuidLibrary) (r : Randoms) (size pss : ℕ) (t : Table)
    (d : s.Disk)
    → IsUuidLibrary u
    → IsStorable u (length (w.contents d)) t
    → (d' : s.Disk) × (m : Bool) × (sum : ℕ) × (write s u r size t d ≡ (d', ok t))
      × (read s u t.logical_sector_size pss d'
          ≡ ok (record t {
            partitions = with_sectors t.logical_sector_size pss t.partitions;
            physical_sector_size = pss;
            protective_mbr = m;
            partition_first_lba = 2;
            partition_entry_checksum = sum;
          }))
read-write_gpt s w u r size pss t d l i =
    let (d', ran, done, long) = write-Written s w u r size pss t d l i in
    let a = done.array in
    let lss = t.logical_sector_size in
    let m = read_protective_mbr (slice_at 0 lss (w.contents d')) (t.secondary_header % 2 ^ 32) in
    (
      d',
      m,
      checksum_ieee a,
      ran,
      read_parts s w u t pss d' done.first_header a done.storable done.at_first done.at_array
            done.first_found done.parts
          ∙ ap
              (λ n. ok (record (found true t (checksum_ieee a)) {
                partitions = with_sectors lss pss t.partitions;
                logical_sector_size = lss;
                physical_sector_size = pss;
                protective_mbr = m;
                partition_entry_size = n;
                initialized = true;
              }))
              (sym i.entry_size)
          ∙ ap₂
              (λ n b. ok (record t {
                partitions = with_sectors lss pss t.partitions;
                physical_sector_size = pss;
                protective_mbr = m;
                partition_first_lba = n;
                partition_entry_checksum = checksum_ieee a;
                initialized = b;
              }))
              i.first (sym i.initialized),
    )
