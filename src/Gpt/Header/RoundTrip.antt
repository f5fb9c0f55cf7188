-- ===== src/Gpt/Header/RoundTrip.antt =====
-- The header of partition/gpt/table.go, read back.
use go_diskfs.Base.{
  ltb_ge, ==_refl, length-replicate, ℕ, zero, suc, ◌+◌, ◌-◌, ◌%◌, ◌^◌, ◌≤◌, ◌<◌, ◌≡◌, refl, sym, ap,
  ◌∙◌, Bool, true, false, some, List, [], ◌∷◌, ◌++◌, ok, length, replicate, ltb, ◌==◌,
  if◌then◌else◌, arith, cells_lem,
}
use go_diskfs.Base.Bytes.{put_at, le_bytes, le_value, slice, bytes_equal, le_value-le_bytes}
use go_diskfs.Base.Crc.{checksum_ieee, checksum_ieee-lt}
use go_diskfs.Gpt.Uuid.{
  UuidLibrary, IsUuidLibrary, IsUuid, to_upper, length-to_upper, bytes_to_uuid_bytes,
  length-bytes_to_uuid_bytes, bytes_to_uuid_bytes_self,
}
use go_diskfs.Gpt.Table.{Table, partition_array_sector}
use go_diskfs.Gpt.Entries.{to_partition_array_bytes}
use go_diskfs.Gpt.Header.{
  efi_signature, efi_revision, efi_header_size, efi_zeroes, disk_guid, fields, seal, to_gpt_bytes,
  read_gpt_header,
}

split_zeros : (n : ℕ) → 92 ≤ n → replicate {A = ℕ} n 0 ≡ replicate 92 0 ++ replicate (n - 92) 0
split_zeros n h =
    let e : n ≡ 92 + (n - 92) = omega arith in ap (λ k. replicate {A = ℕ} k 0) e ∙ go 92 (n - 92)
  where
    go : (m k : ℕ) → replicate {A = ℕ} (m + k) 0 ≡ replicate m 0 ++ replicate k 0
    go zero k = let e : 0 + k ≡ k = omega arith in ap (λ k. replicate {A = ℕ} k 0) e
    go (suc m) k =
        let e : suc m + k ≡ suc (m + k) = omega arith in
        ap (λ k. replicate {A = ℕ} k 0) e ∙ ap (λ z. 0 ∷ z) (go m k)

module _ (n here there first last : ℕ) (g : List ℕ) (array entries checksum c : ℕ) (h : 92 ≤ n)
    (k : length g ≡ 16) where
  b : List ℕ
  b = fields n here there first last g array entries checksum

  sealed : List ℕ
  sealed = put_at 16 (le_bytes 4 c) b

  parts :
      (slice 0 8 sealed ≡ efi_signature)
      × (slice 8 12 sealed ≡ efi_revision)
      × (slice 12 16 sealed ≡ efi_header_size)
      × (slice 16 20 sealed ≡ le_bytes 4 c)
      × (slice 20 24 sealed ≡ efi_zeroes)
      × (slice 24 32 sealed ≡ le_bytes 8 here)
      × (slice 32 40 sealed ≡ le_bytes 8 there)
      × (slice 40 48 sealed ≡ le_bytes 8 first)
      × (slice 48 56 sealed ≡ le_bytes 8 last)
      × (slice 56 72 sealed ≡ g)
      × (slice 72 80 sealed ≡ le_bytes 8 array)
      × (slice 80 84 sealed ≡ le_bytes 4 entries)
      × (slice 84 88 sealed ≡ le_bytes 4 0x80)
      × (slice 88 92 sealed ≡ le_bytes 4 checksum)
      × (slice 0 92 (put_at 16 efi_zeroes sealed) ≡ slice 0 92 b)
  unfolding b sealed fields
  parts =
      rw (split_zeros n h, sym (cells_lem 0 16 g k))
        (refl, refl, refl, refl, refl, refl, refl, refl, refl, refl, refl, refl, refl, refl, refl)

  length-sealed : length sealed ≡ n
  unfolding b sealed fields
  length-sealed =
      rw (split_zeros n h, sym (cells_lem 0 16 g k))
        (omega (arith, h, length-replicate {A = ℕ} (n - 92) 0))

-- What readGPTHeader makes of a buffer, by its parts.
read_gpt_header_parts :
    (u : UuidLibrary) (gpt g : List ℕ) (c here there first last array entries entry checksum : ℕ)
    → 92 ≤ length gpt
    → slice 0 8 gpt ≡ efi_signature
    → slice 8 12 gpt ≡ efi_revision
    → slice 12 16 gpt ≡ efi_header_size
    → le_value (slice 16 20 gpt) ≡ c
    → slice 20 24 gpt ≡ efi_zeroes
    → le_value (slice 24 32 gpt) ≡ here
    → le_value (slice 32 40 gpt) ≡ there
    → le_value (slice 40 48 gpt) ≡ first
    → le_value (slice 48 56 gpt) ≡ last
    → slice 56 72 gpt ≡ g
    → le_value (slice 72 80 gpt) ≡ array
    → le_value (slice 80 84 gpt) ≡ entries
    → le_value (slice 84 88 gpt) ≡ entry
    → le_value (slice 88 92 gpt) ≡ checksum
    → checksum_ieee (slice 0 92 (put_at 16 efi_zeroes gpt)) ≡ c
    → read_gpt_header u gpt
      ≡ ok (record {
        partitions = [];
        logical_sector_size = 0;
        physical_sector_size = 0;
        guid = to_upper (u.to_string (bytes_to_uuid_bytes g));
        protective_mbr = false;
        partition_array_size = entries;
        partition_entry_size = entry;
        partition_first_lba = array;
        partition_entry_checksum = checksum;
        primary_header = here;
        secondary_header = there;
        first_data_sector = first;
        last_data_sector = last;
        initialized = false;
      })
unfolding read_gpt_header bytes_equal
read_gpt_header_parts u gpt g c here there first last array entries entry checksum h p0 p1 p2 p3 p4
      p5 p6 p7 p8 p9 p10 p11 p12 p13 sum =
    let long : ltb (length gpt) 92 ≡ false = ltb_ge (length gpt) 92 h in
    let same : (c == c) ≡ true = ==_refl c in
    rw long (
      rw p0 (
        rw p1 (
          rw p2 (
            rw p4 (
              rw p3 (
                rw sum (
                  rw same (
                    rw p5 (
                      rw p6
                        (rw p7 (rw p8 (rw p9 (rw p10 (rw p11 (rw p12 (rw p13 refl))))))))))))))))

-- A table whose numbers fit their fields and whose GUID is a UUID in capitals.
pub record IsWritable (u : UuidLibrary) (t : Table) : Type 0 where
  pub guid_bytes : List ℕ
  pub guid_uuid : IsUuid guid_bytes
  pub guid_text : t.guid ≡ to_upper (u.to_string guid_bytes)
  pub sector_fits : 92 ≤ t.logical_sector_size
  pub primary_fits : t.primary_header < 2 ^ 64
  pub secondary_fits : t.secondary_header < 2 ^ 64
  pub first_fits : t.first_data_sector < 2 ^ 64
  pub last_fits : t.last_data_sector < 2 ^ 64
  pub array_fits : t.partition_array_size < 2 ^ 32

-- The table that readGPTHeader finds in a header of t.
abbrev pub found : Bool → Table → ℕ → Table
found primary t array_checksum = record t {
  partitions = [];
  logical_sector_size = 0;
  physical_sector_size = 0;
  protective_mbr = false;
  partition_entry_size = 128;
  partition_first_lba = partition_array_sector primary t;
  partition_entry_checksum = array_checksum;
  primary_header = if primary then t.primary_header else t.secondary_header;
  secondary_header = if primary then t.secondary_header else t.primary_header;
  initialized = false;
}

either : (primary : Bool) (a c : ℕ) → a < 2 ^ 64 → c < 2 ^ 64 → (if primary then a else c) < 2 ^ 64
either true a c h k = h
either false a c h k = k

array_sector-lt : (primary : Bool) (t : Table) → partition_array_sector primary t < 2 ^ 64
unfolding partition_array_sector
array_sector-lt true t = omega arith
array_sector-lt false t = omega arith

module _ (u : UuidLibrary) (l : IsUuidLibrary u) (primary : Bool) (t : Table) (w : IsWritable u t)
    (sum : ℕ) (sum_fits : sum < 2 ^ 32) where
  here : ℕ
  here = if primary then t.primary_header else t.secondary_header

  there : ℕ
  there = if primary then t.secondary_header else t.primary_header

  header : List ℕ
  header =
      fields t.logical_sector_size here there t.first_data_sector t.last_data_sector
        (bytes_to_uuid_bytes w.guid_bytes) (partition_array_sector primary t)
        (t.partition_array_size % 2 ^ 32) sum

  length-seal : length (seal header) ≡ t.logical_sector_size
  unfolding seal header b sealed here there
  length-seal =
      length-sealed t.logical_sector_size here there t.first_data_sector t.last_data_sector
        (bytes_to_uuid_bytes w.guid_bytes) (partition_array_sector primary t)
        (t.partition_array_size % 2 ^ 32) sum (checksum_ieee (slice 0 92 header)) w.sector_fits
        (length-bytes_to_uuid_bytes w.guid_bytes w.guid_uuid.0)

  read-seal : read_gpt_header u (seal header) ≡ ok (found primary t sum)
  unfolding seal header b sealed here there
  read-seal =
      let g = bytes_to_uuid_bytes w.guid_bytes in
      let lg = length-bytes_to_uuid_bytes w.guid_bytes w.guid_uuid.0 in
      let n = t.logical_sector_size in
      let array = partition_array_sector primary t in
      let entries = t.partition_array_size % 2 ^ 32 in
      let c = checksum_ieee (slice 0 92 header) in
      let (p0, p1, p2, p3, p4, p5, p6, p7, p8, p9, p10, p11, p12, p13, cleared) =
        parts n here there t.first_data_sector t.last_data_sector g array entries sum c
          w.sector_fits lg in
      let size =
        length-sealed n here there t.first_data_sector t.last_data_sector g array entries sum c
          w.sector_fits lg in
      read_gpt_header_parts u (seal header) g c here there t.first_data_sector t.last_data_sector
        array t.partition_array_size 128 sum (omega (arith, size, w.sector_fits)) p0 p1 p2
        (ap le_value p3 ∙ le_value-le_bytes 4 c (checksum_ieee-lt (slice 0 92 header))) p4
        (ap le_value p5
          ∙ le_value-le_bytes 8 here
              (either primary t.primary_header t.secondary_header w.primary_fits w.secondary_fits))
        (ap le_value p6
          ∙ le_value-le_bytes 8 there
              (either primary t.secondary_header t.primary_header w.secondary_fits w.primary_fits))
        (ap le_value p7 ∙ le_value-le_bytes 8 t.first_data_sector w.first_fits)
        (ap le_value p8 ∙ le_value-le_bytes 8 t.last_data_sector w.last_fits) p9
        (ap le_value p10 ∙ le_value-le_bytes 8 array (array_sector-lt primary t))
        (ap le_value p11 ∙ le_value-le_bytes 4 entries (omega arith) ∙ omega (arith, w.array_fits))
        (ap le_value p12 ∙ le_value-le_bytes 4 128 (omega arith))
        (ap le_value p13 ∙ le_value-le_bytes 4 sum sum_fits) (ap checksum_ieee cleared)
      ∙ ap (λ z. ok (record (found primary t sum) { guid = z }))
          (ap (λ z. to_upper (u.to_string z)) (bytes_to_uuid_bytes_self w.guid_bytes w.guid_uuid.0)
            ∙ sym w.guid_text)

disk_guid_parsed :
    (u : UuidLibrary) (random : List ℕ) (t : Table) (s g : List ℕ)
    → t.guid ≡ s
    → 0 < length s
    → u.parse s ≡ some g
    → disk_guid u random t ≡ ok g
unfolding disk_guid
disk_guid_parsed u random t [] g e h parsed = absurd (omega arith)
disk_guid_parsed u random t (c ∷ s) g e h parsed =
    rw (e, disk_guid) (rw (ap u.parse e ∙ parsed) refl)

-- The header of a table whose array of entries can be made, whose sectors have at least 92 bytes,
-- whose GUID is a UUID in capitals, and whose places and number of entries fit the header's fields of
-- 64 and 32 bits: it fills a sector, and readGPTHeader reads from it the table's layout and GUID, 128
-- for the size of an entry, the place of the array beside that header and the array's checksum; the
-- second header has the two headers' places swapped.
pub read_gpt_header-to_gpt_bytes :
    (u : UuidLibrary) (random : List ℕ) (randoms : ℕ → List ℕ) (primary : Bool) (t t' : Table)
    (bpart : List ℕ)
    → IsUuidLibrary u
    → IsWritable u t
    → to_partition_array_bytes u randoms t ≡ ok (t', bpart)
    → (b : List ℕ) × (to_gpt_bytes u random randoms primary t ≡ ok (t', b))
      × (length b ≡ t.logical_sector_size)
      × (read_gpt_header u b ≡ ok (found primary t (checksum_ieee bpart)))
unfolding to_gpt_bytes header here there
read_gpt_header-to_gpt_bytes u random randoms primary t t' bpart l w ran =
    let guid : disk_guid u random t ≡ ok w.guid_bytes =
      disk_guid_parsed u random t (to_upper (u.to_string w.guid_bytes)) w.guid_bytes w.guid_text
        (omega
          (arith, length-to_upper (u.to_string w.guid_bytes), l.not_empty w.guid_bytes w.guid_uuid))
        (l.parse-upper w.guid_bytes w.guid_uuid) in
    let long : ltb t.logical_sector_size 92 ≡ false =
      ltb_ge t.logical_sector_size 92 w.sector_fits in
    let fits = checksum_ieee-lt bpart in
    (
      seal (header u l primary t w (checksum_ieee bpart) fits),
      rw long (rw guid (rw ran refl)),
      length-seal u l primary t w (checksum_ieee bpart) fits,
      read-seal u l primary t w (checksum_ieee bpart) fits,
    )
