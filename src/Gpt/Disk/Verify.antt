-- ===== src/Gpt/Disk/Verify.antt =====
-- What Verify of partition/gpt/table.go says of a disk after Write.
use native.Mathlib.Nat.{mul-div_cancel, div-le_self}
use go_diskfs.Base.Crc.{checksum_ieee}
use go_diskfs.Base.Bytes.{put_at}
use go_diskfs.Base.{
  ltb_ge, ==_refl, ==_ne, ==_of, ℕ, suc, ◌*◌, ◌^◌, ◌<◌, ◌≡◌, ◌≢◌, refl, ap, ◌∙◌, false, none, List,
  ok, length, ◌==◌, arith,
}
use go_diskfs.Base.Storage.{Storage, IsDisk}
use go_diskfs.Gpt.Uuid.{add64, sub64, mul64, UuidLibrary, IsUuidLibrary}
use go_diskfs.Gpt.Table.{Table, part_sectors}
use go_diskfs.Gpt.Header.{with_disk, efi_zeroes, table_header_from_bytes, read_gpt_header}
use go_diskfs.Gpt.Header.RoundTrip.{found}
use go_diskfs.Gpt.Disk.{Randoms, write, verify}
use go_diskfs.Gpt.Disk.Writing.{IsStorable}
use go_diskfs.Gpt.Disk.RoundTrip.{write-Written}

-- The table says that its second header is in the last sector of a disk of `size` bytes, and that
-- its data end before the second array.
pub record IsWhole (size : ℕ) (t : Table) : Type 0 where
  pub whole : suc t.secondary_header * t.logical_sector_size ≡ size
  pub size_fits : size < 2 ^ 64
  pub last_sector : t.last_data_sector ≡ sub64 (sub64 t.secondary_header (part_sectors t)) 1

end_of_disk :
    (sector lss : ℕ)
    → lss ≢ 0
    → suc sector * lss < 2 ^ 64
    → mul64 (add64 sector 1) lss ≡ suc sector * lss
end_of_disk sector lss ne fits =
    let pos : 0 < lss = ground arith in
    let small : suc sector < 2 ^ 64 =
      omega (arith, mul-div_cancel (suc sector) pos, div-le_self (suc sector * lss) lss) in
    let next : add64 sector 1 ≡ suc sector = omega arith in rw next (omega arith)

-- A header by itself.
table_header_parts :
    (u : UuidLibrary) (b : List ℕ) (lbs pbs : ℕ) (t : Table)
    → length b ≡ lbs
    → read_gpt_header u b ≡ ok t
    → table_header_from_bytes u b lbs pbs false ≡ ok (with_disk (put_at 16 efi_zeroes b) lbs pbs t)
unfolding table_header_from_bytes
table_header_parts u b lbs pbs t long header =
    rw (ltb_ge (length b) lbs (omega (arith, long))) (rw header refl)

-- After Write of a storable table that covers the whole disk, Verify with the disk's size finds
-- nothing to complain of.
pub verify-write :
    (s : Storage) (w : IsDisk s) (u : UuidLibrary) (r : Randoms) (t : Table) (d : s.Disk)
    → IsUuidLibrary u
    → IsStorable u (length (w.contents d)) t
    → IsWhole (length (w.contents d)) t
    → (d' : s.Disk) × (write s u r (length (w.contents d)) t d ≡ (d', ok t))
      × (verify s u (length (w.contents d)) t d' ≡ ok tt)
unfolding verify with_disk
verify-write s w u r t d l i h =
    let (d', ran, done, long) = write-Written s w u r (length (w.contents d)) 0 t d l i in
    let size = length (w.contents d) in
    let lss = t.logical_sector_size in
    let ne : lss ≢ 0 = λ e. omega (arith, i.sector) in
    let full : mul64 (add64 t.secondary_header 1) lss ≡ size =
      end_of_disk t.secondary_header lss ne (omega (arith, h.whole, h.size_fits)) ∙ h.whole in
    let got : s.read_at lss (t.secondary_header * lss) d' ≡ (done.second_header, none) =
      w.reads lss (t.secondary_header * lss) d' (omega (arith, i.inside, long))
      ∙ ap (λ z. (z, none)) done.at_second in
    let second =
      table_header_parts u done.second_header lss t.physical_sector_size
        (found false t (checksum_ieee done.array)) done.length_second done.second_found in
    let begun : (lss == 0) ≡ false = ==_ne lss 0 ne in
    (
      d',
      ran,
      rw (begun, verify)
          (rw full (
            rw (==_refl size) (
              rw got (
                rw second (
                  rw (==_refl t.first_data_sector) (
                    rw
                      (==_of t.last_data_sector
                        (sub64 (sub64 t.secondary_header (part_sectors t)) 1) h.last_sector)
                      refl)))))),
    )
