-- ===== src/Fat32/Dos20Bpb.antt =====
-- filesystem/fat32/dos20bpb.go: the DOS 2.0 BIOS parameter block, 13 bytes.
use go_diskfs.Base.{
  ℕ, ◌<◌, ◌^◌, ◌≡◌, Bool, ◌&&◌, List, Result, ok, ◌>>◌, guard, length, get_or, set, replicate, ◌==◌,
  arith,
}
use go_diskfs.Base.Bytes.{le_bytes, le_value, put_at, slice, le_value-le_bytes}

-- SectorSize512
abbrev pub sector_size_512 : ℕ
sector_size_512 = 512

-- type dos20BPB struct
pub record Dos20Bpb : Type 0 where
  pub bytes_per_sector : ℕ
  pub sectors_per_cluster : ℕ
  pub reserved_sectors : ℕ
  pub fat_count : ℕ
  pub root_directory_entries : ℕ
  pub total_sectors : ℕ
  pub media_type : ℕ
  pub sectors_per_fat : ℕ

pub data Error : Type 0 where
  not_thirteen_bytes : Error
  invalid_sector_size : ℕ → Error

unfoldable pub from_bytes : List ℕ → Result Error Dos20Bpb
unfolding le_value
from_bytes b = do
  guard (length b == 13) not_thirteen_bytes
  let sector_size = le_value (slice 0 2 b)
  guard (sector_size == sector_size_512) (invalid_sector_size sector_size)
  ok (record {
    bytes_per_sector = sector_size_512;
    sectors_per_cluster = get_or b 2 0;
    reserved_sectors = le_value (slice 3 5 b);
    fat_count = get_or b 5 0;
    root_directory_entries = le_value (slice 6 8 b);
    total_sectors = le_value (slice 8 10 b);
    media_type = get_or b 10 0;
    sectors_per_fat = le_value (slice 11 13 b);
  })

unfoldable pub to_bytes : Dos20Bpb → List ℕ
to_bytes bpb =
    let b = replicate {A = ℕ} 13 0 in
    let b = put_at 0 (le_bytes 2 bpb.bytes_per_sector) b in
    let b = set b 2 bpb.sectors_per_cluster in
    let b = put_at 3 (le_bytes 2 bpb.reserved_sectors) b in
    let b = set b 5 bpb.fat_count in
    let b = put_at 6 (le_bytes 2 bpb.root_directory_entries) b in
    let b = put_at 8 (le_bytes 2 bpb.total_sectors) b in
    let b = set b 10 bpb.media_type in put_at 11 (le_bytes 2 bpb.sectors_per_fat) b

-- `==` of two structures.
unfoldable pub equal : Dos20Bpb → Dos20Bpb → Bool
equal x y =
    x.bytes_per_sector == y.bytes_per_sector
    && (x.sectors_per_cluster == y.sectors_per_cluster
        && (x.reserved_sectors == y.reserved_sectors
            && (x.fat_count == y.fat_count
                && (x.root_directory_entries == y.root_directory_entries
                    && (x.total_sectors == y.total_sectors
                        && (x.media_type == y.media_type
                            && x.sectors_per_fat == y.sectors_per_fat))))))

-- The only sector size that is read, and fields of their Go types' widths.
pub record IsValid (p : Dos20Bpb) : Type 0 where
  pub sector : p.bytes_per_sector ≡ sector_size_512
  pub reserved : p.reserved_sectors < 2 ^ 16
  pub entries : p.root_directory_entries < 2 ^ 16
  pub total : p.total_sectors < 2 ^ 16
  pub per_fat : p.sectors_per_fat < 2 ^ 16

pub from_bytes-to_bytes : (p : Dos20Bpb) → IsValid p → from_bytes (to_bytes p) ≡ ok p
unfolding from_bytes to_bytes
from_bytes-to_bytes p v = ground (
  arith,
  le_value-le_bytes 2 p.bytes_per_sector,
  le_value-le_bytes 2 p.reserved_sectors,
  le_value-le_bytes 2 p.root_directory_entries,
  le_value-le_bytes 2 p.total_sectors,
  le_value-le_bytes 2 p.sectors_per_fat,
)
