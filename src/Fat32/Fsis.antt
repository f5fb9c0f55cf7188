-- ===== src/Fat32/Fsis.antt =====
-- filesystem/fat32/fsinfosector.go: the information sector, 512 bytes.
use go_diskfs.Base.{
  ℕ, ◌<◌, ◌^◌, ◌≡◌, refl, List, Result, ok, ◌>>◌, guard, length, replicate, ◌==◌, arith,
}
use go_diskfs.Base.Bytes.{le_bytes, le_value, be_bytes, be_value, put_at, slice, le_value-le_bytes}
use go_diskfs.Fat32.Dos20Bpb.{sector_size_512}

abbrev pub signature_start : ℕ
signature_start = 0x52526141

abbrev pub signature_mid : ℕ
signature_mid = 0x72724161

abbrev pub signature_end : ℕ
signature_end = 0x000055AA

-- type FSInformationSector struct
pub record FsInformationSector : Type 0 where
  pub free_data_clusters_count : ℕ
  pub last_allocated_cluster : ℕ

pub data Error : Type 0 where
  wrong_size : ℕ → Error
  invalid_start : ℕ → Error
  invalid_middle : ℕ → Error
  invalid_end : ℕ → Error

unfoldable pub from_bytes : List ℕ → Result Error FsInformationSector
unfolding le_value be_value
from_bytes b = do
  guard (length b == sector_size_512) (wrong_size (length b))
  let start = be_value (slice 0 4 b)
  let mid = be_value (slice 484 488 b)
  let end = be_value (slice 508 512 b)
  guard (start == signature_start) (invalid_start start)
  guard (mid == signature_mid) (invalid_middle mid)
  guard (end == signature_end) (invalid_end end)
  ok (record {
    free_data_clusters_count = le_value (slice 488 492 b);
    last_allocated_cluster = le_value (slice 492 496 b);
  })

unfoldable pub to_bytes : FsInformationSector → List ℕ
to_bytes fsis =
    let b = replicate {A = ℕ} sector_size_512 0 in
    let b = put_at 0 (be_bytes 4 signature_start) b in
    let b = put_at 484 (be_bytes 4 signature_mid) b in
    let b = put_at 508 (be_bytes 4 signature_end) b in
    let b = put_at 488 (le_bytes 4 fsis.free_data_clusters_count) b in
    put_at 492 (le_bytes 4 fsis.last_allocated_cluster) b

-- An information sector of uint32 fields that is written is read back as it was.
pub fsis_from_bytes-to_bytes :
    (s : FsInformationSector)
    → s.free_data_clusters_count < 2 ^ 32
    → s.last_allocated_cluster < 2 ^ 32
    → (from_bytes (to_bytes s) ≡ ok s) × (length (to_bytes s) ≡ sector_size_512)
unfolding from_bytes to_bytes
fsis_from_bytes-to_bytes s free last = (
  ground (
    arith,
    le_value-le_bytes 4 s.free_data_clusters_count,
    le_value-le_bytes 4 s.last_allocated_cluster,
  ),
  refl,
)
