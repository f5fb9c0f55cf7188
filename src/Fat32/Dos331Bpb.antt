-- ===== src/Fat32/Dos331Bpb.antt =====
-- filesystem/fat32/dos331bpb.go: the DOS 3.31 BIOS parameter block, 25 bytes.
use go_diskfs.Base.{
  ℕ, ◌<◌, ◌^◌, ◌≡◌, refl, Bool, ◌&&◌, List, Result, ok, ◌>>=◌, ◌>>◌, guard, map_err, length,
  replicate, ◌==◌, arith,
}
use go_diskfs.Base.Bytes.{le_bytes, le_value, put_at, slice, le_value-le_bytes}
use go_diskfs.Fat32.Dos20Bpb
use go_diskfs.Fat32.Dos20Bpb.{Dos20Bpb}

-- type dos331BPB struct
pub record Dos331Bpb : Type 0 where
  pub dos20_bpb : Dos20Bpb
  pub sectors_per_track : ℕ
  pub heads : ℕ
  pub hidden_sectors : ℕ
  pub total_sectors : ℕ

pub data Error : Type 0 where
  not_twenty_five_bytes : Error
  embedded : Dos20Bpb.Error → Error

-- equal, of two blocks that are not nil.
unfoldable pub equal : Dos331Bpb → Dos331Bpb → Bool
unfolding Dos20Bpb.equal
equal bpb a =
    Dos20Bpb.equal bpb.dos20_bpb a.dos20_bpb
    && (bpb.sectors_per_track == a.sectors_per_track
        && (bpb.heads == a.heads
            && (bpb.hidden_sectors == a.hidden_sectors && bpb.total_sectors == a.total_sectors)))

unfoldable pub from_bytes : List ℕ → Result Error Dos331Bpb
unfolding le_value Dos20Bpb.from_bytes
from_bytes b = do
  guard (length b == 25) not_twenty_five_bytes
  dos20bpb ← map_err embedded (Dos20Bpb.from_bytes (slice 0 13 b))
  ok (record {
    dos20_bpb = dos20bpb;
    sectors_per_track = le_value (slice 13 15 b);
    heads = le_value (slice 15 17 b);
    hidden_sectors = le_value (slice 17 21 b);
    total_sectors = le_value (slice 21 25 b);
  })

unfoldable pub to_bytes : Dos331Bpb → List ℕ
unfolding Dos20Bpb.to_bytes
to_bytes bpb =
    let b = replicate {A = ℕ} 25 0 in
    let b = put_at 0 (Dos20Bpb.to_bytes bpb.dos20_bpb) b in
    let b = put_at 13 (le_bytes 2 bpb.sectors_per_track) b in
    let b = put_at 15 (le_bytes 2 bpb.heads) b in
    let b = put_at 17 (le_bytes 4 bpb.hidden_sectors) b in
    put_at 21 (le_bytes 4 bpb.total_sectors) b

pub record IsValid (p : Dos331Bpb) : Type 0 where
  pub dos20 : Dos20Bpb.IsValid p.dos20_bpb
  pub track : p.sectors_per_track < 2 ^ 16
  pub heads : p.heads < 2 ^ 16
  pub hidden : p.hidden_sectors < 2 ^ 32
  pub total : p.total_sectors < 2 ^ 32

-- The embedded block's bytes, apart from what the bytes after it are.
embedded-bytes : (p : Dos331Bpb) → slice 0 13 (to_bytes p) ≡ Dos20Bpb.to_bytes p.dos20_bpb
unfolding to_bytes
embedded-bytes p = refl

pub from_bytes-to_bytes : (p : Dos331Bpb) → IsValid p → from_bytes (to_bytes p) ≡ ok p
unfolding from_bytes to_bytes
from_bytes-to_bytes p v = ground (
  arith,
  Dos20Bpb.from_bytes-to_bytes p.dos20_bpb v.dos20,
  le_value-le_bytes 2 p.sectors_per_track,
  le_value-le_bytes 2 p.heads,
  le_value-le_bytes 4 p.hidden_sectors,
  le_value-le_bytes 4 p.total_sectors,
)
