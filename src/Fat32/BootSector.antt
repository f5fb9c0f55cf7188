-- ===== src/Fat32/BootSector.antt =====
-- filesystem/fat32/msdosbootsector.go: the boot sector, 512 bytes.
use go_diskfs.Base.{
  ℕ, ◌+◌, ◌-◌, Bool, ◌&&◌, List, Result, ok, ◌>>=◌, ◌>>◌, guard, map_err, length, take, replicate,
  leb, ◌==◌,
}
use go_diskfs.Base.Bytes.{be_bytes, be_value, put_at, slice, bytes_equal}
use go_diskfs.Base.Text.{rune_count, pad_right}
use go_diskfs.Fat32.Dos20Bpb.{sector_size_512}
use go_diskfs.Fat32.Dos71Ebpb
use go_diskfs.Fat32.Dos71Ebpb.{Dos71Ebpb}

-- msDosBootSectorSignature
abbrev pub signature : ℕ
signature = 0x55aa

-- type msDosBootSector struct. `jump_instruction` is an array of 3 bytes.
pub record MsDosBootSector : Type 0 where
  pub jump_instruction : List ℕ
  pub oem_name : List ℕ
  pub bios_parameter_block : Dos71Ebpb
  pub boot_code : List ℕ

pub data Error : Type 0 where
  wrong_size : ℕ → Error
  parameter_block : Dos71Ebpb.Error → Error
  invalid_signature : ℕ → Error
  name_too_long : Error
  name_not_ascii : Error
  code_too_long : ℕ → Error

-- equal, of two sectors that are not nil.
unfoldable pub equal : MsDosBootSector → MsDosBootSector → Bool
unfolding Dos71Ebpb.equal bytes_equal
equal m a =
    Dos71Ebpb.equal m.bios_parameter_block a.bios_parameter_block
    && (bytes_equal m.oem_name a.oem_name
        && (bytes_equal m.jump_instruction a.jump_instruction
            && bytes_equal m.boot_code a.boot_code))

unfoldable pub from_bytes : List ℕ → Result Error MsDosBootSector
unfolding be_value
from_bytes b = do
  guard (length b == sector_size_512) (wrong_size (length b))
  (bpb, bpb_size) ← map_err parameter_block (Dos71Ebpb.from_bytes (slice 11 90 b))
  let boot_sector_start = 11 + bpb_size
  let boot_sector_end = sector_size_512 - 2
  let bs_signature = be_value (slice boot_sector_end sector_size_512 b)
  guard (bs_signature == signature) (invalid_signature bs_signature)
  ok (record {
    jump_instruction = slice 0 3 b;
    oem_name = slice 3 11 b;
    bios_parameter_block = bpb;
    boot_code = slice boot_sector_start boot_sector_end b;
  })

-- `copy(b[11+bpbLen:SectorSize512-2], m.bootCode)`
abbrev pub put_code : ℕ → List ℕ → List ℕ → List ℕ
put_code bpb_len code b = put_at (11 + bpb_len) (take (sector_size_512 - 2 - (11 + bpb_len)) code) b

unfoldable pub to_bytes : MsDosBootSector → Result Error (List ℕ)
unfolding rune_count pad_right
to_bytes m = do
  let name = m.oem_name
  let b = put_at 0 (take 3 m.jump_instruction) (replicate {A = ℕ} sector_size_512 0)
  guard (leb (length name) 8) name_too_long
  guard (rune_count name == length name) name_not_ascii
  let b = put_at 3 (take 8 (pad_right 8 name)) b
  bpb_bytes ← map_err parameter_block (Dos71Ebpb.to_bytes m.bios_parameter_block)
  let b = put_at 11 bpb_bytes b
  let bpb_len = length bpb_bytes
  guard (leb (length m.boot_code) (sector_size_512 - 2 - (11 + bpb_len)))
      (code_too_long (length m.boot_code))
  let b = put_code bpb_len m.boot_code b
  ok (put_at (sector_size_512 - 2) (be_bytes 2 signature) b)
