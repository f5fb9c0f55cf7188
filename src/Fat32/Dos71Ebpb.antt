-- ===== src/Fat32/Dos71Ebpb.antt =====
-- filesystem/fat32/dos71bpb.go: the DOS 7.1 extended BIOS parameter block, 60 or 79 bytes.
pub mod RoundTrip
use go_diskfs.Base.{
  ℕ, ◌+◌, ◌<◌, ◌^◌, ◌≤◌, ◌≡◌, ◌⊎◌, Bool, ◌&&◌, ◌||◌, List, [], Result, ok, err, panic, ◌>>=◌, ◌>>◌,
  guard, map_err, length, get_or, set, take, replicate, All, leb, ◌==◌, if◌then◌else◌,
}
use go_diskfs.Base.Bytes.{le_bytes, le_value, be_bytes, be_value, put_at, slice, bytes_equal}
use go_diskfs.Base.Text.{rune_count, pad_right, trim_spaces, IsAscii, IsTrimmed}
use go_diskfs.Fat32.Dos331Bpb
use go_diskfs.Fat32.Dos331Bpb.{Dos331Bpb}

abbrev pub short_dos71_ebpb : ℕ
short_dos71_ebpb = 0x28

abbrev pub long_dos71_ebpb : ℕ
long_dos71_ebpb = 0x29

-- type dos71EBPB struct. `boot_file_name` is an array of 12 bytes; the last two are strings.
pub record Dos71Ebpb : Type 0 where
  pub dos331_bpb : Dos331Bpb
  pub sectors_per_fat : ℕ
  pub mirror_flags : ℕ
  pub version : ℕ
  pub root_directory_cluster : ℕ
  pub fs_information_sector : ℕ
  pub backup_boot_sector : ℕ
  pub boot_file_name : List ℕ
  pub drive_number : ℕ
  pub reserved_flags : ℕ
  pub extended_boot_signature : ℕ
  pub volume_serial_number : ℕ
  pub volume_label : List ℕ
  pub file_system_type : List ℕ

pub data Error : Type 0 where
  wrong_size : Error
  embedded : Dos331Bpb.Error → Error
  invalid_version : ℕ → Error
  unknown_signature : ℕ → Error
  label_too_long : ℕ → Error
  label_not_ascii : Error
  type_too_long : ℕ → Error
  type_not_ascii : Error

-- equal, of two blocks that are not nil.
unfoldable pub equal : Dos71Ebpb → Dos71Ebpb → Bool
unfolding Dos331Bpb.equal bytes_equal
equal bpb a =
    Dos331Bpb.equal bpb.dos331_bpb a.dos331_bpb
    && (bpb.sectors_per_fat == a.sectors_per_fat
        && (bpb.mirror_flags == a.mirror_flags
            && (bpb.version == a.version
                && (bpb.root_directory_cluster == a.root_directory_cluster
                    && (bpb.fs_information_sector == a.fs_information_sector
                        && (bpb.backup_boot_sector == a.backup_boot_sector
                            && (bytes_equal bpb.boot_file_name a.boot_file_name
                                && (bpb.drive_number == a.drive_number
                                    && (bpb.reserved_flags == a.reserved_flags
                                        && (bpb.extended_boot_signature == a.extended_boot_signature
                                            && (bpb.volume_serial_number == a.volume_serial_number
                                                && (bytes_equal bpb.volume_label a.volume_label
                                                    && bytes_equal bpb.file_system_type
                                                        a.file_system_type))))))))))))

-- The fields that both sizes have.
unfoldable pub read_common : Dos331Bpb → List ℕ → Dos71Ebpb
unfolding le_value be_value
read_common dos331bpb b = record {
  dos331_bpb = dos331bpb;
  sectors_per_fat = le_value (slice 25 29 b);
  mirror_flags = le_value (slice 29 31 b);
  version = 0;
  root_directory_cluster = le_value (slice 33 37 b);
  fs_information_sector = le_value (slice 37 39 b);
  backup_boot_sector = le_value (slice 39 41 b);
  boot_file_name = slice 41 53 b;
  drive_number = get_or b 53 0;
  reserved_flags = get_or b 54 0;
  extended_boot_signature = get_or b 55 0;
  volume_serial_number = be_value (slice 56 60 b);
  volume_label = [];
  file_system_type = [];
}

-- The switch on the signature, with the block's size. A slice that says to be long but has 60
-- bytes panics; no caller has one.
unfoldable pub read_variant : Dos71Ebpb → List ℕ → Result Error (Dos71Ebpb × ℕ)
unfolding trim_spaces
read_variant bpb b =
    if bpb.extended_boot_signature == short_dos71_ebpb
    then ok (bpb, 60)
    else if bpb.extended_boot_signature == long_dos71_ebpb
    then (if length b == 60
        then panic
        else ok (
          record bpb {
            volume_label = trim_spaces (slice 60 71 b);
            file_system_type = trim_spaces (slice 71 79 b);
          },
          79,
        ))
    else err (unknown_signature bpb.extended_boot_signature)

unfoldable pub from_bytes : List ℕ → Result Error (Dos71Ebpb × ℕ)
unfolding le_value
from_bytes b = do
  guard (length b == 60 || length b == 79) wrong_size
  dos331bpb ← map_err embedded (Dos331Bpb.from_bytes (slice 0 25 b))
  let version = le_value (slice 31 33 b)
  guard (version == 0) (invalid_version version)
  read_variant (read_common dos331bpb b) b

-- The bytes behind the common part: none, or the label and the type padded with spaces.
unfoldable pub blank_or_labels : Dos71Ebpb → Result Error (List ℕ)
unfolding rune_count pad_right
blank_or_labels bpb =
    let label = bpb.volume_label in
    let fstype = bpb.file_system_type in
    if bpb.extended_boot_signature == short_dos71_ebpb
    then ok (replicate {A = ℕ} 60 0)
    else if bpb.extended_boot_signature == long_dos71_ebpb
    then (do
      let b = replicate {A = ℕ} 79 0
      guard (leb (length label) 11) (label_too_long (length label))
      guard (length label == rune_count label) label_not_ascii
      let b = put_at 60 (take 11 (pad_right 11 label)) b
      guard (leb (length fstype) 8) (type_too_long (length fstype))
      guard (length fstype == rune_count fstype) type_not_ascii
      ok (put_at 71 (take 8 (pad_right 11 fstype)) b))
    else err (unknown_signature bpb.extended_boot_signature)

-- `fill in the common parts`
unfoldable pub fill_common : Dos71Ebpb → List ℕ → List ℕ
unfolding Dos331Bpb.to_bytes
fill_common bpb b =
    let b = put_at 0 (Dos331Bpb.to_bytes bpb.dos331_bpb) b in
    let b = put_at 25 (le_bytes 4 bpb.sectors_per_fat) b in
    let b = put_at 29 (le_bytes 2 bpb.mirror_flags) b in
    let b = put_at 31 (le_bytes 2 bpb.version) b in
    let b = put_at 33 (le_bytes 4 bpb.root_directory_cluster) b in
    let b = put_at 37 (le_bytes 2 bpb.fs_information_sector) b in
    let b = put_at 39 (le_bytes 2 bpb.backup_boot_sector) b in
    let b = put_at 41 (take 12 bpb.boot_file_name) b in
    let b = set b 53 bpb.drive_number in
    let b = set b 54 bpb.reserved_flags in
    let b = set b 55 bpb.extended_boot_signature in
    put_at 56 (be_bytes 4 bpb.volume_serial_number) b

unfoldable pub to_bytes : Dos71Ebpb → Result Error (List ℕ)
unfolding blank_or_labels fill_common
to_bytes bpb = do b ← blank_or_labels bpb; ok (fill_common bpb b)

-- The labels of a long block: ASCII, no trailing space, and short enough. A short block has none.
abbrev pub LabelsAreValid : Dos71Ebpb → Type 0
LabelsAreValid p =
    ((p.extended_boot_signature ≡ short_dos71_ebpb)
      × (p.volume_label ≡ [])
      × (p.file_system_type ≡ []))
    ⊎ ((p.extended_boot_signature ≡ long_dos71_ebpb)
        × (length p.volume_label ≤ 11)
        × All IsAscii p.volume_label
        × IsTrimmed p.volume_label
        × (length p.file_system_type ≤ 8)
        × All IsAscii p.file_system_type
        × IsTrimmed p.file_system_type)

pub record IsValid (p : Dos71Ebpb) : Type 0 where
  pub dos331 : Dos331Bpb.IsValid p.dos331_bpb
  pub per_fat : p.sectors_per_fat < 2 ^ 32
  pub mirror : p.mirror_flags < 2 ^ 16
  pub version : p.version ≡ 0
  pub root : p.root_directory_cluster < 2 ^ 32
  pub information : p.fs_information_sector < 2 ^ 16
  pub backup : p.backup_boot_sector < 2 ^ 16
  pub boot_file : length p.boot_file_name ≡ 12
  pub serial : p.volume_serial_number < 2 ^ 32
  pub labels : LabelsAreValid p
