-- ===== src/Squashfs/Superblock/Flags.antt =====
-- The flags of filesystem/squashfs/superblock.go: eleven bits of a uint16.
use go_diskfs.Base.{
  ℕ, Bool, true, false, ◌&&◌, List, Result, ok, err, length, ◌==◌, if◌then◌else◌, bit_and, bit_or,
}
use go_diskfs.Base.Bytes.{le_bytes, le_value}

-- type superblockFlags struct
pub record SuperblockFlags : Type 0 where
  pub uncompressed_inodes : Bool
  pub uncompressed_data : Bool
  pub uncompressed_fragments : Bool
  pub no_fragments : Bool
  pub always_fragments : Bool
  pub dedup : Bool
  pub exportable : Bool
  pub uncompressed_xattrs : Bool
  pub no_xattrs : Bool
  pub compressor_options : Bool
  pub uncompressed_ids : Bool

pub data Error : Type 0 where
  wrong_length : ℕ → Error

abbrev pub same : Bool → Bool → Bool
same true b = b
same false true = false
same false false = true

-- `==` of two structures.
unfoldable pub equal : SuperblockFlags → SuperblockFlags → Bool
equal s a =
    same s.uncompressed_inodes a.uncompressed_inodes
    && (same s.uncompressed_data a.uncompressed_data
        && (same s.uncompressed_fragments a.uncompressed_fragments
            && (same s.no_fragments a.no_fragments
                && (same s.always_fragments a.always_fragments
                    && (same s.dedup a.dedup
                        && (same s.exportable a.exportable
                            && (same s.uncompressed_xattrs a.uncompressed_xattrs
                                && (same s.no_xattrs a.no_xattrs
                                    && (same s.compressor_options a.compressor_options
                                        && same s.uncompressed_ids a.uncompressed_ids)))))))))

-- `if set { flags |= bit }`
abbrev add_flag : Bool → ℕ → ℕ → ℕ
add_flag set bit flags = if set then bit_or flags bit else flags

-- The number that bytes writes.
unfoldable pub to_number : SuperblockFlags → ℕ
to_number s = add_flag s.uncompressed_ids 0x0800 (
    add_flag s.compressor_options 0x0400 (
      add_flag s.no_xattrs 0x0200 (
        add_flag s.uncompressed_xattrs 0x0100 (
          add_flag s.exportable 0x0080 (
            add_flag s.dedup 0x0040 (
              add_flag s.always_fragments 0x0020 (
                add_flag s.no_fragments 0x0010 (
                  add_flag s.uncompressed_fragments 0x0008 (
                    add_flag s.uncompressed_data 0x0002
                      (add_flag s.uncompressed_inodes 0x0001 0))))))))))

-- bytes
unfoldable pub bytes : SuperblockFlags → List ℕ
bytes s = le_bytes 2 (to_number s)

abbrev has : ℕ → ℕ → Bool
has flags bit = bit_and flags bit == bit

-- The structure that parseFlags makes of the number.
unfoldable pub of_number : ℕ → SuperblockFlags
of_number flags = record {
  uncompressed_inodes = has flags 0x0001;
  uncompressed_data = has flags 0x0002;
  uncompressed_fragments = has flags 0x0008;
  no_fragments = has flags 0x0010;
  always_fragments = has flags 0x0020;
  dedup = has flags 0x0040;
  exportable = has flags 0x0080;
  uncompressed_xattrs = has flags 0x0100;
  no_xattrs = has flags 0x0200;
  compressor_options = has flags 0x0400;
  uncompressed_ids = has flags 0x0800;
}

-- parseFlags
unfoldable pub parse : List ℕ → Result Error SuperblockFlags
parse b = if length b == 2 then ok (of_number (le_value b)) else err (wrong_length (length b))
