-- ===== src/Squashfs/Superblock.antt =====
-- filesystem/squashfs/superblock.go: the 96 bytes at the head of an image. A time is its number of
-- seconds since 1970.
pub mod Flags
pub mod RoundTrip
use go_diskfs.Base.{
  ℕ, zero, suc, ◌+◌, ◌*◌, ◌/◌, ◌%◌, ◌^◌, Bool, true, false, ◌&&◌, List, [], Result, ok, err, ◌>>=◌,
  ◌>>◌, guard, map_err, length, replicate, ltb, ◌==◌, if◌then◌else◌, bit_and, bit_or,
}
use go_diskfs.Base.Bytes.{le_bytes, le_value, put_at, slice}
use go_diskfs.Squashfs.Superblock.Flags
use go_diskfs.Squashfs.Superblock.Flags.{SuperblockFlags}

-- type inodeRef struct
pub record InodeRef : Type 0 where
  pub block : ℕ
  pub offset : ℕ

-- toUint64: the offset is a uint16, so `|` adds it to the block's shifted bits.
unfoldable pub to_uint64 : InodeRef → ℕ
to_uint64 i = i.block * 2 ^ 16 + i.offset

-- parseRootInode
unfoldable pub parse_root_inode : ℕ → InodeRef
parse_root_inode u = record { block = bit_and (u / 2 ^ 16) 0xffffffff; offset = bit_and u 0xffff }

-- type superblock struct
pub record Superblock : Type 0 where
  pub inodes : ℕ
  pub mod_time : ℕ
  pub blocksize : ℕ
  pub fragment_count : ℕ
  pub compression : ℕ
  pub id_count : ℕ
  pub version_major : ℕ
  pub version_minor : ℕ
  pub root_inode : InodeRef
  pub size : ℕ
  pub id_table_start : ℕ
  pub xattr_table_start : ℕ
  pub inode_table_start : ℕ
  pub directory_table_start : ℕ
  pub fragment_table_start : ℕ
  pub export_table_start : ℕ
  pub superblock_flags : SuperblockFlags

abbrev pub superblock_magic : ℕ
superblock_magic = 0x73717368

abbrev pub superblock_major_version : ℕ
superblock_major_version = 4

abbrev pub superblock_minor_version : ℕ
superblock_minor_version = 0

pub data Error : Type 0 where
  wrong_size : ℕ → Error
  wrong_magic : ℕ → Error
  version_mismatch : ℕ → ℕ → Error
  block_log_mismatch : ℕ → ℕ → Error
  flags_error : Flags.Error → Error

-- `uint16(math.Log2(float64(n)))` of a uint32: its highest bit, with 32 rounds to find it. The
-- conversion of the logarithm of 0, which is minus infinity, is 0 on the usual machines.
unfoldable pub log2 : ℕ → ℕ → ℕ
log2 zero n = 0
log2 (suc fuel) n = let rest = log2 fuel (n / 2) in if ltb n 2 then 0 else suc rest

unfoldable pub block_log : ℕ → ℕ
unfolding log2
block_log blocksize = log2 32 blocksize

-- equal: all but the times.
unfoldable pub equal : Superblock → Superblock → Bool
unfolding Flags.equal
equal s a =
    (a.root_inode.block == s.root_inode.block && a.root_inode.offset == s.root_inode.offset)
    && (s.inodes == a.inodes
        && (s.blocksize == a.blocksize
            && (s.fragment_count == a.fragment_count
                && (s.compression == a.compression
                    && (s.id_count == a.id_count
                        && (s.version_major == a.version_major
                            && (s.version_minor == a.version_minor
                                && (s.size == a.size
                                    && (s.id_table_start == a.id_table_start
                                        && (s.xattr_table_start == a.xattr_table_start
                                            && (s.inode_table_start == a.inode_table_start
                                                && (s.directory_table_start
                                                      == a.directory_table_start
                                                    && (s.fragment_table_start
                                                          == a.fragment_table_start
                                                        && (s.export_table_start
                                                            == a.export_table_start
                                                            && Flags.equal s.superblock_flags
                                                            a.superblock_flags))))))))))))))

-- toBytes
unfoldable pub to_bytes : Superblock → List ℕ
unfolding to_uint64
to_bytes s =
    let b = replicate {A = ℕ} 96 0 in
    let b = put_at 0 (le_bytes 4 superblock_magic) b in
    let b = put_at 4 (le_bytes 4 s.inodes) b in
    let b = put_at 8 (le_bytes 4 (s.mod_time % 2 ^ 32)) b in
    let b = put_at 12 (le_bytes 4 s.blocksize) b in
    let b = put_at 16 (le_bytes 4 s.fragment_count) b in
    let b = put_at 20 (le_bytes 2 s.compression) b in
    let b = put_at 22 (le_bytes 2 (block_log s.blocksize)) b in
    let b = put_at 24 (Flags.bytes s.superblock_flags) b in
    let b = put_at 26 (le_bytes 2 s.id_count) b in
    let b = put_at 28 (le_bytes 2 superblock_major_version) b in
    let b = put_at 30 (le_bytes 2 superblock_minor_version) b in
    let b = put_at 32 (le_bytes 8 (to_uint64 s.root_inode)) b in
    let b = put_at 40 (le_bytes 8 s.size) b in
    let b = put_at 48 (le_bytes 8 s.id_table_start) b in
    let b = put_at 56 (le_bytes 8 s.xattr_table_start) b in
    let b = put_at 64 (le_bytes 8 s.inode_table_start) b in
    let b = put_at 72 (le_bytes 8 s.directory_table_start) b in
    let b = put_at 80 (le_bytes 8 s.fragment_table_start) b in
    put_at 88 (le_bytes 8 s.export_table_start) b

-- The structure made of the bytes and the flags in them.
unfoldable pub read_fields : List ℕ → SuperblockFlags → Superblock
unfolding le_value
read_fields b flags = record {
  inodes = le_value (slice 4 8 b);
  mod_time = le_value (slice 8 12 b);
  blocksize = le_value (slice 12 16 b);
  fragment_count = le_value (slice 16 20 b);
  compression = le_value (slice 20 22 b);
  id_count = le_value (slice 26 28 b);
  version_major = le_value (slice 28 30 b);
  version_minor = le_value (slice 30 32 b);
  root_inode = parse_root_inode (le_value (slice 32 40 b));
  size = le_value (slice 40 48 b);
  id_table_start = le_value (slice 48 56 b);
  xattr_table_start = le_value (slice 56 64 b);
  inode_table_start = le_value (slice 64 72 b);
  directory_table_start = le_value (slice 72 80 b);
  fragment_table_start = le_value (slice 80 88 b);
  export_table_start = le_value (slice 88 96 b);
  superblock_flags = flags;
}

-- parseSuperblock
unfoldable pub parse : List ℕ → Result Error Superblock
unfolding le_value
parse b = do
  guard (length b == 96) (wrong_size (length b))
  let magic = le_value (slice 0 4 b)
  guard (magic == superblock_magic) (wrong_magic magic)
  let major = le_value (slice 28 30 b)
  let minor = le_value (slice 30 32 b)
  guard (major == superblock_major_version && minor == superblock_minor_version)
      (version_mismatch major minor)
  let blocksize = le_value (slice 12 16 b)
  let blocklog = le_value (slice 22 24 b)
  guard (block_log blocksize == blocklog) (block_log_mismatch blocklog (block_log blocksize))
  flags ← map_err flags_error (Flags.parse (slice 24 26 b))
  ok (read_fields b flags)
