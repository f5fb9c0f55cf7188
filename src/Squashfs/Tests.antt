-- ===== src/Squashfs/Tests.antt =====
-- The theorems on filesystem/squashfs at small values.
use go_diskfs.Base.{
  ℕ, ◌+◌, ◌*◌, sym, ◌<◌, ◌≡◌, refl, true, false, List, [], ◌∷◌, ◌++◌, length, ok, arith,
}
use go_diskfs.Squashfs.Fragment
use go_diskfs.Squashfs.Fragment.{FragmentEntry, parse_fragment-to_bytes}
use go_diskfs.Squashfs.Metadata
use go_diskfs.Squashfs.Metadata.{
  Compressor, MetadataBlock, with_header, pack, parse_metadata-to_bytes,
}
use go_diskfs.Squashfs.Superblock
use go_diskfs.Squashfs.Superblock.{Superblock}
use go_diskfs.Squashfs.Superblock.Flags
use go_diskfs.Squashfs.Superblock.Flags.{SuperblockFlags}
use go_diskfs.Squashfs.Superblock.RoundTrip
use go_diskfs.Squashfs.Superblock.RoundTrip.{parse_flags-bytes, parse_superblock-to_bytes}
use go_diskfs.Squashfs.Directory
use go_diskfs.Squashfs.Directory.{
  DirectoryEntryRaw, is_directory, group_entries, add_entry, add_to_group, new_group,
}
use go_diskfs.Squashfs.Directory.RoundTrip.{IsValid, parse_directory-to_bytes}

abbrev fragment : FragmentEntry
fragment = record { start = 4096; size = 1000; compressed = false }

parse_fragment-to_bytes_example :
    (length (Fragment.to_bytes fragment) ≡ 16)
    × (Fragment.parse (Fragment.to_bytes fragment) ≡ ok fragment)
parse_fragment-to_bytes_example = parse_fragment-to_bytes fragment (omega arith) (omega arith)

-- A compressor that keeps the data.
abbrev stored : Compressor
stored = record { CompressError = Unit {0}; compress = λ x. ok x; decompress = λ x. ok x }

abbrev some_bytes : MetadataBlock
some_bytes = record { compressed = true; block_data = 7 ∷ 8 ∷ 9 ∷ [] }

parse_metadata-to_bytes_example :
    Metadata.parse stored ((3 ∷ 0 ∷ 7 ∷ 8 ∷ 9 ∷ []) ++ (1 ∷ [])) ≡ ok some_bytes
unfolding Metadata.to_bytes
parse_metadata-to_bytes_example =
    parse_metadata-to_bytes stored (λ x y e. sym e) some_bytes (3 ∷ 0 ∷ 7 ∷ 8 ∷ 9 ∷ []) (1 ∷ [])
      refl (omega arith) (omega arith)

abbrev entry : ℕ → ℕ → DirectoryEntryRaw
entry n block = record {
  offset = 32 * n;
  inode_number = 10 + n;
  inode_type = 2;
  name = (97 + n) ∷ [];
  is_subdirectory = false;
  start_block = block;
}

abbrev three_entries : List DirectoryEntryRaw
three_entries = entry 0 5 ∷ entry 1 5 ∷ entry 2 6 ∷ []

entry-IsValid : (n block : ℕ) → n < 26 → block < 100 → IsValid 10 (entry n block)
unfolding is_directory
entry-IsValid n block h g = record {
  offset = omega arith;
  above = omega arith;
  near = omega arith;
  inode = omega arith;
  type = omega arith;
  named = omega arith;
  short = omega arith;
  flag = refl;
  block = omega arith;
}

parse_directory-to_bytes_example :
    Directory.parse (Directory.to_bytes three_entries 10) ≡ ok three_entries
unfolding group_entries add_entry add_to_group new_group
parse_directory-to_bytes_example =
    parse_directory-to_bytes three_entries 10 (omega arith)
      (
        entry-IsValid 0 5 (omega arith) (omega arith),
        (
          entry-IsValid 1 5 (omega arith) (omega arith),
          (entry-IsValid 2 6 (omega arith) (omega arith), tt),
        ),
      )
      (omega arith)

abbrev some_flags : SuperblockFlags
some_flags = record {
  uncompressed_inodes = false;
  uncompressed_data = true;
  uncompressed_fragments = false;
  no_fragments = true;
  always_fragments = false;
  dedup = true;
  exportable = true;
  uncompressed_xattrs = false;
  no_xattrs = true;
  compressor_options = false;
  uncompressed_ids = true;
}

parse_flags-bytes_example : Flags.parse (Flags.bytes some_flags) ≡ ok some_flags
parse_flags-bytes_example = parse_flags-bytes some_flags

abbrev image : Superblock
image = record {
  inodes = 3;
  mod_time = 1600000000;
  blocksize = 131072;
  fragment_count = 1;
  compression = 1;
  id_count = 1;
  version_major = 4;
  version_minor = 0;
  root_inode = record { block = 2; offset = 96 };
  size = 5000;
  id_table_start = 4900;
  xattr_table_start = 4950;
  inode_table_start = 4000;
  directory_table_start = 4200;
  fragment_table_start = 4400;
  export_table_start = 4500;
  superblock_flags = some_flags;
}

abbrev image-IsValid : Superblock.RoundTrip.IsValid image
image-IsValid = record {
  inodes = omega arith;
  mod_time = omega arith;
  blocksize = omega arith;
  fragment_count = omega arith;
  compression = omega arith;
  id_count = omega arith;
  version_major = refl;
  version_minor = refl;
  root_block = omega arith;
  root_offset = omega arith;
  size = omega arith;
  id_table_start = omega arith;
  xattr_table_start = omega arith;
  inode_table_start = omega arith;
  directory_table_start = omega arith;
  fragment_table_start = omega arith;
  export_table_start = omega arith;
}

parse_superblock-to_bytes_example : Superblock.parse (Superblock.to_bytes image) ≡ ok image
parse_superblock-to_bytes_example = parse_superblock-to_bytes image image-IsValid
