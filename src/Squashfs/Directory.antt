-- ===== src/Squashfs/Directory.antt =====
-- filesystem/squashfs/directory.go: directories as headers with the entries that share them. Names
-- are byte strings, and a position in a slice is what is left of it from there.
pub mod RoundTrip
use go_diskfs.Base.{
  ℕ, zero, suc, ◌+◌, ◌-◌, ◌%◌, ◌^◌, Bool, true, false, ◌&&◌, ◌||◌, List, [], ◌∷◌, ◌++◌, Result, ok,
  err, panic, unfinished, ◌>>=◌, ◌>>◌, guard, map_err, length, take, drop, ltb, leb, ◌==◌,
  if◌then◌else◌,
}
use go_diskfs.Base.Bytes.{le_bytes, le_value, slice, put_at, bytes_equal}

abbrev pub max_dir_entries : ℕ
max_dir_entries = 256

abbrev pub dir_header_size : ℕ
dir_header_size = 12

abbrev pub dir_entry_min_size : ℕ
dir_entry_min_size = 8

abbrev pub dir_name_max_size : ℕ
dir_name_max_size = 256

-- type directoryEntryRaw struct
pub record DirectoryEntryRaw : Type 0 where
  pub offset : ℕ
  pub inode_number : ℕ
  pub inode_type : ℕ
  pub name : List ℕ
  pub is_subdirectory : Bool
  pub start_block : ℕ

-- type directoryHeader struct
pub record DirectoryHeader : Type 0 where
  pub count : ℕ
  pub start_block : ℕ
  pub inode : ℕ

-- type directoryEntryGroup struct
pub record DirectoryEntryGroup : Type 0 where
  pub header : DirectoryHeader
  pub entries : List DirectoryEntryRaw

pub data Error : Type 0 where
  short_header : ℕ → Error
  short_entry : ℕ → Error
  name_too_long : ℕ → Error
  name_beyond_end : ℕ → Error
  no_entries : Error
  too_many_entries : ℕ → Error

-- directoryEntryRaw.toBytes
unfoldable pub entry_to_bytes : DirectoryEntryRaw → ℕ → List ℕ
entry_to_bytes d inode_index =
    le_bytes 2 d.offset
    ++ le_bytes 2 ((d.inode_number + 2 ^ 32 - inode_index) % 2 ^ 32 % 2 ^ 16)
    ++ le_bytes 2 d.inode_type
    ++ le_bytes 2 ((length d.name + 2 ^ 16 - 1) % 2 ^ 16)
    ++ d.name

-- directoryHeader.toBytes
unfoldable pub header_to_bytes : DirectoryHeader → List ℕ
header_to_bytes d =
    le_bytes 4 ((d.count + 2 ^ 32 - 1) % 2 ^ 32) ++ le_bytes 4 d.start_block ++ le_bytes 4 d.inode

-- parseDirectoryHeader
unfoldable pub parse_header : List ℕ → Result Error DirectoryHeader
unfolding le_value
parse_header b =
    if ltb (length b) dir_header_size
    then err (short_header (length b))
    else ok (record {
      count = (le_value (slice 0 4 b) + 1) % 2 ^ 32;
      start_block = le_value (slice 4 8 b);
      inode = le_value (slice 8 12 b);
    })

-- inodeBasicDirectory and inodeExtendedDirectory
unfoldable pub is_directory : ℕ → Bool
is_directory t = t == 1 || t == 8

-- parseDirectoryEntry: the entry, with no start block yet, and its size.
unfoldable pub parse_entry : List ℕ → ℕ → Result Error (DirectoryEntryRaw × ℕ)
unfolding le_value is_directory
parse_entry b in_ = do
  guard (leb dir_entry_min_size (length b)) (short_entry (length b))
  let entry_type = le_value (slice 4 6 b)
  let name_size = le_value (slice 6 8 b)
  let real_name_size = (name_size + 1) % 2 ^ 16
  guard (leb name_size dir_name_max_size) (name_too_long name_size)
  guard (leb ((real_name_size + dir_entry_min_size) % 2 ^ 16) (length b))
      (name_beyond_end name_size)
  ok (
    record {
      offset = le_value (slice 0 2 b);
      inode_number = (le_value (slice 2 4 b) + in_) % 2 ^ 32;
      inode_type = entry_type;
      is_subdirectory = is_directory entry_type;
      name = slice 8 ((8 + real_name_size) % 2 ^ 16) b;
      start_block = 0;
    },
    (8 + real_name_size) % 2 ^ 16,
  )

-- The loop over the entries of a header, with `count` rounds left: the entries and what is left.
unfoldable pub parse_entries :
    ℕ → DirectoryHeader → List ℕ → Result Error (List DirectoryEntryRaw × List ℕ)
parse_entries zero h b = ok ([], b)
parse_entries (suc count) h b = parse_entry b h.inode >>= λ (entry, size).
    parse_entries count h (drop size b) >>= λ (entries, rest).
    ok (record entry { start_block = h.start_block } ∷ entries, rest)

-- The loop of parseDirectory. Each round takes a header's bytes away, so as many rounds as there
-- are bytes are enough.
unfoldable pub parse_headers : ℕ → List ℕ → Result Error (List DirectoryEntryRaw)
parse_headers zero b = if leb dir_header_size (length b) then unfinished else ok []
parse_headers (suc fuel) b =
    let more = parse_headers fuel in
    if leb dir_header_size (length b)
    then (do
      h ← parse_header b
      guard (ltb 0 h.count) no_entries
      guard (leb h.count max_dir_entries) (too_many_entries h.count)
      (entries, rest) ← parse_entries h.count h (drop dir_header_size b)
      others ← more rest
      ok (entries ++ others))
    else ok []

-- parseDirectory
unfoldable pub parse : List ℕ → Result Error (List DirectoryEntryRaw)
unfolding parse_headers
parse b = parse_headers (length b) b

-- A new group with the entry.
unfoldable pub new_group : ℕ → DirectoryEntryRaw → DirectoryEntryGroup
new_group in_ e = record {
  header = record { count = 1; start_block = e.start_block; inode = in_ };
  entries = e ∷ [];
}

unfoldable pub add_to_group : DirectoryEntryGroup → DirectoryEntryRaw → DirectoryEntryGroup
add_to_group g e = record {
  header = record g.header { count = (g.header.count + 1) % 2 ^ 32 };
  entries = g.entries ++ (e ∷ []);
}

-- One round of toBytes' first loop: `group` is the last one of the groups.
unfoldable pub add_entry :
    ℕ → List DirectoryEntryGroup → DirectoryEntryRaw → List DirectoryEntryGroup
unfolding new_group add_to_group
add_entry in_ [] e = new_group in_ e ∷ []
add_entry in_ (g ∷ []) e =
    if g.header.start_block == e.start_block
    then add_to_group g e ∷ []
    else g ∷ new_group in_ e ∷ []
add_entry in_ (g ∷ g' ∷ gs) e = g ∷ add_entry in_ (g' ∷ gs) e

unfoldable pub group_entries :
    ℕ → List DirectoryEntryGroup → List DirectoryEntryRaw → List DirectoryEntryGroup
unfolding add_entry
group_entries in_ groups [] = groups
group_entries in_ groups (e ∷ es) = group_entries in_ (add_entry in_ groups e) es

unfoldable pub entries_to_bytes : ℕ → List DirectoryEntryRaw → List ℕ
entries_to_bytes in_ [] = []
entries_to_bytes in_ (e ∷ es) = entry_to_bytes e in_ ++ entries_to_bytes in_ es

unfoldable pub groups_to_bytes : ℕ → List DirectoryEntryGroup → List ℕ
groups_to_bytes in_ [] = []
groups_to_bytes in_ (g ∷ gs) =
    (header_to_bytes g.header ++ entries_to_bytes in_ g.entries) ++ groups_to_bytes in_ gs

-- directory.toBytes
unfoldable pub to_bytes : List DirectoryEntryRaw → ℕ → List ℕ
unfolding group_entries groups_to_bytes
to_bytes entries in_ = groups_to_bytes in_ (group_entries in_ [] entries)
