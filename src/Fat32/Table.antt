-- ===== src/Fat32/Table.antt =====
-- filesystem/fat32/table.go: the file allocation table. Clusters and markers are uint32.
pub mod Codec
use go_diskfs.Base.{
  ℕ, zero, suc, ◌+◌, ◌-◌, ◌*◌, ◌/◌, ◌%◌, ◌^◌, bit_and, Bool, true, false, ◌&&◌, List, [], ◌∷◌,
  Result, ok, err, panic, ◌>>=◌, length, get_or, set, replicate, ltb, leb, ◌==◌, if◌then◌else◌,
}
use go_diskfs.Base.Bytes.{le_bytes, le_value, put_at, slice_at, bytes_equal}

-- type table struct
pub record Table : Type 0 where
  pub fat_id : ℕ
  pub eoc_marker : ℕ
  pub unused_marker : ℕ
  pub clusters : List ℕ
  pub root_dir_cluster : ℕ
  pub size : ℕ
  pub max_cluster : ℕ

-- equal, of two tables that are not nil. It leaves `unused_marker` out.
unfoldable pub equal : Table → Table → Bool
unfolding bytes_equal
equal t a =
    t.fat_id == a.fat_id
    && (t.eoc_marker == a.eoc_marker
        && (t.root_dir_cluster == a.root_dir_cluster
            && (t.size == a.size
                && (t.max_cluster == a.max_cluster && bytes_equal a.clusters t.clusters))))

-- `binary.LittleEndian.Uint32(b[i*4:i*4+4])`
abbrev pub word_at : List ℕ → ℕ → ℕ
word_at b i = le_value (slice_at (i * 4) 4 b)

-- The loop of tableFromBytes with n rounds left, at cluster i.
unfoldable pub read_clusters : ℕ → ℕ → List ℕ → List ℕ → List ℕ
read_clusters zero i b clusters = clusters
read_clusters (suc n) i b clusters =
    let val = word_at b i in
    read_clusters n (i + 1) b (if val == 0 then clusters else set clusters i val)

-- No Go error is returned; a slice of less than 8 bytes panics. The length is below 2^32.
unfoldable pub table_from_bytes : List ℕ → Result ⊥ Table
unfolding read_clusters le_value
table_from_bytes b =
    let max_cluster = length b / 4 in
    if ltb (length b) 8
    then panic
    else ok (record {
      fat_id = word_at b 0;
      eoc_marker = word_at b 1;
      unused_marker = 0;
      clusters = read_clusters (max_cluster - 2) 2 b (replicate (max_cluster + 1) 0);
      root_dir_cluster = 2;
      size = length b;
      max_cluster = max_cluster;
    })

-- The loop of bytes with n rounds left: a cluster or four bytes that are not there panic.
unfoldable pub write_clusters : ℕ → ℕ → List ℕ → List ℕ → Result ⊥ (List ℕ)
write_clusters zero i clusters b = ok b
write_clusters (suc n) i clusters b =
    let rest =
      write_clusters n (i + 1) clusters (put_at (i * 4) (le_bytes 4 (get_or clusters i 0)) b) in
    if ltb i (length clusters) && leb (i * 4 + 4) (length b) then rest else panic

unfoldable pub bytes : Table → Result ⊥ (List ℕ)
unfolding write_clusters
bytes t =
    if ltb t.size 8
    then panic
    else write_clusters (t.max_cluster - 2) 2 t.clusters
        (put_at 4 (le_bytes 4 t.eoc_marker) (put_at 0 (le_bytes 4 t.fat_id) (replicate t.size 0)))

unfoldable pub is_eoc : ℕ → Bool
is_eoc cluster = bit_and cluster 0xFFFFFF8 == 0xFFFFFF8
