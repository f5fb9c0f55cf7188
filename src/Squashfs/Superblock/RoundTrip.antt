-- ===== src/Squashfs/Superblock/RoundTrip.antt =====
-- Reading back the bytes of a superblock and its flags.
use go_diskfs.Base.{
  ℕ, zero, suc, ◌+◌, ◌*◌, ◌/◌, ◌%◌, ◌^◌, ◌<◌, ◌≡◌, refl, sym, ap, Bool, true, false, ◌&&◌, ok, ltb,
  arith, ==_refl, bit_and,
}
use go_diskfs.Base.Bits.{bit_and-mask}
use go_diskfs.Base.Bytes.{le_value-le_bytes}
use go_diskfs.Squashfs.Superblock.{
  InodeRef, Superblock, to_uint64, parse_root_inode, log2, block_log, to_bytes, read_fields, parse,
}
use go_diskfs.Squashfs.Superblock.Flags
use go_diskfs.Squashfs.Superblock.Flags.{SuperblockFlags, to_number, of_number}

every : (Bool → Bool) → Bool
every p = p true && p false

every_lem : (p : Bool → Bool) → every p ≡ true → (x : Bool) → p x ≡ true
unfolding every
every_lem p h true = ground arith
every_lem p h false = ground arith

flags : (a b c d e f g h i j k : Bool) → SuperblockFlags
flags a b c d e f g h i j k = record {
  uncompressed_inodes = a;
  uncompressed_data = b;
  uncompressed_fragments = c;
  no_fragments = d;
  always_fragments = e;
  dedup = f;
  exportable = g;
  uncompressed_xattrs = h;
  no_xattrs = i;
  compressor_options = j;
  uncompressed_ids = k;
}

-- The number of a combination of flags has exactly these bits, and fits eleven of them.
good : SuperblockFlags → Bool
good s = ltb (to_number s) (2 ^ 12) && Flags.equal (of_number (to_number s)) s

all_good :
    every (λ a. every (λ b. every (λ c. every (λ d. every (λ e. every (λ f. every (λ g.
      every (λ h. every (λ i. every (λ j. every (λ k. good (flags a b c d e f g h i j k))))))))))))
    ≡ true
unfolding every good flags to_number of_number Flags.equal
all_good = refl

good_lem : (s : SuperblockFlags) → good s ≡ true
unfolding flags
good_lem s =
    let a = every_lem _ all_good s.uncompressed_inodes in
    let b = every_lem _ a s.uncompressed_data in
    let c = every_lem _ b s.uncompressed_fragments in
    let d = every_lem _ c s.no_fragments in
    let e = every_lem _ d s.always_fragments in
    let f = every_lem _ e s.dedup in
    let g = every_lem _ f s.exportable in
    let h = every_lem _ g s.uncompressed_xattrs in
    let i = every_lem _ h s.no_xattrs in
    let j = every_lem _ i s.compressor_options in every_lem _ j s.uncompressed_ids

both : (x y : Bool) → (x && y) ≡ true → (x ≡ true) × (y ≡ true)
both true true h = (refl, refl)
both true false h = absurd (ground arith)
both false y h = absurd (ground arith)

same→eq : (x y : Bool) → Flags.same x y ≡ true → x ≡ y
same→eq true true h = refl
same→eq true false h = absurd (ground arith)
same→eq false true h = absurd (ground arith)
same→eq false false h = refl

fields_agree : (x y rest : Bool) → (Flags.same x y && rest) ≡ true → (x ≡ y) × (rest ≡ true)
fields_agree x y rest h = let (e, r) = both (Flags.same x y) rest h in (same→eq x y e, r)

flags_equal→eq : (s a : SuperblockFlags) → Flags.equal s a ≡ true → s ≡ a
unfolding Flags.equal
flags_equal→eq s a t =
    let (b0, t0) = fields_agree s.uncompressed_inodes a.uncompressed_inodes _ t in
    let (b1, t1) = fields_agree s.uncompressed_data a.uncompressed_data _ t0 in
    let (b2, t2) = fields_agree s.uncompressed_fragments a.uncompressed_fragments _ t1 in
    let (b3, t3) = fields_agree s.no_fragments a.no_fragments _ t2 in
    let (b4, t4) = fields_agree s.always_fragments a.always_fragments _ t3 in
    let (b5, t5) = fields_agree s.dedup a.dedup _ t4 in
    let (b6, t6) = fields_agree s.exportable a.exportable _ t5 in
    let (b7, t7) = fields_agree s.uncompressed_xattrs a.uncompressed_xattrs _ t6 in
    let (b8, t8) = fields_agree s.no_xattrs a.no_xattrs _ t7 in
    let (b9, t9) = fields_agree s.compressor_options a.compressor_options _ t8 in
    λ i. record {
      uncompressed_inodes = b0 i;
      uncompressed_data = b1 i;
      uncompressed_fragments = b2 i;
      no_fragments = b3 i;
      always_fragments = b4 i;
      dedup = b5 i;
      exportable = b6 i;
      uncompressed_xattrs = b7 i;
      no_xattrs = b8 i;
      compressor_options = b9 i;
      uncompressed_ids = same→eq s.uncompressed_ids a.uncompressed_ids t9 i;
    }

-- The eleven flags of a superblock are read back from their two bytes.
pub parse_flags-bytes : (s : SuperblockFlags) → Flags.parse (Flags.bytes s) ≡ ok s
unfolding Flags.parse Flags.bytes good
parse_flags-bytes s =
    let (low, equal) = both (ltb (to_number s) (2 ^ 12)) _ (good_lem s) in
    rw (le_value-le_bytes 2 (to_number s) (ground arith)) (ap ok (flags_equal→eq _ s equal))

-- A superblock of the version that is written, with fields of their Go types' widths and a time
-- that fits 32 bits.
pub record IsValid (s : Superblock) : Type 0 where
  pub inodes : s.inodes < 2 ^ 32
  pub mod_time : s.mod_time < 2 ^ 32
  pub blocksize : s.blocksize < 2 ^ 32
  pub fragment_count : s.fragment_count < 2 ^ 32
  pub compression : s.compression < 2 ^ 16
  pub id_count : s.id_count < 2 ^ 16
  pub version_major : s.version_major ≡ 4
  pub version_minor : s.version_minor ≡ 0
  pub root_block : s.root_inode.block < 2 ^ 32
  pub root_offset : s.root_inode.offset < 2 ^ 16
  pub size : s.size < 2 ^ 64
  pub id_table_start : s.id_table_start < 2 ^ 64
  pub xattr_table_start : s.xattr_table_start < 2 ^ 64
  pub inode_table_start : s.inode_table_start < 2 ^ 64
  pub directory_table_start : s.directory_table_start < 2 ^ 64
  pub fragment_table_start : s.fragment_table_start < 2 ^ 64
  pub export_table_start : s.export_table_start < 2 ^ 64

log2-le : (fuel n : ℕ) → log2 fuel n < suc fuel
unfolding log2
log2-le zero n = omega arith
log2-le (suc fuel) n = ground (arith, log2-le fuel (n / 2))

-- A reference of an inode is read back from its number.
parse_root_inode-to_uint64 :
    (i : InodeRef)
    → i.block < 2 ^ 32
    → i.offset < 2 ^ 16
    → (to_uint64 i < 2 ^ 64) × (parse_root_inode (to_uint64 i) ≡ i)
unfolding to_uint64 parse_root_inode
parse_root_inode-to_uint64 r h g =
    let u = r.block * 2 ^ 16 + r.offset in
    let block : bit_and (u / 2 ^ 16) 0xffffffff ≡ r.block =
      bit_and-mask 32 (u / 2 ^ 16) 0 r.block (omega arith) h in
    let offset : bit_and u 0xffff ≡ r.offset = bit_and-mask 16 u r.block r.offset (omega arith) g in
    (omega arith, λ i. record { block = block i; offset = offset i })

-- A valid superblock is read back from its 96 bytes.
pub parse_superblock-to_bytes : (s : Superblock) → IsValid s → parse (to_bytes s) ≡ ok s
unfolding parse to_bytes read_fields Flags.bytes
parse_superblock-to_bytes s v =
    let (wide, root) = parse_root_inode-to_uint64 s.root_inode v.root_block v.root_offset in
    let time : s.mod_time % 2 ^ 32 ≡ s.mod_time = omega (arith, v.mod_time) in
    let log : block_log s.blocksize < 2 ^ 16 =
      unfold block_log in omega (arith, log2-le 32 s.blocksize) in
    rw
      (
        le_value-le_bytes 4 s.blocksize v.blocksize,
        le_value-le_bytes 2 (block_log s.blocksize) log,
        ==_refl (block_log s.blocksize),
        parse_flags-bytes s.superblock_flags,
        le_value-le_bytes 4 s.inodes v.inodes,
        le_value-le_bytes 4 (s.mod_time % 2 ^ 32) (omega arith),
        le_value-le_bytes 4 s.fragment_count v.fragment_count,
        le_value-le_bytes 2 s.compression v.compression,
        le_value-le_bytes 2 s.id_count v.id_count,
        le_value-le_bytes 8 (to_uint64 s.root_inode) wide,
        le_value-le_bytes 8 s.size v.size,
        le_value-le_bytes 8 s.id_table_start v.id_table_start,
        le_value-le_bytes 8 s.xattr_table_start v.xattr_table_start,
        le_value-le_bytes 8 s.inode_table_start v.inode_table_start,
        le_value-le_bytes 8 s.directory_table_start v.directory_table_start,
        le_value-le_bytes 8 s.fragment_table_start v.fragment_table_start,
        le_value-le_bytes 8 s.export_table_start v.export_table_start,
      )
      (λ i. ok (record s {
        version_major = sym v.version_major i;
        version_minor = sym v.version_minor i;
        root_inode = root i;
        mod_time = time i;
      }))
