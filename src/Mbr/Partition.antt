-- ===== src/Mbr/Partition.antt =====
-- partition/mbr/partition.go: an entry of the partition table, 16 bytes.
use go_diskfs.Base.{
  ℕ, zero, suc, ◌+◌, ◌*◌, ◌%◌, ◌^◌, Bool, true, false, ◌&&◌, Option, none, some, List, [], ◌++◌,
  Result, ok, err, panic, unfinished, ◌>>=◌, ◌>>◌, guard, length, get_or, set, replicate, ltb, leb,
  ◌==◌, if◌then◌else◌,
}
use go_diskfs.Base.Bytes.{le_bytes, le_value, put_at, slice, bytes_equal}
use go_diskfs.Base.Storage.{Storage}

-- type Partition struct
pub record Partition : Type 0 where
  pub bootable : Bool
  pub type : ℕ
  pub start : ℕ
  pub size : ℕ
  pub start_cylinder : ℕ
  pub start_head : ℕ
  pub start_sector : ℕ
  pub end_cylinder : ℕ
  pub end_head : ℕ
  pub end_sector : ℕ
  pub logical_sector_size : ℕ
  pub physical_sector_size : ℕ
  pub partition_uuid : List ℕ

pub data Error : Type 0 where
  wrong_size : ℕ → Error
  invalid_partition : Error

abbrev pub partition_entry_size : ℕ
partition_entry_size = 16

abbrev pub bool_equal : Bool → Bool → Bool
bool_equal true b = b
bool_equal false true = false
bool_equal false false = true

-- PartitionEqualBytes, of two slices that are not nil. Slices of one length below 16 panic.
unfoldable pub partition_equal_bytes : List ℕ → List ℕ → Result Error Bool
unfolding bytes_equal
partition_equal_bytes b1 b2 =
    if length b1 == length b2
    then (if ltb (length b1) partition_entry_size
        then panic
        else ok (
            get_or b1 0 0 == get_or b2 0 0
            && (get_or b1 4 0 == get_or b2 4 0
                && (bytes_equal (slice 8 12 b1) (slice 8 12 b2)
                    && bytes_equal (slice 12 16 b1) (slice 12 16 b2)))))
    else ok false

-- Equal, of a partition that is not nil.
unfoldable pub equal : Partition → Partition → Bool
equal p p2 =
    bool_equal p.bootable p2.bootable
    && (p.type == p2.type && (p.start == p2.start && p.size == p2.size))

-- toBytes
unfoldable pub to_bytes : Partition → List ℕ
to_bytes p =
    let b = replicate {A = ℕ} partition_entry_size 0 in
    let b = set b 0 (if p.bootable then 0x80 else 0x00) in
    let b = set b 1 p.start_head in
    let b = set b 2 p.start_sector in
    let b = set b 3 p.start_cylinder in
    let b = set b 4 p.type in
    let b = set b 5 p.end_head in
    let b = set b 6 p.end_sector in
    let b = set b 7 p.end_cylinder in
    let b = put_at 8 (le_bytes 4 p.start) b in put_at 12 (le_bytes 4 p.size) b

-- The switch on the first byte.
unfoldable pub bootable_of : ℕ → Result Error Bool
bootable_of b0 =
    if b0 == 0x00 then ok false else if b0 == 0x80 then ok true else err invalid_partition

-- partitionFromBytes
unfoldable pub from_bytes : List ℕ → ℕ → ℕ → Result Error Partition
unfolding le_value bootable_of
from_bytes b logical_sector_size physical_sector_size = do
  guard (length b == partition_entry_size) (wrong_size (length b))
  bootable ← bootable_of (get_or b 0 0)
  ok (record {
    bootable = bootable;
    start_head = get_or b 1 0;
    start_sector = get_or b 2 0;
    start_cylinder = get_or b 3 0;
    type = get_or b 4 0;
    end_head = get_or b 5 0;
    end_sector = get_or b 6 0;
    end_cylinder = get_or b 7 0;
    start = le_value (slice 8 12 b);
    size = le_value (slice 12 16 b);
    logical_sector_size = logical_sector_size;
    physical_sector_size = physical_sector_size;
    partition_uuid = [];
  })

-- sectorSizes
unfoldable pub physical_of : Partition → ℕ
physical_of p = if p.physical_sector_size == 0 then 512 else p.physical_sector_size

unfoldable pub logical_of : Partition → ℕ
logical_of p = if p.logical_sector_size == 0 then 512 else p.logical_sector_size

-- GetSize and GetStart. A uint32 times an int of up to 31 bits is below 2^63.
unfoldable pub get_size : Partition → ℕ
unfolding logical_of
get_size p = p.size * logical_of p

unfoldable pub get_start : Partition → ℕ
unfolding logical_of
get_start p = p.start * logical_of p

-- `p.Start * uint32(lss)` and `p.Size * uint32(lss)`: modulo 2^32.
unfoldable pub byte_start : Partition → ℕ
unfolding logical_of
byte_start p = p.start * (logical_of p % 2 ^ 32) % 2 ^ 32

unfoldable pub byte_size : Partition → ℕ
unfolding logical_of
byte_size p = p.size * (logical_of p % 2 ^ 32) % 2 ^ 32

-- The reader of an io.Reader's state: Read of a slice of n bytes gives the bytes read, the error,
-- if any, and the reader after it.
pub record Source (s : Storage) : Type 1 where
  pub Reader : Type 0
  pub read : ℕ → Reader → List ℕ × Option (s.IoError) × Reader

module _ (s : Storage) where
  open s use {Disk, IoError, is_eof, write_at, read_at}

  pub data WriteError : Type 0 where
    could_not_read : IoError → WriteError
    too_large : ℕ → WriteError
    write_failed : IoError → WriteError
    short : ℕ → WriteError

  -- Where a call has read data, `err` is the write's error afterwards, so io.EOF that comes along
  -- with data does not end the loop. The result comes with the total.
  abbrev pub Outcome : Type 0
  Outcome = Disk × ℕ × Result WriteError (Unit {0})

  -- The end of WriteContents.
  unfoldable pub check_total : ℕ → Disk → ℕ → Outcome
  check_total size d total = (d, total, if total == size then ok tt else err (short total))

  -- What one round does with the data read. `more` is the rest of the loop.
  unfoldable pub write_chunk : ℕ → ℕ → Disk → ℕ → (Disk → ℕ → Outcome) → List ℕ → Bool → Outcome
  unfolding check_total
  write_chunk start size d total more chunk eof =
      if ltb size (length chunk + total)
      then (d, total, err (too_large (length chunk + total)))
      else if ltb 0 (length chunk)
      then (let (d', written, e) = write_at chunk (start + total) d in
          let next = more d' (total + written) in
          elim e [ none ↦ next | some x ↦ (d', total, err (write_failed x)) ])
      else if eof
      then check_total size d total
      else more d total

  module _ (src : Source s) where
    open src use {Reader, read}

    -- One round of WriteContents.
    unfoldable pub write_round :
        ℕ → ℕ → Disk → ℕ → (Disk → ℕ → Outcome) → List ℕ → Option IoError → Outcome
    unfolding write_chunk
    write_round start size d total more chunk none = write_chunk start size d total more chunk false
    write_round start size d total more chunk (some x) =
        if is_eof x
        then write_chunk start size d total more chunk true
        else (d, total, err (could_not_read x))

    -- The loop of WriteContents, which goes on as long as the reader does.
    unfoldable pub write_loop : ℕ → ℕ → ℕ → ℕ → Disk → ℕ → Reader → Outcome
    unfolding write_round
    write_loop zero pss start size d total r = (d, total, unfinished)
    write_loop (suc fuel) pss start size d total r =
        let (chunk, e, r') = read pss r in
        write_round start size d total (λ d total. write_loop fuel pss start size d total r') chunk
          e

    -- WriteContents
    unfoldable pub write_contents : ℕ → Partition → Disk → Reader → Outcome
    unfolding write_loop physical_of byte_start byte_size
    write_contents fuel p d r = write_loop fuel (physical_of p) (byte_start p) (byte_size p) d 0 r

  -- One round of ReadContents: the bytes written to `out` so far are `total`, and come with the
  -- error that is returned, if any. `more` is the rest of the loop.
  unfoldable pub read_round :
      ℕ
      → List ℕ
      → (List ℕ → List ℕ × Result IoError ℕ)
      → List ℕ
      → Option IoError
      → List ℕ × Result IoError ℕ
  read_round size out more chunk none =
      let rest = more (out ++ chunk) in
      if leb size (length (out ++ chunk)) then (out ++ chunk, ok (length (out ++ chunk))) else rest
  read_round size out more chunk (some x) =
      if is_eof x then (out ++ chunk, ok (length (out ++ chunk))) else (out, err x)

  unfoldable pub read_loop : ℕ → ℕ → ℕ → ℕ → Disk → List ℕ → List ℕ × Result IoError ℕ
  unfolding read_round
  read_loop zero pss start size d out = (out, unfinished)
  read_loop (suc fuel) pss start size d out =
      let (chunk, e) = read_at pss (start + length out) d in
      read_round size out (read_loop fuel pss start size d) chunk e

  -- ReadContents: what is written to `out`, and the count or the error.
  unfoldable pub read_contents : ℕ → Partition → Disk → List ℕ × Result IoError ℕ
  unfolding read_loop physical_of byte_start byte_size
  read_contents fuel p d = read_loop fuel (physical_of p) (byte_start p) (byte_size p) d []
