-- ===== src/Squashfs/MetaRead.antt =====
-- filesystem/squashfs/metadatablock.go: reading metadata blocks through the cache, which is not nil.
pub mod Cached
use go_diskfs.Base.{
  ℕ, zero, suc, ◌+◌, Bool, true, false, ◌&&◌, not, Option, none, some, List, [], ◌∷◌, ◌++◌, Result,
  ok, err, panic, unfinished, ◌>>=◌, ◌>>◌, guard, map_err, length, drop, ltb, ◌==◌, if◌then◌else◌,
}
use go_diskfs.Base.Bytes.{overlay}
use go_diskfs.Base.Storage.{Storage}
use go_diskfs.Squashfs.Metadata
use go_diskfs.Squashfs.Metadata.{Compressor, get_metadata_size, unpack}
use go_diskfs.Squashfs.Lru.{Lru, get}

-- `provided` says whether there is a compressor.
module _ (s : Storage) (c : Compressor) (provided : Bool) where
  open s use {Disk, IoError, is_eof, read_at}

  pub data ReadError : Type 0 where
    block_size : Metadata.Error c → ReadError
    cannot_read : IoError → ReadError
    short_read : ℕ → ReadError
    no_compressor : ReadError
    cannot_unpack : Metadata.Error c → ReadError

  -- The rest of the function given to the cache, behind the second ReadAt.
  unfoldable pub finish_block : ℕ → Bool → List ℕ × Option IoError → Result ReadError (List ℕ × ℕ)
  finish_block size compressed (b, e) =
      elim e [ none ↦ ok tt | some x ↦ if is_eof x then ok tt else err (cannot_read x) ]
      >> (guard (length b == size) (short_read (length b))
          >> (guard (not (compressed && not provided)) no_compressor
              >> (map_err cannot_unpack (unpack c compressed b) >>= λ d. ok (d, size + 2))))

  -- The function that readMetaBlock gives to the cache. Errors of the first ReadAt are not looked
  -- at: what it does not read is zero.
  unfoldable pub fetch_block : Disk → ℕ → Result ReadError (List ℕ × ℕ)
  fetch_block d location =
      map_err block_size (get_metadata_size c (overlay (read_at 2 location d).0 (0 ∷ 0 ∷ [])))
      >>= λ (size, compressed). finish_block size compressed (read_at size (location + 2) d)

  -- readMetaBlock
  unfoldable pub read_meta_block : Disk → Lru → ℕ → Result ⊥ (Lru × Result ReadError (List ℕ × ℕ))
  read_meta_block d l location = get l location (fetch_block d location)

  abbrev pub Outcome : Type 0
  Outcome = Result ⊥ (Lru × Result ReadError (List ℕ))

  -- What follows a block that was read.
  abbrev pub after_block :
      (Lru → List ℕ → ℕ → Outcome) → Lru × Result ReadError (List ℕ × ℕ) → Outcome
  after_block more (l, ok (m, n)) = more l m n
  after_block more (l, err e) = ok (l, err e)
  after_block more (l, panic) = ok (l, panic)
  after_block more (l, unfinished) = ok (l, unfinished)

  -- The loop of readMetadata, where `read` bytes of the disk held the last block.
  unfoldable pub read_more : ℕ → Disk → ℕ → ℕ → ℕ → Lru → List ℕ → ℕ → Outcome
  read_more zero d first size offset l b read = ok (l, unfinished)
  read_more (suc fuel) d first size offset l b read =
      let rest =
        read_meta_block d l (first + (offset + read))
        >>= after_block (λ l' m n. read_more fuel d first size (offset + read) l' (b ++ m) n) in
      if ltb (length b) size then rest else ok (l, ok b)

  -- readMetadata
  unfoldable pub read_metadata : ℕ → Disk → ℕ → ℕ → ℕ → ℕ → Lru → Outcome
  read_metadata fuel d first offset byte_offset size l =
      read_meta_block d l (first + offset)
      >>= after_block (λ l' m n.
        if ltb (length m) byte_offset
        then ok (l', panic)
        else read_more fuel d first size offset l' (drop byte_offset m) n)
