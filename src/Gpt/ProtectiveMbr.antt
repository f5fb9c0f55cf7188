-- ===== src/Gpt/ProtectiveMbr.antt =====
-- partition/gpt/table.go: the MBR that protects a GPT from programs that do not know of it.
use go_diskfs.Base.{
  ℕ, ◌+◌, ◌-◌, ◌%◌, ◌^◌, ◌≡◌, Bool, true, false, ◌&&◌, List, [], ◌∷◌, ◌==◌, if◌then◌else◌, length,
  replicate, set, get_or, drop, ltb, arith,
}
use go_diskfs.Base.Bytes.{put_at, le_bytes, le_value, slice, bytes_equal, le_value-le_bytes}
use go_diskfs.Gpt.Table.{Table}

-- getMbrSignature
abbrev pub mbr_signature : List ℕ
mbr_signature = 0x55 ∷ 0xaa ∷ []

-- zeroMatch
unfoldable pub zero_match : List ℕ → Bool
zero_match [] = true
zero_match (x ∷ xs) = x == 0 && zero_match xs

-- readProtectiveMBR
unfoldable pub read_protective_mbr : List ℕ → ℕ → Bool
unfolding bytes_equal zero_match le_value
read_protective_mbr b sectors =
    let size = length b in
    let parts = slice 446 510 b in
    if ltb size 512
    then false
    else if bytes_equal (drop (size - 2) b) mbr_signature
    then zero_match (slice 16 32 parts)
      && (zero_match (slice 32 48 parts)
          && (zero_match (slice 48 64 parts)
              && (get_or parts 0 0 == 0
                  && (get_or parts 4 0 == 0xee
                      && (le_value (slice 8 12 parts) == 1
                          && le_value (slice 12 16 parts) == sectors)))))
    else false

-- generateProtectiveMBR
unfoldable pub generate_protective_mbr : Table → List ℕ
generate_protective_mbr t =
    let b = put_at 510 mbr_signature (replicate {A = ℕ} 512 0) in
    let b = set b 446 0x00 in
    let b = set b (446 + 4) 0xee in
    let b = put_at (446 + 8) (le_bytes 4 1) b in
    put_at (446 + 12) (le_bytes 4 (t.secondary_header % 2 ^ 32)) b

-- The protective MBR of a table is recognized as that of a disk with its second header, by the
-- header's sector modulo 2^32.
pub read_protective_mbr-generate :
    (t : Table)
    → read_protective_mbr (generate_protective_mbr t) (t.secondary_header % 2 ^ 32) ≡ true
unfolding read_protective_mbr generate_protective_mbr
read_protective_mbr-generate t =
    rw (le_value-le_bytes 4 (t.secondary_header % 2 ^ 32) (omega arith)) (ground arith)
