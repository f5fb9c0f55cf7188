-- ===== src/Base/Crc.antt =====
-- `crc32.ChecksumIEEE` of the standard library's hash/crc32, bit by bit.
use Prim.Native.Nat.{ℕ, zero, suc, ◌/◌, ◌%◌, ◌^◌, ◌<◌, bit_xor}
use mathlib.Core.Path.{◌≡◌, refl}
use mathlib.Core.List.{List, [], ◌∷◌}
use native.Mathlib.Omega.{arith}
use go_diskfs.Base.Tests.{◌==◌, if◌then◌else◌}

-- n bits of the register.
unfoldable pub crc_bits : ℕ → ℕ → ℕ
crc_bits zero c = c
crc_bits (suc n) c = crc_bits n (if c % 2 == 1 then bit_xor (c / 2) 0xEDB88320 else c / 2)

unfoldable pub crc_bytes : ℕ → List ℕ → ℕ
unfolding crc_bits
crc_bytes c [] = c
crc_bytes c (x ∷ xs) = crc_bytes (crc_bits 8 (bit_xor c x)) xs

-- The checksum is a uint32.
unfoldable pub checksum_ieee : List ℕ → ℕ
unfolding crc_bytes
checksum_ieee xs = bit_xor (crc_bytes 0xFFFFFFFF xs) 0xFFFFFFFF % 2 ^ 32

pub checksum_ieee-lt : (xs : List ℕ) → checksum_ieee xs < 2 ^ 32
unfolding checksum_ieee
checksum_ieee-lt xs = omega arith

check_value : checksum_ieee (49 ∷ 50 ∷ 51 ∷ 52 ∷ 53 ∷ 54 ∷ 55 ∷ 56 ∷ 57 ∷ []) ≡ 0xCBF43926
unfolding checksum_ieee
check_value = refl
