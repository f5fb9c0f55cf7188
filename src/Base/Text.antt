-- ===== src/Base/Text.antt =====
-- Go strings as byte sequences: runes, padding, and cutting spaces off.
use Prim.Native.Nat.{ℕ, zero, suc, ◌-◌, ◌≤◌, ◌<◌}
use mathlib.Core.Path.{◌≡◌, refl, ap, ◌∙◌}
use mathlib.Core.Bool.{Bool, ◌&&◌}
use mathlib.Core.List.{List, [], ◌∷◌, ◌++◌}
use native.Mathlib.Omega.{arith}
use go_diskfs.Base.Tests.{leb, ◌==◌, if◌then◌else◌}
use go_diskfs.Base.Lists.{length, All, replicate, length-append, length-replicate}

abbrev between : ℕ → ℕ → ℕ → Bool
between lo x hi = leb lo x && leb x hi

-- The bounds of the second byte after a given first byte of three or four.
abbrev second_ok : ℕ → ℕ → Bool
second_ok a b =
    if a == 0xE0
    then between 0xA0 b 0xBF
    else if a == 0xED
    then between 0x80 b 0x9F
    else if a == 0xF0
    then between 0x90 b 0xBF
    else if a == 0xF4
    then between 0x80 b 0x8F
    else between 0x80 b 0xBF

-- How many bytes follow the first one of the rune that `a` begins: none for an invalid encoding.
unfoldable pub following : ℕ → List ℕ → ℕ
following a [] = 0
following a (b ∷ []) = if between 0xC2 a 0xDF && between 0x80 b 0xBF then 1 else 0
following a (b ∷ c ∷ []) =
    if between 0xC2 a 0xDF && between 0x80 b 0xBF
    then 1
    else if between 0xE0 a 0xEF && (second_ok a b && between 0x80 c 0xBF)
    then 2
    else 0
following a (b ∷ c ∷ d ∷ rest) =
    if between 0xC2 a 0xDF && between 0x80 b 0xBF
    then 1
    else if between 0xE0 a 0xEF && (second_ok a b && between 0x80 c 0xBF)
    then 2
    else if between 0xF0 a 0xF4 && (second_ok a b && (between 0x80 c 0xBF && between 0x80 d 0xBF))
    then 3
    else 0

-- `k` more bytes belong to the rune at hand.
unfoldable pub runes_after : List ℕ → ℕ → ℕ
unfolding following
runes_after [] k = 0
runes_after (a ∷ s) zero = suc (runes_after s (following a s))
runes_after (a ∷ s) (suc k) = runes_after s k

-- `len([]rune(s))`
unfoldable pub rune_count : List ℕ → ℕ
unfolding runes_after
rune_count s = runes_after s 0

-- `fmt.Sprintf("%-ns", s)`: spaces up to n runes.
unfoldable pub pad_right : ℕ → List ℕ → List ℕ
unfolding rune_count
pad_right n s = s ++ replicate (n - rune_count s) 32

-- `regexp.MustCompile(" +$").ReplaceAllString(s, "")`
unfoldable pub trim_spaces : List ℕ → List ℕ
trim_spaces [] = []
trim_spaces (x ∷ xs) = cut x (trim_spaces xs)
  where
    cut : ℕ → List ℕ → List ℕ
    cut x [] = if x == 32 then [] else x ∷ []
    cut x (y ∷ ys) = x ∷ y ∷ ys

abbrev pub IsAscii : ℕ → Type 0
IsAscii c = c < 128

following_ascii : (a : ℕ) (s : List ℕ) → IsAscii a → following a s ≡ 0
unfolding following
following_ascii a [] h = refl
following_ascii a (b ∷ []) h = ground arith
following_ascii a (b ∷ c ∷ []) h = ground arith
following_ascii a (b ∷ c ∷ d ∷ s) h = ground arith

-- Of ASCII text each byte is a rune.
pub rune_count_ascii : (s : List ℕ) → All IsAscii s → rune_count s ≡ length s
unfolding rune_count
rune_count_ascii [] h = refl
rune_count_ascii (a ∷ s) (h, t) = rw (following_ascii a s h) (ap suc (rune_count_ascii s t))

-- The text is empty or its last byte is no space.
abbrev pub IsTrimmed : List ℕ → Type 0
IsTrimmed s = trim_spaces s ≡ s

trim_spaces-replicate : (n : ℕ) → trim_spaces (replicate n 32) ≡ []
unfolding trim_spaces
trim_spaces-replicate zero = refl
trim_spaces-replicate (suc n) = rw (trim_spaces-replicate n)

pub trim_spaces-append : (s : List ℕ) (n : ℕ) → trim_spaces (s ++ replicate n 32) ≡ trim_spaces s
unfolding trim_spaces
trim_spaces-append [] n = trim_spaces-replicate n
trim_spaces-append (x ∷ s) n = rw (trim_spaces-append s n)

pub trim_spaces-pad_right : (n : ℕ) (s : List ℕ) → IsTrimmed s → trim_spaces (pad_right n s) ≡ s
unfolding pad_right
trim_spaces-pad_right n s h = trim_spaces-append s (n - rune_count s) ∙ h

pub length-pad_right :
    (n : ℕ) (s : List ℕ) → All IsAscii s → length s ≤ n → length (pad_right n s) ≡ n
unfolding pad_right
length-pad_right n s a h =
    length-append s (replicate (n - rune_count s) 32)
    ∙ omega (arith, rune_count_ascii s a, length-replicate {A = ℕ} (n - rune_count s) 32)
