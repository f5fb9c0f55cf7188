-- ===== src/Base/Bytes.antt =====
-- Byte slices as lists of numbers: slicing, `copy`, and `encoding/binary`.
use Prim.Native.Nat.{ℕ, zero, suc, ◌+◌, ◌-◌, ◌*◌, ◌/◌, ◌%◌, ◌^◌, ◌≤◌, ◌<◌}
use mathlib.Core.Path.{◌≡◌, refl, sym, ap, ◌∙◌}
use mathlib.Core.Bool.{Bool, true, false, ◌&&◌}
use mathlib.Core.List.{List, [], ◌∷◌, ◌++◌}
use native.Mathlib.Omega.{arith}
use native.Mathlib.Nat.{pow-suc}
use go_diskfs.Base.Tests.{◌==◌}
use go_diskfs.Base.Lists.{length, take, drop, All}

abbrev pub IsByte : ℕ → Type 0
IsByte b = b < 256

-- `b[lo:hi]`, where it is in range.
abbrev pub slice {ℓ} : {A : Type ℓ} → ℕ → ℕ → List A → List A
slice lo hi b = take (hi - lo) (drop lo b)

-- `copy(b, bs)`
abbrev pub overlay {ℓ} : {A : Type ℓ} → List A → List A → List A
overlay [] b = b
overlay (x ∷ xs) [] = []
overlay (x ∷ xs) (y ∷ ys) = x ∷ overlay xs ys

-- `copy(b[n:], bs)`
abbrev pub put_at {ℓ} : {A : Type ℓ} → ℕ → List A → List A → List A
put_at zero bs b = overlay bs b
put_at (suc n) bs [] = []
put_at (suc n) bs (x ∷ xs) = x ∷ put_at n bs xs

-- `PutUint16`, `PutUint32`, `PutUint64` of binary.LittleEndian write n = 2, 4, 8 bytes.
abbrev pub le_bytes : ℕ → ℕ → List ℕ
le_bytes zero v = []
le_bytes (suc n) v = (v % 256) ∷ le_bytes n (v / 256)

-- `Uint16`, `Uint32`, `Uint64` of binary.LittleEndian.
unfoldable pub le_value : List ℕ → ℕ
le_value [] = 0
le_value (x ∷ xs) = x + 256 * le_value xs

-- The same of binary.BigEndian.
abbrev pub be_bytes : ℕ → ℕ → List ℕ
be_bytes zero v = []
be_bytes (suc n) v = (v / 256 ^ n % 256) ∷ be_bytes n v

unfoldable pub be_value_from : ℕ → List ℕ → ℕ
be_value_from acc [] = acc
be_value_from acc (x ∷ xs) = be_value_from (acc * 256 + x) xs

unfoldable pub be_value : List ℕ → ℕ
unfolding be_value_from
be_value xs = be_value_from 0 xs

-- `bytes.Equal`, and `==` on strings as byte sequences.
unfoldable pub bytes_equal : List ℕ → List ℕ → Bool
bytes_equal [] [] = true
bytes_equal [] (y ∷ ys) = false
bytes_equal (x ∷ xs) [] = false
bytes_equal (x ∷ xs) (y ∷ ys) = x == y && bytes_equal xs ys

pub bytes_equal_refl : (xs : List ℕ) → bytes_equal xs xs ≡ true
unfolding bytes_equal
bytes_equal_refl [] = refl
bytes_equal_refl (x ∷ xs) = ground (arith, bytes_equal_refl xs)

pub bytes_equal→eq : (xs ys : List ℕ) → bytes_equal xs ys ≡ true → xs ≡ ys
unfolding bytes_equal
bytes_equal→eq [] [] h = refl
bytes_equal→eq [] (y ∷ ys) h = ground arith
bytes_equal→eq (x ∷ xs) [] h = ground arith
bytes_equal→eq (x ∷ xs) (y ∷ ys) h = ground (arith, bytes_equal→eq xs ys)

pub length-le_bytes : (n v : ℕ) → length (le_bytes n v) ≡ n
length-le_bytes zero v = refl
length-le_bytes (suc n) v = ap suc (length-le_bytes n (v / 256))

pub le_value-le_bytes : (n v : ℕ) → v < 256 ^ n → le_value (le_bytes n v) ≡ v
unfolding le_value
le_value-le_bytes zero v h = omega arith
le_value-le_bytes (suc n) v h =
    omega (arith, le_value-le_bytes n (v / 256) (omega (arith, pow-suc 256 n)))

pub le_bytes-IsByte : (n v : ℕ) → All IsByte (le_bytes n v)
le_bytes-IsByte zero v = tt
le_bytes-IsByte (suc n) v = (omega arith, le_bytes-IsByte n (v / 256))

pub be_value-be_bytes_4 : (v : ℕ) → v < 2 ^ 32 → be_value (be_bytes 4 v) ≡ v
unfolding be_value
be_value-be_bytes_4 v h = omega arith

-- A `copy` that fits replaces the front.
pub overlay_fits {ℓ} :
    {A : Type ℓ} (bs b : List A) → length bs ≤ length b → overlay bs b ≡ bs ++ drop (length bs) b
overlay_fits [] b h = refl
overlay_fits (x ∷ xs) [] h = elim h [ ]
overlay_fits (x ∷ xs) (y ∷ ys) h = ap (λ t. x ∷ t) (overlay_fits xs ys (omega arith))

pub length-overlay {ℓ} : {A : Type ℓ} (bs b : List A) → length (overlay bs b) ≡ length b
length-overlay [] b = refl
length-overlay (x ∷ xs) [] = refl
length-overlay (x ∷ xs) (y ∷ ys) = ap suc (length-overlay xs ys)

pub length-put_at {ℓ} : {A : Type ℓ} (n : ℕ) (bs b : List A) → length (put_at n bs b) ≡ length b
length-put_at zero bs b = length-overlay bs b
length-put_at (suc n) bs [] = refl
length-put_at (suc n) bs (x ∷ xs) = ap suc (length-put_at n bs xs)

pub drop-put_at {ℓ} :
    {A : Type ℓ} (n : ℕ) (bs b : List A) → drop n (put_at n bs b) ≡ overlay bs (drop n b)
drop-put_at zero bs b = refl
drop-put_at (suc n) [] [] = refl
drop-put_at (suc n) (y ∷ ys) [] = refl
drop-put_at (suc n) bs (x ∷ xs) = drop-put_at n bs xs

pub take-put_at {ℓ} : {A : Type ℓ} (n : ℕ) (bs b : List A) → take n (put_at n bs b) ≡ take n b
take-put_at zero bs b = refl
take-put_at (suc n) bs [] = refl
take-put_at (suc n) bs (x ∷ xs) = ap (λ t. x ∷ t) (take-put_at n bs xs)

-- `b[off:off+n]`, where it is in range.
abbrev pub slice_at {ℓ} : {A : Type ℓ} → ℕ → ℕ → List A → List A
slice_at off n b = take n (drop off b)

module _ {ℓ} {A : Type ℓ} where
  pub take-take_append : (n : ℕ) (xs ys : List A) → length xs ≡ n → take n (xs ++ ys) ≡ xs
  take-take_append zero [] ys h = refl
  take-take_append zero (x ∷ xs) ys h = absurd (omega arith)
  take-take_append (suc n) [] ys h = absurd (omega arith)
  take-take_append (suc n) (x ∷ xs) ys h = ap (λ t. x ∷ t) (take-take_append n xs ys (omega arith))

  pub slice_at-put_at_self :
      (off : ℕ) (bs b : List A)
      → off + length bs ≤ length b
      → slice_at off (length bs) (put_at off bs b) ≡ bs
  slice_at-put_at_self zero bs b h =
      ap (take (length bs)) (overlay_fits bs b (omega arith))
      ∙ take-take_append (length bs) bs (drop (length bs) b) refl
  slice_at-put_at_self (suc off) bs [] h = absurd (omega arith)
  slice_at-put_at_self (suc off) bs (x ∷ b) h = slice_at-put_at_self off bs b (omega arith)

  take-put_at_le : (m n : ℕ) (bs b : List A) → m ≤ n → take m (put_at n bs b) ≡ take m b
  take-put_at_le zero n bs b h = refl
  take-put_at_le (suc m) zero bs b h = absurd (omega arith)
  take-put_at_le (suc m) (suc n) bs [] h = refl
  take-put_at_le (suc m) (suc n) bs (x ∷ b) h =
      ap (λ t. x ∷ t) (take-put_at_le m n bs b (omega arith))

  pub slice_at-put_at_before :
      (off m n : ℕ) (bs b : List A)
      → off + m ≤ n
      → slice_at off m (put_at n bs b) ≡ slice_at off m b
  slice_at-put_at_before zero m n bs b h = take-put_at_le m n bs b (omega arith)
  slice_at-put_at_before (suc off) m zero bs b h = absurd (omega arith)
  slice_at-put_at_before (suc off) m (suc n) bs [] h = refl
  slice_at-put_at_before (suc off) m (suc n) bs (x ∷ b) h =
      slice_at-put_at_before off m n bs b (omega arith)

  drop-overlay : (off : ℕ) (bs b : List A) → length bs ≤ off → drop off (overlay bs b) ≡ drop off b
  drop-overlay off [] b h = refl
  drop-overlay off (x ∷ bs) [] h = refl
  drop-overlay zero (x ∷ bs) (y ∷ b) h = absurd (omega arith)
  drop-overlay (suc off) (x ∷ bs) (y ∷ b) h = drop-overlay off bs b (omega arith)

  pub drop-put_at_after :
      (off n : ℕ) (bs b : List A) → n + length bs ≤ off → drop off (put_at n bs b) ≡ drop off b
  drop-put_at_after off zero bs b h = drop-overlay off bs b (omega arith)
  drop-put_at_after zero (suc n) bs b h = absurd (omega arith)
  drop-put_at_after (suc off) (suc n) bs [] h = refl
  drop-put_at_after (suc off) (suc n) bs (x ∷ b) h = drop-put_at_after off n bs b (omega arith)

  pub slice_at-put_at_after :
      (off m n : ℕ) (bs b : List A)
      → n + length bs ≤ off
      → slice_at off m (put_at n bs b) ≡ slice_at off m b
  slice_at-put_at_after off m n bs b h = ap (take m) (drop-put_at_after off n bs b h)

  -- `b[off:off+n]` after `copy(b[off:], bs)` of n bytes that fit.
  pub slice_at-put_at :
      (off n : ℕ) (bs b : List A)
      → length bs ≡ n
      → off + n ≤ length b
      → slice_at off n (put_at off bs b) ≡ bs
  slice_at-put_at off n bs b e h =
      ap (λ m. slice_at off m (put_at off bs b)) (sym e)
      ∙ slice_at-put_at_self off bs b (omega (arith, e))
