-- ===== src/Bitmap/Bits.antt =====
-- The bits of a byte, independently of masks: bit j of b is b / 2 ^ j % 2.
use go_diskfs.Base.{
  ℕ, ◌/◌, ◌%◌, ◌^◌, ◌<◌, bit_and, bit_or, ◌≡◌, refl, Bool, true, false, List, get_or, ◌==◌,
  if◌then◌else◌, arith,
}
use go_diskfs.Base.Bytes.{IsByte}
use go_diskfs.Base.Tables.{every_below, every_below_lem}
use go_diskfs.Bitmap.{mask, complement}

unfoldable pub bit : ℕ → ℕ → Bool
bit b j = b / 2 ^ j % 2 == 1

-- Bit `location` of a sequence of bytes.
unfoldable pub bit_at : List ℕ → ℕ → Bool
unfolding bit
bit_at bs location = bit (get_or bs (location / 8) 0) (location % 8)

abbrev pub same : Bool → Bool → Bool
same true b = b
same false true = false
same false false = true

pub same→eq : (a b : Bool) → same a b ≡ true → a ≡ b
same→eq true b h = ground arith
same→eq false true h = ground arith
same→eq false false h = refl

-- A table over bytes and bit numbers.
byte_table :
    (p : ℕ → ℕ → Bool) (b j : ℕ)
    → every_below 256 (λ b. every_below 8 (p b)) ≡ true
    → b < 256
    → j < 8
    → p b j ≡ true
byte_table p b j t hb hj =
    every_below_lem 8 (p b) j (every_below_lem 256 (λ b. every_below 8 (p b)) b t hb) hj

pub mask-test : (b j : ℕ) → IsByte b → j < 8 → (bit_and b (mask j) == mask j) ≡ bit b j
unfolding bit every_below
mask-test b j hb hj =
    same→eq _ _ (byte_table (λ b j. same (bit_and b (mask j) == mask j) (bit b j)) b j refl hb hj)

pub complement-test :
    (b j : ℕ)
    → IsByte b
    → j < 8
    → (if bit_or b (complement (mask j)) == complement (mask j) then false else true) ≡ bit b j
unfolding bit every_below
complement-test b j hb hj = same→eq _ _ (
    byte_table
      (λ b j.
        same (if bit_or b (complement (mask j)) == complement (mask j) then false else true)
          (bit b j))
      b j refl hb hj)

set_table :
    (b j : ℕ)
    → IsByte b
    → j < 8
    → every_below 8 (λ k. same (bit (bit_or b (mask j)) k) (if k == j then true else bit b k))
      ≡ true
unfolding bit every_below
set_table b j hb hj =
    byte_table
      (λ b j.
        every_below 8 (λ k. same (bit (bit_or b (mask j)) k) (if k == j then true else bit b k)))
      b j refl hb hj

pub bit-set :
    (b j k : ℕ)
    → IsByte b
    → j < 8
    → k < 8
    → bit (bit_or b (mask j)) k ≡ (if k == j then true else bit b k)
bit-set b j k hb hj hk = same→eq _ _ (every_below_lem 8 _ k (set_table b j hb hj) hk)

clear_table :
    (b j : ℕ)
    → IsByte b
    → j < 8
    → every_below 8
        (λ k. same (bit (bit_and b (complement (mask j))) k) (if k == j then false else bit b k))
      ≡ true
unfolding bit every_below
clear_table b j hb hj =
    byte_table
      (λ b j.
        every_below 8
          (λ k. same (bit (bit_and b (complement (mask j))) k) (if k == j then false else bit b k)))
      b j refl hb hj

pub bit-clear :
    (b j k : ℕ)
    → IsByte b
    → j < 8
    → k < 8
    → bit (bit_and b (complement (mask j))) k ≡ (if k == j then false else bit b k)
bit-clear b j k hb hj hk = same→eq _ _ (every_below_lem 8 _ k (clear_table b j hb hj) hk)
