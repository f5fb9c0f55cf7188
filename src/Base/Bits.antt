-- ===== src/Base/Bits.antt =====
-- `&`, `|` and `%` at variables.
use Prim.Native.Nat.{
  ℕ, zero, suc, ◌+◌, ◌-◌, ◌*◌, ◌/◌, ◌%◌, ◌^◌, ◌≤◌, ◌<◌, min, max, bit_and, bit_or, digits,
  bit_and-bitwise, bit_or-bitwise,
}
use mathlib.Core.Path.{◌≡◌, refl, sym, ap, ◌∙◌}
use native.Mathlib.Omega.{arith}
use native.Mathlib.Nat.{pow-suc, add-mul, mod-add-div', mul_right_comm, add-mul-mod_self_right}

digits_le : (n a b : ℕ) → a ≤ n → digits (λ b. zero) min n a b ≤ a
digits_le zero zero b h = omega arith
digits_le zero (suc a) b h = absurd (omega arith)
digits_le (suc n) zero b h = omega arith
digits_le (suc n) (suc a) b h = omega (arith, digits_le n (suc a / 2) (b / 2) (omega arith))

-- A masked number is no larger than the number.
pub bit_and-le : (a b : ℕ) → bit_and a b ≤ a
bit_and-le a b = rw (bit_and-bitwise a b) (digits_le a a b (omega arith))

or_digits : (k n a : ℕ) → a ≤ n → a < 2 ^ k → digits (λ b. b) max n a (2 ^ k) ≡ a + 2 ^ k
or_digits k zero zero h g = omega arith
or_digits k zero (suc a) h g = absurd (omega arith)
or_digits k (suc n) zero h g = omega arith
or_digits zero (suc n) (suc a) h g = absurd (omega arith)
or_digits (suc k) (suc n) (suc a) h g =
    let e : 2 ^ suc k ≡ 2 ^ k * 2 = pow-suc 2 k in
    let half : 2 ^ suc k / 2 ≡ 2 ^ k = omega arith in
    rw half (omega (arith, or_digits k n (suc a / 2) (omega arith) (omega arith)))

or_digits_zero : (n a : ℕ) → a ≤ n → digits (λ b. b) max n a 0 ≡ a
or_digits_zero zero zero h = refl
or_digits_zero zero (suc a) h = absurd (omega arith)
or_digits_zero (suc n) zero h = refl
or_digits_zero (suc n) (suc a) h = omega (arith, or_digits_zero n (suc a / 2) (omega arith))

pub bit_or-zero : (a : ℕ) → bit_or a 0 ≡ a
bit_or-zero a = rw (bit_or-bitwise a 0) (or_digits_zero a a (omega arith))

-- Setting a bit above the number's adds it.
pub bit_or-pow : (k a : ℕ) → a < 2 ^ k → bit_or a (2 ^ k) ≡ a + 2 ^ k
bit_or-pow k a h = rw (bit_or-bitwise a (2 ^ k)) (or_digits k a a (omega arith) h)

and_digits-zero : (n a : ℕ) → digits (λ b. zero) min n a 0 ≡ 0
and_digits-zero zero a = refl
and_digits-zero (suc n) zero = refl
and_digits-zero (suc n) (suc a) = omega (arith, and_digits-zero n (suc a / 2))

and_digits_low : (k n a : ℕ) → a ≤ n → a < 2 ^ k → digits (λ b. zero) min n a (2 ^ k) ≡ 0
and_digits_low k zero zero h g = refl
and_digits_low k zero (suc a) h g = absurd (omega arith)
and_digits_low k (suc n) zero h g = refl
and_digits_low zero (suc n) (suc a) h g = absurd (omega arith)
and_digits_low (suc k) (suc n) (suc a) h g =
    let e : 2 ^ suc k ≡ 2 ^ k * 2 = pow-suc 2 k in
    let half : 2 ^ suc k / 2 ≡ 2 ^ k = omega arith in
    rw half (omega (arith, and_digits_low k n (suc a / 2) (omega arith) (omega arith)))

pub bit_and-pow_low : (k a : ℕ) → a < 2 ^ k → bit_and a (2 ^ k) ≡ 0
bit_and-pow_low k a h = rw (bit_and-bitwise a (2 ^ k)) (and_digits_low k a a (omega arith) h)

and_digits_high :
    (k n a b : ℕ) → b ≤ n → b ≡ a + 2 ^ k → a < 2 ^ k → digits (λ b. zero) min n b (2 ^ k) ≡ 2 ^ k
and_digits_high zero zero a b h e g = absurd (omega arith)
and_digits_high (suc k) zero a b h e g = absurd (omega (arith, pow-suc 2 k))
and_digits_high zero (suc n) a b h e g =
    let one : b ≡ 1 = omega arith in rw one (omega (arith, and_digits-zero n 0))
and_digits_high (suc k) (suc n) a zero h e g = absurd (omega (arith, pow-suc 2 k))
and_digits_high (suc k) (suc n) a (suc b) h e g =
    let e' : 2 ^ suc k ≡ 2 ^ k * 2 = pow-suc 2 k in
    let half : 2 ^ suc k / 2 ≡ 2 ^ k = omega arith in
    rw half (
      omega
        (arith, and_digits_high k n (a / 2) (suc b / 2) (omega arith) (omega arith) (omega arith)))

pub bit_and-pow_high : (k a : ℕ) → a < 2 ^ k → bit_and (a + 2 ^ k) (2 ^ k) ≡ 2 ^ k
bit_and-pow_high k a h =
    rw (bit_and-bitwise (a + 2 ^ k) (2 ^ k))
      (and_digits_high k (a + 2 ^ k) a (a + 2 ^ k) (omega arith) refl h)

and_digits_mask :
    (k n x q r : ℕ)
    → x ≤ n
    → x ≡ q * 2 ^ k + r
    → r < 2 ^ k
    → digits (λ b. zero) min n x (2 ^ k - 1) ≡ r
and_digits_mask zero n x q r h e g =
    let z : r ≡ 0 = omega arith in and_digits-zero n x ∙ omega arith
and_digits_mask (suc k) zero x q r h e g = omega arith
and_digits_mask (suc k) (suc n) zero q r h e g = omega arith
and_digits_mask (suc k) (suc n) (suc x) q r h e g =
    let e' : 2 ^ suc k ≡ 2 ^ k * 2 = pow-suc 2 k in
    let twice : q * 2 ^ suc k ≡ 2 * (q * 2 ^ k) = rw e' (omega arith) in
    let half : (2 ^ suc k - 1) / 2 ≡ 2 ^ k - 1 = omega arith in
    rw half (
      omega (
        arith,
        and_digits_mask k n (suc x / 2) q (r / 2) (omega arith) (omega arith) (omega arith),
      ))

-- The mask of the k lowest bits.
pub bit_and-mask : (k x q r : ℕ) → x ≡ q * 2 ^ k + r → r < 2 ^ k → bit_and x (2 ^ k - 1) ≡ r
bit_and-mask k x q r e h =
    rw (bit_and-bitwise x (2 ^ k - 1)) (and_digits_mask k x x q r (omega arith) e h)

-- A product that wraps around, of a factor that has.
pub mod-mul : (a b m : ℕ) → a % m * b % m ≡ a * b % m
mod-mul a b m =
    let r = a % m in
    let q = a / m in
    sym (add-mul-mod_self_right (r * b) (q * b) m)
    ∙ ap (λ z. (r * b + z) % m) (mul_right_comm q b m)
    ∙ ap (λ z. z % m) (sym (add-mul r (q * m) b))
    ∙ ap (λ z. z * b % m) (mod-add-div' a m)
