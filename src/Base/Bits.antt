-- ===== src/Base/Bits.antt =====
-- `&`, `|` and shifts of unsigned numbers as arithmetic. The bit operations run as they are; the
-- laws here say what they do to fields of bits, at every width.
use Prim.Native.Nat.{min, max, digits, bitwise, bit_and, bit_or, bit_and-bitwise, bit_or-bitwise}
use mathlib.Core.Path.{◌≡◌, refl, ap, ◌∙◌, sym}
use native.Mathlib.Nat.{pow-suc, div-add-mod, mul_comm, div-div-eq-div-mul}
use native.Mathlib.Omega.{arith}
use Prim.Native.Nat.{ℕ, zero, suc, ◌+◌, ◌*◌, ◌/◌, ◌%◌, ◌^◌, ◌≤◌, ◌<◌}

-- The recursion on digits does not depend on its fuel, once that covers the first number.
module _ (z : ℕ → ℕ) (f : ℕ → ℕ → ℕ) where
  enough_digits : (n m a b : ℕ) → a ≤ n → n ≤ m → digits z f m a b ≡ digits z f n a b
  enough_digits zero zero zero b h k = refl
  enough_digits zero (suc m) zero b h k = refl
  enough_digits zero m (suc a) b h k = absurd (omega arith)
  enough_digits (suc n) zero a b h k = absurd (omega arith)
  enough_digits (suc n) (suc m) zero b h k = refl
  enough_digits (suc n) (suc m) (suc a) b h k =
      ap (λ q. q * 2 + f (suc a % 2) (b % 2))
        (enough_digits n m (suc a / 2) (b / 2) (omega arith) (omega arith))

  -- The number of the last digits, and the rest.
  lowest_digit :
      (m n : ℕ)
      → f (suc m % 2) (n % 2) + 2 * bitwise z f (suc m / 2) (n / 2) ≡ bitwise z f (suc m) n
  lowest_digit m n =
      omega (arith, enough_digits (suc m / 2) m (suc m / 2) (n / 2) (omega arith) (omega arith))

pub bit_or_step : (m n : ℕ) → max (m % 2) (n % 2) + 2 * bit_or (m / 2) (n / 2) ≡ bit_or m n
bit_or_step zero n = simp bit_or-bitwise (omega arith)
bit_or_step (suc m) n = simp bit_or-bitwise (lowest_digit (λ rest. rest) max m n)

-- `a | (q << k)` is a sum when `a` fits `k` bits.
pub bit_or_disjoint : (k a q : ℕ) → a < 2 ^ k → bit_or a (q * 2 ^ k) ≡ a + q * 2 ^ k
bit_or_disjoint zero zero q h = simp bit_or-bitwise (omega arith)
bit_or_disjoint zero (suc a) q h = absurd (omega arith)
bit_or_disjoint (suc k) a q h = ground (
  arith,
  bit_or_step a (q * 2 ^ suc k),
  pow-suc 2 k,
  ap (λ (t : ℕ). q * t) (pow-suc 2 k),
  bit_or_disjoint k (a / 2) q (omega (arith, pow-suc 2 k)),
)

pub bit_and_step : (m n : ℕ) → min (m % 2) (n % 2) + 2 * bit_and (m / 2) (n / 2) ≡ bit_and m n
bit_and_step zero n = simp bit_and-bitwise (omega arith)
bit_and_step (suc m) n = simp bit_and-bitwise (lowest_digit (λ rest. 0) min m n)

or_zero_below : (n a : ℕ) → a ≤ n → bit_or a 0 ≡ a
or_zero_below n zero h = simp bit_or-bitwise refl
or_zero_below zero (suc a) h = absurd (omega arith)
or_zero_below (suc n) (suc a) h =
    omega (arith, bit_or_step (suc a) 0, or_zero_below n (suc a / 2) (omega arith))

-- `(q << k) | a`, with the low field on the right.
pub bit_or_fields : (k q a : ℕ) → a < 2 ^ k → bit_or (q * 2 ^ k) a ≡ q * 2 ^ k + a
bit_or_fields zero q zero h = or_zero_below (q * 1) (q * 1) (omega arith) ∙ omega arith
bit_or_fields zero q (suc a) h = absurd (omega arith)
bit_or_fields (suc k) q a h = ground (
  arith,
  bit_or_step (q * 2 ^ suc k) a,
  pow-suc 2 k,
  ap (λ (t : ℕ). q * t) (pow-suc 2 k),
  bit_or_fields k q (a / 2) (omega (arith, pow-suc 2 k)),
)

and_zero_below : (n a : ℕ) → a ≤ n → bit_and a 0 ≡ 0
and_zero_below n zero h = refl
and_zero_below zero (suc a) h = absurd (omega arith)
and_zero_below (suc n) (suc a) h =
    omega (arith, bit_and_step (suc a) 0, and_zero_below n (suc a / 2) (omega arith))

bit_and-zero : (a : ℕ) → bit_and a 0 ≡ 0
bit_and-zero a = and_zero_below a a (omega arith)

div-half : (a k : ℕ) → a / 2 / 2 ^ k ≡ a / 2 ^ suc k
div-half a k =
    div-div-eq-div-mul a 2 (2 ^ k) ∙ ap (λ m. a / m) (mul_comm 2 (2 ^ k) ∙ sym (pow-suc 2 k))

-- `a & (1 << k)` is the bit number `k`, at its place.
pub bit_and_bit : (k a : ℕ) → bit_and a (2 ^ k) ≡ a / 2 ^ k % 2 * 2 ^ k
bit_and_bit zero a = ground (arith, bit_and_step a 1, bit_and-zero (a / 2))
bit_and_bit (suc k) a = ground (
  arith,
  bit_and_step a (2 ^ suc k),
  pow-suc 2 k,
  bit_and_bit k (a / 2),
  div-half a k,
  ap (λ (t : ℕ). a / 2 ^ suc k % 2 * t) (pow-suc 2 k),
)

mod-half : (a k : ℕ) → a % 2 ^ suc k ≡ a / 2 % 2 ^ k * 2 + a % 2
mod-half a k = omega (
  arith,
  div-add-mod a (2 ^ suc k),
  div-add-mod (a / 2) (2 ^ k),
  div-half a k,
  ap (λ (t : ℕ). t * (a / 2 ^ suc k)) (pow-suc 2 k),
  ap (λ (t : ℕ). 2 ^ k * t) (div-half a k),
)

-- `a & mask` for a mask of `k` ones is the remainder by `2 ^ k`.
pub bit_and_mask : (k a mask : ℕ) → mask + 1 ≡ 2 ^ k → bit_and a mask ≡ a % 2 ^ k
bit_and_mask zero a zero e = ground (arith, bit_and-zero a)
bit_and_mask zero a (suc m) e = absurd (omega arith)
bit_and_mask (suc k) a mask e = omega (
  arith,
  bit_and_step a mask,
  pow-suc 2 k,
  bit_and_mask k (a / 2) (mask / 2) (omega (arith, pow-suc 2 k)),
  mod-half a k,
)
