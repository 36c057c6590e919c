-- ===== src/ByteBuffer/Guid/Digits.antt =====
-- The bytes of a number, in base 256: the mark and the bytes that a packed identifier consists of.
use native.Mathlib.Numerals.{towards_suc}
use native.Mathlib.Nat.{pow-suc, pow-le-pow_right, div-add-mod, one-le-pow}
use warhead_fix.Base.{
  ℕ, zero, suc, ◌+◌, ◌*◌, ◌/◌, ◌%◌, ◌^◌, ◌≤◌, ◌<◌, ◌≡◌, refl, ap, ◌∙◌, true, false, List, [], ◌∷◌,
  arith, ◌==◌, if◌then◌else◌, length,
}

unfoldable pub nonzero_bytes : ℕ → ℕ → List ℕ
nonzero_bytes zero g = []
nonzero_bytes (suc n) g =
    if g % 256 == 0 then nonzero_bytes n (g / 256) else (g % 256) ∷ nonzero_bytes n (g / 256)

unfoldable pub mark_of : ℕ → ℕ → ℕ
mark_of zero g = 0
mark_of (suc n) g = (if g % 256 == 0 then 0 else 1) + 2 * mark_of n (g / 256)

module _ (n g : ℕ) where
  pub skip_step :
      (g % 256 == 0) ≡ true
      → (nonzero_bytes (suc n) g ≡ nonzero_bytes n (g / 256))
        × (mark_of (suc n) g ≡ 2 * mark_of n (g / 256))
  unfolding nonzero_bytes mark_of
  skip_step e = (rw e, rw e (omega arith))

  pub keep_step :
      (g % 256 == 0) ≡ false
      → (nonzero_bytes (suc n) g ≡ (g % 256) ∷ nonzero_bytes n (g / 256))
        × (mark_of (suc n) g ≡ 1 + 2 * mark_of n (g / 256))
  unfolding nonzero_bytes mark_of
  keep_step e = (rw e, rw e)

pub nonzero_bytes-zero : (n : ℕ) → nonzero_bytes n 0 ≡ []
unfolding nonzero_bytes
nonzero_bytes-zero zero = refl
nonzero_bytes-zero (suc n) = nonzero_bytes-zero n

pub mark_of-zero : (n : ℕ) → mark_of n 0 ≡ 0
unfolding mark_of
mark_of-zero zero = refl
mark_of-zero (suc n) = omega (arith, mark_of-zero n)

pub length-nonzero_bytes : (n g : ℕ) → length (nonzero_bytes n g) ≤ n
unfolding nonzero_bytes
length-nonzero_bytes zero g = omega arith
length-nonzero_bytes (suc n) g = ground (arith, length-nonzero_bytes n (g / 256))

pub mark_of-lt : (n g : ℕ) → mark_of n g < 2 ^ n
unfolding mark_of
mark_of-lt zero g = omega arith
mark_of-lt (suc n) g = ground (arith, mark_of-lt n (g / 256), pow-suc 2 n)

two_pow_add_eight : (s : ℕ) → 2 ^ (s + 8) ≡ 256 * 2 ^ s
two_pow_add_eight s = simp towards_suc (omega arith)

pub two-pow-mul-eight : (i : ℕ) → 2 ^ (i * 8) ≡ 256 ^ i
two-pow-mul-eight zero = refl
two-pow-mul-eight (suc i) =
    ap (λ n. 2 ^ n) (omega arith)
    ∙ two_pow_add_eight (i * 8)
    ∙ omega (arith, two-pow-mul-eight i, pow-suc 256 i)

pub two-pow-add-one : (i : ℕ) → 2 ^ (i + 1) ≡ 2 * 2 ^ i
two-pow-add-one i = ap (λ n. 2 ^ n) {y = suc i} (omega arith) ∙ omega (arith, pow-suc 2 i)

pub pow-add-one : (i : ℕ) → 256 ^ (i + 1) ≡ 256 * 256 ^ i
pow-add-one i = ap (λ n. 256 ^ n) {y = suc i} (omega arith) ∙ omega (arith, pow-suc 256 i)

-- The lowest byte of a number and the rest of it, at place `i`.
pub at_place : (g i : ℕ) → g * 256 ^ i ≡ g % 256 * 256 ^ i + g / 256 * 256 ^ (i + 1)
at_place g i =
    omega (arith, ap (λ t. t * 256 ^ i) (div-add-mod g 256), ap (λ t. g / 256 * t) (pow-add-one i))

-- A byte above the bytes read so far.
pub below_next : (i acc c : ℕ) → acc < 256 ^ i → c < 256 → acc + c * 256 ^ i < 256 ^ (i + 1)
below_next i acc c low byte = rw (pow-add-one i) (grind arith)

-- A byte at one of the eight places fits 64 bits.
pub byte_fits : (i c : ℕ) → i < 8 → c < 256 → c * 256 ^ i < 2 ^ 64
byte_fits i c few byte = omega (
  arith,
  below_next i 0 c (one-le-pow i 256 (omega arith)) byte,
  pow-le-pow_right {n = 256} (omega arith) {i = i + 1} {j = 8} (omega arith),
)
