-- ===== src/Strings/Convert/RoundTrip.antt =====
-- `StringTo` reads what `ToString` writes.
use warhead_fix.Base.{
  ℕ, zero, suc, ◌+◌, ◌*◌, ◌/◌, ◌%◌, ◌^◌, ◌≤◌, ◌<◌, ◌≡◌, refl, sym, ap, ap₂, ◌∙◌, inl, inr, Bool,
  true, false, some, List, [], ◌∷◌, ◌++◌, arith, ltb, ◌==◌, lt→ltb, Bool-cases, length,
  length-append,
}
use native.Mathlib.Nat.{pow-suc, pow-le-pow_right}
use warhead_fix.Base.Bytes.{same_bytes}
use warhead_fix.Strings.Compare.{to_lower, string_equal_i}
use warhead_fix.Strings.Convert.{
  digit_value, scan, from_chars, from_whole, from_string, to_chars, to_string, bool_from_string,
  bool_to_string,
}

digit_value-lem : (d : ℕ) → d < 10 → digit_value (b'0' + d) ≡ d
unfolding digit_value
digit_value-lem d h = ground (arith, h)

scan-append :
    (base : ℕ) (str : List ℕ) (acc value c : ℕ)
    → scan base str acc ≡ (value, length str)
    → digit_value c < base
    → scan base (str ++ c ∷ []) acc ≡ (value * base + digit_value c, suc (length str))
unfolding scan
scan-append base [] acc value c e h =
    let digit : ltb (digit_value c) base ≡ true = lt→ltb (digit_value c) base h in
    let same : acc ≡ value = ap (λ p. p.0) e in rw (digit, same) refl
scan-append base (d ∷ str) acc value c e h = elim (Bool-cases (ltb (digit_value d) base)) [
  | inl digit ↦
      let read = rw digit at e in
      let rest : scan base str (acc * base + digit_value d) ≡ (value, length str) =
        ap₂ (λ v n. (v, n)) (ap (λ p. p.0) read) (omega (arith, ap (λ p. p.1) read)) in
      let ih = scan-append base str (acc * base + digit_value d) value c rest h in
      rw (digit, ih) refl
  | inr other ↦ let read = rw other at e in absurd (omega (arith, ap (λ p. p.1) read))
]

one_digit : (val : ℕ) → val < 10 → scan 10 ((b'0' + val) ∷ []) 0 ≡ (val, 1)
unfolding scan
one_digit val small =
    let value : 0 + val ≡ val = omega arith in
    rw (digit_value-lem val small, lt→ltb val 10 small) (ap (λ v. (v, 1)) value)

to_chars-scan :
    (size val : ℕ)
    → val < 10 ^ suc size
    → (str : List ℕ) × (to_chars (suc size) val ≡ some str)
      × (scan 10 str 0 ≡ (val, length str))
      × (0 < length str)
unfolding to_chars
to_chars-scan zero val h =
    let small : val < 10 = h in
    rw (lt→ltb val 10 small) ((b'0' + val) ∷ [], refl, one_digit val small, omega arith)
to_chars-scan (suc size) val h = elim (Bool-cases (ltb val 10)) [
  | inl small ↦
      rw small ((b'0' + val) ∷ [], refl, one_digit val (ground (arith, small)), omega arith)
  | inr big ↦
      let (str, written, read, _) =
        to_chars-scan size (val / 10) (omega (arith, h, pow-suc 10 (suc size))) in
      let digit : digit_value (b'0' + val % 10) ≡ val % 10 =
        digit_value-lem (val % 10) (omega arith) in
      let value : val / 10 * 10 + digit_value (b'0' + val % 10) ≡ val = omega (arith, digit) in
      let longer : length (str ++ (b'0' + val % 10) ∷ []) ≡ suc (length str) =
        omega (arith, length-append str ((b'0' + val % 10) ∷ [])) in
      rw (big, written)
        (
          str ++ (b'0' + val % 10) ∷ [],
          refl,
          scan-append 10 str 0 (val / 10) (b'0' + val % 10) read (omega (arith, digit))
              ∙ ap₂ (λ v n. (v, n)) value (sym longer),
          omega (arith, longer),
        )
]

from_string_lem :
    (bits val : ℕ) (str : List ℕ)
    → scan 10 str 0 ≡ (val, length str)
    → 0 < length str
    → val < 2 ^ bits
    → from_string bits str 10 ≡ some val
unfolding from_string from_whole from_chars
from_string_lem bits val str read long h =
    let some_digits : (length str == 0) ≡ false = ground (arith, long) in
    let whole : (length str == length str) ≡ true = ground arith in
    rw (from_string, from_whole, from_chars, read, some_digits, lt→ltb val (2 ^ bits) h, whole) refl

-- A number that fits an unsigned type of at most 64 bits is written by ToString into its 20 bytes,
-- and StringTo reads it back from them.
pub from_string-to_string :
    (bits val : ℕ)
    → bits ≤ 64
    → val < 2 ^ bits
    → (str : List ℕ) × (to_string val ≡ some str) × (from_string bits str 10 ≡ some val)
unfolding to_string
from_string-to_string bits val small h =
    let fits : val < 10 ^ 20 =
      omega (arith, h, pow-le-pow_right {n = 2} (omega arith) {i = bits} {j = 64} small) in
    let (str, written, read, long) = to_chars-scan 19 val fits in
    (str, written, from_string_lem bits val str read long h)

-- What `ToString` makes of a `bool` is read back, strictly or not.
pub bool_from_string-bool_to_string :
    (val : Bool) (strict : ℕ) → bool_from_string (bool_to_string val) strict ≡ some val
unfolding bool_from_string bool_to_string same_bytes string_equal_i to_lower
bool_from_string-bool_to_string true zero = refl
bool_from_string-bool_to_string true (suc strict) =
    let on : (suc strict == 0) ≡ false = ground arith in rw on refl
bool_from_string-bool_to_string false zero = refl
bool_from_string-bool_to_string false (suc strict) =
    let on : (suc strict == 0) ≡ false = ground arith in rw on refl
