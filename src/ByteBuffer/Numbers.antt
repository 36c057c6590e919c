-- ===== src/ByteBuffer/Numbers.antt =====
-- ByteBuffer.h: values of the fundamental types, as the bit patterns that they are in memory. A value
-- of `w` bytes is a number below `256 ^ w`, lowest byte first: the build for little-endian machines,
-- where `EndianConvert` (common/Utilities/ByteConverter.h) changes nothing.
pub mod RoundTrip
use warhead_fix.Base.{
  ℕ, zero, suc, ◌+◌, ◌-◌, ◌*◌, ◌/◌, ◌%◌, ◌^◌, ◌≤◌, ◌<◌, min, ◌≡◌, refl, sym, ap, ap₂, subst, ◌∙◌,
  ◌≢◌, ◌↔◌, ◌⊎◌, inl, inr, Bool, true, false, not, ◌&&◌, ◌||◌, Option, none, some, List, [], ◌∷◌,
  ◌++◌, append-nil, append_assoc, arith, ltb, leb, ◌==◌, if◌then◌else◌, ltb→lt, lt→ltb, le→not-ltb,
  leb→le, le→leb, lt→not-leb, ==_iff, Bool-cases, Option-cases, length, take, drop, replicate,
  length-append, length-take, length-drop, length-replicate, take-append-drop, take-append,
  drop-append, take-append_le, drop-append_le, take_all, take-take, drop-drop, drop-take, size_mod,
  add_size, sub_size, resize, copy_out, splice, copy_in, length-resize, length-splice,
  copy_out-some, copy_in-some,
}
use warhead_fix.ByteBuffer.{
  ByteBuffer, Outcome, ok, err, Method, position, invalid_value, Kind, float_kind, double_kind,
  ◌>>=◌, ◌>>◌, throw, return, this, fetched, size, append, put,
}

unfoldable pub to_bytes : ℕ → ℕ → List ℕ
to_bytes zero value = []
to_bytes (suc w) value = (value % 256) ∷ to_bytes w (value / 256)

unfoldable pub of_bytes : List ℕ → ℕ
of_bytes [] = 0
of_bytes (c ∷ cs) = c + 256 * of_bytes cs

-- `append<T>(T value)` with `w = sizeof(T)`; `operator<<` of the integer and floating types is this.
unfoldable pub append_value : ℕ → ℕ → Method (Unit {0})
append_value w value = append (to_bytes w value)

-- `put<T>(size_t pos, T value)`
unfoldable pub put_value : ℕ → ℕ → ℕ → Method (Unit {0})
put_value w pos value = put pos (to_bytes w value)

-- `read<T>(size_t pos)`
unfoldable pub read_value_at : ℕ → ℕ → Method ℕ
read_value_at w pos b =
    if ltb (size b) (add_size pos w)
    then err (position false pos w (size b)) b
    else (do bytes ← fetched (copy_out b.storage pos w); return (of_bytes bytes)) b

-- `read<T>()`; `operator>>` of the integer types is this.
unfoldable pub read_value : ℕ → Method ℕ
read_value w = do
  b ← this
  value ← read_value_at w b.rpos
  λ b'. ok value (record b' { rpos = add_size b'.rpos w })

-- `operator<<(bool)`
unfoldable pub append_bool : Bool → Method (Unit {0})
unfolding append_value
append_bool value = append_value 1 (if value then 1 else 0)

-- `operator>>(bool&)`: `read<char>() > 0`, where `char` is signed.
unfoldable pub read_bool : Method Bool
unfolding read_value
read_bool = do c ← read_value 1; return (ltb 0 c && ltb c 128)

-- `std::isfinite` of an IEEE 754 pattern: the exponent is not all ones.
abbrev pub is_finite32 : ℕ → Bool
is_finite32 bits = not (bits / 2 ^ 23 % 2 ^ 8 == 0xff)

abbrev pub is_finite64 : ℕ → Bool
is_finite64 bits = not (bits / 2 ^ 52 % 2 ^ 11 == 0x7ff)

abbrev infinity : List ℕ
infinity = b'i' ∷ b'n' ∷ b'f' ∷ b'i' ∷ b'n' ∷ b'i' ∷ b't' ∷ b'y' ∷ []

-- `operator>>(float&)`
unfoldable pub read_float : Method ℕ
unfolding read_value
read_float = do
  value ← read_value 4
  if is_finite32 value then return value else throw (invalid_value float_kind infinity)

-- `operator>>(double&)`
unfoldable pub read_double : Method ℕ
unfolding read_value
read_double = do
  value ← read_value 8
  if is_finite64 value then return value else throw (invalid_value double_kind infinity)
