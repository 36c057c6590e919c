-- ===== src/Strings/Convert.antt =====
-- common/Utilities/StringConvert.h: `StringTo` and `ToString` for the unsigned integers and `bool`, and
-- `StringTo` at base 10 for the signed ones.
pub mod RoundTrip
mod Tests
use warhead_fix.Base.{
  ℕ, zero, suc, ◌+◌, ◌-◌, ◌*◌, ◌/◌, ◌%◌, ◌^◌, ◌≤◌, ◌<◌, min, ◌≡◌, refl, sym, ap, ap₂, subst, ◌∙◌,
  ◌≢◌, ◌↔◌, ◌⊎◌, inl, inr, Bool, true, false, not, ◌&&◌, ◌||◌, Option, none, some, List, [], ◌∷◌,
  ◌++◌, append-nil, append_assoc, arith, ltb, leb, ◌==◌, if◌then◌else◌, ltb→lt, lt→ltb, le→not-ltb,
  leb→le, le→leb, lt→not-leb, ==_iff, Bool-cases, Option-cases, length, take, drop, replicate,
  length-append, length-take, length-drop, length-replicate, take-append-drop, take-append,
  drop-append, take-append_le, drop-append_le, take_all, take-take, drop-drop, drop-take, drop_all,
  take-splice, drop-splice, take-drop-splice, drop_behind-splice, size_mod, add_size, sub_size,
  resize, copy_out, splice, copy_in, length-resize, length-splice, copy_out-some, copy_in-some,
}
use warhead_fix.Base.Texts.{codes}
use warhead_fix.Base.Bytes.{same_bytes}
use warhead_fix.Strings.Compare.{string_equal_i}

-- What a byte stands for as a digit; 36 if it is none in any base.
unfoldable pub digit_value : ℕ → ℕ
digit_value c =
    if leb b'0' c && leb c b'9'
    then c - b'0'
    else if leb b'a' c && leb c b'z'
    then c - b'a' + 10
    else if leb b'A' c && leb c b'Z'
    then c - b'A' + 10
    else 36

-- The digits that `str` begins with: `acc` continued by their value, and how many they are.
unfoldable pub scan : (base : ℕ) → List ℕ → (acc : ℕ) → ℕ × ℕ
scan base [] acc = (acc, 0)
scan base (c ∷ str) acc =
    let (value, count) = scan base str (acc * base + digit_value c) in
    if ltb (digit_value c) base then (value, suc count) else (acc, 0)

-- `std::from_chars` for an unsigned type of `bits` bits: the value, and where it stopped; `none` is
-- an error.
unfoldable pub from_chars : (bits base : ℕ) → List ℕ → Option (ℕ × ℕ)
from_chars bits base str =
    let (value, count) = scan base str 0 in
    if count == 0 then none else if ltb value (2 ^ bits) then some (value, count) else none

-- `FromString` from its call of `std::from_chars` on: all of `str` is read, or nothing.
unfoldable pub from_whole : (bits base : ℕ) → List ℕ → Option ℕ
from_whole bits base str = elim (from_chars bits base str) [
  | none ↦ none
  | some parsed ↦ let (value, count) = parsed in if count == length str then some value else none
]

unfoldable pub non_empty : (List ℕ → Option ℕ) → List ℕ → Option ℕ
non_empty read [] = none
non_empty read (c ∷ str) = read (c ∷ str)

unfoldable pub from_string : (bits : ℕ) → List ℕ → (base : ℕ) → Option ℕ
unfolding non_empty
from_string bits str base =
    if base == 0
    then if string_equal_i (take 2 str) (codes "0x")
      then non_empty (from_whole bits 16) (drop 2 str)
      else if string_equal_i (take 2 str) (codes "0b")
      then non_empty (from_whole bits 2) (drop 2 str)
      else non_empty (from_whole bits 10) str
    else from_whole bits base str

-- A number of a signed type.
pub record Signed : Type 0 where
  pub negative : Bool
  pub magnitude : ℕ

-- `FromString` at base 10 for a signed type of `bits` bits.
unfoldable pub signed_from_string : (bits : ℕ) → List ℕ → Option Signed
signed_from_string bits [] = none
signed_from_string bits (c ∷ str) =
    let (below, places) = scan 10 str 0 in
    let (value, count) = scan 10 (c ∷ str) 0 in
    if c == b'-'
    then if places == 0 || (not (places == length str) || ltb (2 ^ (bits - 1)) below)
      then none
      else some (record { negative = not (below == 0); magnitude = below })
    else if count == 0 || (not (count == length (c ∷ str)) || leb (2 ^ (bits - 1)) value)
    then none
    else some (record { negative = false; magnitude = value })

-- `std::to_chars` into `size` bytes; `none` is `errc::value_too_large`.
unfoldable pub to_chars : (size : ℕ) → ℕ → Option (List ℕ)
to_chars zero val = none
to_chars (suc size) val =
    let rest = to_chars size (val / 10) in
    if ltb val 10
    then some ((b'0' + val) ∷ [])
    else elim rest [ none ↦ none | some digits ↦ some (digits ++ (b'0' + val % 10) ∷ []) ]

-- `ToString`; `none` is the failure of its assertion.
unfoldable pub to_string : ℕ → Option (List ℕ)
to_string val = to_chars 20 val

unfoldable pub bool_from_string : List ℕ → (strict : ℕ) → Option Bool
bool_from_string str strict =
    if not (strict == 0)
    then if same_bytes str (codes "1")
      then some true
      else if same_bytes str (codes "0")
      then some false
      else none
    else if same_bytes str (codes "1")
        || (string_equal_i str (codes "y")
            || (string_equal_i str (codes "on")
                || (string_equal_i str (codes "yes") || string_equal_i str (codes "true"))))
    then some true
    else if same_bytes str (codes "0")
        || (string_equal_i str (codes "n")
            || (string_equal_i str (codes "off")
                || (string_equal_i str (codes "no") || string_equal_i str (codes "false"))))
    then some false
    else none

unfoldable pub bool_to_string : Bool → List ℕ
bool_to_string val = if val then codes "1" else codes "0"
