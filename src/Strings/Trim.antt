-- ===== src/Strings/Trim.antt =====
-- common/Utilities/StringFormat.cpp: `Trim` and `TrimRightInPlace`. Spaces are those of the locale "C".
pub mod Outcome
pub mod Right
mod Tests
use warhead_fix.Base.{
  ℕ, zero, suc, ◌+◌, ◌-◌, ◌*◌, ◌/◌, ◌%◌, ◌^◌, ◌≤◌, ◌<◌, min, ◌≡◌, refl, sym, ap, ap₂, subst, ◌∙◌,
  ◌≢◌, ◌↔◌, ◌⊎◌, inl, inr, Bool, true, false, not, ◌&&◌, ◌||◌, Option, none, some, List, [], ◌∷◌,
  ◌++◌, append-nil, append_assoc, arith, ltb, leb, ◌==◌, if◌then◌else◌, ltb→lt, lt→ltb, le→not-ltb,
  leb→le, le→leb, lt→not-leb, ==_iff, Bool-cases, Option-cases, length, take, drop, replicate,
  length-append, length-take, length-drop, length-replicate, take-append-drop, take-append,
  drop-append, take-append_le, drop-append_le, take_all, take-take, drop-drop, drop-take, drop_all,
  take-splice, drop-splice, take-drop-splice, drop_behind-splice, size_mod, add_size, sub_size,
  resize, copy_out, splice, copy_in, length-resize, length-splice, copy_out-some, copy_in-some,
}

-- `std::isspace`
unfoldable pub is_space : ℕ → Bool
is_space c = c == b' ' || (leb 9 c && leb c 13)

-- The first loop of `Trim`: how many spaces `str` begins with.
unfoldable pub first_from : List ℕ → ℕ
first_from [] = 0
first_from (c ∷ str) = let rest = first_from str in if is_space c then suc rest else 0

unfoldable pub char_at : List ℕ → ℕ → ℕ
char_at [] i = 0
char_at (c ∷ str) zero = c
char_at (c ∷ str) (suc i) = char_at str i

-- The second loop of `Trim`: the place of the last byte before `end` that is no space. It would go
-- below the beginning of a text of spaces only, for which `Trim` has returned before.
unfoldable pub last_before : List ℕ → (end : ℕ) → ℕ
last_before str zero = 0
last_before str (suc last) =
    let before = last_before str last in if is_space (char_at str last) then before else last

unfoldable pub trim : List ℕ → List ℕ
trim s =
    let first = first_from s in
    let end = length s in
    let last = last_before s end in
    if first == end
    then []
    else if not (first == 0) || not (last + 1 == end)
    then take (last + 1 - first) (drop first s)
    else s

-- The loop of `TrimRightInPlace`: `pos + 1`, where `pos` may be -1.
unfoldable pub length_from : List ℕ → (size : ℕ) → ℕ
length_from str zero = 0
length_from str (suc pos) =
    let below = length_from str pos in if is_space (char_at str pos) then below else suc pos

unfoldable pub trim_right_in_place : List ℕ → List ℕ
trim_right_in_place str = take (length_from str (length str)) str
