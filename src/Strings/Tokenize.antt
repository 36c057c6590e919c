-- ===== src/Strings/Tokenize.antt =====
-- common/Utilities/Tokenize.cpp. A view of the text is its bytes; `find` is `std::string_view::find`.
pub mod Pieces
pub mod RoundTrip
mod Tests
use warhead_fix.Base.{
  ℕ, zero, suc, ◌+◌, ◌-◌, ◌*◌, ◌/◌, ◌%◌, ◌^◌, ◌≤◌, ◌<◌, min, ◌≡◌, refl, sym, ap, ap₂, subst, ◌∙◌,
  ◌≢◌, ◌↔◌, ◌⊎◌, inl, inr, Bool, true, false, not, ◌&&◌, ◌||◌, Option, none, some, List, [], ◌∷◌,
  ◌++◌, append-nil, append_assoc, arith, ltb, leb, ◌==◌, if◌then◌else◌, ltb→lt, lt→ltb, le→not-ltb,
  leb→le, le→leb, lt→not-leb, ==_iff, Bool-cases, Option-cases, length, take, drop, replicate,
  length-append, length-take, length-drop, length-replicate, take-append-drop, take-append,
  drop-append, take-append_le, drop-append_le, take_all, take-take, drop-drop, drop-take, drop_all,
  take-splice, drop-splice, take-drop-splice, drop_behind-splice, size_mod, add_size, sub_size,
  resize, copy_out, splice, copy_in, length-resize, length-splice, copy_out-some, copy_in-some,
}

-- A place, counted from `start` before and from the beginning of the text after.
unfoldable pub shifted : ℕ → Option ℕ → Option ℕ
shifted start none = none
shifted start (some i) = some (start + i)

unfoldable pub find_first : ℕ → List ℕ → Option ℕ
find_first sep [] = none
find_first sep (c ∷ str) =
    let rest = find_first sep str in if c == sep then some 0 else shifted 1 rest

-- The first place from `start` on at which `sep` stands; `none` is `npos`.
unfoldable pub find : ℕ → List ℕ → ℕ → Option ℕ
unfolding find_first shifted
find sep str start = shifted start (find_first sep (drop start str))

unfoldable pub substr : List ℕ → ℕ → ℕ → List ℕ
substr str start count = take count (drop start str)

-- The loop of `Tokenize`, from `start`; every round goes past one separator.
unfoldable pub tokens_from : (fuel : ℕ) → List ℕ → ℕ → Bool → ℕ → List (List ℕ)
tokens_from zero str sep keep_empty start = []
tokens_from (suc fuel) str sep keep_empty start = elim (find sep str start) [
  | some end ↦
      let rest = tokens_from fuel str sep keep_empty (end + 1) in
      if keep_empty || ltb start end then substr str start (end - start) ∷ rest else rest
  | none ↦ if keep_empty || ltb start (length str) then drop start str ∷ [] else []
]

unfoldable pub tokenize : List ℕ → (sep : ℕ) → (keep_empty : Bool) → List (List ℕ)
tokenize str sep keep_empty = tokens_from (suc (length str)) str sep keep_empty 0
