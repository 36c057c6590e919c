-- ===== src/Strings/Compare.antt =====
-- common/Utilities/Util.cpp: `StringEqualI`. Letters are those of the locale "C".
use warhead_fix.Base.{
  ℕ, ◌+◌, ◌≡◌, refl, ap₂, ◌↔◌, Bool, true, false, ◌&&◌, List, [], ◌∷◌, arith, leb, ◌==◌,
  if◌then◌else◌,
}
use mathlib.Core.List.{map}

-- `std::tolower`
unfoldable pub to_lower : ℕ → ℕ
to_lower c = if leb b'A' c && leb c b'Z' then c + 32 else c

unfoldable pub string_equal_i : List ℕ → List ℕ → Bool
string_equal_i [] [] = true
string_equal_i [] (d ∷ b) = false
string_equal_i (c ∷ a) [] = false
string_equal_i (c ∷ a) (d ∷ b) = to_lower c == to_lower d && string_equal_i a b

-- Two texts are equal for `StringEqualI` exactly if they are in lower case.
pub string_equal_i-map :
    (a b : List ℕ) → (string_equal_i a b ≡ true) ↔ (map to_lower a ≡ map to_lower b)
unfolding string_equal_i
string_equal_i-map [] [] = (λ _. refl, λ _. refl)
string_equal_i-map [] (d ∷ b) = (λ e. absurd (ground (arith, e)), λ e. absurd (ground (arith, e)))
string_equal_i-map (c ∷ a) [] = (λ e. absurd (ground (arith, e)), λ e. absurd (ground (arith, e)))
string_equal_i-map (c ∷ a) (d ∷ b) =
    let (to, from) = string_equal_i-map a b in
    (
      λ e. ap₂ (◌∷◌) {x = to_lower c} {y = to_lower d} (ground (arith, e)) (to (ground (arith, e))),
      λ e.
          let heads : to_lower c ≡ to_lower d = cc in
          let tails : map to_lower a ≡ map to_lower b = cc in
          let rest : string_equal_i a b ≡ true = from tails in ground (arith, heads, rest),
    )
