-- ===== src/Config/Dictionary.antt =====
-- The options: an unordered map from names to values, as a list in some order.
use warhead_fix.Base.{
  ℕ, ◌≡◌, refl, ap, ◌∙◌, inl, inr, false, Option, none, some, List, [], ◌∷◌, if◌then◌else◌,
  Bool-cases,
}
use warhead_fix.Base.Bytes.{same_bytes, same_bytes→eq}

abbrev pub Options : Type 0
Options = List (List ℕ × List ℕ)

unfoldable pub lookup : List ℕ → Options → Option (List ℕ)
lookup name [] = none
lookup name ((key, value) ∷ options) =
    let rest = lookup name options in if same_bytes key name then some value else rest

unfoldable pub erase : List ℕ → Options → Options
erase name [] = []
erase name ((key, value) ∷ options) =
    let rest = erase name options in if same_bytes key name then rest else (key, value) ∷ rest

-- `emplace` of a name that is not there.
unfoldable pub emplace : List ℕ → List ℕ → Options → Options
emplace name value options = (name, value) ∷ options

pub lookup-emplace :
    (name value key : List ℕ) (options : Options)
    → lookup key (emplace name value options)
      ≡ (if same_bytes name key then some value else lookup key options)
unfolding lookup emplace
lookup-emplace name value key options = refl

pub lookup-erase :
    (name key : List ℕ) (options : Options)
    → same_bytes name key ≡ false
    → lookup key (erase name options) ≡ lookup key options
unfolding lookup erase
lookup-erase name key [] other = refl
lookup-erase name key ((k, value) ∷ options) other = elim (Bool-cases (same_bytes k name)) [
  | inl same ↦
      let is_name : k ≡ name = same_bytes→eq k name same in
      let away : same_bytes k key ≡ false = ap (λ n. same_bytes n key) is_name ∙ other in
      rw (same, away) (lookup-erase name key options other)
  | inr keep ↦ rw (keep, lookup-erase name key options other) refl
]
