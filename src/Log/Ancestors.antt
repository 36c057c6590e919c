-- ===== src/Log/Ancestors.antt =====
-- `GetLoggerByType`: it returns, and what it returns.
use warhead_fix.Base.{
  ℕ, zero, suc, ◌+◌, ◌≤◌, ◌<◌, ◌≡◌, refl, sym, ap, subst, ◌∙◌, inl, inr, true, false, Option, none,
  some, List, [], ◌∷◌, ◌++◌, arith, ◌==◌, if◌then◌else◌, Bool-cases, Option-cases, length, take,
  length-take,
}
use mathlib.Core.List.{map}
use warhead_fix.Base.Bytes.{same_bytes, same_bytes→eq}
use warhead_fix.Log.{Logger, logger_root, find_last_dot, parent_logger, get_logger_by_type}

-- What stands before each dot of a name, the longest first.
unfoldable pub before_dots : List ℕ → List (List ℕ)
before_dots [] = []
before_dots (c ∷ name) =
    let rest = before_dots name in map (◌∷◌ c) rest ++ (if c == b'.' then [] ∷ [] else [])

-- The first of some names that has a logger.
unfoldable pub first_logger : (List ℕ → Option Logger) → List (List ℕ) → Option Logger
first_logger get [] = none
first_logger get (name ∷ names) =
    let rest = first_logger get names in elim (get name) [ some logger ↦ some logger | none ↦ rest ]

-- The logger for a type: its own, that of the nearest type above it, or the root's.
unfoldable pub nearest_logger : (List ℕ → Option Logger) → List ℕ → Option Logger
nearest_logger get name = first_logger get (name ∷ (before_dots name ++ logger_root ∷ []))

no_dot : (name : List ℕ) → find_last_dot name ≡ none → before_dots name ≡ []
unfolding find_last_dot before_dots
no_dot [] e = refl
no_dot (c ∷ name) e = elim (Option-cases (find_last_dot name)) [
  | inl none_behind ↦ elim (Bool-cases (c == b'.')) [
    | inl dot ↦ let found = rw (none_behind, dot) at e in absurd (ground (arith, found))
    | inr other ↦ rw (no_dot name none_behind, other) refl
  ]
  | inr found ↦ let (i, e') = found in let there = rw e' at e in absurd (ground (arith, there))
]

last_dot :
    (name : List ℕ) (i : ℕ)
    → find_last_dot name ≡ some i
    → (i < length name) × (before_dots name ≡ take i name ∷ before_dots (take i name))
unfolding find_last_dot before_dots
last_dot [] i e = absurd (ground (arith, e))
last_dot (c ∷ name) i e = elim (Option-cases (find_last_dot name)) [
  | inl none_behind ↦ elim (Bool-cases (c == b'.')) [
    | inl dot ↦
        let found : some 0 ≡ some i = rw (none_behind, dot) at e in
        let here : 0 ≡ i = cc in
        subst Cut here (omega arith, rw (no_dot name none_behind, dot) refl)
    | inr other ↦ let nowhere = rw (none_behind, other) at e in absurd (ground (arith, nowhere))
  ]
  | inr found ↦
      let (j, e') = found in
      let (low, ih) = last_dot name j e' in
      let there : some (suc j) ≡ some i = rw e' at e in
      let at : suc j ≡ i = cc in subst Cut at (omega (arith, low), rw ih refl)
]
  where
    Cut : ℕ → Type 0
    Cut i =
        (i < length (c ∷ name))
        × (before_dots (c ∷ name) ≡ take i (c ∷ name) ∷ before_dots (take i (c ∷ name)))

get_logger_by_type-root :
    (fuel : ℕ) (get : List ℕ → Option Logger)
    → get_logger_by_type (suc fuel) get logger_root ≡ some (get logger_root)
unfolding get_logger_by_type same_bytes
get_logger_by_type-root fuel get = elim (Option-cases (get logger_root)) [
  | inl e ↦ rw (get_logger_by_type, e) refl
  | inr found ↦ let (l, e) = found in rw (get_logger_by_type, e) refl
]

first_logger-one :
    (get : List ℕ → Option Logger) (name : List ℕ) → get name ≡ first_logger get (name ∷ [])
unfolding first_logger
first_logger-one get name = elim (Option-cases (get name)) [
  | inl e ↦ rw (first_logger, e) refl
  | inr found ↦ let (l, e) = found in rw (first_logger, e) refl
]

nearest_logger-root :
    (get : List ℕ → Option Logger) → get logger_root ≡ none → nearest_logger get logger_root ≡ none
unfolding nearest_logger first_logger before_dots
nearest_logger-root get e = rw (first_logger, e) (sym (first_logger-one get logger_root) ∙ e)

-- A type that has no logger goes to the one above it.
module _ (get : List ℕ → Option Logger) (name : List ℕ) (e : get name ≡ none) where
  get_logger_by_type-above :
      (fuel : ℕ) (above : List ℕ)
      → same_bytes name logger_root ≡ false
      → parent_logger name ≡ above
      → get_logger_by_type (suc fuel) get name ≡ get_logger_by_type fuel get above
  unfolding get_logger_by_type
  get_logger_by_type-above fuel above below parent =
      step fuel below ∙ ap (get_logger_by_type fuel get) parent
    where
      step :
          (fuel : ℕ)
          → same_bytes name logger_root ≡ false
          → get_logger_by_type (suc fuel) get name
            ≡ get_logger_by_type fuel get (parent_logger name)
      step fuel below = rw (get_logger_by_type, e, below) refl

  nearest_logger-above :
      (names : List (List ℕ))
      → before_dots name ++ logger_root ∷ [] ≡ names
      → first_logger get names ≡ nearest_logger get name
  unfolding nearest_logger first_logger
  nearest_logger-above names cut = ap (first_logger get) (sym cut) ∙ sym (rw (first_logger, e) refl)

own_logger :
    (fuel : ℕ) (get : List ℕ → Option Logger) (name : List ℕ) (l : Logger)
    → get name ≡ some l
    → get_logger_by_type (suc (suc fuel)) get name ≡ some (nearest_logger get name)
unfolding get_logger_by_type nearest_logger first_logger
own_logger fuel get name l e = rw (get_logger_by_type, nearest_logger, first_logger, e) refl

at_root :
    (fuel : ℕ) (get : List ℕ → Option Logger) (name : List ℕ)
    → get name ≡ none
    → same_bytes name logger_root ≡ true
    → get_logger_by_type (suc (suc fuel)) get name ≡ some (nearest_logger get name)
unfolding get_logger_by_type
at_root fuel get name e is_root =
    let root : name ≡ logger_root = same_bytes→eq name logger_root is_root in
    rw (get_logger_by_type, e, is_root)
      (ap some
        (sym (ap (nearest_logger get) root ∙ nearest_logger-root get (ap get (sym root) ∙ e))))

-- GetLoggerByType returns within two calls more than its type has bytes, with the logger of the
-- type itself, or else of the longest part before one of its dots that has one, or else the root
-- logger, if there is one.
pub get_logger_by_type_lem :
    (fuel : ℕ) (get : List ℕ → Option Logger) (name : List ℕ)
    → length name + 2 ≤ fuel
    → get_logger_by_type fuel get name ≡ some (nearest_logger get name)
unfolding parent_logger nearest_logger first_logger
get_logger_by_type_lem zero get name enough = absurd (omega (arith, enough))
get_logger_by_type_lem (suc zero) get name enough = absurd (omega (arith, enough))
get_logger_by_type_lem (suc (suc fuel)) get name enough = elim (Option-cases (get name)) [
  | inr found ↦ let (l, e) = found in own_logger fuel get name l e
  | inl e ↦ elim (Bool-cases (same_bytes name logger_root)) [
    | inl is_root ↦ at_root fuel get name e is_root
    | inr below ↦ elim (Option-cases (find_last_dot name)) [
      | inl plain ↦
          get_logger_by_type-above get name e (suc fuel) logger_root below
            (rw (parent_logger, plain) refl)
          ∙ get_logger_by_type-root fuel get
          ∙ ap some (
              first_logger-one get logger_root
              ∙ nearest_logger-above get name e (logger_root ∷ []) (rw (no_dot name plain) refl))
      | inr found ↦
          let (i, dot) = found in
          let (low, above) = last_dot name i dot in
          let size : length (take i name) ≡ i = omega (arith, length-take i name, low) in
          get_logger_by_type-above get name e (suc fuel) (take i name) below
            (rw (parent_logger, dot) refl)
          ∙ get_logger_by_type_lem (suc fuel) get (take i name) (omega (arith, size, low, enough))
          ∙ ap some (
              nearest_logger-above get name e
                (take i name ∷ (before_dots (take i name) ++ logger_root ∷ [])) (rw above refl))
    ]
  ]
]
