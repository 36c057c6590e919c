-- ===== src/Strings/Tokenize/Pieces.antt =====
-- `Tokenize` and the pieces between the separators.
use warhead_fix.Base.{
  ℕ, zero, suc, ◌+◌, ◌-◌, ◌≤◌, ◌<◌, ◌≡◌, refl, ap, subst, inl, inr, Bool, true, false, not, ◌||◌,
  none, some, List, [], ◌∷◌, ◌++◌, arith, ltb, ◌==◌, if◌then◌else◌, Bool-cases, Option-cases,
  length, take, drop, length-take, length-drop, drop-drop,
}
use warhead_fix.Strings.Tokenize.{shifted, find_first, find, substr, tokens_from, tokenize}

unfoldable pub put_head : ℕ → List (List ℕ) → List (List ℕ)
put_head c [] = (c ∷ []) ∷ []
put_head c (piece ∷ pieces) = (c ∷ piece) ∷ pieces

-- The pieces between the separators, of which there is always one.
unfoldable pub pieces : ℕ → List ℕ → List (List ℕ)
unfolding put_head
pieces sep [] = [] ∷ []
pieces sep (c ∷ str) = let rest = pieces sep str in if c == sep then [] ∷ rest else put_head c rest

unfoldable pub kept : Bool → List (List ℕ) → List (List ℕ)
kept true ps = ps
kept false [] = []
kept false (piece ∷ ps) =
    let rest = kept false ps in if length piece == 0 then rest else piece ∷ rest

-- The pieces with a separator between each two.
unfoldable pub joined : ℕ → List (List ℕ) → List ℕ
joined sep [] = []
joined sep (piece ∷ []) = piece
joined sep (piece ∷ next ∷ ps) = piece ++ sep ∷ joined sep (next ∷ ps)

find_first-none : (sep : ℕ) (str : List ℕ) → find_first sep str ≡ none → pieces sep str ≡ str ∷ []
unfolding find_first shifted pieces put_head
find_first-none sep [] e = refl
find_first-none sep (c ∷ str) e = elim (Bool-cases (c == sep)) [
  | inl same ↦ absurd (ground (arith, e, same))
  | inr other ↦ elim (Option-cases (find_first sep str)) [
    | inl e' ↦ rw (other, find_first-none sep str e') refl
    | inr found ↦ let (i, e') = found in absurd (ground (arith, e, other, e'))
  ]
]

find_first-some :
    (sep : ℕ) (str : List ℕ) (i : ℕ)
    → find_first sep str ≡ some i
    → (i < length str) × (pieces sep str ≡ take i str ∷ pieces sep (drop (suc i) str))
unfolding find_first shifted pieces put_head
find_first-some sep [] i e = cc
find_first-some sep (c ∷ str) i e = elim (Bool-cases (c == sep)) [
  | inl same ↦
      let here : some 0 ≡ some i = rw same at e in
      let zero_i : 0 ≡ i = cc in
      subst
        (λ i.
          (i < length (c ∷ str))
          × (pieces sep (c ∷ str) ≡ take i (c ∷ str) ∷ pieces sep (drop i str)))
        zero_i (ground arith, rw same refl)
  | inr other ↦ elim (Option-cases (find_first sep str)) [
    | inl e' ↦ absurd (ground (arith, e, other, e'))
    | inr found ↦
        let (j, e') = found in
        let (low, ih) = find_first-some sep str j e' in
        let there : some (1 + j) ≡ some i = rw (other, e') at e in
        let suc_j : suc j ≡ i = ground (arith, there) in
        subst
          (λ i.
            (i < length (c ∷ str))
            × (pieces sep (c ∷ str) ≡ take i (c ∷ str) ∷ pieces sep (drop i str)))
          suc_j (ground arith, rw (other, ih) refl)
  ]
]

kept-cons :
    (keep_empty long : Bool) (piece : List ℕ) (rest ps : List (List ℕ))
    → long ≡ not (length piece == 0)
    → rest ≡ kept keep_empty ps
    → (if keep_empty || long then piece ∷ rest else rest) ≡ kept keep_empty (piece ∷ ps)
unfolding kept
kept-cons true long piece rest ps test e = ap (◌∷◌ piece) e
kept-cons false long piece rest ps test e = elim (Bool-cases (length piece == 0)) [
  | inl short ↦ rw (test, short) e
  | inr not_short ↦ rw (test, not_short) (ap (◌∷◌ piece) e)
]

kept-nil : (keep_empty : Bool) → [] ≡ kept keep_empty []
unfolding kept
kept-nil true = refl
kept-nil false = refl

tokens_from_lem :
    (fuel : ℕ) (str : List ℕ) (sep : ℕ) (keep_empty : Bool) (start : ℕ)
    → start ≤ length str
    → length str - start < fuel
    → tokens_from fuel str sep keep_empty start ≡ kept keep_empty (pieces sep (drop start str))
unfolding tokens_from find substr find_first shifted
tokens_from_lem zero str sep keep_empty start inside enough = absurd (omega (arith, enough))
tokens_from_lem (suc fuel) str sep keep_empty start inside enough =
    elim (Option-cases (find_first sep (drop start str))) [
      | inl e ↦
          rw (tokens_from, find, e, find_first-none sep (drop start str) e)
            (kept-cons keep_empty _ (drop start str) [] [] (ground (arith, length-drop start str))
              (kept-nil keep_empty))
      | inr found ↦
          let (i, e) = found in
          let (low, cut) = find_first-some sep (drop start str) i e in
          let length_rest : length (drop start str) ≡ length str - start = length-drop start str in
          let length_piece : length (take i (drop start str)) ≡ i =
            omega (arith, length-take i (drop start str), low) in
          let behind : drop (suc i) (drop start str) ≡ drop (start + i + 1) str =
            drop-drop str (suc i) start (start + i + 1) (omega arith) in
          let count : start + i - start ≡ i = omega arith in
          rw (tokens_from, find, substr, e, cut, count, behind)
            (kept-cons keep_empty (ltb start (start + i)) (take i (drop start str))
              (tokens_from fuel str sep keep_empty (start + i + 1))
              (pieces sep (drop (start + i + 1) str)) (ground (arith, length_piece))
              (tokens_from_lem fuel str sep keep_empty (start + i + 1)
                (omega (arith, low, length_rest)) (omega (arith, low, length_rest))))
    ]

-- `Tokenize` returns the pieces, or those that are not empty.
pub tokenize-pieces :
    (str : List ℕ) (sep : ℕ) (keep_empty : Bool)
    → tokenize str sep keep_empty ≡ kept keep_empty (pieces sep str)
unfolding tokenize
tokenize-pieces str sep keep_empty =
    tokens_from_lem (suc (length str)) str sep keep_empty 0 (omega arith) (omega arith)
