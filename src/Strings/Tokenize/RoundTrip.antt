-- ===== src/Strings/Tokenize/RoundTrip.antt =====
-- `Tokenize` and putting the tokens together again.
use warhead_fix.Base.{
  ℕ, ◌≡◌, refl, sym, ap, ap₂, ◌∙◌, ◌≢◌, inl, inr, Bool, true, false, List, [], ◌∷◌, ◌++◌, arith,
  ◌==◌, Bool-cases,
}
use warhead_fix.Base.Texts.{All}
use warhead_fix.Strings.Tokenize.{tokenize}
use warhead_fix.Strings.Tokenize.Pieces.{put_head, pieces, kept, joined, tokenize-pieces}

-- A piece holds no separator.
unfoldable pub Lacks : ℕ → List ℕ → Type 0
Lacks sep = All (λ c. c ≢ sep)

Lacks-put_head :
    (sep c : ℕ) (ps : List (List ℕ))
    → c ≢ sep
    → All (Lacks sep) ps
    → All (Lacks sep) (put_head c ps)
unfolding put_head Lacks
Lacks-put_head sep c [] h all = ((h, tt), tt)
Lacks-put_head sep c (p ∷ ps) h all = ((h, all.0), all.1)

Lacks-pieces : (sep : ℕ) (str : List ℕ) → All (Lacks sep) (pieces sep str)
unfolding pieces Lacks
Lacks-pieces sep [] = (tt, tt)
Lacks-pieces sep (c ∷ str) = elim (Bool-cases (c == sep)) [
  | inl same ↦ rw same (tt, Lacks-pieces sep str)
  | inr other ↦
      rw other
        (Lacks-put_head sep c (pieces sep str) (ground (arith, other)) (Lacks-pieces sep str))
]

-- There is always a piece.
pieces-cons :
    (sep : ℕ) (str : List ℕ) → (p : List ℕ) × (ps : List (List ℕ)) × (pieces sep str ≡ p ∷ ps)
unfolding pieces put_head
pieces-cons sep [] = ([], [], refl)
pieces-cons sep (c ∷ str) =
    let (p, ps, e) = pieces-cons sep str in
    elim (Bool-cases (c == sep)) [
      | inl same ↦ ([], pieces sep str, rw same refl)
      | inr other ↦ (c ∷ p, ps, rw (other, e) refl)
    ]

joined-nil :
    (sep : ℕ) (p : List ℕ) (ps : List (List ℕ))
    → joined sep ([] ∷ p ∷ ps) ≡ sep ∷ joined sep (p ∷ ps)
unfolding joined
joined-nil sep p ps = refl

joined-cons :
    (sep c : ℕ) (p : List ℕ) (ps : List (List ℕ))
    → joined sep ((c ∷ p) ∷ ps) ≡ c ∷ joined sep (p ∷ ps)
unfolding joined
joined-cons sep c p [] = refl
joined-cons sep c p (next ∷ ps) = refl

joined-pieces : (sep : ℕ) (str : List ℕ) → joined sep (pieces sep str) ≡ str
unfolding joined pieces put_head
joined-pieces sep [] = refl
joined-pieces sep (c ∷ str) =
    let (p, ps, e) = pieces-cons sep str in
    let ih : joined sep (p ∷ ps) ≡ str = ap (joined sep) (sym e) ∙ joined-pieces sep str in
    elim (Bool-cases (c == sep)) [
      | inl same ↦
          let is_sep : sep ≡ c = ground (arith, same) in
          rw (same, e) (joined-nil sep p ps ∙ ap₂ (◌∷◌) is_sep ih)
      | inr other ↦ rw (other, e) (joined-cons sep c p ps ∙ ap (◌∷◌ c) ih)
    ]

pieces-append :
    (sep : ℕ) (piece str : List ℕ)
    → Lacks sep piece
    → pieces sep (piece ++ sep ∷ str) ≡ piece ∷ pieces sep str
unfolding pieces put_head Lacks
pieces-append sep [] str h = rw (==_refl sep) refl
  where
    ==_refl : (n : ℕ) → (n == n) ≡ true
    ==_refl n = ground arith
pieces-append sep (c ∷ piece) str h =
    let other : (c == sep) ≡ false = ground (arith, h.0) in
    rw (other, pieces-append sep piece str h.1) refl

pieces_last : (sep : ℕ) (piece : List ℕ) → Lacks sep piece → pieces sep piece ≡ piece ∷ []
unfolding pieces put_head Lacks
pieces_last sep [] h = refl
pieces_last sep (c ∷ piece) h =
    let other : (c == sep) ≡ false = ground (arith, h.0) in
    rw (other, pieces_last sep piece h.1) refl

pieces-joined :
    (sep : ℕ) (p : List ℕ) (ps : List (List ℕ))
    → All (Lacks sep) (p ∷ ps)
    → pieces sep (joined sep (p ∷ ps)) ≡ p ∷ ps
unfolding joined
pieces-joined sep p [] h = pieces_last sep p h.0
pieces-joined sep p (next ∷ ps) h =
    pieces-append sep p (joined sep (next ∷ ps)) h.0 ∙ ap (◌∷◌ p) (pieces-joined sep next ps h.1)

-- With the empty tokens kept, the tokens with a separator between each two are the text, and none of
-- them holds a separator.
pub joined-tokenize :
    (sep : ℕ) (str : List ℕ)
    → (joined sep (tokenize str sep true) ≡ str) × All (Lacks sep) (tokenize str sep true)
unfolding kept
joined-tokenize sep str =
    rw (tokenize-pieces str sep true) (joined-pieces sep str, Lacks-pieces sep str)

-- Tokenize of one or more pieces that hold no separator, written with a separator between each two,
-- returns the pieces, or those that are not empty unless empty ones are kept.
pub tokenize-joined :
    (sep : ℕ) (keep_empty : Bool) (p : List ℕ) (ps : List (List ℕ))
    → All (Lacks sep) (p ∷ ps)
    → tokenize (joined sep (p ∷ ps)) sep keep_empty ≡ kept keep_empty (p ∷ ps)
tokenize-joined sep keep_empty p ps h =
    tokenize-pieces (joined sep (p ∷ ps)) sep keep_empty
    ∙ ap (kept keep_empty) (pieces-joined sep p ps h)
