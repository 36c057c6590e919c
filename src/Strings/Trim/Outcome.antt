-- ===== src/Strings/Trim/Outcome.antt =====
-- What trimming leaves, and what it takes away.
use warhead_fix.Base.{
  ℕ, zero, suc, ◌+◌, ◌-◌, ◌≤◌, ◌<◌, ◌≡◌, refl, sym, ap, subst, ◌∙◌, ◌≢◌, ◌⊎◌, inl, inr, true, false,
  not, ◌||◌, List, [], ◌∷◌, ◌++◌, append-nil, arith, ◌==◌, Bool-cases, length, take, drop,
  length-take, length-drop, take-append-drop, take_all, drop-drop,
}
use warhead_fix.Base.Texts.{All}
use warhead_fix.Strings.Trim.{is_space, first_from, char_at, last_before, trim}

pub Space : ℕ → Type 0
Space c = is_space c ≡ true

-- What is left begins and ends with no space, if it is anything.
unfoldable pub IsTrimmed : List ℕ → Type 0
IsTrimmed s =
    (s ≡ []) ⊎ ((is_space (char_at s 0) ≡ false) × (is_space (char_at s (length s - 1)) ≡ false))

first_from-lem :
    (s : List ℕ)
    → (first_from s ≤ length s)
      × All Space (take (first_from s) s)
      × ((first_from s ≡ length s) ⊎ (is_space (char_at s (first_from s)) ≡ false))
unfolding first_from char_at Space
first_from-lem [] = (omega arith, tt, inl refl)
first_from-lem (c ∷ s) =
    let (low, spaces, stop) = first_from-lem s in
    elim (Bool-cases (is_space c)) [
      | inl space ↦ rw space (omega (arith, low), (space, spaces), next stop)
      | inr other ↦ rw other (omega arith, tt, inr other)
    ]
  where
    next :
        (first_from s ≡ length s) ⊎ (is_space (char_at s (first_from s)) ≡ false)
        → (suc (first_from s) ≡ suc (length s)) ⊎ (is_space (char_at s (first_from s)) ≡ false)
    next (inl all) = inl (ap suc all)
    next (inr stop) = inr stop

-- Below `n`, the loop stops at a byte that is no space, if there is one at all.
last_before-lem :
    (s : List ℕ) (i n : ℕ)
    → i < n
    → is_space (char_at s i) ≡ false
    → (i ≤ last_before s n)
      × (last_before s n < n)
      × (is_space (char_at s (last_before s n)) ≡ false)
      × ((j : ℕ) → last_before s n < j → j < n → is_space (char_at s j) ≡ true)
unfolding last_before
last_before-lem s i zero low e = absurd (omega (arith, low))
last_before-lem s i (suc n) low e = elim (Bool-cases (is_space (char_at s n))) [
  | inl space ↦
      let here : i ≢ n =
        λ at. absurd (ground (arith, ap (λ k. is_space (char_at s k)) at, e, space)) in
      let (above, below, stop, spaces) = last_before-lem s i n (ground (arith, here, low)) e in
      rw space (above, omega (arith, below), stop, λ j more less. step spaces space j more less)
  | inr other ↦
      rw other
        (omega (arith, low), omega arith, other, λ j more less. absurd (omega (arith, more, less)))
]
  where
    step :
        ((j : ℕ) → last_before s n < j → j < n → is_space (char_at s j) ≡ true)
        → is_space (char_at s n) ≡ true
        → (j : ℕ) → last_before s n < j
        → j < suc n
        → is_space (char_at s j) ≡ true
    step spaces space j more less = elim (Bool-cases (j == n)) [
      | inl at ↦ let at' : j ≡ n = ground (arith, at) in rw at' space
      | inr away ↦ spaces j more (ground (arith, away, less))
    ]

pub All-drop :
    (s : List ℕ) (k : ℕ)
    → ((j : ℕ) → k ≤ j → j < length s → is_space (char_at s j) ≡ true)
    → All Space (drop k s)
unfolding char_at Space
All-drop [] zero h = tt
All-drop [] (suc k) h = tt
All-drop (c ∷ s) zero h = (
  h 0 (omega arith) (omega arith),
  All-drop s zero (λ j low high. h (suc j) (omega arith) (omega (arith, high))),
)
All-drop (c ∷ s) (suc k) h =
    All-drop s k (λ j low high. h (suc j) (omega (arith, low)) (omega (arith, high)))

char_at-drop : (s : List ℕ) (m k j : ℕ) → j ≡ m + k → char_at (drop m s) k ≡ char_at s j
unfolding char_at
char_at-drop s zero k j e = ap (char_at s) (omega (arith, e))
char_at-drop [] (suc m) k j e = refl
char_at-drop (c ∷ s) (suc m) k zero e = absurd (omega (arith, e))
char_at-drop (c ∷ s) (suc m) k (suc j) e = char_at-drop s m k j (omega (arith, e))

pub char_at-take : (s : List ℕ) (n k : ℕ) → k < n → char_at (take n s) k ≡ char_at s k
unfolding char_at
char_at-take s zero k h = absurd (omega (arith, h))
char_at-take [] (suc n) k h = refl
char_at-take (c ∷ s) (suc n) zero h = refl
char_at-take (c ∷ s) (suc n) (suc k) h = char_at-take s n k (omega (arith, h))

-- The bytes of `s` from `first` to `last`.
cut : List ℕ → ℕ → ℕ → List ℕ
cut s first last = take (last + 1 - first) (drop first s)

trim-cut :
    (s : List ℕ)
    → first_from s < length s
    → trim s ≡ cut s (first_from s) (last_before s (length s))
unfolding trim cut
trim-cut s h =
    let some_left : (first_from s == length s) ≡ false = ground (arith, h) in
    elim (Bool-cases (not (first_from s == 0) || not (last_before s (length s) + 1 == length s))) [
      | inl shorter ↦ rw (some_left, shorter) refl
      | inr whole ↦
          let at_start : first_from s ≡ 0 = ground (arith, whole) in
          let at_end : last_before s (length s) + 1 ≡ length s = ground (arith, whole) in
          rw (some_left, whole)
            (sym (rw (at_start, at_end) (take_all s (length s - 0) (omega arith))))
    ]

cut-IsTrimmed :
    (s : List ℕ) (first last : ℕ)
    → first ≤ last
    → last < length s
    → is_space (char_at s first) ≡ false
    → is_space (char_at s last) ≡ false
    → IsTrimmed (cut s first last)
unfolding IsTrimmed cut
cut-IsTrimmed s first last order inside no_first no_last =
    let size : length (cut s first last) ≡ last + 1 - first =
      omega (arith, length-take (last + 1 - first) (drop first s), length-drop first s) in
    let at_first : char_at (cut s first last) 0 ≡ char_at s first =
      char_at-take (drop first s) (last + 1 - first) 0 (omega arith)
      ∙ char_at-drop s first 0 first (omega arith) in
    let at_last : char_at (cut s first last) (length (cut s first last) - 1) ≡ char_at s last =
      ap (λ n. char_at (cut s first last) (n - 1)) size
      ∙ char_at-take (drop first s) (last + 1 - first) (last + 1 - first - 1) (omega arith)
      ∙ char_at-drop s first (last + 1 - first - 1) last (omega arith) in
    inr (ap is_space at_first ∙ no_first, ap is_space at_last ∙ no_last)

-- What `t` is if it is `s` without the spaces at its two ends.
pub record IsTrimOf (s t : List ℕ) : Type 0 where
  pub left : List ℕ
  pub right : List ℕ
  pub splits : s ≡ left ++ (t ++ right)
  pub left_spaces : All Space left
  pub right_spaces : All Space right
  pub trimmed : IsTrimmed t

spaces_only : (s : List ℕ) → All Space s → IsTrimOf s []
unfolding IsTrimmed
spaces_only s spaces = record {
  left = s;
  right = [];
  splits = sym (append-nil s);
  left_spaces = spaces;
  right_spaces = tt;
  trimmed = inl refl;
}

cut-IsTrimOf :
    (s : List ℕ)
    → first_from s < length s
    → All Space (take (first_from s) s)
    → is_space (char_at s (first_from s)) ≡ false
    → IsTrimOf s (cut s (first_from s) (last_before s (length s)))
unfolding cut
cut-IsTrimOf s inside spaces no_first =
    let first = first_from s in
    let last = last_before s (length s) in
    let (order, low, no_last, behind) = last_before-lem s first (length s) inside no_first in
    record {
      left = take first s;
      right = drop (suc last) s;
      splits =
          sym (take-append-drop first s)
          ∙ ap (◌++◌ (take first s)) (
              sym (take-append-drop (last + 1 - first) (drop first s))
              ∙ ap (◌++◌ (take (last + 1 - first) (drop first s)))
                  (drop-drop s (last + 1 - first) first (suc last) (omega (arith, order))));
      left_spaces = spaces;
      right_spaces = All-drop s (suc last) (λ j above below. behind j (omega (arith, above)) below);
      trimmed = cut-IsTrimmed s first last order low no_first no_last;
    }

-- A text is what Trim returns of it between two runs of spaces, and that is empty or begins and
-- ends with no space.
pub trim_lem : (s : List ℕ) → IsTrimOf s (trim s)
unfolding trim
trim_lem s =
    let (low, spaces, stop) = first_from-lem s in
    elim (Bool-cases (first_from s == length s)) [
      | inl all ↦ rw all (
          spaces_only s
            (subst (All Space) (take_all s (first_from s) (ground (arith, all))) spaces))
      | inr fewer ↦
          let inside : first_from s < length s = ground (arith, low, fewer) in
          rw (trim-cut s inside) (cut-IsTrimOf s inside spaces (stops fewer stop))
    ]
  where
    stops :
        (first_from s == length s) ≡ false
        → (first_from s ≡ length s) ⊎ (is_space (char_at s (first_from s)) ≡ false)
        → is_space (char_at s (first_from s)) ≡ false
    stops fewer (inl all) = absurd (ground (arith, fewer, all))
    stops fewer (inr stop) = stop
