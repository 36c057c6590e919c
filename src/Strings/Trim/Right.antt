-- ===== src/Strings/Trim/Right.antt =====
-- What `TrimRightInPlace` leaves, and what it takes away.
use warhead_fix.Base.{
  ℕ, zero, suc, ◌-◌, ◌≤◌, ◌<◌, ◌≡◌, refl, sym, ap, ◌∙◌, ◌⊎◌, inl, inr, true, false, List, [], ◌++◌,
  arith, ◌==◌, Bool-cases, length, take, drop, length-take, take-append-drop,
}
use warhead_fix.Base.Texts.{All}
use warhead_fix.Strings.Trim.{is_space, char_at, length_from, trim_right_in_place}
use warhead_fix.Strings.Trim.Outcome.{Space, All-drop, char_at-take}

length_from-lem :
    (s : List ℕ) (n : ℕ)
    → (length_from s n ≤ n)
      × ((length_from s n ≡ 0) ⊎ (is_space (char_at s (length_from s n - 1)) ≡ false))
      × ((j : ℕ) → length_from s n ≤ j → j < n → is_space (char_at s j) ≡ true)
unfolding length_from
length_from-lem s zero = (omega arith, inl refl, λ j low high. absurd (omega (arith, high)))
length_from-lem s (suc n) = elim (Bool-cases (is_space (char_at s n))) [
  | inl space ↦
      let (low, stop, spaces) = length_from-lem s n in
      rw space (omega (arith, low), stop, λ j more less. step spaces space j more less)
  | inr other ↦
      let at_n : is_space (char_at s (suc n - 1)) ≡ is_space (char_at s n) =
        ap (λ k. is_space (char_at s k)) (omega arith) in
      rw other (omega arith, inr (at_n ∙ other), λ j more less. absurd (omega (arith, more, less)))
]
  where
    step :
        ((j : ℕ) → length_from s n ≤ j → j < n → is_space (char_at s j) ≡ true)
        → is_space (char_at s n) ≡ true
        → (j : ℕ) → length_from s n ≤ j
        → j < suc n
        → is_space (char_at s j) ≡ true
    step spaces space j more less = elim (Bool-cases (j == n)) [
      | inl at ↦ let at' : j ≡ n = ground (arith, at) in rw at' space
      | inr away ↦ spaces j more (ground (arith, away, less))
    ]

-- `TrimRightInPlace` takes spaces only, and leaves nothing or a text that ends with no space.
pub trim_right_in_place_lem :
    (str : List ℕ)
    → let kept : List ℕ = trim_right_in_place str in
      (str ≡ kept ++ drop (length kept) str)
      × All Space (drop (length kept) str)
      × ((kept ≡ []) ⊎ (is_space (char_at kept (length kept - 1)) ≡ false))
unfolding trim_right_in_place
trim_right_in_place_lem str =
    let n = length_from str (length str) in
    let (low, stop, spaces) = length_from-lem str (length str) in
    let size : length (take n str) ≡ n = omega (arith, length-take n str, low) in
    rw size (sym (take-append-drop n str), All-drop str n spaces, ends low stop)
  where
    ends :
        length_from str (length str) ≤ length str
        → (length_from str (length str) ≡ 0)
          ⊎ (is_space (char_at str (length_from str (length str) - 1)) ≡ false)
        → (take (length_from str (length str)) str ≡ [])
          ⊎ (is_space (
                char_at
                  (take (length_from str (length str)) str)
                  (length_from str (length str) - 1))
              ≡ false)
    ends low (inl nothing) = inl (rw nothing refl)
    ends low (inr stop) = elim (Bool-cases (length_from str (length str) == 0)) [
      | inl nothing ↦
          let no_length : length_from str (length str) ≡ 0 = ground (arith, nothing) in
          inl (rw no_length refl)
      | inr more ↦ inr (
          ap is_space (
            char_at-take str (length_from str (length str)) (length_from str (length str) - 1)
              (ground (arith, more)))
          ∙ stop)
    ]
