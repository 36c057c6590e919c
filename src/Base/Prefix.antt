-- ===== src/Base/Prefix.antt =====
-- Prefixes and suffixes of a list: how `take` and `drop` meet `++` and each other.
use Prim.Native.Nat.{ℕ, zero, suc, ◌+◌, ◌≤◌}
use mathlib.Core.Path.{◌≡◌, refl, ap}
use mathlib.Core.List.{List, [], ◌∷◌, ◌++◌}
use native.Mathlib.Omega.{arith}
use warhead_fix.Base.Lists.{length, take, drop}

module _ {ℓ} {A : Type ℓ} where
  pub take-append-drop : (n : ℕ) (xs : List A) → take n xs ++ drop n xs ≡ xs
  take-append-drop zero xs = refl
  take-append-drop (suc n) [] = refl
  take-append-drop (suc n) (x ∷ xs) = ap (◌∷◌ x) (take-append-drop n xs)

  pub take-append : (xs ys : List A) (n : ℕ) → n ≡ length xs → take n (xs ++ ys) ≡ xs
  take-append [] ys zero e = refl
  take-append [] ys (suc n) e = absurd (omega arith)
  take-append (x ∷ xs) ys zero e = absurd (omega arith)
  take-append (x ∷ xs) ys (suc n) e = ap (◌∷◌ x) (take-append xs ys n (omega arith))

  pub drop-append : (xs ys : List A) (n : ℕ) → n ≡ length xs → drop n (xs ++ ys) ≡ ys
  drop-append [] ys zero e = refl
  drop-append [] ys (suc n) e = absurd (omega arith)
  drop-append (x ∷ xs) ys zero e = absurd (omega arith)
  drop-append (x ∷ xs) ys (suc n) e = drop-append xs ys n (omega arith)

  pub take-append_le : (xs ys : List A) (n : ℕ) → n ≤ length xs → take n (xs ++ ys) ≡ take n xs
  take-append_le xs ys zero h = refl
  take-append_le [] ys (suc n) h = absurd (omega arith)
  take-append_le (x ∷ xs) ys (suc n) h = ap (◌∷◌ x) (take-append_le xs ys n (omega arith))

  pub drop-append_le :
      (xs ys : List A) (n : ℕ) → n ≤ length xs → drop n (xs ++ ys) ≡ drop n xs ++ ys
  drop-append_le xs ys zero h = refl
  drop-append_le [] ys (suc n) h = absurd (omega arith)
  drop-append_le (x ∷ xs) ys (suc n) h = drop-append_le xs ys n (omega arith)

  pub take_all : (xs : List A) (n : ℕ) → length xs ≤ n → take n xs ≡ xs
  take_all [] zero h = refl
  take_all [] (suc n) h = refl
  take_all (x ∷ xs) zero h = absurd (omega arith)
  take_all (x ∷ xs) (suc n) h = ap (◌∷◌ x) (take_all xs n (omega arith))

  pub take-take : (xs : List A) (m n : ℕ) → m ≤ n → take m (take n xs) ≡ take m xs
  take-take xs zero n h = refl
  take-take xs (suc m) zero h = absurd (omega arith)
  take-take [] (suc m) (suc n) h = refl
  take-take (x ∷ xs) (suc m) (suc n) h = ap (◌∷◌ x) (take-take xs m n (omega arith))

  pub drop-drop : (xs : List A) (m n k : ℕ) → k ≡ n + m → drop m (drop n xs) ≡ drop k xs
  drop-drop xs m zero k e = ap (λ i. drop i xs) (omega arith)
  drop-drop [] zero (suc n) zero e = refl
  drop-drop [] zero (suc n) (suc k) e = refl
  drop-drop [] (suc m) (suc n) zero e = refl
  drop-drop [] (suc m) (suc n) (suc k) e = refl
  drop-drop (x ∷ xs) m (suc n) zero e = absurd (omega arith)
  drop-drop (x ∷ xs) m (suc n) (suc k) e = drop-drop xs m n k (omega arith)

  -- Cutting a prefix and then dropping leaves the bytes between the two marks.
  pub drop-take : (xs : List A) (m n k : ℕ) → n ≡ m + k → drop m (take n xs) ≡ take k (drop m xs)
  drop-take xs zero n k e = ap (λ i. take i xs) (omega arith)
  drop-take [] (suc m) zero k e = absurd (omega arith)
  drop-take [] (suc m) (suc n) zero e = refl
  drop-take [] (suc m) (suc n) (suc k) e = refl
  drop-take (x ∷ xs) (suc m) zero k e = absurd (omega arith)
  drop-take (x ∷ xs) (suc m) (suc n) k e = drop-take xs m n k (omega arith)

  pub drop_all : (xs : List A) (n : ℕ) → length xs ≤ n → drop n xs ≡ []
  drop_all [] zero h = refl
  drop_all [] (suc n) h = refl
  drop_all (x ∷ xs) zero h = absurd (omega arith)
  drop_all (x ∷ xs) (suc n) h = drop_all xs n (omega arith)
