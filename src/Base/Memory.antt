-- ===== src/Base/Memory.antt =====
-- `std::vector<uint8>` as a list of bytes, and `memcpy` into and out of it. `none` stands for an
-- access outside the vector, which is undefined in C++.
use Prim.Native.Nat.{ℕ, ◌+◌, ◌-◌, ◌%◌, ◌^◌, ◌≤◌}
use mathlib.Core.Path.{◌≡◌, refl, ap, sym, ◌∙◌}
use mathlib.Core.List.{List, ◌++◌}
use mathlib.Core.Option.{Option, none, some}
use native.Mathlib.Omega.{arith}
use warhead_fix.Base.Tests.{leb, if◌then◌else◌, le→leb}
use warhead_fix.Base.Prefix.{take-append, drop-append, drop-drop}
use warhead_fix.Base.Lists.{
  length, take, drop, replicate, length-append, length-take, length-drop, length-replicate,
}

-- `size_t` is 64 bits wide; its sums and differences wrap.
abbrev pub size_mod : ℕ
size_mod = 2 ^ 64

abbrev pub add_size : ℕ → ℕ → ℕ
add_size a b = (a + b) % size_mod

abbrev pub sub_size : ℕ → ℕ → ℕ
sub_size a b = (a + size_mod - b) % size_mod

-- `std::vector::resize`: cut, or fill with zeros.
unfoldable pub resize : List ℕ → ℕ → List ℕ
resize xs n = take n xs ++ replicate (n - length xs) 0

unfoldable pub copy_out : List ℕ → ℕ → ℕ → Option (List ℕ)
copy_out xs pos n = if leb (pos + n) (length xs) then some (take n (drop pos xs)) else none

abbrev pub splice : List ℕ → ℕ → List ℕ → List ℕ
splice xs pos ys = take pos xs ++ (ys ++ drop (pos + length ys) xs)

unfoldable pub copy_in : List ℕ → ℕ → List ℕ → Option (List ℕ)
copy_in xs pos ys = if leb (pos + length ys) (length xs) then some (splice xs pos ys) else none

pub length-resize : (xs : List ℕ) (n : ℕ) → length (resize xs n) ≡ n
unfolding resize
length-resize xs n = omega (
  arith,
  length-append (take n xs) (replicate (n - length xs) 0),
  length-take n xs,
  length-replicate {A = ℕ} (n - length xs) 0,
)

pub length-splice :
    (xs : List ℕ) (pos : ℕ) (ys : List ℕ)
    → pos + length ys ≤ length xs
    → length (splice xs pos ys) ≡ length xs
length-splice xs pos ys h = omega (
  arith,
  length-append (take pos xs) (ys ++ drop (pos + length ys) xs),
  length-append ys (drop (pos + length ys) xs),
  length-take pos xs,
  length-drop (pos + length ys) xs,
)

pub copy_out-some :
    (xs : List ℕ) (pos n : ℕ)
    → pos + n ≤ length xs
    → copy_out xs pos n ≡ some (take n (drop pos xs))
unfolding copy_out
copy_out-some xs pos n h = rw (le→leb (pos + n) (length xs) h)

pub copy_in-some :
    (xs : List ℕ) (pos : ℕ) (ys : List ℕ)
    → pos + length ys ≤ length xs
    → copy_in xs pos ys ≡ some (splice xs pos ys)
unfolding copy_in
copy_in-some xs pos ys h = rw (le→leb (pos + length ys) (length xs) h)

-- After a write the bytes before it, the bytes written and the bytes behind it are where they were.
module _ (xs : List ℕ) (pos : ℕ) (ys : List ℕ) (fits : pos + length ys ≤ length xs) where
  length-before : pos ≡ length (take pos xs)
  length-before = omega (arith, length-take pos xs)

  pub take-splice : take pos (splice xs pos ys) ≡ take pos xs
  take-splice = take-append (take pos xs) (ys ++ drop (pos + length ys) xs) pos length-before

  pub drop-splice : drop pos (splice xs pos ys) ≡ ys ++ drop (pos + length ys) xs
  drop-splice = drop-append (take pos xs) (ys ++ drop (pos + length ys) xs) pos length-before

  pub take-drop-splice : take (length ys) (drop pos (splice xs pos ys)) ≡ ys
  take-drop-splice =
      ap (take (length ys)) drop-splice
      ∙ take-append ys (drop (pos + length ys) xs) (length ys) refl

  pub drop_behind-splice : drop (pos + length ys) (splice xs pos ys) ≡ drop (pos + length ys) xs
  drop_behind-splice =
      sym (drop-drop (splice xs pos ys) (length ys) pos (pos + length ys) refl)
      ∙ ap (drop (length ys)) drop-splice
      ∙ drop-append ys (drop (pos + length ys) xs) (length ys) refl
