-- ===== src/Log/Colors.antt =====
-- common/Logging/Log.cpp: `GetColorCode`, and the colours of Log.h.
use warhead_fix.Base.{ℕ, ◌≡◌, refl, List, [], ◌∷◌, if◌then◌else◌}
use warhead_fix.Base.Texts.{codes}
use warhead_fix.Strings.Compare.{string_equal_i, to_lower}

-- The names that are compared, in this order, with the values of `ConsoleColor`.
unfoldable pub console_colors : List (List ℕ × ℕ)
console_colors =
    (codes "black", 0)
    ∷ (codes "red", 4)
    ∷ (codes "green", 2)
    ∷ (codes "brown", 6)
    ∷ (codes "blue", 1)
    ∷ (codes "magenta", 5)
    ∷ (codes "cyan", 3)
    ∷ (codes "gray", 7)
    ∷ (codes "darkGray", 8)
    ∷ (codes "lightRed", 12)
    ∷ (codes "lightGreen", 10)
    ∷ (codes "yellow", 14)
    ∷ (codes "lightBlue", 9)
    ∷ (codes "lightMagenta", 13)
    ∷ (codes "lightCyan", 11)
    ∷ (codes "white", 15)
    ∷ []

-- The comparisons of `GetColorCode`; white, 15, after the last.
unfoldable pub color_among : List ℕ → List (List ℕ × ℕ) → ℕ
color_among color_name [] = 15
color_among color_name ((name, color) ∷ colors) =
    let rest = color_among color_name colors in
    if string_equal_i color_name name then color else rest

unfoldable pub get_color_code : List ℕ → ℕ
unfolding color_among console_colors
get_color_code color_name = color_among color_name console_colors

any_case : (get_color_code (codes "LIGHTcyan") ≡ 11) × (get_color_code (codes "cyann") ≡ 15)
unfolding get_color_code color_among console_colors string_equal_i to_lower
any_case = (refl, refl)
