-- ===== src/Timer/Words.antt =====
-- What `ToTimeString` of common/Utilities/Timer.cpp writes in the forms that name the units: a number
-- and a unit for each part, with one space between two parts and none at the end.
use warhead_fix.Base.{
  ℕ, zero, suc, ◌≡◌, refl, sym, ap, ◌∙◌, false, Option, some, List, [], ◌∷◌, ◌++◌, append_assoc,
  arith, ◌==◌, if◌then◌else◌, length, take, length-append, take-append,
}
use warhead_fix.Base.Options.{◌>>=◌}
use warhead_fix.Base.Texts.{codes}
use warhead_fix.Strings.Trim.{is_space, char_at, length_from, trim_right_in_place}
use warhead_fix.Strings.Convert.{to_string}
use warhead_fix.Timer.Text.{TextFormat, full_text, short_text, TimePart, time_parts}
use warhead_fix.Timer.Units.{
  Units, duration, IsSplit, days_eq, hours_eq, minutes_eq, seconds_eq, millis_eq, micros_eq,
}

-- A number of a unit, and the unit's names.
pub record Word : Type 0 where
  pub number : ℕ
  pub letter : List ℕ
  pub singular : List ℕ
  pub plural : List ℕ

abbrev pub words : Units → List Word
words u =
    record { number = u.days; letter = codes "d"; singular = codes "Day"; plural = codes "Days" }
    ∷ record {
      number = u.hours;
      letter = codes "h";
      singular = codes "Hour";
      plural = codes "Hours";
    }
    ∷ record {
      number = u.minutes;
      letter = codes "m";
      singular = codes "Minute";
      plural = codes "Minutes";
    }
    ∷ record {
      number = u.seconds;
      letter = codes "s";
      singular = codes "Second";
      plural = codes "Seconds";
    }
    ∷ record {
      number = u.millis;
      letter = codes "ms";
      singular = codes "Millisecond";
      plural = codes "Milliseconds";
    }
    ∷ record {
      number = u.micros;
      letter = codes "us";
      singular = codes "Microsecond";
      plural = codes "Microseconds";
    }
    ∷ []

-- "2h", "1 Day" or "2 Days" behind the digits.
abbrev pub name_of : TextFormat → Word → List ℕ
name_of short_text w = w.letter
name_of full_text w = b' ' ∷ (if w.number == 1 then w.singular else w.plural)

-- The words that are there, `limit` at most.
abbrev pub first_words : ℕ → List Word → List Word
first_words limit [] = []
first_words zero (w ∷ ws) = []
first_words (suc limit) (w ∷ ws) =
    if w.number == 0 then first_words (suc limit) ws else w ∷ first_words limit ws

abbrev pub word_text : TextFormat → Word → Option (List ℕ)
word_text format w = do digits ← to_string w.number; some (digits ++ name_of format w)

-- A space between two words.
abbrev pub spaced : TextFormat → List Word → Option (List ℕ)
spaced format [] = some []
spaced format (w ∷ []) = word_text format w
spaced format (w ∷ v ∷ ws) = do
  text ← word_text format w
  rest ← spaced format (v ∷ ws)
  some (text ++ b' ' ∷ rest)

-- The part that the code makes of a word.
abbrev pub part_of : Word → TimePart
part_of w = record {
  time_count = w.number;
  short = w.letter ++ b' ' ∷ [];
  one = b' ' ∷ w.singular ++ b' ' ∷ [];
  many = b' ' ∷ w.plural ++ b' ' ∷ [];
}

abbrev pub parts_of : List Word → List TimePart
parts_of [] = []
parts_of (w ∷ ws) = part_of w ∷ parts_of ws

pub time_parts-words : (u : Units) → IsSplit u → time_parts (duration u) ≡ parts_of (words u)
unfolding time_parts
time_parts-words u split =
    rw
      (
        days_eq u split,
        hours_eq u split,
        minutes_eq u split,
        seconds_eq u split,
        millis_eq u split,
        micros_eq u split,
      )
      refl

char_at-append : (xs ys : List ℕ) (c : ℕ) → char_at (xs ++ c ∷ ys) (length xs) ≡ c
unfolding char_at
char_at-append [] ys c = refl
char_at-append (x ∷ xs) ys c = char_at-append xs ys c

-- One space is cut off behind a byte that is none.
pub cut_space :
    (xs : List ℕ) (c : ℕ)
    → is_space c ≡ false
    → trim_right_in_place ((xs ++ c ∷ []) ++ b' ' ∷ []) ≡ xs ++ c ∷ []
unfolding trim_right_in_place length_from is_space
cut_space xs c other =
    let str : List ℕ = (xs ++ c ∷ []) ++ b' ' ∷ [] in
    let front = length-append xs (c ∷ []) in
    let size : length str ≡ suc (suc (length xs)) =
      omega (arith, length-append (xs ++ c ∷ []) (b' ' ∷ []), front) in
    let at_end : char_at str (suc (length xs)) ≡ b' ' =
      ap (char_at str) (omega (arith, front)) ∙ char_at-append (xs ++ c ∷ []) [] b' ' in
    let at_last : char_at str (length xs) ≡ c =
      ap (λ l. char_at l (length xs)) (append_assoc xs (c ∷ []) (b' ' ∷ []))
      ∙ char_at-append xs (b' ' ∷ []) c in
    let cut : length_from str (suc (suc (length xs))) ≡ suc (length xs) =
      rw (at_end, at_last, other) refl in
    ap (λ n. take (length_from str n) str) size
    ∙ ap (λ n. take n str) (cut ∙ sym (omega (arith, front)))
    ∙ take-append (xs ++ c ∷ []) (b' ' ∷ []) (length (xs ++ c ∷ [])) refl
