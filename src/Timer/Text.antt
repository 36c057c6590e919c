-- ===== src/Timer/Text.antt =====
-- common/Utilities/Timer.cpp: `ToTimeString` in its forms with names of units.
use warhead_fix.Base.{
  ℕ, zero, suc, ◌+◌, ◌-◌, ◌/◌, ◌%◌, ◌^◌, ◌≡◌, refl, sym, ap, ◌∙◌, inl, inr, false, Option, none,
  some, List, [], ◌∷◌, ◌++◌, append-nil, append_assoc, arith, leb, ◌==◌, if◌then◌else◌, Bool-cases,
  Option-cases,
}
use warhead_fix.Base.Options
use warhead_fix.Base.Options.{◌>>=◌}
use warhead_fix.Base.Texts.{codes}
use warhead_fix.Strings.Trim.{is_space, char_at, length_from, trim_right_in_place}
use warhead_fix.Strings.Convert.{to_chars, to_string}
use warhead_fix.Strings.Convert.RoundTrip.{from_string-to_string}

-- The values of `TimeFormat` but for `Numeric`.
pub data TextFormat : Type 0 where
  full_text : TextFormat
  short_text : TextFormat

-- A number of a unit, and the names of the unit.
pub record TimePart : Type 0 where
  pub time_count : ℕ
  pub short : List ℕ
  pub one : List ℕ
  pub many : List ℕ

-- `count() % 1000` of an `int64`, which has the sign of the count, as the 64 bits of a `uint64`.
abbrev pub rest_of_thousand : ℕ → ℕ
rest_of_thousand d = if leb (2 ^ 63) d then (2 ^ 64 - (2 ^ 64 - d) % 1000) % 2 ^ 64 else d % 1000

-- The parts of a duration in microseconds, given by the 64 bits of its count, with the names that the
-- calls of `AddOut` give. The units are `uint64`, so that the count is divided as one without a sign.
unfoldable pub time_parts : ℕ → List TimePart
time_parts d =
    record {
      time_count = d / 86400000000;
      short = codes "d ";
      one = codes " Day ";
      many = codes " Days ";
    }
    ∷ record {
      time_count = (d / 3600000000) % 24;
      short = codes "h ";
      one = codes " Hour ";
      many = codes " Hours ";
    }
    ∷ record {
      time_count = (d / 60000000) % 60;
      short = codes "m ";
      one = codes " Minute ";
      many = codes " Minutes ";
    }
    ∷ record {
      time_count = (d / 1000000) % 60;
      short = codes "s ";
      one = codes " Second ";
      many = codes " Seconds ";
    }
    ∷ record {
      time_count = (d / 1000) % 1000;
      short = codes "ms ";
      one = codes " Millisecond ";
      many = codes " Milliseconds ";
    }
    ∷ record {
      time_count = rest_of_thousand d;
      short = codes "us ";
      one = codes " Microsecond ";
      many = codes " Microseconds ";
    }
    ∷ []

unfoldable pub part_name : TextFormat → TimePart → List ℕ
part_name short_text part = part.short
part_name full_text part = if part.time_count % 2 ^ 32 == 1 then part.one else part.many

-- What `AddOut` appends; `none` is a failed assertion of `ToString`.
unfoldable pub part_text : TextFormat → TimePart → Option (List ℕ)
unfolding part_name
part_text format part = do
  digits ← to_string (part.time_count % 2 ^ 32)
  some (digits ++ part_name format part)

unfoldable pub add_out : TextFormat → TimePart → List ℕ × ℕ → Option (List ℕ × ℕ)
unfolding part_text
add_out format part (out, count) =
    if leb 3 count
    then some (out, count)
    else (do text ← part_text format part; some (out ++ text, (count + 1) % 256))

unfoldable pub add_parts : TextFormat → List TimePart → List ℕ × ℕ → Option (List ℕ × ℕ)
unfolding add_out
add_parts format [] written = some written
add_parts format (part ∷ parts) written =
    if part.time_count == 0
    then add_parts format parts written
    else (do next ← add_out format part written; add_parts format parts next)

unfoldable pub to_time_string : TextFormat → ℕ → Option (List ℕ)
to_time_string format d = do
  written ← add_parts format (time_parts d) ([], 0)
  some (trim_right_in_place written.0)

-- The first parts that are not zero, `limit` at most, one after the other.
unfoldable pub leading_parts : TextFormat → (limit : ℕ) → List TimePart → Option (List ℕ)
leading_parts format limit [] = some []
leading_parts format zero (part ∷ parts) = some []
leading_parts format (suc limit) (part ∷ parts) =
    if part.time_count == 0 then leading_parts format (suc limit) parts else (do
      text ← part_text format part
      rest ← leading_parts format limit parts
      some (text ++ rest))

add_parts_done :
    (format : TextFormat) (parts : List TimePart) (out : List ℕ)
    → add_parts format parts (out, 3) ≡ some (out, 3)
unfolding add_parts add_out
add_parts_done format [] out = refl
add_parts_done format (part ∷ parts) out = elim (Bool-cases (part.time_count == 0)) [
  | inl zero_part ↦ rw zero_part (add_parts_done format parts out)
  | inr more ↦ rw more (add_parts_done format parts out)
]

text_of : Option (List ℕ × ℕ) → Option (List ℕ)
text_of none = none
text_of (some written) = some written.0

prefixed : List ℕ → Option (List ℕ) → Option (List ℕ)
prefixed out none = none
prefixed out (some text) = some (out ++ text)

prefixed-append :
    (out text : List ℕ) (o : Option (List ℕ))
    → prefixed (out ++ text) o ≡ prefixed out (do rest ← o; some (text ++ rest))
unfolding prefixed
prefixed-append out text none = refl
prefixed-append out text (some rest) = ap some (append_assoc out text rest)

add_parts-leading_parts :
    (format : TextFormat) (parts : List TimePart) (out : List ℕ) (count limit : ℕ)
    → count + limit ≡ 3
    → text_of (add_parts format parts (out, count))
      ≡ prefixed out (leading_parts format limit parts)
unfolding add_parts add_out leading_parts prefixed text_of
add_parts-leading_parts format [] out count limit e = ap some (sym (append-nil out))
add_parts-leading_parts format (part ∷ parts) out count zero e =
    let full : count ≡ 3 = omega (arith, e) in
    ap (λ c. text_of (add_parts format (part ∷ parts) (out, c))) full
    ∙ ap text_of (add_parts_done format (part ∷ parts) out)
    ∙ ap some (sym (append-nil out))
add_parts-leading_parts format (part ∷ parts) out count (suc limit) e =
    elim (Bool-cases (part.time_count == 0)) [
      | inl zero_part ↦ rw zero_part (add_parts-leading_parts format parts out count (suc limit) e)
      | inr more ↦
          let room : leb 3 count ≡ false = ground (arith, e) in
          elim (Option-cases (part_text format part)) [
            | inl failed ↦ rw (more, add_out, room, failed, Options.◌>>=◌) refl
            | inr found ↦
                let (text, e') = found in
                rw (more, add_out, room, e', Options.◌>>=◌)
                  (add_parts-leading_parts format parts (out ++ text) ((count + 1) % 256) limit
                      (omega (arith, e))
                    ∙ prefixed-append out text (leading_parts format limit parts))
          ]
    ]

text_of-trimmed :
    (o : Option (List ℕ × ℕ))
    → (do written ← o; some (trim_right_in_place written.0))
      ≡ (do text ← text_of o; some (trim_right_in_place text))
unfolding text_of
text_of-trimmed none = refl
text_of-trimmed (some written) = refl

prefixed-nil : (o : Option (List ℕ)) → prefixed [] o ≡ o
unfolding prefixed
prefixed-nil none = refl
prefixed-nil (some text) = refl

part_text-some :
    (format : TextFormat) (part : TimePart) → (text : List ℕ) × (part_text format part ≡ some text)
unfolding part_text part_name
part_text-some format part =
    let (digits, e, _) =
      from_string-to_string 32 (part.time_count % 2 ^ 32) (omega arith) (omega arith) in
    (digits ++ part_name format part, rw (e, Options.◌>>=◌) refl)

leading_parts-some :
    (format : TextFormat) (limit : ℕ) (parts : List TimePart)
    → (text : List ℕ) × (leading_parts format limit parts ≡ some text)
unfolding leading_parts
leading_parts-some format limit [] = ([], refl)
leading_parts-some format zero (part ∷ parts) = ([], refl)
leading_parts-some format (suc limit) (part ∷ parts) =
    let (without, e0) = leading_parts-some format (suc limit) parts in
    let (rest, e) = leading_parts-some format limit parts in
    let (text, e') = part_text-some format part in
    elim (Bool-cases (part.time_count == 0)) [
      | inl zero_part ↦ (without, rw zero_part e0)
      | inr more ↦ (text ++ rest, rw (more, e', e, Options.◌>>=◌) refl)
    ]

-- ToTimeString, in the two forms that name the units, ends without a failed assertion, and returns
-- the first parts that are not zero, three at most, one after the other and without the spaces
-- behind the last.
pub to_time_string_lem :
    (format : TextFormat) (d : ℕ)
    → (text : List ℕ) × (leading_parts format 3 (time_parts d) ≡ some text)
      × (to_time_string format d ≡ some (trim_right_in_place text))
unfolding to_time_string
to_time_string_lem format d =
    let (text, e) = leading_parts-some format 3 (time_parts d) in
    (
      text,
      e,
      text_of-trimmed (add_parts format (time_parts d) ([], 0))
          ∙ ap (λ o. do written ← o; some (trim_right_in_place written))
              (add_parts-leading_parts format (time_parts d) [] 0 3 (omega arith)
                ∙ prefixed-nil (leading_parts format 3 (time_parts d))
                ∙ e),
    )

short_form : to_time_string short_text 3605000001 ≡ some (codes "1h 5s 1us")
unfolding to_time_string add_parts add_out part_text part_name time_parts to_string to_chars
    trim_right_in_place length_from char_at is_space
short_form = refl

full_form : to_time_string full_text 90061001001 ≡ some (codes "1 Day 1 Hour 1 Minute")
unfolding to_time_string add_parts add_out part_text part_name time_parts to_string to_chars
    trim_right_in_place length_from char_at is_space
full_form = refl
