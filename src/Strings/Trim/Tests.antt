-- ===== src/Strings/Trim/Tests.antt =====
-- A line of a configuration file.
use warhead_fix.Base.{◌≡◌, refl, []}
use warhead_fix.Base.Texts.{codes}
use warhead_fix.Strings.Trim.{
  is_space, first_from, char_at, last_before, trim, length_from, trim_right_in_place,
}
use warhead_fix.Strings.Trim.Outcome.{IsTrimOf, trim_lem}

option_line : trim (codes "  LogsDir = \t") ≡ codes "LogsDir ="
unfolding trim first_from last_before char_at is_space
option_line = refl

spaces_line : trim (codes "   ") ≡ []
unfolding trim first_from last_before char_at is_space
spaces_line = refl

right_only : trim_right_in_place (codes " a b  ") ≡ codes " a b"
unfolding trim_right_in_place length_from char_at is_space
right_only = refl

trim_lem_example : IsTrimOf (codes "  LogsDir = ") (trim (codes "  LogsDir = "))
trim_lem_example = trim_lem (codes "  LogsDir = ")
