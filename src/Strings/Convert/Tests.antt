-- ===== src/Strings/Convert/Tests.antt =====
-- The numbers and the switches of a configuration file.
use warhead_fix.Base.{ℕ, ◌≡◌, refl, true, none, some, List, [], arith}
use warhead_fix.Base.Texts.{codes}
use warhead_fix.Base.Bytes.{same_bytes}
use warhead_fix.Strings.Compare.{to_lower, string_equal_i}
use warhead_fix.Strings.Convert.{
  digit_value, scan, from_chars, from_whole, from_string, non_empty, to_string, bool_from_string,
}
use warhead_fix.Strings.Convert.RoundTrip.{from_string-to_string}

too_large : (from_string 8 (codes "255") 10 ≡ some 255) × (from_string 8 (codes "256") 10 ≡ none)
unfolding from_string from_whole from_chars scan digit_value
too_large = (refl, refl)

no_spaces : (from_string 8 (codes " 2") 10 ≡ none) × (from_string 8 [] 10 ≡ none)
unfolding from_string from_whole from_chars scan digit_value
no_spaces = (refl, refl)

prefixes : (from_string 16 (codes "0XfF") 0 ≡ some 255) × (from_string 16 (codes "0x") 0 ≡ none)
unfolding from_string from_whole from_chars scan digit_value non_empty string_equal_i to_lower
prefixes = (refl, refl)

switches :
    (bool_from_string (codes "Yes") 0 ≡ some true) × (bool_from_string (codes "Yes") 1 ≡ none)
unfolding bool_from_string string_equal_i to_lower same_bytes
switches = (refl, refl)

from_string-to_string_example :
    (str : List ℕ) × (to_string 65535 ≡ some str) × (from_string 16 str 10 ≡ some 65535)
from_string-to_string_example = from_string-to_string 16 65535 (omega arith) (omega arith)
