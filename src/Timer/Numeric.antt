-- ===== src/Timer/Numeric.antt =====
-- common/Utilities/Timer.cpp: `ToTimeString` in its numeric form. How fmt writes a number is a parameter.
use warhead_fix.Base.{
  ℕ, zero, suc, ◌+◌, ◌-◌, ◌%◌, Bool, true, false, not, List, [], ◌∷◌, ◌++◌, leb, ◌==◌,
  if◌then◌else◌, length, take,
}
use warhead_fix.Timer.Text.{TimePart, time_parts}
use warhead_fix.Timer.Units.{Units}

-- "{}" and "{:02}" of a number.
pub record Fmt : Type 0 where
  pub plain : ℕ → List ℕ
  pub padded : ℕ → List ℕ

-- `out`, `isFirst` and `count`.
pub record NumericText : Type 0 where
  pub out : List ℕ
  pub is_first : Bool
  pub count : ℕ

module _ (fmt : Fmt) where
  open fmt use {plain, padded}

  -- `AddOutNumerlic`
  unfoldable pub add_out_numeric : ℕ → NumericText → NumericText
  add_out_numeric time t =
      if leb 3 t.count
      then t
      else if not t.is_first
      then record {
        out = t.out ++ (plain time ++ b':' ∷ []);
        is_first = true;
        count = (t.count + 1) % 256;
      }
      else record t { out = t.out ++ (padded time ++ b':' ∷ []); count = (t.count + 1) % 256 }

  unfoldable pub add_numbers : List TimePart → NumericText → NumericText
  add_numbers [] t = t
  add_numbers (part ∷ parts) t =
      add_numbers parts (if part.time_count == 0 then t else add_out_numeric part.time_count t)

  -- `out.erase(out.end() - 1, out.end())`
  unfoldable pub without_last : List ℕ → List ℕ
  without_last out = if length out == 0 then out else take (length out - 1) out

  unfoldable pub to_time_numeric : ℕ → List ℕ
  to_time_numeric d =
      without_last
        (add_numbers (time_parts d) (record { out = []; is_first = false; count = 0 })).out

  -- The first counts that are not zero, `limit` at most.
  abbrev leading_counts : ℕ → List TimePart → List ℕ
  leading_counts limit [] = []
  leading_counts zero (part ∷ parts) = []
  leading_counts (suc limit) (part ∷ parts) =
      if part.time_count == 0
      then leading_counts (suc limit) parts
      else part.time_count ∷ leading_counts limit parts

  -- Numbers with a colon before each, and with a colon behind each.
  abbrev pub colon_before : List ℕ → List ℕ
  colon_before [] = []
  colon_before (n ∷ ns) = b':' ∷ (padded n ++ colon_before ns)

  abbrev colon_behind : List ℕ → List ℕ
  colon_behind [] = []
  colon_behind (n ∷ ns) = (padded n ++ b':' ∷ []) ++ colon_behind ns

  -- The first number as it is, the others in two digits.
  abbrev pub joined_counts : List ℕ → List ℕ
  joined_counts [] = []
  joined_counts (n ∷ ns) = plain n ++ colon_before ns
