-- ===== src/Timer/Tests.antt =====
-- The clock at its wrap, and timers that go off.
use warhead_fix.Base.{ℕ, List, ◌-◌, ◌^◌, ◌≡◌, refl, true, false, some, [], ◌∷◌, arith}
use warhead_fix.Timer.Timers.{
  IntervalTimer, TimeTracker, reset_interval, interval_passed, tracker_updates, reset_tracker,
  tracker_passed, update_periodic, reset_interval_phase, tracker_passes, update_periodic_cases,
}
use warhead_fix.Strings.Trim.{trim_right_in_place}
use warhead_fix.Timer.Text.{
  short_text, time_parts, rest_of_thousand, to_time_string, leading_parts, to_time_string_lem,
}
use warhead_fix.Timer.Numeric.{Fmt, add_out_numeric, add_numbers, without_last, to_time_numeric}
use warhead_fix.Timer.Units.{Units}
use warhead_fix.Timer.Clock.{get_ms_time_diff32, get_ms_time_diff32-elapsed}

-- Ten milliseconds over the wrap count as nine.
get_ms_time_diff32-elapsed_example : get_ms_time_diff32 4294967290 4 ≡ 9
get_ms_time_diff32-elapsed_example =
    get_ms_time_diff32-elapsed 4294967290 10 (omega arith) (omega arith)

abbrev ten : IntervalTimer
ten = record { interval = 10; current = 25 }

reset_interval_phase_run :
    (t' : IntervalTimer) × (reset_interval ten ≡ some t')
    × (t'.current ≡ 5)
    × (interval_passed t' ≡ false)
reset_interval_phase_run = reset_interval_phase ten (omega arith) (omega arith) (omega arith)

abbrev any_tracker : TimeTracker
any_tracker = record { expiry_time = 1 }

tracker_passes_run :
    tracker_passed 64 (tracker_updates 64 (3 ∷ 4 ∷ []) (reset_tracker 7 any_tracker)) ≡ true
tracker_passes_run = tracker_passes (3 ∷ 4 ∷ []) 7 any_tracker (omega arith) (omega arith)

update_periodic_cases_run :
    update_periodic 5 (record { period = 10; expire_time = 3 })
    ≡ (true, record { period = 10; expire_time = 8 })
update_periodic_cases_run =
    update_periodic_cases 5 (record { period = 10; expire_time = 3 }) (omega arith) (omega arith)
      (omega arith) (omega arith)

-- One hour, five seconds and a microsecond.
to_time_string_lem_run :
    (text : List ℕ) × (leading_parts short_text 3 (time_parts 3605000001) ≡ some text)
    × (to_time_string short_text 3605000001 ≡ some (trim_right_in_place text))
to_time_string_lem_run = to_time_string_lem short_text 3605000001

-- The microseconds of minus one microsecond, in 64 bits.
negative_count : rest_of_thousand (2 ^ 64 - 1) ≡ 2 ^ 64 - 1
negative_count = refl

-- A byte for a number, and a zero byte before it.
abbrev digits : Fmt
digits = record { plain = λ n. n ∷ []; padded = λ n. 0 ∷ n ∷ [] }

-- One hour and five seconds, and one minute and five seconds.
ambiguous : to_time_numeric digits 3605000000 ≡ to_time_numeric digits 65000000
unfolding to_time_numeric add_numbers add_out_numeric without_last time_parts
ambiguous = refl

abbrev hour_and_seconds : Units
hour_and_seconds = record { days = 0; hours = 1; minutes = 0; seconds = 5; millis = 0; micros = 0 }
