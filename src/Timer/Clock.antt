-- ===== src/Timer/Clock.antt =====
-- common/Utilities/Timer.h: the difference of two readings of the millisecond clock. A reading has
-- 32 bits (`uint32`), or is a `Milliseconds` of 64 bits, here a plain number.
use warhead_fix.Base.{ℕ, ◌+◌, ◌-◌, ◌%◌, ◌^◌, ◌<◌, ◌≡◌, arith, ltb, if◌then◌else◌}

-- `GetMSTimeDiff`
unfoldable pub get_ms_time_diff : ℕ → ℕ → ℕ
get_ms_time_diff old_time new_time =
    if ltb new_time old_time then old_time - new_time else new_time - old_time

-- `getMSTimeDiff`, of two `uint32`.
unfoldable pub get_ms_time_diff32 : ℕ → ℕ → ℕ
get_ms_time_diff32 old_time new_time =
    if ltb new_time old_time
    then (2 ^ 32 - 1 - old_time + new_time) % 2 ^ 32
    else new_time - old_time

-- If fewer than 2 ^ 32 milliseconds go by between two readings of the 32-bit clock, getMSTimeDiff
-- of the readings is their number, or one less than that if the clock wrapped in between.
pub get_ms_time_diff32-elapsed :
    (old_time elapsed : ℕ)
    → old_time < 2 ^ 32
    → elapsed < 2 ^ 32
    → get_ms_time_diff32 old_time ((old_time + elapsed) % 2 ^ 32)
      ≡ (if ltb (old_time + elapsed) (2 ^ 32) then elapsed else elapsed - 1)
unfolding get_ms_time_diff32
get_ms_time_diff32-elapsed old_time elapsed h k = ground arith
