-- ===== src/Timer/Calendar.antt =====
-- common/Utilities/Timer.cpp: broken-down local time. The C library's clock and its conversions
-- `localtime` and `mktime` are parameters.
use warhead_fix.Base.{ℕ, ◌==◌, if◌then◌else◌}

-- `struct tm`. Its fields are read as plain numbers.
pub record Tm : Type 0 where
  pub sec : ℕ
  pub min : ℕ
  pub hour : ℕ
  pub mday : ℕ
  pub mon : ℕ
  pub year : ℕ
  pub wday : ℕ
  pub yday : ℕ
  pub isdst : ℕ

module _ (epoch_time : ℕ) (localtime : ℕ → Tm) where
  -- `TimeBreakdown(time_t time)`: zero stands for now.
  unfoldable pub time_breakdown : ℕ → Tm
  time_breakdown time = localtime (if time == 0 then epoch_time else time)
