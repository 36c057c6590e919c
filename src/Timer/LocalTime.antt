-- ===== src/Timer/LocalTime.antt =====
-- common/Utilities/Timer.cpp: what is read off the local time, and the next time of an hour of the day.
use warhead_fix.Base.{
  ℕ, ◌+◌, ◌*◌, ◌≤◌, ◌<◌, ◌≡◌, refl, ◌⊎◌, inl, inr, Bool, true, ◌&&◌, arith, leb, ◌==◌,
  if◌then◌else◌, Bool-cases,
}
use warhead_fix.Timer.Calendar.{Tm, time_breakdown}

module _ (epoch_time : ℕ) (localtime : ℕ → Tm) where
  -- `GetSeconds` and the like, which ask for the clock before `TimeBreakdown` would.
  unfoldable pub broken_down : ℕ → Tm
  broken_down time = time_breakdown epoch_time localtime (if time == 0 then epoch_time else time)

  unfoldable pub get_seconds : ℕ → ℕ
  unfolding broken_down
  get_seconds time = (broken_down time).sec

  unfoldable pub get_minutes : ℕ → ℕ
  unfolding broken_down
  get_minutes time = (broken_down time).min

  unfoldable pub get_hours : ℕ → ℕ
  unfolding broken_down
  get_hours time = (broken_down time).hour

  unfoldable pub get_day_in_week : ℕ → ℕ
  unfolding broken_down
  get_day_in_week time = (broken_down time).wday

  unfoldable pub get_day_in_month : ℕ → ℕ
  unfolding broken_down
  get_day_in_month time = (broken_down time).mday

  unfoldable pub get_day_in_year : ℕ → ℕ
  unfolding broken_down
  get_day_in_year time = (broken_down time).yday

  unfoldable pub get_month : ℕ → ℕ
  unfolding broken_down
  get_month time = (broken_down time).mon

  unfoldable pub get_year : ℕ → ℕ
  unfolding broken_down
  get_year time = (broken_down time).year

  unfoldable pub midnight_fields : ℕ → Tm
  midnight_fields time = record (time_breakdown epoch_time localtime time) {
    hour = 0;
    min = 0;
    sec = 0;
  }

  unfoldable pub get_local_hour_timestamp :
      (mktime : Tm → ℕ) (time hour : ℕ) (only_after_time : Bool) → ℕ
  get_local_hour_timestamp mktime time hour only_after_time =
      let hour_local = mktime (midnight_fields time) + hour * 3600 in
      if only_after_time && leb hour_local time then hour_local + 86400 else hour_local

  -- On a day of 24 hours, with a time from its midnight on, GetLocalHourTimestamp with onlyAfterTime
  -- returns a time that is later by at most 24 hours, the given whole number of hours after the
  -- midnight of that day or the next.
  pub get_local_hour_timestamp_lem :
      (mktime : Tm → ℕ) (time hour : ℕ)
      → hour < 24
      → mktime (midnight_fields time) ≤ time
      → time < mktime (midnight_fields time) + 86400
      → let at : ℕ = get_local_hour_timestamp mktime time hour true in
        (time < at)
        × (at ≤ time + 86400)
        × ((at ≡ mktime (midnight_fields time) + hour * 3600)
            ⊎ (at ≡ mktime (midnight_fields time) + 86400 + hour * 3600))
  unfolding get_local_hour_timestamp
  get_local_hour_timestamp_lem mktime time hour day after before =
      elim (Bool-cases (leb (mktime (midnight_fields time) + hour * 3600) time)) [
        | inl past ↦ rw past (ground arith, ground arith, inr (omega arith))
        | inr ahead ↦ rw ahead (ground arith, ground arith, inl refl)
      ]
