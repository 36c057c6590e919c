-- ===== src/Timer/Timers.antt =====
-- common/Utilities/Timer.h: the timers that a loop updates by the time gone by. A `time_t` is 64 bits
-- wide and an `int32` 32 bits; both are kept as their bits, and sums wrap.
use warhead_fix.Base.{
  ℕ, ◌+◌, ◌-◌, ◌%◌, ◌^◌, ◌<◌, ◌≡◌, refl, sym, ap, ◌∙◌, inl, inr, Bool, true, false, not, Option,
  none, some, List, [], ◌∷◌, arith, ltb, leb, ◌==◌, if◌then◌else◌, Bool-cases,
}
use native.Mathlib.Nat.{mod-lt, mod-eq_of_lt}
use warhead_fix.Base.Options.{◌>>=◌}

abbrev pub add_bits : ℕ → ℕ → ℕ → ℕ
add_bits w a b = (a + b) % 2 ^ w

abbrev pub sub_bits : ℕ → ℕ → ℕ → ℕ
sub_bits w a b = (a + 2 ^ w - b) % 2 ^ w

-- Whether the signed number with these bits is below zero.
abbrev pub is_negative : ℕ → ℕ → Bool
is_negative w a = leb (2 ^ (w - 1)) a

-- `a <= b` of signed numbers.
abbrev pub leb_signed : ℕ → ℕ → ℕ → Bool
leb_signed w a b = leb ((a + 2 ^ (w - 1)) % 2 ^ w) ((b + 2 ^ (w - 1)) % 2 ^ w)

abbrev pub size_of : ℕ → ℕ → ℕ
size_of w a = if is_negative w a then 2 ^ w - a else a

-- `a % b` of signed numbers, which has the sign of `a`; `none` is a division by zero.
unfoldable pub rem_signed : ℕ → ℕ → ℕ → Option ℕ
rem_signed w a b =
    if b == 0
    then none
    else let r = size_of w a % size_of w b in
      some (if is_negative w a then (2 ^ w - r) % 2 ^ w else r)

pub record IntervalTimer : Type 0 where
  pub interval : ℕ
  pub current : ℕ

unfoldable pub new_interval_timer : IntervalTimer
new_interval_timer = record { interval = 0; current = 0 }

unfoldable pub update_interval : ℕ → IntervalTimer → IntervalTimer
update_interval diff t =
    let current = add_bits 64 t.current diff in
    record t { current = if is_negative 64 current then 0 else current }

unfoldable pub interval_passed : IntervalTimer → Bool
interval_passed t = leb_signed 64 t.interval t.current

unfoldable pub reset_interval : IntervalTimer → Option IntervalTimer
unfolding interval_passed
reset_interval t =
    if interval_passed t
    then (do rest ← rem_signed 64 t.current t.interval; some (record t { current = rest }))
    else some t

unfoldable pub set_current : ℕ → IntervalTimer → IntervalTimer
set_current current t = record t { current = current }

unfoldable pub set_interval : ℕ → IntervalTimer → IntervalTimer
set_interval interval t = record t { interval = interval }

-- `TimeTracker` with 64 bits, `TimeTrackerSmall` with 32.
pub record TimeTracker : Type 0 where
  pub expiry_time : ℕ

unfoldable pub update_tracker : ℕ → ℕ → TimeTracker → TimeTracker
update_tracker w diff t = record { expiry_time = sub_bits w t.expiry_time diff }

unfoldable pub tracker_passed : ℕ → TimeTracker → Bool
tracker_passed w t = leb_signed w t.expiry_time 0

unfoldable pub reset_tracker : ℕ → TimeTracker → TimeTracker
reset_tracker interval t = record { expiry_time = interval }

pub record PeriodicTimer : Type 0 where
  pub period : ℕ
  pub expire_time : ℕ

-- The later of the period and the time gone by, compared as signed numbers.
abbrev pub step_of : ℕ → ℕ → ℕ
step_of period diff = if leb_signed 32 period diff then diff else period

-- `Update`: whether the timer went off.
unfoldable pub update_periodic : ℕ → PeriodicTimer → Bool × PeriodicTimer
update_periodic diff t =
    let expire_time = sub_bits 32 t.expire_time diff in
    if not (leb_signed 32 expire_time 0)
    then (false, record t { expire_time = expire_time })
    else (true, record t { expire_time = add_bits 32 expire_time (step_of t.period diff) })

unfoldable pub set_periodic : ℕ → ℕ → PeriodicTimer → PeriodicTimer
set_periodic period start_time t = record { period = period; expire_time = start_time }

-- `TUpdate`, `TPassed` and `TReset`
unfoldable pub tracker_update : ℕ → PeriodicTimer → PeriodicTimer
tracker_update diff t = record t { expire_time = sub_bits 32 t.expire_time diff }

unfoldable pub periodic_passed : PeriodicTimer → Bool
periodic_passed t = leb_signed 32 t.expire_time 0

unfoldable pub tracker_reset : ℕ → ℕ → PeriodicTimer → PeriodicTimer
tracker_reset diff period t = record t {
  expire_time = add_bits 32 t.expire_time (step_of period diff);
}

signed_leb : (a b : ℕ) → a < 2 ^ 63 → b < 2 ^ 63 → leb_signed 64 a b ≡ leb a b
signed_leb a b h k = ground arith

rem_positive : (a b : ℕ) → 0 < b → b < 2 ^ 63 → a < 2 ^ 63 → rem_signed 64 a b ≡ some (a % b)
unfolding rem_signed
rem_positive a b p h k =
    let e : (b == 0) ≡ false = ground arith in
    let f : is_negative 64 a ≡ false = ground arith in
    let g : is_negative 64 b ≡ false = ground arith in rw (e, f, g) refl

-- Reset of an IntervalTimer divides by no zero, leaves the current time modulo the interval, and a
-- timer that has not passed. The interval is above zero, and it and the current time are below 2 ^
-- 63.
pub reset_interval_phase :
    (t : IntervalTimer)
    → 0 < t.interval
    → t.interval < 2 ^ 63
    → t.current < 2 ^ 63
    → (t' : IntervalTimer) × (reset_interval t ≡ some t')
      × (t'.current ≡ t.current % t.interval)
      × (interval_passed t' ≡ false)
unfolding reset_interval interval_passed
reset_interval_phase t positive small_interval small =
    elim (Bool-cases (leb t.interval t.current)) [
      | inl passed ↦ (
        record t { current = t.current % t.interval },
        rw
            (
              signed_leb t.interval t.current small_interval small,
              passed,
              ◌>>=◌,
              rem_positive t.current t.interval positive small_interval small,
            )
            refl,
        refl,
        let r : t.current % t.interval < t.interval = mod-lt t.current positive in
            signed_leb t.interval (t.current % t.interval) small_interval (omega arith)
            ∙ ground arith,
      )
      | inr early ↦ (
        t,
        rw (signed_leb t.interval t.current small_interval small, early) refl,
        sym (mod-eq_of_lt (ground arith)),
        signed_leb t.interval t.current small_interval small ∙ early,
      )
    ]

-- The tracker after so many updates.
abbrev pub tracker_updates : ℕ → List ℕ → TimeTracker → TimeTracker
tracker_updates w [] t = t
tracker_updates w (diff ∷ diffs) t = tracker_updates w diffs (update_tracker w diff t)

abbrev pub sum : List ℕ → ℕ
sum [] = 0
sum (d ∷ ds) = d + sum ds

tracker_at :
    (diffs : List ℕ) (done interval : ℕ)
    → interval < 2 ^ 63
    → done + sum diffs < 2 ^ 63
    → tracker_passed 64
        (tracker_updates 64 diffs (record { expiry_time = sub_bits 64 interval done }))
      ≡ leb interval (done + sum diffs)
unfolding tracker_passed update_tracker
tracker_at [] done interval h k = ground arith
tracker_at (d ∷ ds) done interval h k =
    let e : sub_bits 64 (sub_bits 64 interval done) d ≡ sub_bits 64 interval (done + d) =
      omega arith in
    ap (λ n. tracker_passed 64 (tracker_updates 64 ds (record { expiry_time = n }))) e
    ∙ tracker_at ds (done + d) interval h (omega arith)
    ∙ ap (leb interval) {y = done + (d + sum ds)} (omega arith)

-- A TimeTracker that is set to an interval has passed after a sequence of updates exactly if the
-- interval is at most the sum of the updates. Both are below 2 ^ 63.
pub tracker_passes :
    (diffs : List ℕ) (interval : ℕ) (t : TimeTracker)
    → interval < 2 ^ 63
    → sum diffs < 2 ^ 63
    → tracker_passed 64 (tracker_updates 64 diffs (reset_tracker interval t))
      ≡ leb interval (sum diffs)
unfolding reset_tracker
tracker_passes diffs interval t h k =
    let e : interval ≡ sub_bits 64 interval 0 = omega arith in
    ap (λ n. tracker_passed 64 (tracker_updates 64 diffs (record { expiry_time = n }))) e
    ∙ tracker_at diffs 0 interval h (omega arith)
    ∙ ap (leb interval) {y = sum diffs} (omega arith)

-- Update of a PeriodicTimer goes off exactly if the time gone by reaches its expiry, and otherwise
-- only takes it off. When it goes off, the next expiry is the period, less the time gone by, later
-- than the last one, and as late as that one if more than a period has gone by. The expiry is above
-- zero, and it, the period and the time gone by are below 2 ^ 30.
pub update_periodic_cases :
    (diff : ℕ) (t : PeriodicTimer)
    → 0 < t.expire_time
    → t.expire_time < 2 ^ 30
    → t.period < 2 ^ 30
    → diff < 2 ^ 30
    → update_periodic diff t ≡ (
        if ltb diff t.expire_time
        then (false, record t { expire_time = t.expire_time - diff })
        else (true, record t { expire_time = t.expire_time + (t.period - diff) }))
unfolding update_periodic
update_periodic_cases diff t positive h k l = ground arith
