-- ===== src/Timer/Units.antt =====
-- A duration by its days, hours, minutes, seconds, milliseconds and microseconds.
use warhead_fix.Base.{
  ℕ, ◌+◌, ◌*◌, ◌/◌, ◌%◌, ◌^◌, ◌<◌, ◌≡◌, refl, false, List, [], ◌∷◌, arith, leb, ◌==◌, if◌then◌else◌,
}
use warhead_fix.Timer.Text.{TimePart, time_parts, rest_of_thousand}

pub record Units : Type 0 where
  pub days : ℕ
  pub hours : ℕ
  pub minutes : ℕ
  pub seconds : ℕ
  pub millis : ℕ
  pub micros : ℕ

-- Its microseconds.
abbrev pub duration : Units → ℕ
duration u =
    u.days * (24 * 60 * 60 * 1000 * 1000)
    + u.hours * (60 * 60 * 1000 * 1000)
    + u.minutes * (60 * 1000 * 1000)
    + u.seconds * (1000 * 1000)
    + u.millis * 1000
    + u.micros

-- No unit holds as many as the next larger one has, and the count is one of an `int64` above zero.
pub record IsSplit (u : Units) : Type 0 where
  pub hours_small : u.hours < 24
  pub minutes_small : u.minutes < 60
  pub seconds_small : u.seconds < 60
  pub millis_small : u.millis < 1000
  pub micros_small : u.micros < 1000
  pub is_int64 : duration u < 2 ^ 63

abbrev pub numbers : Units → List ℕ
numbers u = u.days ∷ u.hours ∷ u.minutes ∷ u.seconds ∷ u.millis ∷ u.micros ∷ []

abbrev pub counts_of : List TimePart → List ℕ
counts_of [] = []
counts_of (part ∷ parts) = part.time_count ∷ counts_of parts

-- The numbers that are not zero.
abbrev pub nonzero : List ℕ → List ℕ
nonzero [] = []
nonzero (n ∷ ns) = if n == 0 then nonzero ns else n ∷ nonzero ns

module _ (u : Units) (split : IsSplit u) where
  pub days_eq : duration u / 86400000000 ≡ u.days
  days_eq = omega (
    arith, split.hours_small, split.minutes_small, split.seconds_small, split.millis_small,
    split.micros_small,
  )

  pub hours_eq : (duration u / 3600000000) % 24 ≡ u.hours
  hours_eq = omega (
    arith, split.hours_small, split.minutes_small, split.seconds_small, split.millis_small,
    split.micros_small,
  )

  pub minutes_eq : (duration u / 60000000) % 60 ≡ u.minutes
  minutes_eq =
      omega
        (arith, split.minutes_small, split.seconds_small, split.millis_small, split.micros_small)

  pub seconds_eq : (duration u / 1000000) % 60 ≡ u.seconds
  seconds_eq = omega (arith, split.seconds_small, split.millis_small, split.micros_small)

  pub millis_eq : (duration u / 1000) % 1000 ≡ u.millis
  millis_eq = omega (arith, split.millis_small, split.micros_small)

  pub micros_eq : rest_of_thousand (duration u) ≡ u.micros
  micros_eq =
      let positive : leb (2 ^ 63) (duration u) ≡ false = ground (arith, split.is_int64) in
      rw positive (omega (arith, split.micros_small))

  pub time_parts-numbers : counts_of (time_parts (duration u)) ≡ numbers u
  unfolding time_parts
  time_parts-numbers = rw (days_eq, hours_eq, minutes_eq, seconds_eq, millis_eq, micros_eq) refl
