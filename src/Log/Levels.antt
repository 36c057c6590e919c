-- ===== src/Log/Levels.antt =====
-- The lowest level of all loggers, which `ShouldLog` looks at first.
use warhead_fix.Base.{
  ℕ, ◌+◌, ◌≡◌, refl, ◌∙◌, inl, inr, Bool, false, not, ◌&&◌, Option, none, some, List, [], ◌∷◌, ◌++◌,
  arith, ltb, leb, ◌==◌, Bool-cases, Option-cases, length,
}
use warhead_fix.Config.{ConfigMgr}
use warhead_fix.Log.{LogLevel, disabled, Logger, Spdlog, Log, should_log, logger_root}
use warhead_fix.Log.Ancestors.{first_logger, nearest_logger, get_logger_by_type_lem, before_dots}
use warhead_fix.Log.Loading.{load_from_config}
use warhead_fix.Log.Bounds.{IsBounded, load_from_config-IsBounded}

-- Whether a logger takes messages of a level.
unfoldable pub wanted : Option Logger → LogLevel → Bool
wanted none level = false
wanted (some logger) level = not (logger.level == disabled) && leb logger.level level

first_logger-get :
    (get : List ℕ → Option Logger) (names : List (List ℕ)) (l : Logger)
    → first_logger get names ≡ some l
    → (name : List ℕ) × (get name ≡ some l)
unfolding first_logger
first_logger-get get [] l e = absurd (ground (arith, e))
first_logger-get get (name ∷ names) l e = elim (Option-cases (get name)) [
  | inl missing ↦ first_logger-get get names l (rw (first_logger, missing) at e)
  | inr found ↦ let (l', e') = found in (name, e' ∙ rw (first_logger, e') at e)
]

module _ (spdlog : Spdlog) where
  -- After LoadFromConfig, ShouldLog returns, and says that a message is wanted exactly if the
  -- nearest logger of its type is not disabled and has a level at most that of the message: the
  -- test of the lowest level changes no answer.
  pub should_log_lem :
      (config : ConfigMgr) (log log' : Log spdlog) (name : List ℕ) (level : LogLevel)
      → load_from_config spdlog config log ≡ some log'
      → should_log spdlog name level log'
        ≡ some (wanted (nearest_logger (λ n. spdlog.get n log'.registry) name) level)
  unfolding should_log wanted IsBounded nearest_logger
  should_log_lem config log log' name level loaded =
      let get : List ℕ → Option Logger = λ n. spdlog.get n log'.registry in
      let bounded = load_from_config-IsBounded spdlog config log log' loaded in
      elim (Bool-cases (ltb level log'.lowest_log_level)) [
        | inl low ↦ elim (Option-cases (nearest_logger get name)) [
          | inl missing ↦ rw (should_log, low, missing) refl
          | inr found ↦
              let (l, e) = found in
              let (n, there) =
                first_logger-get get (name ∷ (before_dots name ++ logger_root ∷ [])) l e in
              let too_low : leb l.level level ≡ false = ground (arith, low, bounded n l there) in
              rw (should_log, low, e) (ground (arith, too_low))
        ]
        | inr high ↦ elim (Option-cases (nearest_logger get name)) [
          | inl missing ↦
              rw
                (
                  should_log,
                  high,
                  get_logger_by_type_lem (length name + 2) get name (omega arith),
                  missing,
                )
                refl
          | inr found ↦
              let (l, e) = found in
              rw
                (
                  should_log,
                  high,
                  get_logger_by_type_lem (length name + 2) get name (omega arith),
                  e,
                )
                refl
        ]
      ]
