-- ===== src/Log/Bounds.antt =====
-- The lowest level of all loggers, and the levels of the loggers that `LoadFromConfig` makes.
use warhead_fix.Base.{
  ℕ, ◌≤◌, ◌≡◌, sym, ap, subst, ◌∙◌, inl, inr, Bool, true, false, ◌||◌, none, some, List, [], ◌∷◌,
  arith, ltb, leb, ◌==◌, if◌then◌else◌, Bool-cases, Option-cases, length, drop,
}
use warhead_fix.Base.Options
use warhead_fix.Base.Texts.{codes}
use warhead_fix.Base.Bytes.{same_bytes}
use warhead_fix.Config.{ConfigMgr, get_text_default, get_keys_by_string}
use warhead_fix.Strings.Tokenize.{tokenize}
use warhead_fix.Log.{LogLevel, critical, log_level_max, Logger, Spdlog, Log}
use warhead_fix.Log.Loading.{
  level_at, get_position_options, SinkOutcome, skipped, aborted, described, sink_outcome, add_sink,
  take_sinks, register, create_logger, create_logger_from_config, create_sinks_from_config,
  create_sinks, create_loggers, read_sinks_from_config, read_loggers_from_config, init_logs_dir,
  clear, load_from_config,
}

module _ (spdlog : Spdlog) where
  -- No logger takes what the lowest level keeps out.
  unfoldable pub IsBounded : Log spdlog → Type 0
  IsBounded log =
      (name : List ℕ) (l : Logger)
      → spdlog.get name log.registry ≡ some l
      → log.lowest_log_level ≤ l.level

  register-IsBounded :
      (logger : Logger) (log : Log spdlog)
      → IsBounded log
      → log.lowest_log_level ≤ logger.level
      → IsBounded (register spdlog logger log)
  unfolding register IsBounded
  register-IsBounded logger log bounded low =
      elim (Option-cases (spdlog.register_logger logger log.registry)) [
        | inl taken ↦ rw (register, taken) bounded
        | inr made ↦ let (r, e) = made in rw (register, e) (λ name l there. still r e name l there)
      ]
    where
      still :
          (r : spdlog.Registry)
          → spdlog.register_logger logger log.registry ≡ some r
          → (name : List ℕ) (l : Logger) → spdlog.get name r ≡ some l
          → log.lowest_log_level ≤ l.level
      still r e name l there =
          let law = spdlog.get-register_logger name logger log.registry r e in
          elim (Bool-cases (same_bytes name logger.name)) [
            | inl same ↦
                let both : some logger ≡ some l = sym (rw same at law) ∙ there in
                let is_new : logger ≡ l = cc in
                subst (λ l. log.lowest_log_level ≤ l.level) is_new low
            | inr other ↦ bounded name l (sym (rw other at law) ∙ there)
          ]

  create_logger-IsBounded :
      (name options : List ℕ) (level : LogLevel) (log : Log spdlog)
      → IsBounded log
      → IsBounded (create_logger spdlog name options level log)
  unfolding create_logger IsBounded
  create_logger-IsBounded name options level log bounded =
      let lowest = if ltb level log.lowest_log_level then level else log.lowest_log_level in
      let (sinks, left) =
        take_sinks (tokenize (get_position_options options 1) b' ' false) log.sink_list in
      register-IsBounded (record { name = name; level = level; sinks = sinks })
        (record log { lowest_log_level = lowest; sink_list = left })
        (λ n l there. ground (arith, bounded n l there)) (ground arith)

  create_logger_from_config-IsBounded :
      (config : ConfigMgr) (key : List ℕ) (log : Log spdlog)
      → IsBounded log
      → IsBounded (create_logger_from_config spdlog config key log)
  unfolding create_logger_from_config
  create_logger_from_config-IsBounded config key log bounded =
      let options = get_text_default key [] config in
      elim (Bool-cases (
        length key == 0
        || ((length options == 0)
            || (ltb (length (tokenize options b',' true)) 2
                || leb log_level_max (level_at options 0))))) [
                  | inl bad ↦ rw bad bounded
                  | inr good ↦ rw good (
                      create_logger-IsBounded (drop 7 key) options (level_at options 0) log bounded)
                ]

  create_loggers-IsBounded :
      (config : ConfigMgr) (keys : List (List ℕ)) (log : Log spdlog)
      → IsBounded log
      → IsBounded (create_loggers spdlog config keys log)
  unfolding create_loggers
  create_loggers-IsBounded config [] log bounded = bounded
  create_loggers-IsBounded config (key ∷ keys) log bounded =
      create_loggers-IsBounded config keys (create_logger_from_config spdlog config key log)
        (create_logger_from_config-IsBounded config key log bounded)

  -- Making sinks leaves the loggers alone.
  outcome-registry :
      (guard : Bool) (outcome : SinkOutcome) (key : List ℕ) (log log' : Log spdlog)
      → (if guard then some log else elim outcome [
        | skipped ↦ some log
        | aborted ↦ none
        | described sink ↦
            some (record log { sink_list = add_sink (drop 5 key) sink log.sink_list })
      ])
        ≡ some log'
      → log'.registry ≡ log.registry
  outcome-registry true outcome key log log' e =
      let same : log ≡ log' = cc in ap (λ l. l.registry) (sym same)
  outcome-registry false skipped key log log' e =
      let same : log ≡ log' = cc in ap (λ l. l.registry) (sym same)
  outcome-registry false aborted key log log' e = absurd (ground (arith, e))
  outcome-registry false (described sink) key log log' e =
      let same : (record log { sink_list = add_sink (drop 5 key) sink log.sink_list }) ≡ log' =
        cc in
      ap (λ l. l.registry) (sym same)

  create_sinks_from_config-registry :
      (config : ConfigMgr) (key : List ℕ) (log log' : Log spdlog)
      → create_sinks_from_config spdlog config key log ≡ some log'
      → log'.registry ≡ log.registry
  unfolding create_sinks_from_config
  create_sinks_from_config-registry config key log log' e =
      let options = get_text_default key [] config in
      outcome-registry (length key == 0 || (length options == 0))
        (sink_outcome spdlog.opens log.logs_dir options) key log log' e

  create_sinks-registry :
      (config : ConfigMgr) (keys : List (List ℕ)) (log log' : Log spdlog)
      → create_sinks spdlog config keys log ≡ some log'
      → log'.registry ≡ log.registry
  unfolding create_sinks
  create_sinks-registry config [] log log' e =
      let same : log ≡ log' = cc in ap (λ l. l.registry) (sym same)
  create_sinks-registry config (key ∷ keys) log log' e =
      elim (Option-cases (create_sinks_from_config spdlog config key log)) [
        | inl ended ↦ let stops = rw (ended, Options.◌>>=◌) at e in absurd (ground (arith, stops))
        | inr made ↦
            let (next, e') = made in
            create_sinks-registry config keys next log' (rw (e', Options.◌>>=◌) at e)
            ∙ create_sinks_from_config-registry config key log next e'
      ]

  pub load_from_config-IsBounded :
      (config : ConfigMgr) (log log' : Log spdlog)
      → load_from_config spdlog config log ≡ some log'
      → IsBounded log'
  unfolding load_from_config read_sinks_from_config read_loggers_from_config init_logs_dir clear
      IsBounded
  load_from_config-IsBounded config log log' e =
      let start =
        init_logs_dir spdlog config (clear spdlog (record log { lowest_log_level = critical })) in
      elim (Option-cases (read_sinks_from_config spdlog config start)) [
        | inl ended ↦
            let stops = rw (load_from_config, ended, Options.◌>>=◌) at e in
            absurd (ground (arith, stops))
        | inr made ↦
            let (with_sinks, e') = made in
            let loaded : some
                  (record (read_loggers_from_config spdlog config with_sinks) { sink_list = [] })
                ≡ some log' =
              rw (load_from_config, e', Options.◌>>=◌) at e in
            let same : (record (read_loggers_from_config spdlog config with_sinks) {
              sink_list = [];
            })
                ≡ log' =
              cc in
            subst IsBounded same (loggers with_sinks e')
      ]
    where
      loggers :
          (with_sinks : Log spdlog)
          → read_sinks_from_config spdlog config (
              init_logs_dir spdlog config
                (clear spdlog (record log { lowest_log_level = critical })))
            ≡ some with_sinks
          → IsBounded
              (record (read_loggers_from_config spdlog config with_sinks) { sink_list = [] })
      loggers with_sinks e' =
          create_loggers-IsBounded config
            (get_keys_by_string (codes "Logger.") config.config_options) with_sinks
            (λ name l there.
              let no_logger =
                ap (spdlog.get name) (
                  create_sinks-registry config
                    (get_keys_by_string (codes "Sink.") config.config_options) _ with_sinks e')
                ∙ spdlog.get-shutdown name log.registry in
              absurd (ground (arith, sym no_logger ∙ there)))
