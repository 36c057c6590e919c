-- ===== src/Log/Loading.antt =====
-- common/Logging/Log.cpp: the sinks and the loggers that the configuration describes.
use warhead_fix.Base.{
  ℕ, zero, suc, ◌+◌, ◌*◌, ◌%◌, ◌^◌, Bool, true, false, ◌||◌, Option, none, some, List, [], ◌∷◌,
  ◌++◌, ltb, leb, ◌==◌, if◌then◌else◌, length, drop,
}
use warhead_fix.Base.Options.{◌>>=◌}
use warhead_fix.Base.Texts.{codes}
use warhead_fix.Base.Bytes.{same_bytes}
use warhead_fix.Strings.Tokenize.{tokenize}
use warhead_fix.Strings.Convert.{from_string, bool_from_string}
use warhead_fix.Config.{ConfigMgr, get_text_default, get_keys_by_string}
use warhead_fix.Log.{
  LogLevel, critical, log_level_max, console, file, Sink, Logger, Spdlog, SinkList, Log,
}

unfoldable pub token_at : List (List ℕ) → ℕ → List ℕ
token_at [] position = []
token_at (token ∷ tokens) zero = token
token_at (token ∷ tokens) (suc position) = token_at tokens position

-- `GetPositionOptions` with its default; the number of tokens is cut to a byte.
unfoldable pub get_position_options : List ℕ → ℕ → List ℕ
unfolding token_at
get_position_options options position =
    let tokens = tokenize options b',' true in
    if ltb (length tokens % 256) (position + 1) then [] else token_at tokens position

unfoldable pub level_at : List ℕ → ℕ → LogLevel
unfolding get_position_options
level_at options position = elim (from_string 8 (get_position_options options position) 10) [
  | none ↦ log_level_max
  | some level ↦ level
]

-- What a `Sink.` option describes: an error that is logged, one that ends the program, or a sink.
pub data SinkOutcome : Type 0 where
  skipped : SinkOutcome
  aborted : SinkOutcome
  described : Sink → SinkOutcome

-- The file sink of `CreateSinksFromConfig`: its name, and then the options of `ABORT`.
unfoldable pub file_outcome :
    (opens : List ℕ → Bool) (logs_dir options : List ℕ) → LogLevel → List ℕ → SinkOutcome
file_outcome opens logs_dir options level pattern =
    if ltb (length (tokenize options b',' true)) 4
    then aborted
    else elim (bool_from_string (get_position_options options 4) 0) [
      | none ↦ aborted
      | some rotate_on_open ↦ elim (from_string 64 (get_position_options options 5) 10) [
        | none ↦ aborted
        | some max_size ↦ elim (from_string 64 (get_position_options options 6) 10) [
          | none ↦ aborted
          | some max_files ↦
              let name : List ℕ = logs_dir ++ get_position_options options 3 in
              if opens name
              then described (record {
                sink_type = file name ((max_size * 1048576) % 2 ^ 64) max_files rotate_on_open;
                level = level;
                pattern = pattern;
              })
              else skipped
        ]
      ]
    ]

-- `CreateSinksFromConfig` up to `AddSink`, of an option that is not empty.
unfoldable pub sink_outcome : (opens : List ℕ → Bool) (logs_dir options : List ℕ) → SinkOutcome
sink_outcome opens logs_dir options =
    let size = length (tokenize options b',' true) in
    let level = level_at options 1 in
    let pattern = get_position_options options 2 in
    if ltb size 3 || ltb 7 size
    then skipped
    else elim (from_string 8 (get_position_options options 0) 10) [
      | none ↦ skipped
      | some channel_type ↦
          if leb 2 channel_type || leb log_level_max level || (length pattern == 0)
          then skipped
          else if channel_type == 0
          then described (record { sink_type = console; level = level; pattern = pattern })
          else file_outcome opens logs_dir options level pattern
    ]

unfoldable pub find_sink : List ℕ → SinkList → Option (Option Sink)
find_sink name [] = none
find_sink name ((key, sink) ∷ sinks) =
    let rest = find_sink name sinks in if same_bytes key name then some sink else rest

unfoldable pub add_sink : List ℕ → Sink → SinkList → SinkList
add_sink name sink sinks = elim (find_sink name sinks) [
  | some there ↦ sinks
  | none ↦ (name, some sink) ∷ sinks
]

-- What `std::move` leaves in the list.
unfoldable pub moved_away : List ℕ → SinkList → SinkList
moved_away name [] = []
moved_away name ((key, sink) ∷ sinks) =
    let rest = moved_away name sinks in
    if same_bytes key name then (key, none) ∷ sinks else (key, sink) ∷ rest

-- `GetSink`: `none` is a null pointer.
unfoldable pub get_sink : List ℕ → SinkList → Option Sink × SinkList
get_sink name sinks = elim (find_sink name sinks) [
  | none ↦ (none, sinks)
  | some sink ↦ (sink, moved_away name sinks)
]

-- The loop of `CreateLoggerFromConfig` over the names of the sinks.
unfoldable pub take_sinks : List (List ℕ) → SinkList → List Sink × SinkList
take_sinks [] sinks = ([], sinks)
take_sinks (name ∷ names) sinks =
    let (sink, left) = get_sink name sinks in
    let (taken, rest) = take_sinks names left in
    elim sink [ none ↦ (taken, rest) | some s ↦ (s ∷ taken, rest) ]

module _ (spdlog : Spdlog) where
  -- `CreateSinksFromConfig`; `none` is the end of the program by `ABORT`.
  unfoldable pub create_sinks_from_config : ConfigMgr → List ℕ → Log spdlog → Option (Log spdlog)
  create_sinks_from_config config name log =
      let options = get_text_default name [] config in
      if length name == 0 || (length options == 0)
      then some log
      else elim (sink_outcome spdlog.opens log.logs_dir options) [
        | skipped ↦ some log
        | aborted ↦ none
        | described sink ↦
            some (record log { sink_list = add_sink (drop 5 name) sink log.sink_list })
      ]

  -- `spdlog::register_logger`, where what it throws is caught.
  unfoldable pub register : Logger → Log spdlog → Log spdlog
  register logger log = elim (spdlog.register_logger logger log.registry) [
    | none ↦ log
    | some registry ↦ record log { registry = registry }
  ]

  -- `CreateLoggerFromConfig` from the test of the level on.
  unfoldable pub create_logger : (name options : List ℕ) → LogLevel → Log spdlog → Log spdlog
  create_logger name options level log =
      let lowest = if ltb level log.lowest_log_level then level else log.lowest_log_level in
      let (sinks, left) =
        take_sinks (tokenize (get_position_options options 1) b' ' false) log.sink_list in
      register (record { name = name; level = level; sinks = sinks })
        (record log { lowest_log_level = lowest; sink_list = left })

  unfoldable pub create_logger_from_config : ConfigMgr → List ℕ → Log spdlog → Log spdlog
  create_logger_from_config config config_name log =
      let options = get_text_default config_name [] config in
      let level = level_at options 0 in
      if length config_name == 0
        || ((length options == 0)
            || (ltb (length (tokenize options b',' true)) 2 || leb log_level_max level))
      then log
      else create_logger (drop 7 config_name) options level log

  unfoldable pub create_sinks : ConfigMgr → List (List ℕ) → Log spdlog → Option (Log spdlog)
  create_sinks config [] log = some log
  create_sinks config (key ∷ keys) log = do
    next ← create_sinks_from_config config key log
    create_sinks config keys next

  unfoldable pub create_loggers : ConfigMgr → List (List ℕ) → Log spdlog → Log spdlog
  create_loggers config [] log = log
  create_loggers config (key ∷ keys) log =
      create_loggers config keys (create_logger_from_config config key log)

  -- `ReadSinksFromConfig` and `ReadLoggersFromConfig`
  unfoldable pub read_sinks_from_config : ConfigMgr → Log spdlog → Option (Log spdlog)
  read_sinks_from_config config log =
      create_sinks config (get_keys_by_string (codes "Sink.") config.config_options) log

  unfoldable pub read_loggers_from_config : ConfigMgr → Log spdlog → Log spdlog
  read_loggers_from_config config log =
      create_loggers config (get_keys_by_string (codes "Logger.") config.config_options) log

  unfoldable pub clear : Log spdlog → Log spdlog
  clear log = record log { registry = spdlog.shutdown log.registry; sink_list = [] }

  unfoldable pub with_separator : List ℕ → List ℕ
  with_separator [] = []
  with_separator (c ∷ []) = if c == b'/' || c == b'\\' then c ∷ [] else c ∷ b'/' ∷ []
  with_separator (c ∷ d ∷ dir) = c ∷ with_separator (d ∷ dir)

  unfoldable pub init_logs_dir : ConfigMgr → Log spdlog → Log spdlog
  init_logs_dir config log = record log {
    logs_dir = with_separator (get_text_default (codes "LogsDir") [] config);
  }

  -- `LoadFromConfig`; `none` is the end of the program.
  unfoldable pub load_from_config : ConfigMgr → Log spdlog → Option (Log spdlog)
  load_from_config config log = do
    with_sinks ←
        read_sinks_from_config config
          (init_logs_dir config (clear (record log { lowest_log_level = critical })))
    some (record (read_loggers_from_config config with_sinks) { sink_list = [] })
