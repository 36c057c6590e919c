-- ===== src/Log.antt =====
-- common/Logging/Log.cpp and Log.h: which logger a message goes to, and whether it is wanted. spdlog is
-- a parameter: `Spdlog` has what the code calls and what spdlog documents of it.
pub mod Ancestors
pub mod Loading
pub mod Bounds
pub mod Levels
pub mod Colors
mod Tests
use warhead_fix.Base.{
  ℕ, zero, suc, ◌+◌, ◌-◌, ◌*◌, ◌/◌, ◌%◌, ◌^◌, ◌≤◌, ◌<◌, min, ◌≡◌, refl, sym, ap, ap₂, subst, ◌∙◌,
  ◌≢◌, ◌↔◌, ◌⊎◌, inl, inr, Bool, true, false, not, ◌&&◌, ◌||◌, Option, none, some, List, [], ◌∷◌,
  ◌++◌, append-nil, append_assoc, arith, ltb, leb, ◌==◌, if◌then◌else◌, ltb→lt, lt→ltb, le→not-ltb,
  leb→le, le→leb, lt→not-leb, ==_iff, Bool-cases, Option-cases, length, take, drop, replicate,
  length-append, length-take, length-drop, length-replicate, take-append-drop, take-append,
  drop-append, take-append_le, drop-append_le, take_all, take-take, drop-drop, drop-take, drop_all,
  take-splice, drop-splice, take-drop-splice, drop_behind-splice, size_mod, add_size, sub_size,
  resize, copy_out, splice, copy_in, length-resize, length-splice, copy_out-some, copy_in-some,
}
use warhead_fix.Base.Texts.{codes}
use warhead_fix.Base.Bytes.{same_bytes}
use warhead_fix.Config.Dictionary.{Options}

-- A level is a byte: Trace 0, Debug 1, Info 2, Warning 3, Error 4, Critical 5, Disabled 6.
abbrev pub LogLevel : Type 0
LogLevel = ℕ

abbrev pub critical : LogLevel
critical = 5

abbrev pub disabled : LogLevel
disabled = 6

abbrev pub log_level_max : LogLevel
log_level_max = 7

pub data SinkType : Type 0 where
  console : SinkType
  -- a file of at most `max_size` bytes, with `max_files` older ones
  file : (name : List ℕ) (max_size max_files : ℕ) (rotate_on_open : Bool) → SinkType

pub record Sink : Type 0 where
  pub sink_type : SinkType
  pub level : LogLevel
  pub pattern : List ℕ

pub record Logger : Type 0 where
  pub name : List ℕ
  pub level : LogLevel
  pub sinks : List Sink

-- spdlog's loggers by their names. `register_logger` throws, `none`, if the name is taken;
-- `opens` tells whether the sink of a file can be made.
pub record Spdlog : Type 1 where
  pub Registry : Type 0
  pub get : List ℕ → Registry → Option Logger
  pub register_logger : Logger → Registry → Option Registry
  pub shutdown : Registry → Registry
  pub opens : List ℕ → Bool
  pub get-shutdown : (name : List ℕ) (r : Registry) → get name (shutdown r) ≡ none
  pub get-register_logger :
      (name : List ℕ) (logger : Logger) (r r' : Registry)
      → register_logger logger r ≡ some r'
      → get name r' ≡ (if same_bytes name logger.name then some logger else get name r)

-- The sinks by their names; `none` is a pointer that was moved away.
abbrev pub SinkList : Type 0
SinkList = List (List ℕ × Option Sink)

pub record Log (spdlog : Spdlog) : Type 0 where
  pub logs_dir : List ℕ
  pub lowest_log_level : LogLevel
  pub sink_list : SinkList
  pub registry : spdlog.Registry

abbrev pub logger_root : List ℕ
logger_root = codes "root"

-- `find_last_of('.')`
unfoldable pub find_last_dot : List ℕ → Option ℕ
find_last_dot [] = none
find_last_dot (c ∷ str) = elim (find_last_dot str) [
  | some i ↦ some (suc i)
  | none ↦ if c == b'.' then some 0 else none
]

unfoldable pub parent_logger : List ℕ → List ℕ
unfolding find_last_dot
parent_logger name = elim (find_last_dot name) [ none ↦ logger_root | some found ↦ take found name ]

-- `GetLoggerByType`: the outer `none` is no result within `fuel` calls.
unfoldable pub get_logger_by_type :
    (fuel : ℕ) → (List ℕ → Option Logger) → List ℕ → Option (Option Logger)
get_logger_by_type zero get name = none
get_logger_by_type (suc fuel) get name =
    let rest = get_logger_by_type fuel get (parent_logger name) in
    elim (get name) [
      | some logger ↦ some (some logger)
      | none ↦ if same_bytes name logger_root then some none else rest
    ]

-- `ShouldLog`; `none` is a `GetLoggerByType` that does not return.
unfoldable pub should_log : (spdlog : Spdlog) → List ℕ → LogLevel → Log spdlog → Option Bool
should_log spdlog name level log =
    if ltb level log.lowest_log_level
    then some false
    else elim (get_logger_by_type (length name + 2) (λ n. spdlog.get n log.registry) name) [
      | none ↦ none
      | some none ↦ some false
      | some (some logger) ↦ some (not (logger.level == disabled) && leb logger.level level)
    ]
