-- ===== src/Log/Tests.antt =====
-- A console sink, the root logger, and a logger for the type `a`; the loggers of spdlog as a list.
use warhead_fix.Base.{
  ℕ, ◌≡◌, refl, sym, ap, inl, inr, true, false, Option, none, some, List, [], ◌∷◌, arith,
  if◌then◌else◌, Option-cases,
}
use warhead_fix.Base.Texts.{codes}
use warhead_fix.Base.Bytes.{same_bytes}
use warhead_fix.Strings.Tokenize.{find_first, shifted, find, substr, tokens_from, tokenize}
use warhead_fix.Strings.Convert.{digit_value, scan, from_chars, from_whole, from_string}
use warhead_fix.Config.{ConfigMgr, get_text_default, get_keys_by_string}
use warhead_fix.Config.Dictionary.{lookup}
use warhead_fix.Log.{Sink, console, Logger, Spdlog, Log, get_logger_by_type, should_log}
use warhead_fix.Log.Ancestors.{nearest_logger, get_logger_by_type_lem}
use warhead_fix.Log.Levels.{wanted, should_log_lem}
use warhead_fix.Log.Loading.{
  token_at, get_position_options, level_at, sink_outcome, find_sink, add_sink, moved_away, get_sink,
  take_sinks, register, create_logger, create_logger_from_config, create_sinks_from_config,
  create_sinks, create_loggers, read_sinks_from_config, read_loggers_from_config, init_logs_dir,
  with_separator, clear, load_from_config,
}

unfoldable get_listed : List ℕ → List Logger → Option Logger
get_listed name [] = none
get_listed name (logger ∷ loggers) =
    let rest = get_listed name loggers in if same_bytes name logger.name then some logger else rest

unfoldable register_listed : Logger → List Logger → Option (List Logger)
unfolding get_listed
register_listed logger loggers = elim (get_listed logger.name loggers) [
  | some there ↦ none
  | none ↦ some (logger ∷ loggers)
]

get-register_listed :
    (name : List ℕ) (logger : Logger) (r r' : List Logger)
    → register_listed logger r ≡ some r'
    → get_listed name r' ≡ (if same_bytes name logger.name then some logger else get_listed name r)
unfolding register_listed get_listed
get-register_listed name logger r r' e = elim (Option-cases (get_listed logger.name r)) [
  | inl free ↦
      let added : some (logger ∷ r) ≡ some r' = rw (register_listed, free) at e in
      let same : logger ∷ r ≡ r' = cc in ap (get_listed name) (sym same)
  | inr found ↦
      let (there, e') = found in
      let thrown = rw (register_listed, e') at e in absurd (ground (arith, thrown))
]

get_listed-nil : (name : List ℕ) → get_listed name [] ≡ none
unfolding get_listed
get_listed-nil name = refl

abbrev listed : Spdlog
listed = record {
  Registry = List Logger;
  get = get_listed;
  register_logger = register_listed;
  shutdown = λ r. [];
  opens = λ name. true;
  get-shutdown = λ name r. get_listed-nil name;
  get-register_logger = get-register_listed;
}

abbrev config : ConfigMgr
config = record {
  filename = codes "w.conf";
  config_options =
      (codes "Sink.C", codes "0,2,%v")
      ∷ (codes "Logger.root", codes "4,C")
      ∷ (codes "Logger.a", codes "2,C X")
      ∷ [];
  using_dist_config = false;
}

abbrev before : Log listed
before = record { logs_dir = []; lowest_log_level = 5; sink_list = []; registry = [] }

abbrev console_sink : Sink
console_sink = record { sink_type = console; level = 2; pattern = codes "%v" }

-- The second logger that names the sink gets none.
abbrev after : Log listed
after = record {
  logs_dir = [];
  lowest_log_level = 2;
  sink_list = [];
  registry =
      record { name = codes "a"; level = 2; sinks = [] }
      ∷ record { name = codes "root"; level = 4; sinks = console_sink ∷ [] }
      ∷ [];
}

loaded : load_from_config listed config before ≡ some after
unfolding register_listed get_listed load_from_config read_sinks_from_config
    read_loggers_from_config create_sinks create_loggers create_sinks_from_config
    create_logger_from_config create_logger register take_sinks get_sink moved_away add_sink
    find_sink sink_outcome level_at get_position_options token_at init_logs_dir with_separator clear
    lookup get_text_default get_keys_by_string from_string from_whole from_chars scan digit_value
    tokenize tokens_from find find_first shifted substr same_bytes
loaded = refl

should_log_lem_example :
    should_log listed (codes "a.b") 3 after
    ≡ some (wanted (nearest_logger (λ n. get_listed n after.registry) (codes "a.b")) 3)
should_log_lem_example = should_log_lem listed config before after (codes "a.b") 3 loaded

get_logger_by_type_lem_example :
    get_logger_by_type 5 (λ n. get_listed n after.registry) (codes "a.b")
    ≡ some (nearest_logger (λ n. get_listed n after.registry) (codes "a.b"))
get_logger_by_type_lem_example =
    get_logger_by_type_lem 5 (λ n. get_listed n after.registry) (codes "a.b") (omega arith)
