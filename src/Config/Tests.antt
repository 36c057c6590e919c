-- ===== src/Config/Tests.antt =====
-- A `.conf.dist` file, and a `.conf` file that sets one of its options, a misspelt one, and a logger.
use warhead_fix.Base.{ℕ, ◌≡◌, refl, true, false, none, some, List, [], ◌∷◌, arith, if◌then◌else◌}
use warhead_fix.Base.Texts.{codes}
use warhead_fix.Base.Bytes.{same_bytes}
use warhead_fix.Strings.Tokenize.{find_first, shifted, find}
use warhead_fix.Strings.Trim.{is_space, first_from, char_at, last_before, trim}
use warhead_fix.Config.{
  read, File, ConfigMgr, parse_line, parse_trimmed, assignment, without_comment, without_quotes,
  load_app_configs,
}
use warhead_fix.Config.Dictionary.{lookup}
use warhead_fix.Config.Lines.{entries, with_entry}
use warhead_fix.Config.Keys.{layered}
use warhead_fix.Config.Layers.{file_entries, has_entries, IsSmall, load_app_configs_lem}

option_line :
    parse_line (codes " BindIP = \"0.0.0.0\" # all") ≡ some (codes "BindIP", codes "0.0.0.0")
unfolding parse_line parse_trimmed assignment without_comment without_quotes find find_first shifted
    trim first_from last_before char_at is_space
option_line = refl

no_lines :
    (parse_line (codes "# BindIP = 1") ≡ none)
    × (parse_line (codes "[worldserver]") ≡ none)
    × (parse_line (codes "BindIP") ≡ none)
    × (parse_line (codes "  ") ≡ none)
unfolding parse_line parse_trimmed assignment without_comment without_quotes find find_first shifted
    trim first_from last_before char_at is_space
no_lines = (refl, refl, refl, refl)

abbrev dist_file : File
dist_file = some (
    read (codes "Port = 9050")
    ∷ read (codes "Threads = 1")
    ∷ read (codes "Port = 1")
    ∷ read []
    ∷ [])

abbrev conf_file : File
conf_file = some (
    read (codes "Port = 9051")
    ∷ read (codes "Thread = 2")
    ∷ read (codes "Logger.root = 4,Console")
    ∷ [])

abbrev disk : List ℕ → File
disk name = if same_bytes name (codes "w.conf") then conf_file else dist_file

abbrev fresh : ConfigMgr
fresh = record { filename = []; config_options = []; using_dist_config = false }

load_app_configs_lem_example :
    let (ok, loaded) = load_app_configs disk (codes "w.conf") fresh in
    (ok ≡ true)
    × (lookup (codes "Port") loaded.config_options
        ≡ layered true false
            (codes "Port")
            (lookup (codes "Port") (file_entries conf_file))
            (lookup (codes "Port") (file_entries dist_file)))
    × (loaded.using_dist_config ≡ (if has_entries (file_entries conf_file) then false else true))
unfolding IsSmall has_entries file_entries entries same_bytes parse_line parse_trimmed assignment
    without_comment without_quotes find find_first shifted trim first_from last_before char_at
    is_space with_entry
load_app_configs_lem_example =
    load_app_configs_lem disk (codes "w.conf") (codes "Port") fresh (omega arith) (omega arith) refl
