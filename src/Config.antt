-- ===== src/Config.antt =====
-- common/Configuration/Config.cpp: the options, the files they are read from, and their values. What is
-- logged is left out; so is the mutex, since no call of the manager makes another while it holds it.
pub mod Dictionary
pub mod Lines
pub mod Keys
pub mod Layers
pub mod Values
mod Tests
use warhead_fix.Base.{
  ℕ, zero, suc, ◌+◌, ◌-◌, ◌*◌, ◌/◌, ◌%◌, ◌^◌, ◌≤◌, ◌<◌, min, ◌≡◌, refl, sym, ap, ap₂, subst, ◌∙◌,
  ◌≢◌, ◌↔◌, ◌⊎◌, inl, inr, Bool, true, false, not, ◌&&◌, ◌||◌, Option, none, some, List, [], ◌∷◌,
  ◌++◌, append-nil, append_assoc, arith, ltb, leb, ◌==◌, if◌then◌else◌, ltb→lt, lt→ltb, le→not-ltb,
  leb→le, le→leb, lt→not-leb, ==_iff, Bool-cases, Option-cases, length, take, drop, replicate,
  length-append, length-take, length-drop, length-replicate, take-append-drop, take-append,
  drop-append, take-append_le, drop-append_le, take_all, take-take, drop-drop, drop-take, drop_all,
  take-splice, drop-splice, take-drop-splice, drop_behind-splice, size_mod, add_size, sub_size,
  resize, copy_out, splice, copy_in, length-resize, length-splice, copy_out-some, copy_in-some,
}
use warhead_fix.Base.Texts.{codes}
use warhead_fix.Base.Bytes.{same_bytes}
use warhead_fix.Strings.Tokenize.{find}
use warhead_fix.Strings.Trim.{trim}
use warhead_fix.Strings.Convert.{bool_from_string, bool_to_string}
use warhead_fix.Config.Dictionary.{Options, lookup, erase, emplace}

-- What `std::getline` does: it reads a line, or it fails otherwise than at the end of the file.
pub data ReadLine : Type 0 where
  read : List ℕ → ReadLine
  failed : ReadLine

-- What the calls of `std::getline` on a file do until the stream is not good; `none` is a file that
-- cannot be opened.
abbrev pub File : Type 0
File = Option (List ReadLine)

pub record ConfigMgr : Type 0 where
  pub filename : List ℕ
  pub config_options : Options
  pub using_dist_config : Bool

-- `std::string_view::find` of a text: whether it is found.
unfoldable pub begins_with : List ℕ → List ℕ → Bool
begins_with [] str = true
begins_with (c ∷ needle) [] = false
begins_with (c ∷ needle) (d ∷ str) = c == d && begins_with needle str

unfoldable pub contains : List ℕ → List ℕ → Bool
unfolding begins_with
contains needle [] = begins_with needle []
contains needle (c ∷ str) = begins_with needle (c ∷ str) || contains needle str

unfoldable pub is_logging_system_options : List ℕ → Bool
is_logging_system_options option_name =
    contains (codes "Sink.") option_name || contains (codes "Logger.") option_name

unfoldable pub add_key :
    (option_name option_key : List ℕ) (is_optional is_reload : Bool) → Options → Options
add_key option_name option_key is_optional is_reload options =
    let found = lookup option_name options in
    let is_new : Bool = elim found [ none ↦ true | some value ↦ false ] in
    if (is_optional && is_new) && (not (is_logging_system_options option_name) && not is_reload)
    then options
    else emplace option_name option_key (if is_new then options else erase option_name options)

-- The bytes before the first `#`.
unfoldable pub without_comment : List ℕ → List ℕ
without_comment line = elim (find b'#' line 0) [ none ↦ line | some found ↦ take found line ]

-- `std::remove` of the quotes
unfoldable pub without_quotes : List ℕ → List ℕ
without_quotes [] = []
without_quotes (c ∷ value) = let rest = without_quotes value in if c == b'"' then rest else c ∷ rest

-- The option and the value that a line sets, from the search for `=` on.
unfoldable pub assignment : List ℕ → Option (List ℕ × List ℕ)
assignment line = elim (find b'=' line 0) [
  | none ↦ none
  | some equal_pos ↦
      if equal_pos == length line
      then none
      else some (trim (take equal_pos line), without_quotes (trim (drop (equal_pos + 1) line)))
]

-- What the body of the loop of `ParseFile` reads from a line.
unfoldable pub parse_trimmed : List ℕ → Option (List ℕ × List ℕ)
parse_trimmed [] = none
parse_trimmed (c ∷ line) =
    if c == b'#' || c == b'[' then none else assignment (without_comment (c ∷ line))

unfoldable pub parse_line : List ℕ → Option (List ℕ × List ℕ)
parse_line line = parse_trimmed (trim line)

-- The end of the body of the loop: a name that is there already is skipped.
unfoldable pub add_entry : Option (List ℕ × List ℕ) → Options × ℕ → Options × ℕ
add_entry none (file_configs, count) = (file_configs, count)
add_entry (some entry) (file_configs, count) = elim (lookup entry.0 file_configs) [
  | some value ↦ (file_configs, count)
  | none ↦ (emplace entry.0 entry.1 file_configs, (count + 1) % 2 ^ 32)
]

-- The loop of `ParseFile`; `none` is the exception of a line that cannot be read.
unfoldable pub read_lines : List ReadLine → Options × ℕ → Option (Options × ℕ)
unfolding parse_line add_entry
read_lines [] file = some file
read_lines (failed ∷ lines) file = none
read_lines (read line ∷ lines) file = read_lines lines (add_entry (parse_line line) file)

unfoldable pub add_keys : Options → (is_optional is_reload : Bool) → Options → Options
add_keys [] is_optional is_reload options = options
add_keys ((entry, key) ∷ file_configs) is_optional is_reload options =
    add_keys file_configs is_optional is_reload (add_key entry key is_optional is_reload options)

-- `ParseFile` after its loop; `none` is the exception.
unfoldable pub finish_file :
    (is_optional is_reload : Bool) → Options → Options × ℕ → Option (Bool × Options)
finish_file is_optional is_reload options (file_configs, count) =
    if count == 0
    then if is_optional then some (false, options) else none
    else some (true, add_keys file_configs is_optional is_reload options)

unfoldable pub parse_file :
    File → (is_optional is_reload : Bool) → Options → Option (Bool × Options)
unfolding finish_file
parse_file none is_optional is_reload options = if is_optional then some (false, options) else none
parse_file (some lines) is_optional is_reload options = elim (read_lines lines ([], 0)) [
  | none ↦ none
  | some file ↦ finish_file is_optional is_reload options file
]

-- What is caught leaves the options as they are.
unfoldable pub caught : Options → Option (Bool × Options) → Bool × Options
caught options none = (false, options)
caught options (some loaded) = loaded

unfoldable pub load_file : File → (is_optional is_reload : Bool) → Options → Bool × Options
unfolding caught
load_file file is_optional is_reload options =
    caught options (parse_file file is_optional is_reload options)

unfoldable pub load_initial : File → (is_reload : Bool) → ConfigMgr → Bool × ConfigMgr
load_initial file is_reload mgr =
    let (ok, options) = load_file file false is_reload [] in
    (ok, record mgr { config_options = options })

unfoldable pub load_additional_file :
    File → (is_optional is_reload : Bool) → ConfigMgr → Bool × ConfigMgr
load_additional_file file is_optional is_reload mgr =
    let (ok, options) = load_file file is_optional is_reload mgr.config_options in
    (ok, record mgr { config_options = options })

-- `LoadAppConfigs`, where `files` is the file system.
unfoldable pub load_app_configs :
    (files : List ℕ → File) (init_file_name : List ℕ) → ConfigMgr → Bool × ConfigMgr
load_app_configs files init_file_name mgr =
    let named = record mgr { filename = init_file_name } in
    let (ok, initial) = load_initial (files (init_file_name ++ codes ".dist")) false named in
    if ok
    then (let (loaded, full) = load_additional_file (files init_file_name) true false initial in
        (true, if loaded then full else record full { using_dist_config = true }))
    else (false, initial)

-- `GetValueDefault` for a type that `StringTo` reads by `string_to`, and for texts.
unfoldable pub get_value_default : {T : Type 0} → (List ℕ → Option T) → List ℕ → T → ConfigMgr → T
get_value_default string_to name def mgr = elim (lookup name mgr.config_options) [
  | none ↦ def
  | some text ↦ elim (string_to text) [ none ↦ def | some value ↦ value ]
]

unfoldable pub get_text_default : List ℕ → List ℕ → ConfigMgr → List ℕ
get_text_default name def mgr = elim (lookup name mgr.config_options) [
  | none ↦ def
  | some value ↦ value
]

unfoldable pub get_option : {T : Type 0} → (List ℕ → Option T) → List ℕ → T → ConfigMgr → T
get_option string_to name def mgr = get_value_default string_to name def mgr

unfoldable pub get_bool_option : List ℕ → Bool → ConfigMgr → Bool
get_bool_option name def mgr =
    elim (bool_from_string (get_text_default name (bool_to_string def) mgr) 0) [
      | none ↦ def
      | some value ↦ value
    ]

unfoldable pub get_keys_by_string : List ℕ → Options → List (List ℕ)
get_keys_by_string name [] = []
get_keys_by_string name ((option_name, key) ∷ options) =
    let rest = get_keys_by_string name options in
    if same_bytes (take (length name) option_name) name then option_name ∷ rest else rest
