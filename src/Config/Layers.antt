-- ===== src/Config/Layers.antt =====
-- What a file makes of the options, and the two files of `LoadAppConfigs`.
use warhead_fix.Base.{
  ℕ, ◌^◌, ◌<◌, ◌≡◌, refl, sym, ap, ◌∙◌, inl, inr, Bool, true, false, not, Option, none, some, List,
  [], ◌∷◌, ◌++◌, arith, ◌==◌, if◌then◌else◌, Bool-cases, Option-cases, length,
}
use warhead_fix.Base.Texts.{codes}
use warhead_fix.Base.Bytes.{same_bytes_refl}
use warhead_fix.Config.{
  File, ConfigMgr, finish_file, caught, parse_file, load_file, load_initial, load_additional_file,
  load_app_configs,
}
use warhead_fix.Config.Dictionary.{Options, lookup}
use warhead_fix.Config.Lines.{entries, or_else, Distinct, read_lines-none, read_lines-IsRead}
use warhead_fix.Config.Keys.{layered, add_keys-looks}

-- The names and values of the lines of a file; none if it cannot be opened or read.
unfoldable pub file_entries : File → Options
file_entries none = []
file_entries (some lines) = elim (entries lines) [ none ↦ [] | some es ↦ es ]

unfoldable pub has_entries : Options → Bool
has_entries [] = false
has_entries (e ∷ es) = true

-- A count of 32 bits does not wrap round.
unfoldable pub IsSmall : File → Type 0
IsSmall none = Unit
IsSmall (some lines) = length lines < 2 ^ 32

-- Two lists with the same names and values are both empty or both not.
has_entries-lookup :
    (es fc : Options)
    → ((key : List ℕ) → lookup key fc ≡ lookup key es)
    → has_entries es ≡ not (length fc == 0)
unfolding has_entries lookup
has_entries-lookup [] [] same = refl
has_entries-lookup [] (f ∷ fc) same =
    let absent = rw (same_bytes_refl f.0) at (same f.0) in absurd (ground (arith, absent))
has_entries-lookup (e ∷ es) [] same =
    let present = rw (same_bytes_refl e.0) at (same e.0) in absurd (ground (arith, present))
has_entries-lookup (e ∷ es) (f ∷ fc) same = ground arith

lookup-no_entries : (key : List ℕ) (fc : Options) → (length fc == 0) ≡ true → lookup key fc ≡ none
unfolding lookup
lookup-no_entries key [] e = refl
lookup-no_entries key (f ∷ fc) e = absurd (ground (arith, e))

IsLoaded : (is_optional is_reload : Bool) (es options : Options) → Bool × Options → Type 0
IsLoaded is_optional is_reload es options loaded =
    (loaded.0 ≡ has_entries es)
    × ((key : List ℕ)
        → lookup key loaded.1
          ≡ layered is_optional is_reload key (lookup key es) (lookup key options))

finish_file-empty :
    (fc : Options) (is_optional is_reload : Bool) (options : Options)
    → (length fc == 0) ≡ true
    → caught options (finish_file is_optional is_reload options (fc, length fc)) ≡ (false, options)
unfolding finish_file caught
finish_file-empty fc true is_reload options e = rw (finish_file, e) refl
finish_file-empty fc false is_reload options e = rw (finish_file, e) refl

finish_file-IsLoaded :
    (es fc : Options) (is_optional is_reload : Bool) (options : Options)
    → Distinct fc
    → ((key : List ℕ) → lookup key fc ≡ lookup key es)
    → IsLoaded is_optional is_reload es options
        (caught options (finish_file is_optional is_reload options (fc, length fc)))
unfolding IsLoaded layered caught finish_file has_entries lookup
finish_file-IsLoaded es fc is_optional is_reload options d same =
    elim (Bool-cases (length fc == 0)) [
      | inl empty ↦ rw (finish_file-empty fc is_optional is_reload options empty) (
        sym (has_entries-lookup es fc same ∙ ap not empty),
        λ key.
            ap (λ o. layered is_optional is_reload key o (lookup key options))
              (sym (lookup-no_entries key fc empty) ∙ same key),
      )
      | inr some_there ↦
          rw (finish_file, some_there)
            (
              sym (has_entries-lookup es fc same ∙ ap not some_there),
              λ key.
                  add_keys-looks is_optional is_reload key fc options d
                  ∙ ap (λ o. layered is_optional is_reload key o (lookup key options)) (same key),
            )
    ]

load_file-IsLoaded :
    (file : File) (is_optional is_reload : Bool) (options : Options)
    → IsSmall file
    → IsLoaded is_optional is_reload
        (file_entries file)
        options
        (load_file file is_optional is_reload options)
unfolding load_file parse_file file_entries has_entries IsSmall IsLoaded layered lookup caught
    Distinct or_else
load_file-IsLoaded none true is_reload options small = (refl, λ key. refl)
load_file-IsLoaded none false is_reload options small = (refl, λ key. refl)
load_file-IsLoaded (some lines) is_optional is_reload options small =
    elim (Option-cases (entries lines)) [
      | inl unread ↦
          rw (load_file, parse_file, read_lines-none lines ([], 0) unread, file_entries, unread)
            (refl, λ key. refl)
      | inr found ↦
          let (es, e) = found in
          let r = read_lines-IsRead lines es [] e tt (omega (arith, small)) in
          rw (load_file, parse_file, r.result, file_entries, e)
            (finish_file-IsLoaded es r.file_configs is_optional is_reload options r.distinct
              (λ key. r.looks key))
    ]

layered-none :
    (is_reload : Bool) (key : List ℕ) (o : Option (List ℕ)) → layered false is_reload key o none ≡ o
unfolding layered
layered-none is_reload key none = refl
layered-none is_reload key (some value) = refl

-- LoadAppConfigs succeeds if the .dist file can be read and has an option. Then an option has the
-- first value that the .conf file gives it, if the .dist file has the option too or its name has
-- Sink. or Logger. in it; otherwise it has the first value of the .dist file, if any. The .dist
-- file counts as the only one exactly if the .conf file gives no option. Both files have less than
-- 2 ^ 32 lines.
pub load_app_configs_lem :
    (files : List ℕ → File) (name key : List ℕ) (mgr : ConfigMgr)
    → let dist : Options = file_entries (files (name ++ codes ".dist")) in
      let conf : Options = file_entries (files name) in
      IsSmall (files (name ++ codes ".dist"))
      → IsSmall (files name)
      → has_entries dist ≡ true
      → let (ok, loaded) = load_app_configs files name mgr in
        (ok ≡ true)
        × (lookup key loaded.config_options
            ≡ layered true false key (lookup key conf) (lookup key dist))
        × (loaded.using_dist_config ≡ (if has_entries conf then mgr.using_dist_config else true))
unfolding load_app_configs load_initial load_additional_file lookup IsLoaded
load_app_configs_lem files name key mgr small_dist small_conf some_there =
    let initial = load_file-IsLoaded (files (name ++ codes ".dist")) false false [] small_dist in
    let options = (load_file (files (name ++ codes ".dist")) false false []).1 in
    let full = load_file-IsLoaded (files name) true false options small_conf in
    let same : lookup key options ≡ lookup key (file_entries (files (name ++ codes ".dist"))) =
      initial.1 key
      ∙ layered-none false key (lookup key (file_entries (files (name ++ codes ".dist")))) in
    let looks =
      full.1 key ∙ ap (layered true false key (lookup key (file_entries (files name)))) same in
    rw (load_app_configs, load_initial, load_additional_file, initial.0 ∙ some_there)
      (elim (Bool-cases (has_entries (file_entries (files name)))) [
        | inl given ↦ rw (full.0 ∙ given, given) (refl, looks, refl)
        | inr missing ↦ rw (full.0 ∙ missing, missing) (refl, looks, refl)
      ])
