-- ===== src/Config/Values.antt =====
-- `GetOption<bool>`, which goes by way of a text, against `GetOption` of the other types.
use warhead_fix.Base.{ℕ, ◌≡◌, refl, inl, inr, Bool, List, Option-cases}
use warhead_fix.Strings.Convert.{bool_from_string}
use warhead_fix.Strings.Convert.RoundTrip.{bool_from_string-bool_to_string}
use warhead_fix.Config.{ConfigMgr, get_value_default, get_text_default, get_option, get_bool_option}
use warhead_fix.Config.Dictionary.{lookup}

-- `GetOption<bool>` returns what `GetOption` of the other types would.
pub get_bool_option-get_option :
    (name : List ℕ) (def : Bool) (mgr : ConfigMgr)
    → get_bool_option name def mgr ≡ get_option (λ text. bool_from_string text 0) name def mgr
unfolding get_bool_option get_option get_value_default get_text_default
get_bool_option-get_option name def mgr = elim (Option-cases (lookup name mgr.config_options)) [
  | inl missing ↦
      rw
        (
          get_bool_option,
          get_text_default,
          get_option,
          get_value_default,
          missing,
          bool_from_string-bool_to_string def 0,
        )
        refl
  | inr found ↦
      let (text, e) = found in
      rw (get_bool_option, get_text_default, get_option, get_value_default, e) refl
]
