-- ===== src/Config/Keys.antt =====
-- What `AddKey` does to the value of an option, and the loop over the options of a file.
use warhead_fix.Base.{
  ℕ, ◌≡◌, refl, sym, ap, subst, ◌∙◌, inl, inr, Bool, true, false, not, ◌&&◌, Option, none, some,
  List, [], ◌∷◌, if◌then◌else◌, Bool-cases, Option-cases,
}
use warhead_fix.Base.Bytes.{same_bytes, same_bytes_refl, same_bytes→eq}
use warhead_fix.Config.{is_logging_system_options, add_key, add_keys}
use warhead_fix.Config.Dictionary.{Options, lookup, erase, emplace, lookup-erase}
use warhead_fix.Config.Lines.{Distinct}

-- The value of an option after a file that gives it the value `new`: an optional file sets an option
-- that is not there only if the logging system reads it.
unfoldable pub layered :
    (is_optional is_reload : Bool) → List ℕ → (new old : Option (List ℕ)) → Option (List ℕ)
layered is_optional is_reload name none old = old
layered is_optional is_reload name (some value) (some replaced) = some value
layered is_optional is_reload name (some value) none =
    if is_optional && (not (is_logging_system_options name) && not is_reload)
    then none
    else some value

add_key-new :
    (is_optional is_reload : Bool) (name value : List ℕ) (options : Options)
    → lookup name options ≡ none
    → add_key name value is_optional is_reload options ≡ (
        if is_optional && (not (is_logging_system_options name) && not is_reload)
        then options
        else emplace name value options)
unfolding add_key
add_key-new true is_reload name value options e = rw (add_key, e) refl
add_key-new false is_reload name value options e = rw (add_key, e) refl

add_key-found :
    (is_optional is_reload : Bool) (name value old : List ℕ) (options : Options)
    → lookup name options ≡ some old
    → add_key name value is_optional is_reload options ≡ emplace name value (erase name options)
unfolding add_key
add_key-found true is_reload name value old options e = rw (add_key, e) refl
add_key-found false is_reload name value old options e = rw (add_key, e) refl

add_key_same :
    (is_optional is_reload : Bool) (name value : List ℕ) (options : Options)
    → lookup name (add_key name value is_optional is_reload options)
      ≡ layered is_optional is_reload name (some value) (lookup name options)
unfolding layered lookup emplace
add_key_same is_optional is_reload name value options = elim (Option-cases (lookup name options)) [
  | inl fresh ↦
      rw (add_key-new is_optional is_reload name value options fresh)
        (sym (ap (layered is_optional is_reload name (some value)) fresh ∙ sym (new fresh)))
  | inr found ↦
      let (old, e) = found in
      ap (lookup name) (add_key-found is_optional is_reload name value old options e)
      ∙ first (erase name options)
      ∙ ap (layered is_optional is_reload name (some value)) (sym e)
]
  where
    first : (rest : Options) → lookup name (emplace name value rest) ≡ some value
    first rest = rw (same_bytes_refl name) refl

    new :
        lookup name options ≡ none
        → lookup name (
            if is_optional && (not (is_logging_system_options name) && not is_reload)
            then options
            else emplace name value options)
          ≡ (if is_optional && (not (is_logging_system_options name) && not is_reload)
              then none
              else some value)
    new fresh =
        elim (Bool-cases (is_optional && (not (is_logging_system_options name) && not is_reload))) [
          | inl refused ↦ rw refused fresh
          | inr taken ↦ rw taken (first options)
        ]

add_key_other :
    (is_optional is_reload : Bool) (name value key : List ℕ) (options : Options)
    → same_bytes name key ≡ false
    → lookup key (add_key name value is_optional is_reload options) ≡ lookup key options
unfolding lookup emplace
add_key_other is_optional is_reload name value key options other =
    elim (Option-cases (lookup name options)) [
      | inl fresh ↦
          ap (lookup key) (add_key-new is_optional is_reload name value options fresh) ∙ behind
      | inr found ↦
          let (old, e) = found in
          ap (lookup key) (add_key-found is_optional is_reload name value old options e)
          ∙ rw other (lookup-erase name key options other)
    ]
  where
    behind :
        lookup key (
          if is_optional && (not (is_logging_system_options name) && not is_reload)
          then options
          else emplace name value options)
        ≡ lookup key options
    behind =
        elim (Bool-cases (is_optional && (not (is_logging_system_options name) && not is_reload))) [
          | inl refused ↦ rw refused refl
          | inr taken ↦ rw (taken, other) refl
        ]

pub add_keys-looks :
    (is_optional is_reload : Bool) (key : List ℕ) (fc options : Options)
    → Distinct fc
    → lookup key (add_keys fc is_optional is_reload options)
      ≡ layered is_optional is_reload key (lookup key fc) (lookup key options)
unfolding add_keys layered lookup Distinct
add_keys-looks is_optional is_reload key [] options d = refl
add_keys-looks is_optional is_reload key ((name, value) ∷ fc) options d =
    let ih =
      add_keys-looks is_optional is_reload key fc (add_key name value is_optional is_reload options)
        d.1 in
    elim (Bool-cases (same_bytes name key)) [
      | inl same ↦
          let is_key : name ≡ key = same_bytes→eq name key same in
          let once : lookup key fc ≡ none = ap (λ k. lookup k fc) (sym is_key) ∙ d.0 in
          let added : lookup key (add_key name value is_optional is_reload options)
              ≡ layered is_optional is_reload key (some value) (lookup key options) =
            subst
              (λ k.
                lookup k (add_key name value is_optional is_reload options)
                ≡ layered is_optional is_reload k (some value) (lookup k options))
              is_key (add_key_same is_optional is_reload name value options) in
          rw same (
            ih
            ∙ ap
                (λ o.
                  layered is_optional is_reload key o
                    (lookup key (add_key name value is_optional is_reload options)))
                once
            ∙ added)
      | inr other ↦ rw other (
          ih
          ∙ ap (layered is_optional is_reload key (lookup key fc))
              (add_key_other is_optional is_reload name value key options other))
    ]
