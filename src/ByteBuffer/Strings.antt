-- ===== src/ByteBuffer/Strings.antt =====
-- ByteBuffer.h and ByteBuffer.cpp: texts that end in a zero byte. `utf8::is_valid` belongs to a
-- library and is a parameter.
pub mod Reference
pub mod RoundTrip
use warhead_fix.Base.{
  ℕ, zero, suc, ◌+◌, ◌-◌, ◌*◌, ◌/◌, ◌%◌, ◌^◌, ◌≤◌, ◌<◌, min, ◌≡◌, refl, sym, ap, ap₂, subst, ◌∙◌,
  ◌≢◌, ◌↔◌, ◌⊎◌, inl, inr, Bool, true, false, not, ◌&&◌, ◌||◌, Option, none, some, List, [], ◌∷◌,
  ◌++◌, append-nil, append_assoc, arith, ltb, leb, ◌==◌, if◌then◌else◌, ltb→lt, lt→ltb, le→not-ltb,
  leb→le, le→leb, lt→not-leb, ==_iff, Bool-cases, Option-cases, length, take, drop, replicate,
  length-append, length-take, length-drop, length-replicate, take-append-drop, take-append,
  drop-append, take-append_le, drop-append_le, take_all, take-take, drop-drop, drop-take, drop_all,
  take-splice, drop-splice, take-drop-splice, drop_behind-splice, size_mod, add_size, sub_size,
  resize, copy_out, splice, copy_in, length-resize, length-splice, copy_out-some, copy_in-some,
}
use warhead_fix.ByteBuffer.{
  ByteBuffer, Outcome, ok, err, Method, invalid_value, endless, string_kind, ◌>>=◌, ◌>>◌, throw,
  return, this, size, append,
}
use warhead_fix.ByteBuffer.Numbers.{read_value, append_value}

-- `operator<<(std::string_view)`, to which the other text operators go
unfoldable pub append_string : List ℕ → Method (Unit {0})
append_string text = do if length text == 0 then return tt else append text; append_value 1 0

-- The loop of `ReadCString`: `value` holds what was read so far.
unfoldable pub read_chars : ℕ → List ℕ → Method (List ℕ)
read_chars zero value b = err endless b
read_chars (suc fuel) value b =
    let rest =
      (do c ← read_value 1; if c == 0 then return value else read_chars fuel (value ++ c ∷ [])) b in
    if ltb b.rpos (size b) then rest else ok value b

module _ (is_valid_utf8 : List ℕ → Bool) where
  -- `ReadCString(bool requireValidUtf8)`
  unfoldable pub read_c_string : Bool → Method (List ℕ)
  read_c_string require_valid_utf8 = do
    b ← this
    value ← read_chars (size b - b.rpos + 1) []
    if require_valid_utf8 && not (is_valid_utf8 value)
        then throw (invalid_value string_kind value)
        else return value

  -- `operator>>(std::string&)`, `read<std::string>`
  unfoldable pub read_string : Method (List ℕ)
  unfolding read_c_string
  read_string = read_c_string true

  -- `read_skip<std::string>` and the two for pointers to characters
  unfoldable pub read_skip_string : Method (Unit {0})
  unfolding read_string
  read_skip_string = do temp ← read_string; return tt
