-- ===== src/ByteBuffer/Strings/Reference.antt =====
-- The loop of `ReadCString` against a plain description of what it reads.
use warhead_fix.Base.{
  ℕ, zero, suc, ◌+◌, ◌-◌, ◌^◌, ◌≤◌, ◌<◌, ◌≡◌, refl, ap, ap₂, ◌∙◌, inl, inr, Bool, true, not, ◌&&◌,
  List, [], ◌∷◌, ◌++◌, append-nil, append_assoc, arith, ltb, ◌==◌, if◌then◌else◌, lt→ltb,
  le→not-ltb, Bool-cases, length, drop, length-drop,
}
use warhead_fix.ByteBuffer.{ByteBuffer, ok, err, invalid_value, string_kind, ◌>>=◌, size, if_method}
use warhead_fix.ByteBuffer.Reading.{read_byte, advance}
use warhead_fix.ByteBuffer.Strings.{read_chars, read_c_string}

-- The bytes before the first zero byte, and how many bytes go with them: the zero byte too, if any.
unfoldable pub c_text : List ℕ → List ℕ
c_text [] = []
c_text (c ∷ cs) = if c == 0 then [] else c ∷ c_text cs

unfoldable pub c_size : List ℕ → ℕ
c_size [] = 0
c_size (c ∷ cs) = if c == 0 then 1 else suc (c_size cs)

pub read_chars_lem :
    (fuel : ℕ) (value rest : List ℕ) (b : ByteBuffer)
    → drop b.rpos b.storage ≡ rest
    → size b < 2 ^ 64
    → length rest < fuel
    → read_chars fuel value b ≡ ok (value ++ c_text rest) (record b { rpos = b.rpos + c_size rest })
unfolding read_chars c_text c_size
read_chars_lem zero value rest b e small enough = absurd (omega arith)
read_chars_lem (suc fuel) value [] b e small enough =
    let stop : size b ≤ b.rpos = omega (arith, ap length e, length-drop b.rpos b.storage) in
    rw (le→not-ltb b.rpos (size b) stop, append-nil value)
      (ap (λ n. ok value (record b { rpos = n })) (omega arith))
read_chars_lem (suc fuel) value (c ∷ cs) b e small enough = elim (Bool-cases (c == 0)) [
  | inl end ↦ rw (go, read_byte b c cs e small, ◌>>=◌) (rw end (rw append-nil refl))
  | inr more ↦
      rw (go, read_byte b c cs e small, ◌>>=◌)
        (rw more (
          read_chars_lem fuel (value ++ c ∷ []) cs (record b { rpos = b.rpos + 1 })
            (advance b c cs e) small (omega arith)
          ∙ ap₂ (λ l n. ok l (record b { rpos = n })) (append_assoc value (c ∷ []) (c_text cs))
              (omega arith)))
]
  where
    go : ltb b.rpos (size b) ≡ true
    go = lt→ltb b.rpos (size b) (omega (arith, ap length e, length-drop b.rpos b.storage))

-- ReadCString on a buffer of less than 2 ^ 64 bytes ends, returns the bytes before the first zero
-- byte, or all that are left if there is none, and moves the read position behind them and the zero
-- byte; if the text must be UTF-8 and is not, it throws, with the position moved all the same.
pub read_c_string-reference :
    (is_valid_utf8 : List ℕ → Bool) (require_valid_utf8 : Bool) (b : ByteBuffer)
    → size b < 2 ^ 64
    → let rest = drop b.rpos b.storage in
      let b' = record b { rpos = b.rpos + c_size rest } in
      read_c_string is_valid_utf8 require_valid_utf8 b ≡ (
        if require_valid_utf8 && not (is_valid_utf8 (c_text rest))
        then err (invalid_value string_kind (c_text rest)) b'
        else ok (c_text rest) b')
unfolding read_c_string
read_c_string-reference is_valid_utf8 require_valid_utf8 b small =
    rw
      (
        read_chars_lem (size b - b.rpos + 1) [] (drop b.rpos b.storage) b refl small
            (omega (arith, length-drop b.rpos b.storage)),
        ◌>>=◌,
      )
      (if_method (require_valid_utf8 && not (is_valid_utf8 (c_text (drop b.rpos b.storage)))) _ _ _)
