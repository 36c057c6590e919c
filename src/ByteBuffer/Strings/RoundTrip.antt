-- ===== src/ByteBuffer/Strings/RoundTrip.antt =====
-- A text written to a ByteBuffer is read back.
use warhead_fix.Base.{
  ℕ, ◌+◌, ◌^◌, ◌≤◌, ◌<◌, ◌≡◌, refl, sym, ap, ap₂, ◌∙◌, Bool, true, List, [], ◌∷◌, ◌++◌, arith, ◌==◌,
  if◌then◌else◌, length, take, drop, take-append-drop, drop-drop, drop-take, length-resize,
}
use warhead_fix.ByteBuffer.{ByteBuffer, ok, ◌>>=◌, size, max_size, set_rpos, append, if_method}
use warhead_fix.ByteBuffer.Numbers.{to_bytes, append_value}
use warhead_fix.ByteBuffer.Appending.{
  appended, append_lem, length-appended, take-drop-appended, before-appended, drop-appended,
}
use warhead_fix.ByteBuffer.Strings.{append_string, read_string}
use warhead_fix.ByteBuffer.Strings.Reference.{c_text, c_size, read_c_string-reference}

abbrev pub NoZero : List ℕ → Type 0
NoZero [] = Unit
NoZero (c ∷ cs) = (0 < c) × NoZero cs

c_text-append : (text rest : List ℕ) → NoZero text → c_text (text ++ 0 ∷ rest) ≡ text
unfolding c_text
c_text-append [] rest h = refl
c_text-append (c ∷ cs) rest h = ground (arith, c_text-append cs rest h.1)

c_size-append : (text rest : List ℕ) → NoZero text → c_size (text ++ 0 ∷ rest) ≡ length text + 1
unfolding c_size
c_size-append [] rest h = refl
c_size-append (c ∷ cs) rest h = ground (arith, c_size-append cs rest h.1)

-- The buffer after the text, and after its zero byte.
abbrev pub with_text : ByteBuffer → List ℕ → ByteBuffer
with_text b [] = b
with_text b (c ∷ cs) = appended b (c ∷ cs)

abbrev pub with_string : ByteBuffer → List ℕ → ByteBuffer
with_string b text = appended (with_text b text) (0 ∷ [])

pub with_text_bounds :
    (text : List ℕ) (b : ByteBuffer)
    → b.wpos ≤ size b
    → ((with_text b text).wpos ≡ b.wpos + length text)
      × ((with_text b text).wpos ≤ size (with_text b text))
      × (size (with_text b text) ≤ size b + length text)
with_text_bounds [] b within = omega arith
with_text_bounds (c ∷ cs) b within =
    ground (arith, length-appended b (c ∷ cs), length-resize b.storage (b.wpos + length (c ∷ cs)))

take-drop-with_text :
    (text : List ℕ) (b : ByteBuffer)
    → take (length text) (drop b.wpos (with_text b text).storage) ≡ text
take-drop-with_text [] b = refl
take-drop-with_text (c ∷ cs) b = take-drop-appended b (c ∷ cs)

append_text_lem :
    (text : List ℕ) (b : ByteBuffer)
    → b.wpos ≤ size b
    → size b + length text < max_size
    → (if length text == 0 then ok tt b else append text b) ≡ ok tt (with_text b text)
append_text_lem [] b within room = refl
append_text_lem (c ∷ cs) b within room =
    rw (append_lem b (c ∷ cs) (omega arith) (omega arith) (omega arith)) (ground arith)

pub append_string_lem :
    (text : List ℕ) (b : ByteBuffer)
    → b.wpos ≤ size b
    → size b + length text < max_size
    → append_string text b ≡ ok tt (with_string b text)
unfolding append_string append_value to_bytes
append_string_lem text b within room =
    rw
      (
        if_method (length text == 0) (λ b'. ok tt b') (append text) b,
        append_text_lem text b within room,
        ◌>>=◌,
      )
      (append_lem (with_text b text) (0 ∷ []) (omega arith)
        (omega (arith, with_text_bounds text b within))
        (omega (arith, with_text_bounds text b within)))

-- The second write leaves the text in place and puts a zero byte behind it.
at_text :
    (text : List ℕ) (b : ByteBuffer)
    → b.wpos ≤ size b
    → (rest : List ℕ) × (drop b.wpos (with_string b text).storage ≡ text ++ 0 ∷ rest)
at_text text b within = (
  drop ((with_text b text).wpos + 1) (with_text b text).storage,
  sym (take-append-drop (length text) (drop b.wpos whole)) ∙ ap₂ ◌++◌ kept ended,
)
  where
    whole : List ℕ
    whole = (with_string b text).storage

    moved : (with_text b text).wpos ≡ b.wpos + length text
    moved = (with_text_bounds text b within).0

    kept : take (length text) (drop b.wpos whole) ≡ text
    kept =
        sym (drop-take whole b.wpos (with_text b text).wpos (length text) moved)
        ∙ ap (drop b.wpos)
            (before-appended (with_text b text) (0 ∷ []) (with_text_bounds text b within).1)
        ∙ drop-take (with_text b text).storage b.wpos (with_text b text).wpos (length text) moved
        ∙ take-drop-with_text text b

    ended :
        drop (length text) (drop b.wpos whole)
        ≡ 0 ∷ drop ((with_text b text).wpos + 1) (with_text b text).storage
    ended =
        drop-drop whole (length text) b.wpos (with_text b text).wpos moved
        ∙ drop-appended (with_text b text) (0 ∷ [])

-- A text without a zero byte, and valid as UTF-8, that is appended is read back from the old write
-- position, and both positions end behind its zero byte. The buffer with the text has less than
-- 10000000 bytes, and its write position is inside.
pub string_round_trip :
    (is_valid_utf8 : List ℕ → Bool) (text : List ℕ) (b : ByteBuffer)
    → NoZero text
    → is_valid_utf8 text ≡ true
    → b.wpos ≤ size b
    → size b + length text < max_size
    → (b' : ByteBuffer) × (append_string text b ≡ ok tt b')
      × (read_string is_valid_utf8 (set_rpos b' b.wpos) ≡ ok text (set_rpos b' b'.wpos))
      × (b'.wpos ≡ b.wpos + length text + 1)
unfolding set_rpos read_string
string_round_trip is_valid_utf8 text b nonzero valid within room = (
  b',
  append_string_lem text b within room,
  read_c_string-reference is_valid_utf8 true (record b' { rpos = b.wpos }) small
      ∙ rw (found, c_text-append text tail nonzero, c_size-append text tail nonzero, valid)
          (ap (λ n. ok text (set_rpos b' n)) (omega (arith, with_text_bounds text b within))),
  omega (arith, with_text_bounds text b within),
)
  where
    b' : ByteBuffer
    b' = with_string b text

    tail : List ℕ
    tail = (at_text text b within).0

    found : drop b.wpos b'.storage ≡ text ++ 0 ∷ tail
    found = (at_text text b within).1

    small : size b' < 2 ^ 64
    small = ground (
      arith,
      with_text_bounds text b within,
      length-appended (with_text b text) (0 ∷ []),
      length-resize (with_text b text).storage ((with_text b text).wpos + 1),
    )
