-- ===== src/ByteBuffer/Reading.antt =====
-- What `read`, `read_skip` and `operator[]` of ByteBuffer.h return and when they throw.
use warhead_fix.Base.{
  ℕ, ◌+◌, ◌-◌, ◌^◌, ◌≤◌, ◌<◌, ◌≡◌, refl, sym, ap, ◌∙◌, inl, inr, false, List, ◌∷◌, arith, ltb, leb,
  if◌then◌else◌, Bool-cases, length, take, drop, length-drop, drop-drop, add_size, copy_out-some,
}
use warhead_fix.ByteBuffer.{ByteBuffer, ok, err, position, size, read_skip, read_bytes, ◌>>=◌}
use warhead_fix.ByteBuffer.Numbers.{read_value_at, read_value, of_bytes}

pub read_value_at_lem :
    (w pos : ℕ) (b : ByteBuffer)
    → pos + w ≤ size b
    → size b < 2 ^ 64
    → read_value_at w pos b ≡ ok (of_bytes (take w (drop pos b.storage))) b
unfolding read_value_at
read_value_at_lem w pos b h small = rw (copy_out-some b.storage pos w h) (ground arith)

pub read_value_at_fails :
    (w pos : ℕ) (b : ByteBuffer)
    → size b < pos + w
    → pos + w < 2 ^ 64
    → read_value_at w pos b ≡ err (position false pos w (size b)) b
unfolding read_value_at
read_value_at_fails w pos b h small = ground arith

pub read_value_lem :
    (w : ℕ) (b : ByteBuffer)
    → b.rpos + w ≤ size b
    → size b < 2 ^ 64
    → read_value w b
      ≡ ok (of_bytes (take w (drop b.rpos b.storage))) (record b { rpos = b.rpos + w })
unfolding read_value
read_value_lem w b h small = rw (read_value_at_lem w b.rpos b h small, ◌>>=◌) (ground arith)

pub read_value_fails :
    (w : ℕ) (b : ByteBuffer)
    → size b < b.rpos + w
    → b.rpos + w < 2 ^ 64
    → read_value w b ≡ err (position false b.rpos w (size b)) b
unfolding read_value
read_value_fails w b h small = rw (read_value_at_fails w b.rpos b h small, ◌>>=◌)

-- A byte at the read position.
pub read_byte :
    (b : ByteBuffer) (c : ℕ) (cs : List ℕ)
    → drop b.rpos b.storage ≡ c ∷ cs
    → size b < 2 ^ 64
    → read_value 1 b ≡ ok c (record b { rpos = b.rpos + 1 })
unfolding of_bytes
read_byte b c cs e small =
    read_value_lem 1 b (omega (arith, ap length e, length-drop b.rpos b.storage)) small
    ∙ ap (λ n. ok n (record b { rpos = b.rpos + 1 }))
        (ap (λ l. of_bytes (take 1 l)) e ∙ omega arith)

pub advance :
    (b : ByteBuffer) (c : ℕ) (cs : List ℕ)
    → drop b.rpos b.storage ≡ c ∷ cs
    → drop (b.rpos + 1) b.storage ≡ cs
advance b c cs e = sym (drop-drop b.storage 1 b.rpos (b.rpos + 1) refl) ∙ ap (drop 1) e

pub read_bytes_lem :
    (len : ℕ) (b : ByteBuffer)
    → b.rpos + len ≤ size b
    → size b < 2 ^ 64
    → read_bytes len b ≡ ok (take len (drop b.rpos b.storage)) (record b { rpos = b.rpos + len })
unfolding read_bytes
read_bytes_lem len b h small = rw (copy_out-some b.storage b.rpos len h) (ground arith)

-- read_skip, of less than 2 ^ 64 bytes in a buffer of less than 2 ^ 64 bytes whose read position is
-- inside, moves the position on if it stays inside and throws otherwise; but where the sum of
-- position and skip reaches 2 ^ 64 it does not throw: the position goes back to what is left of the
-- sum.
pub read_skip_cases :
    (skip : ℕ) (b : ByteBuffer)
    → b.rpos ≤ size b
    → size b < 2 ^ 64
    → skip < 2 ^ 64
    → read_skip skip b ≡ (
        if ltb (b.rpos + skip) (2 ^ 64)
        then (if leb (b.rpos + skip) (size b)
            then ok tt (record b { rpos = b.rpos + skip })
            else err (position false b.rpos skip (size b)) b)
        else ok tt (record b { rpos = b.rpos + skip - 2 ^ 64 }))
unfolding read_skip
read_skip_cases skip b within small narrow = elim (Bool-cases (ltb (b.rpos + skip) (2 ^ 64))) [
  | inl short ↦
      let e : add_size b.rpos skip ≡ b.rpos + skip = ground arith in rw (e, short) (ground arith)
  | inr wraps ↦
      let e : add_size b.rpos skip ≡ b.rpos + skip - 2 ^ 64 = ground arith in
      rw (e, wraps) (ground arith)
]
