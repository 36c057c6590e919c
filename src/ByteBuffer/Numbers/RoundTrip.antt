-- ===== src/ByteBuffer/Numbers/RoundTrip.antt =====
-- A number written to a ByteBuffer is read back.
use native.Mathlib.Nat.{pow-suc}
use warhead_fix.Base.{
  ℕ, zero, suc, ◌+◌, ◌/◌, ◌^◌, ◌≤◌, ◌<◌, ◌≡◌, refl, sym, ap, ap₂, ◌∙◌, List, arith, length, take,
  drop, length-resize,
}
use warhead_fix.ByteBuffer.{ByteBuffer, ok, size, max_size, set_rpos}
use warhead_fix.ByteBuffer.Numbers.{to_bytes, of_bytes, append_value, read_value}
use warhead_fix.ByteBuffer.Appending.{appended, append_lem, length-appended, take-drop-appended}
use warhead_fix.ByteBuffer.Reading.{read_value_lem}

pub length-to_bytes : (w v : ℕ) → length (to_bytes w v) ≡ w
unfolding to_bytes
length-to_bytes zero v = refl
length-to_bytes (suc w) v = ap suc (length-to_bytes w (v / 256))

pub of_bytes-to_bytes : (w v : ℕ) → v < 256 ^ w → of_bytes (to_bytes w v) ≡ v
unfolding to_bytes of_bytes
of_bytes-to_bytes zero v h = omega arith
of_bytes-to_bytes (suc w) v h =
    omega (arith, of_bytes-to_bytes w (v / 256) (omega (arith, pow-suc 256 w)))

-- A number that is appended with a width of one to eight bytes, and fits it, is read back from the
-- old write position, and both positions end behind it. The buffer has less than 10000000 bytes,
-- and its write position is inside.
pub number_round_trip :
    (w v : ℕ) (b : ByteBuffer)
    → 0 < w
    → w ≤ 8
    → v < 256 ^ w
    → b.wpos ≤ size b
    → size b < max_size
    → (b' : ByteBuffer) × (append_value w v b ≡ ok tt b')
      × (read_value w (set_rpos b' b.wpos) ≡ ok v (set_rpos b' b'.wpos))
      × (b'.wpos ≡ b.wpos + w)
unfolding append_value set_rpos
number_round_trip w v b positive narrow fits within room = (
  b',
  append_lem b bytes (omega (arith, width)) room (omega (arith, width)),
  read_value_lem w (record b' { rpos = b.wpos }) (omega (arith, width, whole)) small
      ∙ ap₂ ok value (ap (λ n. set_rpos b' (b.wpos + n)) (sym width)),
  ap (◌+◌ b.wpos) width,
)
  where
    bytes : List ℕ
    bytes = to_bytes w v

    b' : ByteBuffer
    b' = appended b bytes

    width : length bytes ≡ w
    width = length-to_bytes w v

    whole : b.wpos + length bytes ≤ size b'
    whole = ground (arith, length-appended b bytes, length-resize b.storage (b.wpos + length bytes))

    small : size b' < 2 ^ 64
    small =
        ground
          (arith, width, length-appended b bytes, length-resize b.storage (b.wpos + length bytes))

    value : of_bytes (take w (drop b.wpos b'.storage)) ≡ v
    value =
        ap of_bytes
          (ap (λ n. take n (drop b.wpos b'.storage)) (sym width) ∙ take-drop-appended b bytes)
        ∙ of_bytes-to_bytes w v fits
