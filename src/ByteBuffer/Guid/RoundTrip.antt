-- ===== src/ByteBuffer/Guid/RoundTrip.antt =====
-- A packed identifier is read back.
use Prim.Native.Nat.{bit_and, bit_or}
use native.Mathlib.Nat.{mod-eq_of_lt, one-le-pow, div-div-eq-div-mul, pow-suc}
use warhead_fix.Base.{
  ℕ, zero, suc, ◌+◌, ◌*◌, ◌/◌, ◌%◌, ◌^◌, ◌≤◌, ◌<◌, ◌≡◌, sym, ap, ap₂, ◌∙◌, inl, inr, true, false,
  List, ◌∷◌, ◌++◌, arith, ◌==◌, le→not-ltb, ==_iff, Bool-cases, length, drop, length-drop, add_size,
}
use warhead_fix.Base.Bits.{bit_and_bit, bit_or_disjoint}
use warhead_fix.ByteBuffer.{ByteBuffer, ok, ◌>>=◌, size, max_size, set_rpos}
use warhead_fix.ByteBuffer.Reading.{read_byte, advance}
use warhead_fix.ByteBuffer.Appending.{appended, append_lem, drop-appended, size-appended-le}
use warhead_fix.ByteBuffer.Guid.{
  append_pack_guid, check_readable, read_guid_byte, read_guid_bytes, read_pack_guid,
}
use warhead_fix.ByteBuffer.Guid.Digits.{
  nonzero_bytes, mark_of, skip_step, keep_step, two-pow-add-one, two-pow-mul-eight,
  length-nonzero_bytes, at_place, byte_fits, below_next, pow-add-one,
}
use warhead_fix.ByteBuffer.Guid.Packing.{packed}

check_readable_lem :
    (b : ByteBuffer) (c : ℕ) (cs : List ℕ)
    → drop b.rpos b.storage ≡ c ∷ cs
    → size b < 2 ^ 64
    → check_readable b ≡ ok tt b
unfolding check_readable
check_readable_lem b c cs e small = rw (
    le→not-ltb (size b) (add_size b.rpos 1)
      (omega (arith, ap length e, length-drop b.rpos b.storage)))

-- The bit that round `i` tests, when the bits from there on are the mark of `g`.
tested : (i mark m : ℕ) → mark / 2 ^ i ≡ m → bit_and mark (2 ^ i) ≡ m % 2 * 2 ^ i
tested i mark m e = bit_and_bit i mark ∙ ap (λ q. q % 2 * 2 ^ i) e

-- The byte of round `i` goes above the bytes of the rounds before it.
placed :
    (i acc c : ℕ)
    → i < 8
    → acc < 256 ^ i
    → c < 256
    → bit_or acc (c * 2 ^ (i * 8) % 2 ^ 64) ≡ acc + c * 256 ^ i
placed i acc c small low byte =
    ap (bit_or acc) no_wrap
    ∙ bit_or_disjoint (i * 8) acc c (rw (two-pow-mul-eight i) low)
    ∙ ap (λ t. acc + c * t) (two-pow-mul-eight i)
  where
    no_wrap : c * 2 ^ (i * 8) % 2 ^ 64 ≡ c * 2 ^ (i * 8)
    no_wrap = mod-eq_of_lt (rw (two-pow-mul-eight i) (byte_fits i c small byte))

read_guid_byte_lem :
    (i acc c : ℕ) (cs : List ℕ) (b : ByteBuffer)
    → i < 8
    → acc < 256 ^ i
    → c < 256
    → drop b.rpos b.storage ≡ c ∷ cs
    → size b < 2 ^ 64
    → read_guid_byte i acc b ≡ ok (acc + c * 256 ^ i) (record b { rpos = b.rpos + 1 })
unfolding read_guid_byte
read_guid_byte_lem i acc c cs b few low byte e small =
    rw (check_readable_lem b c cs e small, ◌>>=◌)
      (rw (read_byte b c cs e small, ◌>>=◌) (rw (placed i acc c few low byte)))

module _ (n i g mark acc : ℕ) (rest : List ℕ) (b : ByteBuffer) where
  abbrev Reads : Type 0
  Reads =
      i + n ≤ 8
      → mark / 2 ^ i ≡ mark_of n g
      → acc < 256 ^ i
      → g < 256 ^ n
      → size b < 2 ^ 64
      → drop b.rpos b.storage ≡ nonzero_bytes n g ++ rest
      → read_guid_bytes n i mark acc b
        ≡ ok (acc + g * 256 ^ i) (record b { rpos = b.rpos + length (nonzero_bytes n g) })

next_bit : (i mark m : ℕ) → mark / 2 ^ i ≡ m → mark / 2 ^ (i + 1) ≡ m / 2
next_bit i mark m e =
    ap (λ d. mark / d) (two-pow-add-one i ∙ omega arith)
    ∙ sym (div-div-eq-div-mul mark (2 ^ i) 2)
    ∙ ap (λ q. q / 2) e

skip_round :
    (n i g mark acc : ℕ) (rest : List ℕ) (b : ByteBuffer)
    → (g % 256 == 0) ≡ true
    → Reads n (i + 1) (g / 256) mark acc rest b
    → Reads (suc n) i g mark acc rest b
unfolding read_guid_bytes
skip_round n i g mark acc rest b skip ih rounds bits low fits small e =
    rw (unset, ◌>>=◌)
      (ih (omega arith) (next_bit i mark (mark_of (suc n) g) bits ∙ omega (arith, marks))
          (omega (arith, pow-add-one i)) (omega (arith, pow-suc 256 n)) small
          (e ∙ ap (λ l. l ++ rest) bytes)
        ∙ ap₂ (λ v k. ok v (record b { rpos = b.rpos + k })) value (ap length (sym bytes)))
  where
    bytes : nonzero_bytes (suc n) g ≡ nonzero_bytes n (g / 256)
    bytes = (skip_step n g skip).0

    marks : mark_of (suc n) g ≡ 2 * mark_of n (g / 256)
    marks = (skip_step n g skip).1

    zero_byte : g % 256 ≡ 0
    zero_byte = (==_iff (g % 256) 0).0 skip

    value : acc + g / 256 * 256 ^ (i + 1) ≡ acc + g * 256 ^ i
    value = omega (arith, at_place g i, ap (λ t. t * 256 ^ i) zero_byte)

    even : mark_of (suc n) g % 2 ≡ 0
    even = omega (arith, marks)

    unset : (bit_and mark (2 ^ i) == 0) ≡ true
    unset =
        (==_iff _ _).1
          (tested i mark (mark_of (suc n) g) bits ∙ ap (λ t. t * 2 ^ i) even ∙ omega arith)

keep_round :
    (n i g mark acc : ℕ) (rest : List ℕ) (b : ByteBuffer)
    → (g % 256 == 0) ≡ false
    → Reads n (i + 1) (g / 256) mark (acc + g % 256 * 256 ^ i) rest (record b { rpos = b.rpos + 1 })
    → Reads (suc n) i g mark acc rest b
unfolding read_guid_bytes
keep_round n i g mark acc rest b keep ih rounds bits low fits small e =
    rw
      (
        set,
        read_guid_byte_lem i acc (g % 256) (nonzero_bytes n (g / 256) ++ rest) b (omega arith) low
            (omega arith) here small,
        ◌>>=◌,
      )
      (ih (omega arith) (next_bit i mark (mark_of (suc n) g) bits ∙ omega (arith, marks))
          (below_next i acc (g % 256) low (omega arith)) (omega (arith, pow-suc 256 n)) small
          (advance b (g % 256) _ here)
        ∙ ap₂ (λ v k. ok v (record b { rpos = k })) value (omega (arith, ap length bytes)))
  where
    bytes : nonzero_bytes (suc n) g ≡ (g % 256) ∷ nonzero_bytes n (g / 256)
    bytes = (keep_step n g keep).0

    marks : mark_of (suc n) g ≡ 1 + 2 * mark_of n (g / 256)
    marks = (keep_step n g keep).1

    here : drop b.rpos b.storage ≡ (g % 256) ∷ (nonzero_bytes n (g / 256) ++ rest)
    here = e ∙ ap (λ l. l ++ rest) bytes

    value : acc + g % 256 * 256 ^ i + g / 256 * 256 ^ (i + 1) ≡ acc + g * 256 ^ i
    value = omega (arith, at_place g i)

    odd : mark_of (suc n) g % 2 ≡ 1
    odd = omega (arith, marks)

    set : (bit_and mark (2 ^ i) == 0) ≡ false
    set = ground (
      arith,
      tested i mark (mark_of (suc n) g) bits ∙ ap (λ t. t * 2 ^ i) odd,
      one-le-pow i 2 (omega arith),
    )

read_guid_bytes_lem :
    (n i g mark acc : ℕ) (rest : List ℕ) (b : ByteBuffer) → Reads n i g mark acc rest b
unfolding read_guid_bytes nonzero_bytes
read_guid_bytes_lem zero i g mark acc rest b rounds bits low fits small e =
    ap₂ (λ v k. ok v (record b { rpos = k })) (omega (arith, ap (λ t. t * 256 ^ i) none_left))
      (omega arith)
  where
    none_left : g ≡ 0
    none_left = omega arith
read_guid_bytes_lem (suc n) i g mark acc rest b rounds bits low fits small e =
    elim (Bool-cases (g % 256 == 0)) [
      | inl skip ↦
          skip_round n i g mark acc rest b skip
            (read_guid_bytes_lem n (i + 1) (g / 256) mark acc rest b) rounds bits low fits small e
      | inr keep ↦
          keep_round n i g mark acc rest b keep
            (read_guid_bytes_lem n (i + 1) (g / 256) mark (acc + g % 256 * 256 ^ i) rest
              (record b { rpos = b.rpos + 1 }))
            rounds bits low fits small e
    ]

-- A number of 64 bits that appendPackGUID writes is what readPackGUID reads from the old write
-- position, the two positions end at the same place, and it takes at most nine bytes. The buffer
-- has less than 10000000 bytes, and its write position is inside.
pub guid_round_trip :
    (guid : ℕ) (b : ByteBuffer)
    → guid < 2 ^ 64
    → b.wpos ≤ size b
    → size b < max_size
    → (b' : ByteBuffer) × (append_pack_guid guid b ≡ ok tt b')
      × (read_pack_guid (set_rpos b' b.wpos) ≡ ok guid (set_rpos b' b'.wpos))
      × (b'.wpos ≤ b.wpos + 9)
unfolding append_pack_guid read_pack_guid set_rpos
guid_round_trip guid b narrow within room = (
  b',
  rw (packed guid narrow, append_pack_guid)
      (append_lem b bytes (omega arith) room (omega (arith, few))),
  rw (check_readable_lem start (mark_of 8 guid) _ at_mark small, ◌>>=◌)
      (rw (read_byte start (mark_of 8 guid) _ at_mark small, ◌>>=◌)
        (read_guid_bytes_lem 8 0 guid (mark_of 8 guid) 0 tail (record start { rpos = b.wpos + 1 })
            (omega arith) (omega arith) (omega arith) narrow small
            (advance start (mark_of 8 guid) _ at_mark)
          ∙ ap₂ (λ v k. ok v (record b' { rpos = k })) (omega arith) (omega arith))),
  omega (arith, few),
)
  where
    bytes : List ℕ
    bytes = mark_of 8 guid ∷ nonzero_bytes 8 guid

    few : length (nonzero_bytes 8 guid) ≤ 8
    few = length-nonzero_bytes 8 guid

    b' : ByteBuffer
    b' = appended b bytes

    start : ByteBuffer
    start = record b' { rpos = b.wpos }

    tail : List ℕ
    tail = drop (b.wpos + length bytes) b.storage

    at_mark : drop b.wpos b'.storage ≡ mark_of 8 guid ∷ (nonzero_bytes 8 guid ++ tail)
    at_mark = drop-appended b bytes

    small : size b' < 2 ^ 64
    small = omega (arith, few, size-appended-le b bytes)
