-- ===== src/ByteBuffer/PackedTime/RoundTrip.antt =====
-- What is left of a date that was packed into 32 bits.
use Prim.Native.Nat.{bit_or}
use warhead_fix.Base.{ℕ, ◌+◌, ◌-◌, ◌*◌, ◌/◌, ◌%◌, ◌^◌, ◌≤◌, ◌<◌, ◌≡◌, refl, ap, arith}
use warhead_fix.Base.Bits.{bit_or_fields, bit_and_mask}
use warhead_fix.Timer.Calendar.{Tm, time_breakdown}
use warhead_fix.ByteBuffer.{ByteBuffer, ok, ◌>>=◌, size, max_size, set_rpos}
use warhead_fix.ByteBuffer.Numbers.RoundTrip.{number_round_trip}
use warhead_fix.ByteBuffer.PackedTime.{
  packed_date, unpacked_date, append_packed_time, read_packed_time,
}

-- A broken-down time from 2000 to 2127.
pub record InRange (lt : Tm) : Type 0 where
  pub min_lt : lt.min < 60
  pub hour_lt : lt.hour < 24
  pub mday_pos : 0 < lt.mday
  pub mday_le : lt.mday ≤ 31
  pub mon_lt : lt.mon < 12
  pub year_ge : 100 ≤ lt.year
  pub year_lt : lt.year < 228
  pub wday_lt : lt.wday < 7

join : (k q high a : ℕ) → high ≡ q * 2 ^ k → a < 2 ^ k → bit_or high a ≡ high + a
join k q high a e h = rw e (bit_or_fields k q a h)

-- The fields side by side.
packed_sum :
    (lt : Tm)
    → InRange lt
    → packed_date lt
      ≡ (lt.year - 100) * 2 ^ 24
        + lt.mon * 2 ^ 20
        + (lt.mday - 1) * 2 ^ 14
        + lt.wday * 2 ^ 11
        + lt.hour * 2 ^ 6
        + lt.min
unfolding packed_date
packed_sum lt r =
    rw
      (
        join 24 y s24 (lt.mon * 2 ^ 20) refl (omega arith),
        join 20 (y * 16 + lt.mon) s20 (d * 2 ^ 14) (omega arith) (omega arith),
        join 14 (y * 1024 + lt.mon * 64 + d) s14 (lt.wday * 2 ^ 11) (omega arith) (omega arith),
        join 11 (y * 8192 + lt.mon * 512 + d * 8 + lt.wday) s11 (lt.hour * 2 ^ 6) (omega arith)
            (omega arith),
        join 6 (y * 262144 + lt.mon * 16384 + d * 256 + lt.wday * 32 + lt.hour) s6 lt.min
            (omega arith) (omega arith),
      )
      (omega arith)
  where
    y : ℕ
    y = lt.year - 100

    d : ℕ
    d = lt.mday - 1

    s24 : ℕ
    s24 = y * 2 ^ 24

    s20 : ℕ
    s20 = s24 + lt.mon * 2 ^ 20

    s14 : ℕ
    s14 = s20 + d * 2 ^ 14

    s11 : ℕ
    s11 = s14 + lt.wday * 2 ^ 11

    s6 : ℕ
    s6 = s11 + lt.hour * 2 ^ 6

-- What a packed date gives back: no seconds, no weekday, and the year modulo 32 from 2000 on.
abbrev pub kept_fields : Tm → Tm
kept_fields lt = record lt {
  sec = 0;
  year = (lt.year - 100) % 32 + 100;
  wday = 0;
  yday = 0;
  isdst = 0;
}

unpacked-packed : (lt : Tm) → InRange lt → unpacked_date (packed_date lt) ≡ kept_fields lt
unfolding unpacked_date
unpacked-packed lt r =
    rw
      (
        bit_and_mask 6 date 0x3f refl,
        bit_and_mask 5 (date / 2 ^ 6) 0x1f refl,
        bit_and_mask 6 (date / 2 ^ 14) 0x3f refl,
        bit_and_mask 4 (date / 2 ^ 20) 0xf refl,
        bit_and_mask 5 (date / 2 ^ 24) 0x1f refl,
      )
      (ground (arith, packed_sum lt r))
  where
    date : ℕ
    date = packed_date lt

-- A time from 2000 to 2127 that AppendPackedTime writes is read by ReadPackedTime as the mktime, in
-- 32 bits, of its minute, hour, day, month and year, the seconds being dropped and the year taken
-- modulo 32 from 2000 on. It takes four bytes. The fields of the local time are in their ranges,
-- the buffer has less than 10000000 bytes, and its write position is inside.
pub packed_time_round_trip :
    (epoch_time time : ℕ) (localtime : ℕ → Tm) (mktime : Tm → ℕ) (b : ByteBuffer)
    → InRange (time_breakdown epoch_time localtime time)
    → b.wpos ≤ size b
    → size b < max_size
    → (b' : ByteBuffer) × (append_packed_time epoch_time localtime time b ≡ ok tt b')
      × (read_packed_time mktime (set_rpos b' b.wpos)
          ≡ ok
              (mktime (kept_fields (time_breakdown epoch_time localtime time)) % 2 ^ 32)
              (set_rpos b' b'.wpos))
      × (b'.wpos ≡ b.wpos + 4)
unfolding append_packed_time read_packed_time
packed_time_round_trip epoch_time time localtime mktime b r within room =
    let (b', wrote, back, moved) =
      number_round_trip 4 (packed_date lt) b (omega arith) (omega arith) narrow within room in
    (
      b',
      wrote,
      rw (back, ◌>>=◌)
          (ap (λ t. ok (mktime t % 2 ^ 32) (set_rpos b' b'.wpos)) (unpacked-packed lt r)),
      moved,
    )
  where
    lt : Tm
    lt = time_breakdown epoch_time localtime time

    narrow : packed_date lt < 256 ^ 4
    narrow = omega (arith, packed_sum lt r)
