-- ===== src/ByteBuffer/PackedTime.antt =====
-- ByteBuffer.cpp: a date and time in 32 bits. `localtime`, `mktime` and the clock are parameters. The
-- fields are those of a time from 2000 on, where no shift meets a negative number.
pub mod RoundTrip
use Prim.Native.Nat.{bit_and, bit_or}
use warhead_fix.Base.{
  ℕ, zero, suc, ◌+◌, ◌-◌, ◌*◌, ◌/◌, ◌%◌, ◌^◌, ◌≤◌, ◌<◌, min, ◌≡◌, refl, sym, ap, ap₂, subst, ◌∙◌,
  ◌≢◌, ◌↔◌, ◌⊎◌, inl, inr, Bool, true, false, not, ◌&&◌, ◌||◌, Option, none, some, List, [], ◌∷◌,
  ◌++◌, append-nil, append_assoc, arith, ltb, leb, ◌==◌, if◌then◌else◌, ltb→lt, lt→ltb, le→not-ltb,
  leb→le, le→leb, lt→not-leb, ==_iff, Bool-cases, Option-cases, length, take, drop, replicate,
  length-append, length-take, length-drop, length-replicate, take-append-drop, take-append,
  drop-append, take-append_le, drop-append_le, take_all, take-take, drop-drop, drop-take, drop_all,
  take-splice, drop-splice, take-drop-splice, drop_behind-splice, size_mod, add_size, sub_size,
  resize, copy_out, splice, copy_in, length-resize, length-splice, copy_out-some, copy_in-some,
}
use warhead_fix.Timer.Calendar.{Tm, time_breakdown}
use warhead_fix.ByteBuffer.{ByteBuffer, Outcome, ok, err, Method, ◌>>=◌, ◌>>◌, return}
use warhead_fix.ByteBuffer.Numbers.{read_value, append_value}

-- The argument of `append<uint32>`.
unfoldable pub packed_date : Tm → ℕ
packed_date lt =
    bit_or
      (bit_or
        (bit_or
          (bit_or (bit_or ((lt.year - 100) * 2 ^ 24) (lt.mon * 2 ^ 20)) ((lt.mday - 1) * 2 ^ 14))
          (lt.wday * 2 ^ 11))
        (lt.hour * 2 ^ 6))
      lt.min
    % 2 ^ 32

-- The fields that `ReadPackedTime` sets in a `tm` of zeros.
unfoldable pub unpacked_date : ℕ → Tm
unpacked_date date = record {
  sec = 0;
  min = bit_and date 0x3f;
  hour = bit_and (date / 2 ^ 6) 0x1f;
  mday = bit_and (date / 2 ^ 14) 0x3f + 1;
  mon = bit_and (date / 2 ^ 20) 0xf;
  year = bit_and (date / 2 ^ 24) 0x1f + 100;
  wday = 0;
  yday = 0;
  isdst = 0;
}

-- `AppendPackedTime(time_t time)`
unfoldable pub append_packed_time : (epoch_time : ℕ) (localtime : ℕ → Tm) → ℕ → Method (Unit {0})
unfolding packed_date
append_packed_time epoch_time localtime time =
    append_value 4 (packed_date (time_breakdown epoch_time localtime time))

-- `ReadPackedTime()`
unfoldable pub read_packed_time : (mktime : Tm → ℕ) → Method ℕ
unfolding unpacked_date
read_packed_time mktime = do date ← read_value 4; return (mktime (unpacked_date date) % 2 ^ 32)
