-- ===== src/ByteBuffer/Tests.antt =====
-- ByteBuffer on short buffers.
use warhead_fix.Base.{ℕ, ◌≤◌, ◌≡◌, refl, Bool, true, ◌&&◌, List, [], ◌∷◌, arith, ltb, take, drop}
use warhead_fix.ByteBuffer.{ByteBuffer, ok, append, put, read_skip, set_rpos}
use warhead_fix.ByteBuffer.Appending.{append_writes, put_writes}
use warhead_fix.ByteBuffer.Reading.{read_skip_cases}
use warhead_fix.ByteBuffer.Numbers.{append_value, read_value}
use warhead_fix.ByteBuffer.Numbers.RoundTrip.{number_round_trip}
use warhead_fix.ByteBuffer.Strings.{append_string, read_string, read_c_string}
use warhead_fix.ByteBuffer.Strings.Reference.{read_c_string-reference, c_text, c_size}
use warhead_fix.ByteBuffer.Strings.RoundTrip.{string_round_trip}
use warhead_fix.ByteBuffer.Guid.{append_pack_guid, read_pack_guid}
use warhead_fix.ByteBuffer.Guid.RoundTrip.{guid_round_trip}
use warhead_fix.ByteBuffer.PackedTime.{append_packed_time, read_packed_time}
use warhead_fix.ByteBuffer.PackedTime.RoundTrip.{InRange, packed_time_round_trip}
use warhead_fix.Timer.Calendar.{Tm, time_breakdown}

-- Four bytes, the write position on the third.
abbrev four : ByteBuffer
four = record { rpos = 1; wpos = 2; storage = 7 ∷ 8 ∷ 0 ∷ 9 ∷ [] }

append_writes_run :
    (b' : ByteBuffer) × (append (4 ∷ 5 ∷ 6 ∷ []) four ≡ ok tt b')
    × (take 3 (drop 2 b'.storage) ≡ 4 ∷ 5 ∷ 6 ∷ [])
    × (take 2 b'.storage ≡ 7 ∷ 8 ∷ [])
    × (drop b'.wpos b'.storage ≡ drop b'.wpos (7 ∷ 8 ∷ 0 ∷ 9 ∷ []))
    × (b'.wpos ≡ 5)
    × (b'.rpos ≡ 1)
append_writes_run =
    append_writes four (4 ∷ 5 ∷ 6 ∷ []) (omega arith) (omega arith) (omega arith) (omega arith)

put_at_one :
    (b' : ByteBuffer) × (put 1 (4 ∷ 5 ∷ []) four ≡ ok tt b')
    × (take 2 (drop 1 b'.storage) ≡ 4 ∷ 5 ∷ [])
    × (take 1 b'.storage ≡ 7 ∷ [])
    × (drop 3 b'.storage ≡ 9 ∷ [])
    × (b'.wpos ≡ 2)
    × (b'.rpos ≡ 1)
put_at_one = put_writes four 1 (4 ∷ 5 ∷ []) (omega arith) (omega arith) (omega arith)

-- A skip that wraps moves the read position back.
read_skip_cases_example : read_skip 18446744073709551615 four ≡ ok tt (record four { rpos = 0 })
read_skip_cases_example =
    read_skip_cases 18446744073709551615 four (omega arith) (omega arith) (omega arith)

number_round_trip_example :
    (b' : ByteBuffer) × (append_value 4 305419896 four ≡ ok tt b')
    × (read_value 4 (set_rpos b' 2) ≡ ok 305419896 (set_rpos b' b'.wpos))
    × (b'.wpos ≡ 6)
number_round_trip_example =
    number_round_trip 4 305419896 four (omega arith) (omega arith) (omega arith) (omega arith)
      (omega arith)

-- A stand-in for the test of UTF-8: no byte above 127.
abbrev is_ascii : List ℕ → Bool
is_ascii [] = true
is_ascii (c ∷ cs) = ltb c 128 && is_ascii cs

read_c_string-reference_example :
    read_c_string is_ascii true four ≡ ok (8 ∷ []) (record four { rpos = 3 })
unfolding c_text c_size
read_c_string-reference_example = read_c_string-reference is_ascii true four (omega arith)

string_round_trip_example :
    (b' : ByteBuffer) × (append_string (70 ∷ 73 ∷ 88 ∷ []) four ≡ ok tt b')
    × (read_string is_ascii (set_rpos b' 2) ≡ ok (70 ∷ 73 ∷ 88 ∷ []) (set_rpos b' b'.wpos))
    × (b'.wpos ≡ 6)
string_round_trip_example =
    string_round_trip is_ascii (70 ∷ 73 ∷ 88 ∷ []) four
      (omega arith, (omega arith, (omega arith, tt))) refl (omega arith) (omega arith)

guid_round_trip_example :
    (b' : ByteBuffer) × (append_pack_guid 4294967297 four ≡ ok tt b')
    × (read_pack_guid (set_rpos b' 2) ≡ ok 4294967297 (set_rpos b' b'.wpos))
    × (b'.wpos ≤ 11)
guid_round_trip_example = guid_round_trip 4294967297 four (omega arith) (omega arith) (omega arith)

-- Noon of the first of May 2022, a Sunday, whatever the time, and the day of the month as the time.
abbrev noon : Tm
noon = record {
  sec = 30;
  min = 5;
  hour = 12;
  mday = 1;
  mon = 4;
  year = 122;
  wday = 0;
  yday = 120;
  isdst = 0;
}

abbrev day_time : Tm → ℕ
day_time lt = lt.mday

noon-InRange : InRange noon
noon-InRange = record {
  min_lt = omega arith;
  hour_lt = omega arith;
  mday_pos = omega arith;
  mday_le = omega arith;
  mon_lt = omega arith;
  year_ge = omega arith;
  year_lt = omega arith;
  wday_lt = omega arith;
}

packed_time_round_trip_example :
    (b' : ByteBuffer) × (append_packed_time 9 (λ _. noon) 5 four ≡ ok tt b')
    × (read_packed_time day_time (set_rpos b' 2) ≡ ok 1 (set_rpos b' b'.wpos))
    × (b'.wpos ≡ 6)
unfolding time_breakdown
packed_time_round_trip_example =
    packed_time_round_trip 9 5 (λ _. noon) day_time four noon-InRange (omega arith) (omega arith)
