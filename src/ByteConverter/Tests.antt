-- ===== src/ByteConverter/Tests.antt =====
-- A number of four bytes on a machine with the high byte first.
use warhead_fix.Base.{ℕ, ◌≡◌, refl, inr, true, [], ◌∷◌, arith}
use mathlib.Core.List.{reverse}
use warhead_fix.ByteBuffer.Numbers.{to_bytes}
use warhead_fix.ByteConverter.{endian_convert, convert, swap_bytes}
use warhead_fix.ByteConverter.Reversal.{bytes_at, endian_convert-to_bytes}

-- The address is the byte.
abbrev memory : ℕ → ℕ
memory p = p

number : bytes_at 4 1 memory ≡ reverse (to_bytes 4 16909060)
unfolding to_bytes
number = refl

endian_convert-to_bytes_example :
    (bytes_at 4 1 (endian_convert true 4 1 memory) ≡ to_bytes 4 16909060)
    × (endian_convert true 4 1 memory 9 ≡ 9)
endian_convert-to_bytes_example =
    endian_convert-to_bytes true 4 1 16909060 9 memory number (inr (omega arith))

converted : bytes_at 3 5 (convert 3 5 memory) ≡ 7 ∷ 6 ∷ 5 ∷ []
unfolding convert swap_bytes
converted = refl
