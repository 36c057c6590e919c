-- ===== src/ByteConverter.antt =====
-- common/Utilities/ByteConverter.h: the conversion between the orders of the bytes of a number. The
-- memory is a function from addresses to bytes.
pub mod Reversal
mod Tests
use warhead_fix.Base.{
  ℕ, zero, suc, ◌+◌, ◌-◌, ◌*◌, ◌/◌, ◌%◌, ◌^◌, ◌≤◌, ◌<◌, min, ◌≡◌, refl, sym, ap, ap₂, subst, ◌∙◌,
  ◌≢◌, ◌↔◌, ◌⊎◌, inl, inr, Bool, true, false, not, ◌&&◌, ◌||◌, Option, none, some, List, [], ◌∷◌,
  ◌++◌, append-nil, append_assoc, arith, ltb, leb, ◌==◌, if◌then◌else◌, ltb→lt, lt→ltb, le→not-ltb,
  leb→le, le→leb, lt→not-leb, ==_iff, Bool-cases, Option-cases, length, take, drop, replicate,
  length-append, length-take, length-drop, length-replicate, take-append-drop, take-append,
  drop-append, take-append_le, drop-append_le, take_all, take-take, drop-drop, drop-take, drop_all,
  take-splice, drop-splice, take-drop-splice, drop_behind-splice, size_mod, add_size, sub_size,
  resize, copy_out, splice, copy_in, length-resize, length-splice, copy_out-some, copy_in-some,
}

-- `std::swap(*val, *other)`
unfoldable pub swap_bytes : ℕ → ℕ → (ℕ → ℕ) → ℕ → ℕ
swap_bytes val other memory p =
    if p == val then memory other else if p == other then memory val else memory p

-- `convert<T>(val)`
unfoldable pub convert : ℕ → ℕ → (ℕ → ℕ) → ℕ → ℕ
convert zero val memory = memory
convert (suc zero) val memory = memory
convert (suc (suc size)) val memory =
    convert size (val + 1) (swap_bytes val (val + suc size) memory)

-- `EndianConvert` of a value of `size` bytes, by the order of the machine.
unfoldable pub endian_convert : (big_endian : Bool) (size val : ℕ) (memory : ℕ → ℕ) → ℕ → ℕ
endian_convert true size val memory = convert size val memory
endian_convert false size val memory = memory

-- `EndianConvertReverse`
unfoldable pub endian_convert_reverse : (big_endian : Bool) (size val : ℕ) (memory : ℕ → ℕ) → ℕ → ℕ
endian_convert_reverse true size val memory = memory
endian_convert_reverse false size val memory = convert size val memory
