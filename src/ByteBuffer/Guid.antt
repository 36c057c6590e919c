-- ===== src/ByteBuffer/Guid.antt =====
-- ByteBuffer.h, packed identifiers: a mark byte with a bit for each byte that is not zero, and those
-- bytes, lowest first.
pub mod Digits
pub mod Packing
pub mod RoundTrip
use Prim.Native.Nat.{bit_and, bit_or}
use warhead_fix.Base.{
  ℕ, zero, suc, ◌+◌, ◌-◌, ◌*◌, ◌/◌, ◌%◌, ◌^◌, ◌≤◌, ◌<◌, min, ◌≡◌, refl, sym, ap, ap₂, subst, ◌∙◌,
  ◌≢◌, ◌↔◌, ◌⊎◌, inl, inr, Bool, true, false, not, ◌&&◌, ◌||◌, Option, none, some, List, [], ◌∷◌,
  ◌++◌, append-nil, append_assoc, arith, ltb, leb, ◌==◌, if◌then◌else◌, ltb→lt, lt→ltb, le→not-ltb,
  leb→le, le→leb, lt→not-leb, ==_iff, Bool-cases, Option-cases, length, take, drop, replicate,
  length-append, length-take, length-drop, length-replicate, take-append-drop, take-append,
  drop-append, take-append_le, drop-append_le, take_all, take-take, drop-drop, drop-take, drop_all,
  take-splice, drop-splice, take-drop-splice, drop_behind-splice, size_mod, add_size, sub_size,
  resize, copy_out, splice, copy_in, length-resize, length-splice, copy_out-some, copy_in-some,
}
use warhead_fix.ByteBuffer.{
  ByteBuffer, Outcome, ok, err, Method, Error, position, endless, ◌>>=◌, ◌>>◌, throw, return, this,
  size, append,
}
use warhead_fix.ByteBuffer.Numbers.{read_value}

-- The loop of `appendPackGUID`: `mark` is packGUID[0], `bytes` what follows it. `none` is a loop that
-- is not done when its fuel is.
unfoldable pub pack_guid : ℕ → ℕ → ℕ → ℕ → List ℕ → Option (List ℕ)
pack_guid zero i guid mark bytes = none
pack_guid (suc fuel) i guid mark bytes =
    let skip = bit_and guid 0xff == 0 in
    let rest =
      pack_guid fuel (i + 1) (guid / 256) (if skip then mark else bit_or mark (2 ^ i % 256))
        (if skip then bytes else bytes ++ bit_and guid 0xff ∷ []) in
    if guid == 0 then some (mark ∷ bytes) else rest

-- `appendPackGUID(uint64 guid)`
unfoldable pub append_pack_guid : ℕ → Method (Unit {0})
append_pack_guid guid = elim (pack_guid 9 0 guid 0 []) [
  | none ↦ throw endless
  | some bytes ↦ append bytes
]

-- `if (rpos() + 1 > size()) throw`
unfoldable pub check_readable : Method (Unit {0})
check_readable b =
    if ltb (size b) (add_size b.rpos 1) then err (position false b.rpos 1 (size b)) b else ok tt b

-- The body of the loop of `readPackGUID` at a bit that is set.
unfoldable pub read_guid_byte : ℕ → ℕ → Method ℕ
unfolding check_readable
read_guid_byte i guid = do
  check_readable
  bit ← read_value 1
  return (bit_or guid (bit * 2 ^ (i * 8) % 2 ^ 64))

-- The loop of `readPackGUID`, by the rounds left.
unfoldable pub read_guid_bytes : ℕ → ℕ → ℕ → ℕ → Method ℕ
read_guid_bytes zero i guidmark guid = return guid
read_guid_bytes (suc rounds) i guidmark guid = do
  guid' ← (if bit_and guidmark (2 ^ i) == 0 then return guid else read_guid_byte i guid)
  read_guid_bytes rounds (i + 1) guidmark guid'

-- `readPackGUID(uint64& guid)`
unfoldable pub read_pack_guid : Method ℕ
unfolding check_readable
read_pack_guid = do check_readable; guidmark ← read_value 1; read_guid_bytes 8 0 guidmark 0
