-- ===== src/ByteBuffer/Guid/Packing.antt =====
-- The loop of `appendPackGUID` against the bytes of the identifier.
use Prim.Native.Nat.{bit_and, bit_or}
use native.Mathlib.Nat.{pow-suc, pow-le-pow_right}
use warhead_fix.Base.{
  ℕ, zero, suc, ◌+◌, ◌*◌, ◌/◌, ◌%◌, ◌^◌, ◌≤◌, ◌<◌, ◌≡◌, refl, ap, ap₂, ◌∙◌, inl, inr, false, some,
  List, [], ◌∷◌, ◌++◌, append-nil, append_assoc, arith, ◌==◌, Bool-cases,
}
use warhead_fix.Base.Bits.{bit_and_mask, bit_or_disjoint}
use warhead_fix.ByteBuffer.Guid.{pack_guid}
use warhead_fix.ByteBuffer.Guid.Digits.{
  nonzero_bytes, mark_of, nonzero_bytes-zero, mark_of-zero, skip_step, keep_step, two-pow-add-one,
}

low_byte : (g : ℕ) → bit_and g 0xff ≡ g % 256
low_byte g = bit_and_mask 8 g 0xff refl

set_bit : (i mark : ℕ) → i < 8 → mark < 2 ^ i → bit_or mark (2 ^ i % 256) ≡ mark + 2 ^ i
set_bit i mark small fresh =
    ap (bit_or mark)
      (omega (arith, pow-le-pow_right {n = 2} (omega arith) {i = i} {j = 7} (omega arith)))
    ∙ bit_or_disjoint i mark 1 fresh
    ∙ omega arith

-- What is left is zero: the loop ends, and there is nothing more to write.
done_lem :
    (n i mark : ℕ) (bytes : List ℕ)
    → some (mark ∷ bytes) ≡ some ((mark + mark_of n 0 * 2 ^ i) ∷ (bytes ++ nonzero_bytes n 0))
done_lem n i mark bytes =
    rw (nonzero_bytes-zero n, append-nil bytes, mark_of-zero n)
      (ap (λ m. some (m ∷ bytes)) (omega arith))

pub pack_guid_lem :
    (fuel n i g mark : ℕ) (bytes : List ℕ)
    → n < fuel
    → i + n ≤ 8
    → g < 256 ^ n
    → mark < 2 ^ i
    → pack_guid fuel i g mark bytes
      ≡ some ((mark + mark_of n g * 2 ^ i) ∷ (bytes ++ nonzero_bytes n g))
unfolding pack_guid
pack_guid_lem zero n i g mark bytes enough rounds fits fresh = absurd (omega arith)
pack_guid_lem (suc fuel) n i zero mark bytes enough rounds fits fresh = done_lem n i mark bytes
pack_guid_lem (suc fuel) zero i (suc g) mark bytes enough rounds fits fresh = absurd (omega arith)
pack_guid_lem (suc fuel) (suc n) i (suc g) mark bytes enough rounds fits fresh =
    elim (Bool-cases (suc g % 256 == 0)) [
      | inl skip ↦
          rw
            (
              low_byte (suc g),
              running,
              skip,
              (skip_step n (suc g) skip).0,
              (skip_step n (suc g) skip).1,
            )
            (pack_guid_lem fuel n (i + 1) (suc g / 256) mark bytes (omega arith) (omega arith)
                fits_rest (omega (arith, doubled))
              ∙ ap (λ m. some (m ∷ (bytes ++ nonzero_bytes n (suc g / 256))))
                  (omega (arith, higher)))
      | inr keep ↦
          rw
            (
              low_byte (suc g),
              running,
              keep,
              (keep_step n (suc g) keep).0,
              (keep_step n (suc g) keep).1,
              set_bit i mark (omega arith) fresh,
            )
            (pack_guid_lem fuel n (i + 1) (suc g / 256) (mark + 2 ^ i) (bytes ++ (suc g % 256) ∷ [])
                (omega arith) (omega arith) fits_rest (omega (arith, doubled))
              ∙ ap₂ (λ m l. some (m ∷ l)) (omega (arith, higher))
                  (append_assoc bytes ((suc g % 256) ∷ []) (nonzero_bytes n (suc g / 256))))
    ]
  where
    running : (suc g == 0) ≡ false
    running = ground arith

    doubled : 2 ^ (i + 1) ≡ 2 * 2 ^ i
    doubled = two-pow-add-one i

    higher : mark_of n (suc g / 256) * 2 ^ (i + 1) ≡ mark_of n (suc g / 256) * (2 * 2 ^ i)
    higher = ap (◌*◌ (mark_of n (suc g / 256))) doubled

    fits_rest : suc g / 256 < 256 ^ n
    fits_rest = omega (arith, pow-suc 256 n)

-- append_pack_guid
pub packed : (g : ℕ) → g < 2 ^ 64 → pack_guid 9 0 g 0 [] ≡ some (mark_of 8 g ∷ nonzero_bytes 8 g)
packed g h =
    pack_guid_lem 9 8 0 g 0 [] (omega arith) (omega arith) h (omega arith)
    ∙ ap (λ m. some (m ∷ nonzero_bytes 8 g)) (omega arith)
