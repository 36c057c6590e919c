-- ===== src/ByteConverter/Reversal.antt =====
-- ByteConverter.h reverses the bytes of a value.
use warhead_fix.Base.{
  ℕ, zero, suc, ◌+◌, ◌-◌, ◌≤◌, ◌<◌, ◌≡◌, refl, sym, ap, ap₂, ◌∙◌, ◌≢◌, ◌⊎◌, inl, inr, Bool, true,
  false, List, [], ◌∷◌, ◌++◌, arith, ◌==◌, Bool-cases,
}
use mathlib.Core.List.{reverse, reverse-append, reverse-reverse}
use warhead_fix.ByteBuffer.Numbers.{to_bytes}
use warhead_fix.ByteConverter.{swap_bytes, convert, endian_convert}

swap_bytes-first : (val other : ℕ) (memory : ℕ → ℕ) → swap_bytes val other memory val ≡ memory other
unfolding swap_bytes
swap_bytes-first val other memory = ground arith

swap_bytes-second :
    (val other : ℕ) (memory : ℕ → ℕ) → val < other → swap_bytes val other memory other ≡ memory val
unfolding swap_bytes
swap_bytes-second val other memory h = ground arith

swap_bytes-away :
    (val other p : ℕ) (memory : ℕ → ℕ)
    → p ≢ val
    → p ≢ other
    → swap_bytes val other memory p ≡ memory p
unfolding swap_bytes
swap_bytes-away val other p memory a b = ground arith

convert_outside :
    (size val : ℕ) (memory : ℕ → ℕ) (p : ℕ)
    → (p < val) ⊎ (val + size ≤ p)
    → convert size val memory p ≡ memory p
unfolding convert swap_bytes
convert_outside zero val memory p h = refl
convert_outside (suc zero) val memory p h = refl
convert_outside (suc (suc size)) val memory p (inl h) =
    convert_outside size (val + 1) (swap_bytes val (val + suc size) memory) p (inl (omega arith))
    ∙ ground arith
convert_outside (suc (suc size)) val memory p (inr h) =
    convert_outside size (val + 1) (swap_bytes val (val + suc size) memory) p (inr (omega arith))
    ∙ ground arith

convert_inside :
    (size val : ℕ) (memory : ℕ → ℕ) (i : ℕ)
    → i < size
    → convert size val memory (val + i) ≡ memory (val + (size - 1 - i))
unfolding convert swap_bytes
convert_inside zero val memory i h = absurd (omega arith)
convert_inside (suc zero) val memory i h = ap (λ n. memory (val + n)) (omega arith)
convert_inside (suc (suc size)) val memory zero h =
    ap (λ p. convert size (val + 1) (swap_bytes val (val + suc size) memory) p) (omega arith)
    ∙ convert_outside size (val + 1) (swap_bytes val (val + suc size) memory) val
        (inl (omega arith))
    ∙ swap_bytes-first val (val + suc size) memory
    ∙ ap (λ n. memory (val + n)) (omega arith)
convert_inside (suc (suc size)) val memory (suc j) h = elim (Bool-cases (j == size)) [
  | inl last ↦
      convert_outside size (val + 1) (swap_bytes val (val + suc size) memory) (val + suc j)
        (inr (ground arith))
      ∙ ap (swap_bytes val (val + suc size) memory) (ground arith)
      ∙ swap_bytes-second val (val + suc size) memory (omega arith)
      ∙ ap memory (ground arith)
  | inr more ↦
      ap (λ p. convert size (val + 1) (swap_bytes val (val + suc size) memory) p) (omega arith)
      ∙ convert_inside size (val + 1) (swap_bytes val (val + suc size) memory) j (ground arith)
      ∙ swap_bytes-away val (val + suc size) (val + 1 + (size - 1 - j)) memory
          (λ e. absurd (omega (arith, e))) (λ e. absurd (ground (arith, e)))
      ∙ ap memory (ground arith)
]

-- The bytes of a value at an address.
abbrev pub bytes_at : ℕ → ℕ → (ℕ → ℕ) → List ℕ
bytes_at zero val memory = []
bytes_at (suc size) val memory = memory val ∷ bytes_at size (val + 1) memory

bytes_at-snoc :
    (size val : ℕ) (memory : ℕ → ℕ)
    → bytes_at (suc size) val memory ≡ bytes_at size val memory ++ memory (val + size) ∷ []
bytes_at-snoc zero val memory = ap (λ p. memory p ∷ []) (omega arith)
bytes_at-snoc (suc size) val memory =
    ap (λ l. memory val ∷ l)
      (bytes_at-snoc size (val + 1) memory
        ∙ ap (λ p. bytes_at size (val + 1) memory ++ memory p ∷ []) (omega arith))

bytes_at-reverse :
    (size from val : ℕ) (converted memory : ℕ → ℕ)
    → ((i : ℕ) → i < size → converted (from + i) ≡ memory (val + (size - 1 - i)))
    → bytes_at size from converted ≡ reverse (bytes_at size val memory)
bytes_at-reverse zero from val converted memory mirror = refl
bytes_at-reverse (suc size) from val converted memory mirror =
    ap₂ (λ c l. c ∷ l)
      (ap converted (omega arith)
        ∙ mirror 0 (omega arith)
        ∙ ap (λ n. memory (val + n)) (omega arith))
      (bytes_at-reverse size (from + 1) val converted memory (λ i h.
        ap converted (omega arith)
        ∙ mirror (suc i) (omega arith)
        ∙ ap (λ n. memory (val + n)) (omega arith)))
    ∙ sym (reverse-append (bytes_at size val memory) (memory (val + size) ∷ []))
    ∙ ap reverse (sym (bytes_at-snoc size val memory))

convert-reverse :
    (size val : ℕ) (memory : ℕ → ℕ)
    → bytes_at size val (convert size val memory) ≡ reverse (bytes_at size val memory)
convert-reverse size val memory =
    bytes_at-reverse size val val (convert size val memory) memory (convert_inside size val memory)

-- The bytes of a number in the memory of a machine.
abbrev pub stored : (big_endian : Bool) (size value : ℕ) → List ℕ
stored true size value = reverse (to_bytes size value)
stored false size value = to_bytes size value

-- On a machine of either order, EndianConvert of a number leaves its bytes with the low one first,
-- which are the bytes that append writes for it, and changes no other byte.
pub endian_convert-to_bytes :
    (big_endian : Bool) (size val value p : ℕ) (memory : ℕ → ℕ)
    → bytes_at size val memory ≡ stored big_endian size value
    → (p < val) ⊎ (val + size ≤ p)
    → (bytes_at size val (endian_convert big_endian size val memory) ≡ to_bytes size value)
      × (endian_convert big_endian size val memory p ≡ memory p)
unfolding endian_convert
endian_convert-to_bytes true size val value p memory e outside = (
  convert-reverse size val memory ∙ ap reverse e ∙ reverse-reverse (to_bytes size value),
  convert_outside size val memory p outside,
)
endian_convert-to_bytes false size val value p memory e outside = (e, refl)
