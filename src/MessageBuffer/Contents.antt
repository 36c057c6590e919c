-- ===== src/MessageBuffer/Contents.antt =====
-- What the active bytes of a MessageBuffer are, and what each operation does to them.
use warhead_fix.Base.{
  ℕ, ◌+◌, ◌-◌, ◌*◌, ◌/◌, ◌%◌, ◌≤◌, ◌<◌, ◌≡◌, refl, sym, ap, ◌∙◌, inl, inr, none, some, List, [],
  ◌∷◌, ◌++◌, append_assoc, arith, ◌==◌, Bool-cases, length, take, drop, replicate, length-append,
  length-take, length-drop, take-append-drop, take-append, take-append_le, drop-append_le, take_all,
  drop-drop, drop-take, size_mod, add_size, sub_size, resize, splice, copy_in, length-resize,
  length-splice, copy_out-some, copy_in-some,
}
use mathlib.Core.Path.{◌≡⟨◌⟩◌, ◌∎}
use warhead_fix.MessageBuffer.{
  MessageBuffer, read_completed, active_size, remaining_space, move_front, normalize, resize_to,
  ensure_free_space, write,
}
use warhead_fix.MessageBuffer.Valid.{IsValid}

-- The bytes between the two positions.
abbrev pub active : MessageBuffer → List ℕ
active b = take (b.wpos - b.rpos) (drop b.rpos b.storage)

pub length-active : {b : MessageBuffer} → IsValid b → length (active b) ≡ b.wpos - b.rpos
length-active {b} v =
    omega
      (arith, length-take (b.wpos - b.rpos) (drop b.rpos b.storage), length-drop b.rpos b.storage)

-- What `Normalize` leaves: the active bytes at the front of the storage.
abbrev pub at_front : MessageBuffer → MessageBuffer
at_front b = record { wpos = b.wpos - b.rpos; rpos = 0; storage = splice b.storage 0 (active b) }

move_front_lem :
    {b : MessageBuffer}
    → IsValid b
    → move_front b ≡ some (record b { storage = splice b.storage 0 (active b) })
unfolding move_front
move_front_lem {b} v =
    let e : sub_size b.wpos b.rpos ≡ b.wpos - b.rpos = omega arith in
    rw (
      e,
      copy_out-some b.storage b.rpos (b.wpos - b.rpos) (omega arith),
      copy_in-some b.storage 0 (active b) (omega (arith, length-active v)),
    )

splice_nothing : (xs ys : List ℕ) → length ys ≡ 0 → splice xs 0 ys ≡ xs
splice_nothing xs [] e = refl
splice_nothing xs (y ∷ ys) e = absurd (omega arith)

splice_prefix : (xs ys : List ℕ) (n : ℕ) → n ≤ length xs → ys ≡ take n xs → splice xs 0 ys ≡ xs
splice_prefix xs ys n h e =
    rw e
      (ap (λ k. take n xs ++ drop k xs) (omega (arith, length-take n xs)) ∙ take-append-drop n xs)

-- Nothing to read: only the positions move.
splice_self : (b : MessageBuffer) → b.rpos ≡ b.wpos → splice b.storage 0 (active b) ≡ b.storage
splice_self b e =
    splice_nothing b.storage (active b)
      (omega (arith, length-take (b.wpos - b.rpos) (drop b.rpos b.storage)))

splice_front :
    (b : MessageBuffer) → IsValid b → b.rpos ≡ 0 → splice b.storage 0 (active b) ≡ b.storage
splice_front b v e =
    splice_prefix b.storage (active b) b.wpos v.within
      (ap (λ r. take (b.wpos - r) (drop r b.storage)) e ∙ ap (λ n. take n b.storage) (omega arith))

pub normalize_lem : {b : MessageBuffer} → IsValid b → normalize b ≡ some (at_front b)
unfolding normalize
normalize_lem {b} v = ground (arith, move_front_lem v, splice_self b, splice_front b v)

pub active-at_front : (b : MessageBuffer) → IsValid b → active (at_front b) ≡ active b
active-at_front b v =
    take-append (active b) (drop (0 + length (active b)) b.storage) _
      (omega (arith, length-active v))

pub at_front-IsValid : (b : MessageBuffer) → IsValid b → IsValid (at_front b)
at_front-IsValid b v = omega (arith, length-splice b.storage 0 (active b), length-active v)

pub length-at_front :
    (b : MessageBuffer) → IsValid b → length (at_front b).storage ≡ length b.storage
length-at_front b v = length-splice b.storage 0 (active b) (omega (arith, length-active v))

-- Normalize on a well-formed buffer stays inside the storage, keeps the bytes not yet read and the
-- size of the storage, moves the read position to the front, and leaves a well-formed buffer.
pub normalize-active :
    (b : MessageBuffer)
    → IsValid b
    → (b' : MessageBuffer) × (normalize b ≡ some b')
      × (active b' ≡ active b)
      × (b'.rpos ≡ 0)
      × (length b'.storage ≡ length b.storage)
      × IsValid b'
normalize-active b v = (
  at_front b,
  normalize_lem v,
  active-at_front b v,
  refl,
  length-at_front b v,
  at_front-IsValid b v,
)

-- What `Write` leaves when the bytes fit.
abbrev pub written : MessageBuffer → List ℕ → MessageBuffer
written b bytes = record {
  wpos = b.wpos + length bytes;
  rpos = b.rpos;
  storage = splice b.storage b.wpos bytes;
}

splice_nil : (xs : List ℕ) (n : ℕ) → splice xs n [] ≡ xs
splice_nil xs n = ap (λ k. take n xs ++ drop k xs) (omega arith) ∙ take-append-drop n xs

pub write_lem :
    (b : MessageBuffer) (bytes : List ℕ)
    → IsValid b
    → length bytes ≤ remaining_space b
    → write b bytes ≡ some (written b bytes)
unfolding write remaining_space
write_lem b [] v h = ground (arith, splice_nil b.storage b.wpos)
write_lem b (y ∷ ys) v h = rw (copy_in-some b.storage b.wpos (y ∷ ys) (omega arith)) (ground arith)

pub active-written :
    (b : MessageBuffer) (bytes : List ℕ) → IsValid b → active (written b bytes) ≡ active b ++ bytes
active-written b bytes v =
    take (b.wpos + length bytes - b.rpos) (drop b.rpos (splice b.storage b.wpos bytes))
    ≡⟨ ap (take (b.wpos + length bytes - b.rpos)) cut ⟩
      take (b.wpos + length bytes - b.rpos) ((active b ++ bytes) ++ rest)
    ≡⟨ take-append (active b ++ bytes) rest _
        (omega (arith, length-append (active b) bytes, length-active v)) ⟩
      active b ++ bytes ∎
  where
    rest : List ℕ
    rest = drop (b.wpos + length bytes) b.storage

    cut : drop b.rpos (splice b.storage b.wpos bytes) ≡ (active b ++ bytes) ++ rest
    cut =
        drop-append_le (take b.wpos b.storage) (bytes ++ rest) b.rpos
          (omega (arith, length-take b.wpos b.storage))
        ∙ ap (λ l. l ++ (bytes ++ rest))
            (drop-take b.storage b.rpos b.wpos (b.wpos - b.rpos) (omega arith))
        ∙ sym (append_assoc (active b) bytes rest)

pub written-IsValid :
    (b : MessageBuffer) (bytes : List ℕ)
    → IsValid b
    → length bytes ≤ remaining_space b
    → IsValid (written b bytes)
unfolding remaining_space
written-IsValid b bytes v h = omega (arith, length-splice b.storage b.wpos bytes)

-- Write of bytes that fit the free space of a well-formed buffer adds them behind the bytes not yet
-- read, keeps the read position and the size of the storage, and leaves a well-formed buffer.
pub write-active :
    (b : MessageBuffer) (bytes : List ℕ)
    → IsValid b
    → length bytes ≤ remaining_space b
    → (b' : MessageBuffer) × (write b bytes ≡ some b')
      × (active b' ≡ active b ++ bytes)
      × (b'.rpos ≡ b.rpos)
      × (length b'.storage ≡ length b.storage)
      × IsValid b'
write-active b bytes v h = (
  written b bytes,
  write_lem b bytes v h,
  active-written b bytes v,
  refl,
  length-splice b.storage b.wpos bytes (unfold remaining_space in omega arith),
  written-IsValid b bytes v h,
)

pub write_overflow :
    (b : MessageBuffer) (bytes : List ℕ)
    → IsValid b
    → remaining_space b < length bytes
    → write b bytes ≡ none
unfolding write remaining_space copy_in
write_overflow b [] v h = absurd (omega arith)
write_overflow b (y ∷ ys) v h = ground arith

resize_grow :
    (xs : List ℕ) (n : ℕ) → length xs ≤ n → resize xs n ≡ xs ++ replicate (n - length xs) 0
unfolding resize
resize_grow xs n h = ap (λ l. l ++ replicate (n - length xs) 0) (take_all xs n h)

-- Bytes past the end do not matter.
active-extend :
    (b : MessageBuffer) (zs : List ℕ)
    → IsValid b
    → active (record b { storage = b.storage ++ zs }) ≡ active b
active-extend b zs v =
    ap (take (b.wpos - b.rpos)) (drop-append_le b.storage zs b.rpos (omega arith))
    ∙ take-append_le (drop b.rpos b.storage) zs (b.wpos - b.rpos)
        (omega (arith, length-drop b.rpos b.storage))

pub grown :
    (b : MessageBuffer)
    → IsValid b
    → active (resize_to b (length b.storage * 3 % size_mod / 2)) ≡ active b
unfolding resize_to
grown b v =
    rw (resize_grow b.storage (length b.storage * 3 % size_mod / 2) (omega arith))
      (active-extend b _ v)

pub active-ensure_free_space :
    (b : MessageBuffer) → IsValid b → active (ensure_free_space b) ≡ active b
unfolding ensure_free_space
active-ensure_free_space b v = elim (Bool-cases (remaining_space b == 0)) [
  | inl full ↦ rw (full, ensure_free_space) (grown b v)
  | inr free ↦ rw (free, ensure_free_space)
]

-- The positions stay, and there is room afterwards unless the storage is shorter than two bytes.
pub remaining_space-ensure_free_space :
    (b : MessageBuffer)
    → IsValid b
    → 2 ≤ length b.storage
    → 0 < remaining_space (ensure_free_space b)
unfolding ensure_free_space remaining_space resize_to
remaining_space-ensure_free_space b v h =
    ground (arith, length-resize b.storage (length b.storage * 3 % size_mod / 2))

pub active-read_completed :
    (b : MessageBuffer) (n : ℕ)
    → IsValid b
    → n ≤ active_size b
    → active (read_completed b n) ≡ drop n (active b)
unfolding read_completed active_size
active-read_completed b n v h =
    let e : add_size b.rpos n ≡ b.rpos + n = omega arith in
    rw e (
      ap (λ k. take k (drop (b.rpos + n) b.storage)) (omega arith)
      ∙ ap (take (b.wpos - b.rpos - n)) (sym (drop-drop b.storage n b.rpos (b.rpos + n) refl))
      ∙ sym (
          drop-take (drop b.rpos b.storage) n (b.wpos - b.rpos) (b.wpos - b.rpos - n)
            (omega arith)))
