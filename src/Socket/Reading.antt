-- ===== src/Socket/Reading.antt =====
-- `AsyncRead`: the read buffer is made ready, and nothing else changes.
use warhead_fix.Base.{
  ℕ, ◌-◌, ◌^◌, ◌≤◌, ◌<◌, ◌≡◌, refl, sym, subst, ◌∙◌, inl, inr, true, none, some, [], ◌∷◌, ◌++◌,
  arith, length, Bool-cases, Option-cases,
}
use warhead_fix.Base.Options.{◌>>=◌}
use warhead_fix.MessageBuffer.{MessageBuffer, normalize, ensure_free_space, remaining_space}
use warhead_fix.MessageBuffer.Valid.{IsValid, sizes, ensure_free_space-IsValid}
use warhead_fix.MessageBuffer.Contents.{
  active, at_front, normalize_lem, active-at_front, at_front-IsValid, active-ensure_free_space,
  remaining_space-ensure_free_space, length-at_front,
}
use warhead_fix.Socket.{Socket, start_read, emit, async_read, is_open}

-- What `AsyncRead` asks for, and what it leaves alone.
pub record Prepared (s s' : Socket) : Type 0 where
  pub kept : active s'.read_buffer ≡ active s.read_buffer
  pub valid : IsValid s'.read_buffer
  pub room : ℕ
  pub room_pos : 0 < room
  pub room_eq : room ≡ length s'.read_buffer.storage - s'.read_buffer.wpos
  pub asked : s'.log ≡ s.log ++ start_read room ∷ []
  pub same_queue : s'.write_queue ≡ s.write_queue

-- AsyncRead on an open socket with a well-formed read buffer of at least two and less than 2 ^ 61
-- bytes moves no byte outside the buffer, keeps the bytes not yet read and the write queue, and
-- asks for a read into at least one byte, which is all the free space.
pub async_read_ready :
    (s : Socket)
    → is_open s ≡ true
    → IsValid s.read_buffer
    → 2 ≤ length s.read_buffer.storage
    → length s.read_buffer.storage < 2 ^ 61
    → (s' : Socket) × (async_read s ≡ some s') × Prepared s s'
unfolding async_read
async_read_ready s o v long short = (
  emit (start_read (remaining_space buffer)) (record s { read_buffer = buffer }),
  rw o (rw (normalize_lem v, ◌>>=◌)),
  record {
    kept = active-ensure_free_space front v' ∙ active-at_front s.read_buffer v;
    valid = valid';
    room = remaining_space buffer;
    room_pos = remaining_space-ensure_free_space front v' (omega (arith, same_length));
    room_eq = (sizes valid').1;
    asked = refl;
    same_queue = refl;
  },
)
  where
    front : MessageBuffer
    front = at_front s.read_buffer

    v' : IsValid front
    v' = at_front-IsValid s.read_buffer v

    same_length : length front.storage ≡ length s.read_buffer.storage
    same_length = length-at_front s.read_buffer v

    buffer : MessageBuffer
    buffer = ensure_free_space front

    valid' : IsValid buffer
    valid' = ensure_free_space-IsValid v' (omega (arith, same_length))

-- What `AsyncRead` leaves: the socket as it was, or with another read buffer and a read asked for.
pub async_read_rule {ℓ} :
    (P : Socket → Type ℓ) (s s' : Socket)
    → P s
    → ((buffer : MessageBuffer) (n : ℕ)
        → P (emit (start_read n) (record s { read_buffer = buffer })))
    → async_read s ≡ some s'
    → P s'
unfolding async_read
async_read_rule P s s' same asks e = elim (Bool-cases (is_open s)) [
  | inr shut ↦
      let f : some s ≡ some s' = sym (rw (async_read, shut) refl) ∙ e in
      let found : s ≡ s' = cc in subst P found same
  | inl open' ↦ elim (Option-cases (normalize s.read_buffer)) [
    | inl outside ↦
        let f : none ≡ some s' = sym (rw (async_read, open', outside, ◌>>=◌) refl) ∙ e in
        absurd (ground (arith, f))
    | inr inside ↦
        let (front, n) = inside in
        let buffer = ensure_free_space front in
        let left : Socket =
          emit (start_read (remaining_space buffer)) (record s { read_buffer = buffer }) in
        let f : some left ≡ some s' = sym (rw (async_read, open', n, ◌>>=◌) refl) ∙ e in
        let found : left ≡ s' = cc in subst P found (asks buffer (remaining_space buffer))
  ]
]
