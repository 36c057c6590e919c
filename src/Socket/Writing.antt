-- ===== src/Socket/Writing.antt =====
-- The write loop of `Socket::Update` ends, and what one round keeps the loop keeps.
use warhead_fix.Base.{
  ℕ, zero, suc, ◌+◌, ◌<◌, ◌≡◌, refl, sym, ap, subst, ◌∙◌, inl, inr, Bool, true, false, not, ◌&&◌,
  ◌||◌, some, List, [], ◌∷◌, arith, ltb, ◌==◌, ltb→lt, Bool-cases, length, take,
}
use warhead_fix.Base.Options.{◌>>=◌}
use warhead_fix.MessageBuffer.{MessageBuffer, active_size, read_completed}
use warhead_fix.MessageBuffer.Contents.{active}
use warhead_fix.MessageBuffer.Valid.{read_completed-IsValid}
use warhead_fix.Socket.{
  WriteResult, blocked, failed, wrote, Socket, sent, emit, async_process_queue, pop_message,
  handle_front, handle_messages, handle_queue, handle_all, update, is_nil,
}
use warhead_fix.Socket.Stream.{AllValid, write_queue-pop_message}

write_queue-async_process_queue :
    (s : Socket) → (async_process_queue s).1.write_queue ≡ s.write_queue
unfolding async_process_queue
write_queue-async_process_queue s = ground arith

-- `HandleQueue` asks for another round only when it has taken a message off the queue.
handle_front_shrinks :
    (r : WriteResult) (front : MessageBuffer) (rest : List MessageBuffer) (s : Socket)
    → (handle_front r front rest s).0 ≡ true
    → (handle_front r front rest s).1.write_queue ≡ rest
unfolding handle_front async_process_queue
handle_front_shrinks blocked front rest s h = cc
handle_front_shrinks failed front rest s h = cc
handle_front_shrinks (wrote n) front rest s h =
    ground (arith, write_queue-pop_message rest (emit (sent (take n (active front))) s))

handle_queue_shrinks :
    (write_some : ℕ → WriteResult) (s : Socket)
    → (handle_queue write_some s).0 ≡ true
    → length (handle_queue write_some s).1.write_queue < length s.write_queue
unfolding handle_queue
handle_queue_shrinks write_some s h = by_messages s.write_queue refl h
  where
    by_messages :
        (q : List MessageBuffer)
        → s.write_queue ≡ q
        → (handle_messages q write_some s).0 ≡ true
        → length (handle_messages q write_some s).1.write_queue < length q
    by_messages [] e h = cc
    by_messages (front ∷ rest) e h =
        omega
          (arith, ap length (handle_front_shrinks (write_some (active_size front)) front rest s h))

-- The three ways in which `HandleQueue` goes on after some bytes were taken.
pub wrote_cases {ℓ} :
    (P : Bool × Socket → Type ℓ) (n : ℕ) (front : MessageBuffer) (rest : List MessageBuffer)
    (s : Socket)
    → let s' = emit (sent (take n (active front))) s in
      P (false, pop_message rest s')
      → (n < active_size front
          → P (async_process_queue (record s' { write_queue = read_completed front n ∷ rest })))
      → P (not (is_nil rest), pop_message rest s')
      → P (handle_front (wrote n) front rest s)
unfolding handle_front
wrote_cases P n front rest s zero_bytes part all = elim (Bool-cases (n == 0)) [
  | inl none_sent ↦ rw none_sent zero_bytes
  | inr some_sent ↦ elim (Bool-cases (ltb n (active_size front))) [
    | inl less ↦ rw (some_sent, less) (part (ltb→lt n (active_size front) less))
    | inr no_less ↦ rw (some_sent, no_less) all
  ]
]

-- `HandleQueue` leaves a well-formed queue.
handle_front-AllValid :
    (r : WriteResult) (front : MessageBuffer) (rest : List MessageBuffer) (s : Socket)
    → AllValid (front ∷ rest)
    → s.write_queue ≡ front ∷ rest
    → AllValid (handle_front r front rest s).1.write_queue
unfolding handle_front
handle_front-AllValid blocked front rest s v q =
    subst AllValid (sym (write_queue-async_process_queue s ∙ q)) v
handle_front-AllValid failed front rest s v q =
    subst AllValid (sym (write_queue-pop_message rest s)) v.1
handle_front-AllValid (wrote n) front rest s v q =
    wrote_cases (λ o. AllValid o.1.write_queue) n front rest s
      (subst AllValid (sym (write_queue-pop_message rest s')) v.1)
      (λ less.
        subst AllValid
          (sym (
            write_queue-async_process_queue
              (record s' { write_queue = read_completed front n ∷ rest })))
          (read_completed-IsValid n v.0 (omega arith), v.1))
      (subst AllValid (sym (write_queue-pop_message rest s')) v.1)
  where
    s' : Socket
    s' = emit (sent (take n (active front))) s

pub handle_queue-AllValid :
    (write_some : ℕ → WriteResult) (s : Socket)
    → AllValid s.write_queue
    → AllValid (handle_queue write_some s).1.write_queue
unfolding handle_queue
handle_queue-AllValid write_some s v = by_messages s.write_queue refl v
  where
    by_messages :
        (q : List MessageBuffer)
        → s.write_queue ≡ q
        → AllValid q
        → AllValid (handle_messages q write_some s).1.write_queue
    by_messages [] e v = subst AllValid (sym e) v
    by_messages (front ∷ rest) e v =
        handle_front-AllValid (write_some (active_size front)) front rest s v e

-- The rule for the loop: it ends, and keeps what each round keeps.
pub handle_all_keeps {ℓ} :
    (P : Socket → Type ℓ) (results : ℕ → ℕ → WriteResult)
    → ((k : ℕ) (s : Socket) → P s → P (handle_queue (results k) s).1)
    → (fuel k : ℕ) (s : Socket) → length s.write_queue < fuel
    → P s
    → (s' : Socket) × (handle_all results fuel k s ≡ some s') × P s'
unfolding handle_all
handle_all_keeps P results keep zero k s enough p = absurd (omega arith)
handle_all_keeps P results keep (suc fuel) k s enough p =
    elim (Bool-cases (handle_queue (results k) s).0) [
      | inl again ↦ rw again (
          handle_all_keeps P results keep fuel (k + 1) (handle_queue (results k) s).1
            (omega (arith, handle_queue_shrinks (results k) s again)) (keep k s p))
      | inr last ↦ ((handle_queue (results k) s).1, rw last, keep k s p)
    ]

-- Update ends: its loop needs no more rounds than the queue has messages and one. It returns
-- whether the socket was not closed before, and keeps what each call of HandleQueue keeps.
pub update_keeps {ℓ} :
    (P : Socket → Type ℓ) (results : ℕ → ℕ → WriteResult)
    → ((k : ℕ) (s : Socket) → P s → P (handle_queue (results k) s).1)
    → (s : Socket) → P s
    → (s' : Socket) × (update results s ≡ some (not s.closed, s')) × P s'
unfolding update
update_keeps P results keep s p = elim (Bool-cases s.closed) [
  | inl closed ↦ (s, rw closed (ground arith), p)
  | inr open' ↦ elim (Bool-cases (s.is_writing_async || (is_nil s.write_queue && not s.closing))) [
    | inl idle ↦ (s, simp (open', idle), p)
    | inr busy ↦
        let (s', e, p') =
          handle_all_keeps P results keep (length s.write_queue + 1) 0 s (omega arith) p in
        (s', simp (open', busy) (rw (e, ◌>>=◌)), p')
  ]
]
