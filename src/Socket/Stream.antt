-- ===== src/Socket/Stream.antt =====
-- The bytes of a connection: those that `write_some` took, then those still queued.
use warhead_fix.Base.{
  ℕ, zero, suc, ◌≤◌, ◌≡◌, refl, sym, ap, ap₂, ◌∙◌, inl, inr, false, List, [], ◌∷◌, ◌++◌, append-nil,
  append_assoc, arith, ltb, ◌==◌, Bool-cases, take, drop, take-append-drop, drop_all,
}
use warhead_fix.MessageBuffer.{MessageBuffer, active_size, read_completed}
use warhead_fix.MessageBuffer.Valid.{IsValid, sizes}
use warhead_fix.MessageBuffer.Contents.{active, length-active, active-read_completed}
use warhead_fix.Socket.{
  Effect, sent, wait_writable, start_read, shutdown_send, on_close, WriteResult, blocked, failed,
  wrote, Socket, emit, close_socket, async_process_queue, pop_message, handle_front,
  handle_messages, handle_queue,
}

-- What was sent, in order.
unfoldable pub sent_bytes : List Effect → List ℕ
sent_bytes [] = []
sent_bytes (sent bytes ∷ es) = bytes ++ sent_bytes es
sent_bytes (wait_writable ∷ es) = sent_bytes es
sent_bytes (start_read n ∷ es) = sent_bytes es
sent_bytes (shutdown_send ∷ es) = sent_bytes es
sent_bytes (on_close ∷ es) = sent_bytes es

unfoldable pub pending : List MessageBuffer → List ℕ
pending [] = []
pending (m ∷ ms) = active m ++ pending ms

unfoldable pub stream : Socket → List ℕ
stream s = sent_bytes s.log ++ pending s.write_queue

abbrev pub AllValid : List MessageBuffer → Type 0
AllValid [] = Unit
AllValid (m ∷ ms) = IsValid m × AllValid ms

-- The contract of `write_some`: no more than it is offered, and nothing only if offered nothing.
abbrev pub Bounded : WriteResult → ℕ → Type 0
Bounded blocked n = Unit
Bounded failed n = Unit
Bounded (wrote c) n = (c ≤ n) × (c ≡ 0 → n ≡ 0)

-- The connection does not break.
abbrev pub Delivers : WriteResult → ℕ → Type 0
Delivers blocked n = Unit
Delivers failed n = ⊥
Delivers (wrote c) n = (c ≤ n) × (c ≡ 0 → n ≡ 0)

pub sent_bytes-append :
    (es fs : List Effect) → sent_bytes (es ++ fs) ≡ sent_bytes es ++ sent_bytes fs
unfolding sent_bytes
sent_bytes-append [] fs = refl
sent_bytes-append (sent bytes ∷ es) fs =
    ap (◌++◌ bytes) (sent_bytes-append es fs)
    ∙ sym (append_assoc bytes (sent_bytes es) (sent_bytes fs))
sent_bytes-append (wait_writable ∷ es) fs = sent_bytes-append es fs
sent_bytes-append (start_read n ∷ es) fs = sent_bytes-append es fs
sent_bytes-append (shutdown_send ∷ es) fs = sent_bytes-append es fs
sent_bytes-append (on_close ∷ es) fs = sent_bytes-append es fs

-- An effect that is no `sent` adds nothing.
abbrev IsSilent : Effect → Type 0
IsSilent e = sent_bytes (e ∷ []) ≡ []

pub silent :
    (es : List Effect) (e : Effect)
    → sent_bytes (e ∷ []) ≡ []
    → sent_bytes (es ++ e ∷ []) ≡ sent_bytes es
silent es e h =
    sent_bytes-append es (e ∷ []) ∙ ap (◌++◌ (sent_bytes es)) h ∙ append-nil (sent_bytes es)

pub sent_bytes-close_socket : (s : Socket) → sent_bytes (close_socket s).log ≡ sent_bytes s.log
unfolding close_socket sent_bytes
sent_bytes-close_socket s = elim (Bool-cases s.closed) [
  | inl closed ↦ rw closed
  | inr open' ↦
      rw open'
        (silent (s.log ++ shutdown_send ∷ []) on_close refl ∙ silent s.log shutdown_send refl)
]

pub write_queue-close_socket : (s : Socket) → (close_socket s).write_queue ≡ s.write_queue
unfolding close_socket
write_queue-close_socket s = ground arith

pub sent_bytes-pop_message :
    (rest : List MessageBuffer) (s : Socket)
    → sent_bytes (pop_message rest s).log ≡ sent_bytes s.log
unfolding pop_message
sent_bytes-pop_message rest s =
    ground (arith, sent_bytes-close_socket (record s { write_queue = rest }))

pub write_queue-pop_message :
    (rest : List MessageBuffer) (s : Socket) → (pop_message rest s).write_queue ≡ rest
unfolding pop_message
write_queue-pop_message rest s = ground arith

pub stream-pop_message :
    (rest : List MessageBuffer) (s : Socket)
    → stream (pop_message rest s) ≡ sent_bytes s.log ++ pending rest
unfolding stream
stream-pop_message rest s =
    ap₂ ◌++◌ (sent_bytes-pop_message rest s) (ap pending (write_queue-pop_message rest s))

pub stream-async_process_queue : (s : Socket) → stream (async_process_queue s).1 ≡ stream s
unfolding stream async_process_queue sent_bytes
stream-async_process_queue s = elim (Bool-cases s.is_writing_async) [
  | inl writing ↦ rw writing
  | inr idle ↦ rw idle (ap (λ l. l ++ pending s.write_queue) (silent s.log wait_writable refl))
]

-- `wrote n` in the three ways that `HandleQueue` tells apart.
wrote_nothing :
    (front : MessageBuffer) (rest : List MessageBuffer) (s : Socket)
    → IsValid front
    → active_size front ≡ 0
    → s.write_queue ≡ front ∷ rest
    → stream (pop_message rest (emit (sent (take 0 (active front))) s)) ≡ stream s
unfolding stream sent_bytes pending
wrote_nothing front rest s v none_left q =
    stream-pop_message rest (emit (sent []) s)
    ∙ ap₂ ◌++◌ (silent s.log (sent []) refl)
        (sym (ap pending q ∙ ap (λ l. l ++ pending rest) empty))
  where
    empty : active front ≡ []
    empty =
        ap (λ n. take n (drop front.rpos front.storage)) {y = 0}
          (omega (arith, none_left, (sizes v).0))

wrote_some :
    (n : ℕ) (front : MessageBuffer) (rest : List MessageBuffer) (s : Socket)
    → IsValid front
    → n ≤ active_size front
    → s.write_queue ≡ front ∷ rest
    → sent_bytes (s.log ++ sent (take n (active front)) ∷ [])
        ++ (drop n (active front) ++ pending rest)
      ≡ stream s
unfolding stream sent_bytes pending
wrote_some n front rest s v le q =
    ap (λ l. l ++ (drop n (active front) ++ pending rest))
      (sent_bytes-append s.log (sent (take n (active front)) ∷ [])
        ∙ ap (◌++◌ (sent_bytes s.log)) (append-nil (take n (active front))))
    ∙ append_assoc (sent_bytes s.log) (take n (active front)) _
    ∙ ap (◌++◌ (sent_bytes s.log)) (
        sym (append_assoc (take n (active front)) (drop n (active front)) (pending rest))
        ∙ ap (λ l. l ++ pending rest) (take-append-drop n (active front))
        ∙ sym (ap pending q))

-- One message of the queue, whatever `write_some` did with it: the bytes stay the same.
stream-handle_front :
    (r : WriteResult) (front : MessageBuffer) (rest : List MessageBuffer) (s : Socket)
    → Delivers r (active_size front)
    → IsValid front
    → s.write_queue ≡ front ∷ rest
    → stream (handle_front r front rest s).1 ≡ stream s
unfolding handle_front stream pending
stream-handle_front blocked front rest s d v q = stream-async_process_queue s
stream-handle_front failed front rest s d v q = absurd d
stream-handle_front (wrote zero) front rest s d v q = wrote_nothing front rest s v (d.1 refl) q
stream-handle_front (wrote (suc n)) front rest s d v q =
    elim (Bool-cases (ltb (suc n) (active_size front))) [
      | inl part ↦
          rw (positive, part)
            (stream-async_process_queue
                (record s { write_queue = read_completed front (suc n) ∷ rest; log = log' })
              ∙ ap (λ l. sent_bytes log' ++ (l ++ pending rest))
                  (active-read_completed front (suc n) v d.0)
              ∙ wrote_some (suc n) front rest s v d.0 q)
      | inr all ↦
          rw (positive, all)
            (stream-pop_message rest (record s { log = log' })
              ∙ ap (λ l. sent_bytes log' ++ (l ++ pending rest)) (sym (nothing_left all))
              ∙ wrote_some (suc n) front rest s v d.0 q)
    ]
  where
    positive : (suc n == 0) ≡ false
    positive = ground arith

    log' : List Effect
    log' = s.log ++ sent (take (suc n) (active front)) ∷ []

    nothing_left : ltb (suc n) (active_size front) ≡ false → drop (suc n) (active front) ≡ []
    nothing_left all =
        drop_all (active front) (suc n) (ground (arith, length-active v, (sizes v).0))

-- HandleQueue moves bytes from the queue to the connection: the bytes sent and then those queued
-- stay the same, in their order. The connection does not break, and the queued messages are well
-- formed.
pub handle_queue-stream :
    (write_some : ℕ → WriteResult) (s : Socket)
    → ((n : ℕ) → Delivers (write_some n) n)
    → AllValid s.write_queue
    → stream (handle_queue write_some s).1 ≡ stream s
unfolding handle_queue
handle_queue-stream write_some s d v = by_messages s.write_queue refl v
  where
    by_messages :
        (q : List MessageBuffer)
        → s.write_queue ≡ q
        → AllValid q
        → stream (handle_messages q write_some s).1 ≡ stream s
    by_messages [] e v = refl
    by_messages (front ∷ rest) e v =
        stream-handle_front (write_some (active_size front)) front rest s (d (active_size front))
          v.0 e
