-- ===== src/Socket/Draining.antt =====
-- `DelayedCloseSocket` of Socket.h with messages left in the queue.
use warhead_fix.Base.{
  ℕ, zero, suc, ◌+◌, ◌<◌, ◌≡◌, refl, sym, ap, subst, ◌∙◌, true, false, not, ◌&&◌, some, List, [],
  ◌∷◌, ◌++◌, append-nil, arith, ltb, ◌==◌, length, take,
}
use warhead_fix.MessageBuffer.{MessageBuffer, active_size}
use warhead_fix.MessageBuffer.Contents.{active}
use warhead_fix.Socket.{
  WriteResult, wrote, Socket, sent, emit, close_socket, pop_message, handle_front, handle_messages,
  handle_queue, handle_all, update, is_nil, delayed_close_socket,
}
use warhead_fix.Socket.Stream.{stream, sent_bytes, pending, AllValid, Delivers, handle_queue-stream}
use warhead_fix.Socket.Writing.{handle_queue-AllValid, update_keeps}
use warhead_fix.Base.Options.{◌>>=◌}

-- Each message has a byte.
abbrev pub AllFilled : List MessageBuffer → Type 0
AllFilled [] = Unit
AllFilled (m ∷ ms) = (0 < active_size m) × AllFilled ms

pub record IsDrained (s : Socket) : Type 0 where
  pub is_closed : s.closed ≡ true
  pub is_empty : s.write_queue ≡ []

close-IsDrained : (s : Socket) → s.closed ≡ false → s.write_queue ≡ [] → IsDrained (close_socket s)
unfolding close_socket
close-IsDrained s o q = rw o (record { is_closed = refl; is_empty = q })

record IsKept (bytes : List ℕ) (s : Socket) : Type 0 where
  same_stream : stream s ≡ bytes
  all_valid : AllValid s.write_queue

module _ (results : ℕ → ℕ → WriteResult) (takes_all : (k n : ℕ) → results k n ≡ wrote n) where
  one_round :
      (k : ℕ) (front : MessageBuffer) (rest : List MessageBuffer) (s : Socket)
      → s.write_queue ≡ front ∷ rest
      → 0 < active_size front
      → handle_queue (results k) s ≡ (
        not (is_nil rest),
        pop_message rest (emit (sent (take (active_size front) (active front))) s),
      )
  unfolding handle_queue handle_front
  one_round k front rest s q filled =
      let n = active_size front in
      let some_sent : (n == 0) ≡ false = ground arith in
      let no_less : ltb n n ≡ false = ground arith in
      ap (λ l. handle_messages l (results k) s) q
      ∙ ap (λ r. handle_front r front rest s) (takes_all k n)
      ∙ rw (handle_front, some_sent, no_less) refl

  drains :
      (front : MessageBuffer) (rest : List MessageBuffer) (fuel k : ℕ) (s : Socket)
      → s.write_queue ≡ front ∷ rest
      → AllFilled (front ∷ rest)
      → s.closing ≡ true
      → s.closed ≡ false
      → length rest < fuel
      → (s' : Socket) × (handle_all results fuel k s ≡ some s') × IsDrained s'
  unfolding handle_all pop_message
  drains front rest zero k s q filled c o enough = absurd (omega arith)
  drains front [] (suc fuel) k s q filled c o enough =
      let e = one_round k front [] s q filled.0 in
      let left : Socket = record (emit (sent (take (active_size front) (active front))) s) {
        write_queue = [];
      } in
      (close_socket left, rw (e, c) refl, close-IsDrained left o refl)
  drains front (next ∷ rest) (suc fuel) k s q filled c o enough =
      let e = one_round k front (next ∷ rest) s q filled.0 in
      let left : Socket = record (emit (sent (take (active_size front) (active front))) s) {
        write_queue = next ∷ rest;
      } in
      let more : (s.closing && is_nil (next ∷ rest)) ≡ false = rw c refl in
      let (s', e', d) =
        drains next rest fuel (k + 1) left refl filled.1 c o (omega (arith, enough)) in
      (s', rw (e, more) e', d)

  keeps :
      (s : Socket) (bytes : List ℕ) (k : ℕ) (t : Socket)
      → IsKept bytes t
      → IsKept bytes (handle_queue (results k) t).1
  keeps s bytes k t f = record {
    same_stream = handle_queue-stream (results k) t (λ n. delivers k n) f.all_valid ∙ f.same_stream;
    all_valid = handle_queue-AllValid (results k) t f.all_valid;
  }
    where
      delivers : (k n : ℕ) → Delivers (results k n) n
      delivers k n = subst (λ r. Delivers r n) (sym (takes_all k n)) (omega arith, λ e. e)

  update_busy :
      (t s' : Socket)
      → t.closed ≡ false
      → t.is_writing_async ≡ false
      → is_nil t.write_queue ≡ false
      → handle_all results (length t.write_queue + 1) 0 t ≡ some s'
      → update results t ≡ some (true, s')
  unfolding update
  update_busy t s' o w q e = simp (o, w, q) (rw (e, ◌>>=◌))

  -- If DelayedCloseSocket is called on a socket that is not closed and does not wait for
  -- writability, with a queue of one or more well-formed messages of at least one byte each, and
  -- write_some takes all that it is offered, then the next Update ends and returns true, has sent
  -- the bytes of all the messages in their order, and leaves the queue empty and the socket closed.
  pub delayed_close_drains :
      (s : Socket) (front : MessageBuffer) (rest : List MessageBuffer)
      → s.write_queue ≡ front ∷ rest
      → s.closed ≡ false
      → s.is_writing_async ≡ false
      → AllValid (front ∷ rest)
      → AllFilled (front ∷ rest)
      → (s' : Socket) × (update results (delayed_close_socket s) ≡ some (true, s'))
        × (s'.closed ≡ true)
        × (s'.write_queue ≡ [])
        × (sent_bytes s'.log ≡ sent_bytes s.log ++ pending s.write_queue)
  unfolding update delayed_close_socket stream pending
  delayed_close_drains s front rest q o w valid filled =
      let told : Socket = record s { closing = true } in
      let (s', e, d) =
        drains front rest (length s.write_queue + 1) 0 told q filled refl o
          (omega (arith, ap length q)) in
      let (s1, e1, f) =
        update_keeps (IsKept (stream s)) results (keeps s (stream s)) told
          (record { same_stream = refl; all_valid = subst AllValid (sym q) valid }) in
      let runs : update results told ≡ some (true, s') = update_busy told s' o w (ap is_nil q) e in
      let both : some (not s.closed, s1) ≡ some (true, s') = sym e1 ∙ runs in
      let same : s1 ≡ s' = cc in
      let bytes : stream s' ≡ stream s = subst (λ t. stream t ≡ stream s) same f.same_stream in
      (
        s',
        runs,
        d.is_closed,
        d.is_empty,
        sym (append-nil (sent_bytes s'.log))
            ∙ ap (λ l. sent_bytes s'.log ++ pending l) (sym d.is_empty)
            ∙ bytes,
      )
