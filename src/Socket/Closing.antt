-- ===== src/Socket/Closing.antt =====
-- Counting the calls: one wait for writability at a time, one close.
use warhead_fix.Base.{
  ℕ, suc, ◌+◌, ◌≡◌, refl, sym, ap, ap₂, subst, ◌∙◌, inl, inr, Bool, true, false, not, ◌&&◌, some,
  List, [], ◌∷◌, ◌++◌, arith, Bool-cases, take,
}
use warhead_fix.MessageBuffer.{MessageBuffer, active_size, read_completed}
use warhead_fix.MessageBuffer.Contents.{active}
use warhead_fix.Socket.{
  WriteResult, blocked, failed, wrote, Socket, Effect, sent, wait_writable, start_read,
  shutdown_send, on_close, emit, close_socket, async_process_queue, pop_message, handle_front,
  handle_messages, handle_queue, update, is_nil, delayed_close_socket,
}
use warhead_fix.Socket.Writing.{wrote_cases, update_keeps}

abbrev pub of_bool : Bool → ℕ
of_bool true = 1
of_bool false = 0

unfoldable pub waits : List Effect → ℕ
waits [] = 0
waits (wait_writable ∷ es) = suc (waits es)
waits (e ∷ es) = waits es

unfoldable pub closes : List Effect → ℕ
closes [] = 0
closes (on_close ∷ es) = suc (closes es)
closes (e ∷ es) = closes es

waits-append : (es fs : List Effect) → waits (es ++ fs) ≡ waits es + waits fs
unfolding waits
waits-append [] fs = omega arith
waits-append (wait_writable ∷ es) fs = omega (arith, waits-append es fs)
waits-append (sent b ∷ es) fs = waits-append es fs
waits-append (start_read n ∷ es) fs = waits-append es fs
waits-append (shutdown_send ∷ es) fs = waits-append es fs
waits-append (on_close ∷ es) fs = waits-append es fs

closes-append : (es fs : List Effect) → closes (es ++ fs) ≡ closes es + closes fs
unfolding closes
closes-append [] fs = omega arith
closes-append (wait_writable ∷ es) fs = closes-append es fs
closes-append (sent b ∷ es) fs = closes-append es fs
closes-append (start_read n ∷ es) fs = closes-append es fs
closes-append (shutdown_send ∷ es) fs = closes-append es fs
closes-append (on_close ∷ es) fs = omega (arith, closes-append es fs)

-- `handled` waits have come back; one more is out exactly while `_isWritingAsync` is set. `OnClose` has
-- run exactly if the socket is closed.
pub record IsTidy (handled : ℕ) (s : Socket) : Type 0 where
  pub one_wait : waits s.log ≡ handled + of_bool s.is_writing_async
  pub one_close : closes s.log ≡ of_bool s.closed

module _ (h : ℕ) (s : Socket) (t : IsTidy h s) where
  pub emit_sent-IsTidy : (bytes : List ℕ) → IsTidy h (emit (sent bytes) s)
  unfolding waits closes
  emit_sent-IsTidy bytes = record {
    one_wait = omega (arith, t.one_wait, waits-append s.log (sent bytes ∷ []));
    one_close = omega (arith, t.one_close, closes-append s.log (sent bytes ∷ []));
  }

  pub start_read-IsTidy : (n : ℕ) → IsTidy h (emit (start_read n) s)
  unfolding waits closes
  start_read-IsTidy n = record {
    one_wait = omega (arith, t.one_wait, waits-append s.log (start_read n ∷ []));
    one_close = omega (arith, t.one_close, closes-append s.log (start_read n ∷ []));
  }

  pub async_process_queue-IsTidy : IsTidy h (async_process_queue s).1
  unfolding waits closes async_process_queue
  async_process_queue-IsTidy = record {
    one_wait = ground (arith, t.one_wait, waits-append s.log (wait_writable ∷ []));
    one_close = ground (arith, t.one_close, closes-append s.log (wait_writable ∷ []));
  }

  pub close_socket-IsTidy : IsTidy h (close_socket s)
  unfolding waits closes close_socket
  close_socket-IsTidy = record {
    one_wait = ground (
      arith,
      t.one_wait,
      waits-append s.log (shutdown_send ∷ []),
      waits-append (s.log ++ shutdown_send ∷ []) (on_close ∷ []),
    );
    one_close = ground (
      arith,
      t.one_close,
      closes-append s.log (shutdown_send ∷ []),
      closes-append (s.log ++ shutdown_send ∷ []) (on_close ∷ []),
    );
  }

pub pop_message-IsTidy :
    (h : ℕ) (rest : List MessageBuffer) (s : Socket) → IsTidy h s → IsTidy h (pop_message rest s)
unfolding pop_message
pop_message-IsTidy h rest s t = elim (Bool-cases (s.closing && is_nil rest)) [
  | inl drained ↦ rw drained (
      close_socket-IsTidy h (record s { write_queue = rest })
        (record { one_wait = t.one_wait; one_close = t.one_close }))
  | inr more ↦ rw more (record { one_wait = t.one_wait; one_close = t.one_close })
]

handle_front-IsTidy :
    (h : ℕ) (r : WriteResult) (front : MessageBuffer) (rest : List MessageBuffer) (s : Socket)
    → IsTidy h s
    → IsTidy h (handle_front r front rest s).1
unfolding handle_front
handle_front-IsTidy h blocked front rest s t = async_process_queue-IsTidy h s t
handle_front-IsTidy h failed front rest s t = pop_message-IsTidy h rest s t
handle_front-IsTidy h (wrote n) front rest s t =
    wrote_cases (λ o. IsTidy h o.1) n front rest s (pop_message-IsTidy h rest s' t')
      (λ less.
        async_process_queue-IsTidy h (record s' { write_queue = read_completed front n ∷ rest })
          (record { one_wait = t'.one_wait; one_close = t'.one_close }))
      (pop_message-IsTidy h rest s' t')
  where
    s' : Socket
    s' = emit (sent (take n (active front))) s

    t' : IsTidy h s'
    t' = emit_sent-IsTidy h s t (take n (active front))

pub handle_queue-IsTidy :
    (h : ℕ) (write_some : ℕ → WriteResult) (s : Socket)
    → IsTidy h s
    → IsTidy h (handle_queue write_some s).1
unfolding handle_queue
handle_queue-IsTidy h write_some s t = by_messages s.write_queue
  where
    by_messages : (q : List MessageBuffer) → IsTidy h (handle_messages q write_some s).1
    by_messages [] = t
    by_messages (front ∷ rest) =
        handle_front-IsTidy h (write_some (active_size front)) front rest s t

handle_queue_nil :
    (write_some : ℕ → WriteResult) (s : Socket)
    → s.write_queue ≡ []
    → handle_queue write_some s ≡ (false, s)
unfolding handle_queue
handle_queue_nil write_some s q =
    subst (λ l. handle_messages l write_some s ≡ (false, s)) (sym q) refl

-- A socket that is open and whose queue is empty is not closed by Update after DelayedCloseSocket:
-- Update changes nothing and returns true.
pub delayed_close_idle :
    (results : ℕ → ℕ → WriteResult) (s : Socket)
    → s.write_queue ≡ []
    → s.closed ≡ false
    → update results (delayed_close_socket s) ≡ some (true, delayed_close_socket s)
unfolding delayed_close_socket
delayed_close_idle results s q o =
    let (s', e, same) = update_keeps (λ t. t ≡ told) results stays told refl in
    e ∙ ap₂ (λ c t. some (not c, t)) o same
  where
    told : Socket
    told = delayed_close_socket s

    stays : (k : ℕ) (t : Socket) → t ≡ told → (handle_queue (results k) t).1 ≡ told
    stays k t e = ap (λ o. o.1) (handle_queue_nil (results k) t (ap (λ u. u.write_queue) e ∙ q)) ∙ e
