-- ===== src/Socket/History.antt =====
-- Any sequence of calls on a socket, from its construction on, and of bytes that come.
use warhead_fix.Base.{
  ℕ, suc, ◌+◌, ◌<◌, ◌≡◌, refl, sym, ap, ap₂, subst, ◌∙◌, Bool, false, some, List, [], ◌∷◌, ◌++◌,
  append-nil, append_assoc, arith,
}
use warhead_fix.MessageBuffer.{MessageBuffer}
use warhead_fix.MessageBuffer.Valid.{IsValid}
use warhead_fix.MessageBuffer.Contents.{active}
use warhead_fix.Socket.{
  WriteResult, Socket, start_read, create, close_socket, delayed_close_socket, queue_packet, update,
  write_handler, handle_queue, async_read, receive,
}
use warhead_fix.Socket.Stream.{
  stream, sent_bytes, pending, AllValid, Delivers, handle_queue-stream, sent_bytes-close_socket,
  sent_bytes-append, write_queue-close_socket,
}
use warhead_fix.Socket.Reading.{async_read_rule}
use warhead_fix.Socket.Writing.{handle_queue-AllValid, update_keeps}
use warhead_fix.Socket.Closing.{
  IsTidy, of_bool, waits, closes, handle_queue-IsTidy, close_socket-IsTidy, start_read-IsTidy,
}

-- `Run Result queued handled s`: the socket `s` is reached when the bytes `queued` were handed to
-- `QueuePacket`, `handled` waits have come back and `write_some` behaved as `Result` says.
pub data Run (Result : WriteResult → ℕ → Type 0) : List ℕ → ℕ → Socket → Type 0 where
  created : Run Result [] 0 create
  queued :
      {bs : List ℕ} {h : ℕ} {s : Socket} (m : MessageBuffer)
      → IsValid m
      → Run Result bs h s
      → Run Result (bs ++ active m) h (queue_packet m s)
  updated :
      {bs : List ℕ} {h : ℕ} {s : Socket} (results : ℕ → ℕ → WriteResult) (alive : Bool)
      (s' : Socket)
      → ((k n : ℕ) → Result (results k n) n)
      → update results s ≡ some (alive, s')
      → Run Result bs h s
      → Run Result bs h s'
  writable :
      {bs : List ℕ} {h : ℕ} {s : Socket} (write_some : ℕ → WriteResult)
      → ((n : ℕ) → Result (write_some n) n)
      → h < waits s.log
      → Run Result bs h s
      → Run Result bs (suc h) (write_handler write_some s)
  delayed :
      {bs : List ℕ} {h : ℕ} {s : Socket}
      → Run Result bs h s
      → Run Result bs h (delayed_close_socket s)
  closed : {bs : List ℕ} {h : ℕ} {s : Socket} → Run Result bs h s → Run Result bs h (close_socket s)
  asked :
      {bs : List ℕ} {h : ℕ} {s : Socket} (s' : Socket)
      → async_read s ≡ some s'
      → Run Result bs h s
      → Run Result bs h s'
  -- bytes that come into the read buffer, and what `ReadHandler` does with it
  filled :
      {bs : List ℕ} {h : ℕ} {s : Socket} (buffer : MessageBuffer)
      → Run Result bs h s
      → Run Result bs h (record s { read_buffer = buffer })
  received :
      {bs : List ℕ} {h : ℕ} {s : Socket} (transferred : ℕ)
      → Run Result bs h s
      → Run Result bs h (receive transferred s)

pub record IsFaithful (bs : List ℕ) (s : Socket) : Type 0 where
  pub bytes : stream s ≡ bs
  pub valid : AllValid s.write_queue

AllValid-append :
    (ms : List MessageBuffer) (m : MessageBuffer)
    → AllValid ms
    → IsValid m
    → AllValid (ms ++ m ∷ [])
AllValid-append [] m v w = (w, tt)
AllValid-append (x ∷ ms) m v w = (v.0, AllValid-append ms m v.1 w)

pending-append :
    (ms : List MessageBuffer) (m : MessageBuffer) → pending (ms ++ m ∷ []) ≡ pending ms ++ active m
unfolding pending
pending-append [] m = append-nil (active m)
pending-append (x ∷ ms) m =
    ap (◌++◌ (active x)) (pending-append ms m)
    ∙ sym (append_assoc (active x) (pending ms) (active m))

handle_queue-IsFaithful :
    (bs : List ℕ) (write_some : ℕ → WriteResult) (s : Socket)
    → ((n : ℕ) → Delivers (write_some n) n)
    → IsFaithful bs s
    → IsFaithful bs (handle_queue write_some s).1
handle_queue-IsFaithful bs write_some s d f = record {
  bytes = handle_queue-stream write_some s d f.valid ∙ f.bytes;
  valid = handle_queue-AllValid write_some s f.valid;
}

-- The state that `Update` leaves, from what every round of its loop keeps.
update_rule {ℓ} :
    (P : Socket → Type ℓ) (results : ℕ → ℕ → WriteResult)
    → ((k : ℕ) (s : Socket) → P s → P (handle_queue (results k) s).1)
    → (s s' : Socket) (alive : Bool) → update results s ≡ some (alive, s')
    → P s
    → P s'
update_rule P results keep s s' alive e p =
    let (t, e', p') = update_keeps P results keep s p in let same : t ≡ s' = cc in subst P same p'

Run-IsFaithful : {bs : List ℕ} {h : ℕ} {s : Socket} → Run Delivers bs h s → IsFaithful bs s
unfolding create stream sent_bytes pending queue_packet delayed_close_socket write_handler receive
Run-IsFaithful created = record { bytes = refl; valid = tt }
Run-IsFaithful (queued {bs} {h} {s} m v r) =
    let f = Run-IsFaithful r in
    record {
      bytes =
          ap (◌++◌ (sent_bytes s.log)) (pending-append s.write_queue m)
          ∙ sym (append_assoc (sent_bytes s.log) (pending s.write_queue) (active m))
          ∙ ap (λ l. l ++ active m) f.bytes;
      valid = AllValid-append s.write_queue m f.valid v;
    }
Run-IsFaithful (updated {bs} {h} {s} results alive s' d e r) =
    update_rule (IsFaithful bs) results (λ k t. handle_queue-IsFaithful bs (results k) t (d k)) s s'
      alive e (Run-IsFaithful r)
Run-IsFaithful (writable {bs} {h} {s} write_some d out r) =
    handle_queue-IsFaithful bs write_some (record s { is_writing_async = false }) d
      (let f = Run-IsFaithful r in record { bytes = f.bytes; valid = f.valid })
Run-IsFaithful (delayed {s = s} r) =
    let f = Run-IsFaithful r in record { bytes = f.bytes; valid = f.valid }
Run-IsFaithful (closed {bs} {h} {s} r) =
    let f = Run-IsFaithful r in
    record {
      bytes =
          ap₂ (λ l q. l ++ pending q) (sent_bytes-close_socket s) (write_queue-close_socket s)
          ∙ f.bytes;
      valid = subst AllValid (sym (write_queue-close_socket s)) f.valid;
    }
Run-IsFaithful (asked {bs} {h} {s} s' e r) =
    let f = Run-IsFaithful r in
    async_read_rule (IsFaithful bs) s s' f
      (λ buffer n. record {
        bytes =
            ap (λ l. l ++ pending s.write_queue)
              (sent_bytes-append s.log (start_read n ∷ []) ∙ append-nil (sent_bytes s.log))
            ∙ f.bytes;
        valid = f.valid;
      })
      e
Run-IsFaithful (filled buffer r) =
    let f = Run-IsFaithful r in record { bytes = f.bytes; valid = f.valid }
Run-IsFaithful (received transferred r) =
    let f = Run-IsFaithful r in record { bytes = f.bytes; valid = f.valid }

-- After any sequence of packets, updates, reads, bytes that come, callbacks and closes on a new
-- socket whose connection does not break, the bytes sent and then the bytes still queued are the
-- bytes of the packets, in their order.
pub no_byte_lost :
    {bs : List ℕ} {h : ℕ} {s : Socket}
    → Run Delivers bs h s
    → sent_bytes s.log ++ pending s.write_queue ≡ bs
unfolding stream
no_byte_lost r = (Run-IsFaithful r).bytes

Run-IsTidy :
    (Result : WriteResult → ℕ → Type 0) {bs : List ℕ} {h : ℕ} {s : Socket}
    → Run Result bs h s
    → IsTidy h s
unfolding create waits closes queue_packet delayed_close_socket write_handler receive
Run-IsTidy Result created = record { one_wait = refl; one_close = refl }
Run-IsTidy Result (queued m v r) =
    let t = Run-IsTidy Result r in record { one_wait = t.one_wait; one_close = t.one_close }
Run-IsTidy Result (updated {bs} {h} {s} results alive s' d e r) =
    update_rule (IsTidy h) results (λ k t. handle_queue-IsTidy h (results k) t) s s' alive e
      (Run-IsTidy Result r)
Run-IsTidy Result (writable {bs} {h} {s} write_some d out r) =
    let t = Run-IsTidy Result r in
    handle_queue-IsTidy (suc h) write_some (record s { is_writing_async = false })
      (record { one_wait = ground (arith, t.one_wait); one_close = t.one_close })
Run-IsTidy Result (delayed r) =
    let t = Run-IsTidy Result r in record { one_wait = t.one_wait; one_close = t.one_close }
Run-IsTidy Result (closed {bs} {h} {s} r) = close_socket-IsTidy h s (Run-IsTidy Result r)
Run-IsTidy Result (asked {bs} {h} {s} s' e r) =
    let t = Run-IsTidy Result r in
    async_read_rule (IsTidy h) s s' t
      (λ buffer n.
        start_read-IsTidy h (record s { read_buffer = buffer })
          (record { one_wait = t.one_wait; one_close = t.one_close }) n)
      e
Run-IsTidy Result (filled buffer r) =
    let t = Run-IsTidy Result r in record { one_wait = t.one_wait; one_close = t.one_close }
Run-IsTidy Result (received transferred r) =
    let t = Run-IsTidy Result r in record { one_wait = t.one_wait; one_close = t.one_close }

-- After any sequence of QueuePacket, Update, AsyncRead, DelayedCloseSocket, CloseSocket, the
-- callbacks for bytes that came and for writability, and changes of the read buffer on a new
-- socket, whatever write_some reports, the waits for writability that were asked for are those that
-- came back and one more exactly if the socket is marked as writing, and OnClose was called once if
-- the socket is closed and never otherwise.
pub one_wait_one_close :
    (Result : WriteResult → ℕ → Type 0) {bs : List ℕ} {h : ℕ} {s : Socket}
    → Run Result bs h s
    → (waits s.log ≡ h + of_bool s.is_writing_async) × (closes s.log ≡ of_bool s.closed)
one_wait_one_close Result r = let t = Run-IsTidy Result r in (t.one_wait, t.one_close)
