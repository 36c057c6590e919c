-- ===== src/Session/Performing.antt =====
-- What the reactions of `ReadHandler` leave, on a session that waits for bytes.
use warhead_fix.Base.{
  ℕ, ◌+◌, ◌-◌, ◌<◌, ◌≡◌, refl, ap, ◌∙◌, inl, inr, Bool, true, false, List, [], ◌∷◌, ◌++◌,
  append-nil, arith, if◌then◌else◌, Bool-cases, length, length-append, take_all, resize,
  length-resize,
}
use warhead_fix.MessageBuffer
use warhead_fix.MessageBuffer.{MessageBuffer}
use warhead_fix.ByteBuffer.{size, max_size, ByteBuffer}
use warhead_fix.FixMessage.{test_message_size}
use warhead_fix.Session.{AuthSession, AuthStatus, authed, ok, ◌>>=◌, close, send_packet, read_on}
use warhead_fix.Session.Reaction.{
  perform, reply, message_of, Reaction, close_it, stay, reply_and_read, read_more,
}
use warhead_fix.Session.Replies.{message_with, asking, read_on_lem, reply_text, send_packet_lem}
use warhead_fix.Socket.{
  Socket, emit, start_read, on_close, shutdown_send, queue_packet, is_open, close_socket,
}

-- A session that waits for bytes: the read buffer has its first size, and nothing of it was read.
pub record IsReady (s : AuthSession) : Type 0 where
  pub front : s.socket.read_buffer.rpos ≡ 0
  pub full : length s.socket.read_buffer.storage ≡ 4096

-- The status behind a reaction.
abbrev pub status_after : Reaction → AuthStatus → AuthStatus
status_after close_it status = status
status_after stay status = status
status_after reply_and_read status = authed
status_after read_more status = status

-- The session after the answer to a logon was queued.
abbrev pub answered : List ℕ → AuthSession → AuthSession
answered test_text s = record {
  socket = asking (queue_packet (message_with (reply test_text s).storage) s.socket);
  status = authed;
}

queue_keeps : (m : MessageBuffer) (k : Socket) → (queue_packet m k).read_buffer ≡ k.read_buffer
unfolding queue_packet
queue_keeps m k = refl

pub resize_same : (xs : List ℕ) (n : ℕ) → length xs ≡ n → resize xs n ≡ xs
unfolding resize
resize_same xs n full =
    let e : n - length xs ≡ 0 = omega (arith, full) in
    rw (take_all xs n (omega (arith, full)), e) (append-nil xs)

send_closed :
    (packet : ByteBuffer) (s : AuthSession) → is_open s.socket ≡ false → send_packet packet s ≡ ok s
unfolding send_packet
send_closed packet s c = rw c refl

module _ (test_text : List ℕ) (s : AuthSession) (ready : IsReady s)
    (room : test_message_size + length test_text < max_size) where
  pub length-reply : size (reply test_text s) ≡ 4096 + length test_text + 1
  length-reply = omega (
    arith,
    ap length (reply_text test_text s),
    length-append (resize (message_of s) 4096 ++ test_text) (0 ∷ []),
    length-append (resize (message_of s) 4096) test_text,
    length-resize (message_of s) 4096,
  )

  pub perform_reply :
      is_open s.socket ≡ true → perform test_text reply_and_read s ≡ ok (answered test_text s)
  unfolding perform queue_packet
  perform_reply o =
      rw
        (
          send_packet_lem (reply test_text s) (record s { status = authed })
              (omega (arith, length-reply)) (omega (arith, length-reply)) o,
          ◌>>=◌,
        )
        (read_on_lem
          (record {
            socket = queue_packet (message_with (reply test_text s).storage) s.socket;
            status = authed;
          })
          ready.full)

  pub perform_closed :
      is_open s.socket ≡ false
      → perform test_text reply_and_read s
        ≡ ok (record { socket = asking s.socket; status = authed })
  unfolding perform
  perform_closed c =
      ap (λ sent. sent >>= read_on)
        (send_closed (reply test_text s) (record s { status = authed }) c)
      ∙ read_on_lem (record s { status = authed }) ready.full

  asking-IsReady :
      (k : Socket) (status : AuthStatus)
      → length k.read_buffer.storage ≡ 4096
      → IsReady (record { socket = asking k; status = status })
  unfolding MessageBuffer.reset
  asking-IsReady k status full = by_open (is_open k)
    where
      fresh : Socket
      fresh = record k { read_buffer = MessageBuffer.reset k.read_buffer }

      by_open :
          (o : Bool)
          → IsReady (record {
            socket = if o then emit (start_read 4096) fresh else fresh;
            status = status;
          })
      by_open true = record { front = refl; full = full }
      by_open false = record { front = refl; full = full }

  pub close-IsReady : IsReady (close s)
  unfolding close_socket
  close-IsReady = by_closed s.socket.closed
    where
      by_closed :
          (c : Bool)
          → IsReady (record s {
            socket =
                if c
                then s.socket
                else emit on_close (emit shutdown_send (record s.socket { closed = true }));
          })
      by_closed true = record { front = ready.front; full = ready.full }
      by_closed false = record { front = ready.front; full = ready.full }

  pub perform-IsReady :
      (r : Reaction)
      → (s' : AuthSession) × (perform test_text r s ≡ ok s')
        × IsReady s'
        × (s'.status ≡ status_after r s.status)
  unfolding perform queue_packet
  perform-IsReady close_it = (close s, refl, close-IsReady, refl)
  perform-IsReady stay = (s, refl, ready, refl)
  perform-IsReady read_more = (
    record s { socket = asking s.socket },
    read_on_lem s ready.full,
    asking-IsReady s.socket s.status ready.full,
    refl,
  )
  perform-IsReady reply_and_read = elim (Bool-cases (is_open s.socket)) [
    | inl o ↦ (
      answered test_text s,
      perform_reply o,
      asking-IsReady (queue_packet (message_with (reply test_text s).storage) s.socket) authed
          ready.full,
      refl,
    )
    | inr c ↦ (
      record { socket = asking s.socket; status = authed },
      perform_closed c,
      asking-IsReady s.socket authed ready.full,
      refl,
    )
  ]
