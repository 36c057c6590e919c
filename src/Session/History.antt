-- ===== src/Session/History.antt =====
-- A session over its life, from its start through any reads and any other calls on its socket.
use warhead_fix.Base.{
  ℕ, ◌+◌, ◌≤◌, ◌<◌, ◌≡◌, refl, sym, ap, subst, ◌∙◌, ◌⊎◌, inl, inr, Bool, false, List, Bool-cases,
  length, resize, length-resize,
}
use warhead_fix.Base.Bytes.{same_bytes}
use warhead_fix.MessageBuffer
use warhead_fix.ByteBuffer.{max_size, invalid_value, string_kind}
use warhead_fix.FixMessage.{Reader, test_message_size}
use warhead_fix.Socket.{Socket, receive, emit, start_read, async_read, is_open}
use warhead_fix.Socket
use warhead_fix.Session.{
  AuthSession, authed, not_authed, ok, err, close, create, start, read_handler,
  fix_protocol_support,
}
use warhead_fix.Session.Reaction.{react, perform, message_of}
use warhead_fix.Session.Safety.{protocol, bad_protocol, other_protocol, same_protocol}
use warhead_fix.Session.Performing.{IsReady, perform-IsReady, close-IsReady}
use warhead_fix.Session.Order.{
  queued_by, asked_by, IsInOrder, before_logon, behind_logon, shut, KeepsOrder, close-KeepsOrder,
  react-KeepsOrder,
}

-- The bytes that came are in the read buffer.
abbrev pub filled : List ℕ → ℕ → AuthSession → AuthSession
filled bytes transferred s = record s {
  socket =
      receive transferred
        (record s.socket { read_buffer = record s.socket.read_buffer { storage = bytes } });
}

abbrev pub started : AuthSession
started = record { socket = emit (start_read 4096) Socket.create; status = not_authed }

pub start_lem : start create ≡ ok started
unfolding create start Socket.create async_read is_open MessageBuffer.normalize
    MessageBuffer.ensure_free_space MessageBuffer.remaining_space MessageBuffer.create
    MessageBuffer.resize_to resize
start_lem = refl

length-started : length started.socket.read_buffer.storage ≡ 4096
unfolding Socket.create MessageBuffer.create MessageBuffer.resize_to
length-started = length-resize _ 4096

module _ (hffix : Reader) (is_valid_utf8 : List ℕ → Bool) (test_text : List ℕ) where
  -- `Run n m s`: the session `s` is reached, and its calls of `ReadHandler` put `n` messages in the write
  -- queue and asked for `m` reads. Bytes may come, and other calls may change the socket, at any time; the
  -- read buffer is the handler's alone, and no call opens a socket again.
  pub data Run : ℕ → ℕ → AuthSession → Type 0 where
    starts : (s : AuthSession) → start create ≡ ok s → Run 0 0 s
    reads :
        {n m : ℕ} {s : AuthSession} (bytes : List ℕ) (transferred : ℕ) (s' : AuthSession)
        → length bytes ≡ 4096
        → read_handler hffix is_valid_utf8 test_text (filled bytes transferred s) ≡ ok s'
        → Run n m s
        → Run
            (n + queued_by (filled bytes transferred s) s')
            (m + asked_by (filled bytes transferred s) s')
            s'
    changes :
        {n m : ℕ} {s : AuthSession} (k : Socket)
        → k.read_buffer ≡ s.socket.read_buffer
        → (is_open s.socket ≡ false → is_open k ≡ false)
        → Run n m s
        → Run n m (record s { socket = k })

  -- A handler that returns has performed the reaction.
  handled :
      (s s' : AuthSession)
      → IsReady s
      → test_message_size + length test_text < max_size
      → read_handler hffix is_valid_utf8 test_text s ≡ ok s'
      → IsReady s' × KeepsOrder s s'
  handled s s' ready room ran = elim (Bool-cases (is_valid_utf8 (protocol s))) [
    | inr bad ↦
        let e : err (invalid_value string_kind (protocol s)) ≡ ok s' =
          sym (bad_protocol hffix is_valid_utf8 test_text s ready room bad) ∙ ran in
        absurd (let clash = e in cc)
    | inl valid ↦ elim (Bool-cases (same_bytes (protocol s) fix_protocol_support)) [
      | inr other ↦
          let e : ok (close s) ≡ ok s' =
            sym (other_protocol hffix is_valid_utf8 test_text s ready room valid other) ∙ ran in
          let same : close s ≡ s' = cc in
          subst (λ x. IsReady x × KeepsOrder s x) same
            (close-IsReady test_text s ready room, close-KeepsOrder s)
      | inl same ↦
          let r = react hffix s.status (message_of s) in
          let (s0, e0, ready', _) = perform-IsReady test_text s ready room r in
          let performed : perform test_text r s ≡ ok s' =
            sym (same_protocol hffix is_valid_utf8 test_text s ready room valid same) ∙ ran in
          let e : ok s0 ≡ ok s' = sym e0 ∙ performed in
          let found : s0 ≡ s' = cc in
          (subst IsReady found ready', react-KeepsOrder test_text s s' ready room hffix performed)
    ]
  ]

  filled-IsReady :
      (bytes : List ℕ) (transferred : ℕ) (s : AuthSession)
      → IsReady s
      → length bytes ≡ 4096
      → IsReady (filled bytes transferred s)
  unfolding receive MessageBuffer.write_completed
  filled-IsReady bytes transferred s ready full = record { front = ready.front; full = full }

  filled-IsInOrder :
      {n m : ℕ} (bytes : List ℕ) (transferred : ℕ) (s : AuthSession)
      → IsInOrder n m s
      → IsInOrder n m (filled bytes transferred s)
  unfolding receive is_open
  filled-IsInOrder bytes transferred s (before_logon e n0 m0) = before_logon e n0 m0
  filled-IsInOrder bytes transferred s (behind_logon e n1 m1) = behind_logon e n1 m1
  filled-IsInOrder bytes transferred s (shut e c n0 m0) = shut e c n0 m0

  changed-IsInOrder :
      {n m : ℕ} (s : AuthSession) (k : Socket)
      → (is_open s.socket ≡ false → is_open k ≡ false)
      → IsInOrder n m s
      → IsInOrder n m (record s { socket = k })
  changed-IsInOrder s k stays (before_logon e n0 m0) = before_logon e n0 m0
  changed-IsInOrder s k stays (behind_logon e n1 m1) = behind_logon e n1 m1
  changed-IsInOrder s k stays (shut e c n0 m0) = shut e (stays c) n0 m0

  started-IsInOrder : (s : AuthSession) → start create ≡ ok s → IsReady s × IsInOrder 0 0 s
  unfolding Socket.create MessageBuffer.create MessageBuffer.resize_to
  started-IsInOrder s e =
      let known : ok started ≡ ok s = sym start_lem ∙ e in
      let same : started ≡ s = cc in
      subst (λ x. IsReady x × IsInOrder 0 0 x) same
        (record { front = refl; full = length-started }, before_logon refl refl refl)

  Run-IsInOrder :
      {n m : ℕ} {s : AuthSession}
      → test_message_size + length test_text < max_size
      → Run n m s
      → IsReady s × IsInOrder n m s
  unfolding KeepsOrder
  Run-IsInOrder room (starts s e) = started-IsInOrder s e
  Run-IsInOrder room (reads {n} {m} {s} bytes transferred s' full ran r) =
      let (ready, order) = Run-IsInOrder room r in
      let come = filled bytes transferred s in
      let (ready', keeps) =
        handled come s' (filled-IsReady bytes transferred s ready full) room ran in
      (ready', keeps n m (filled-IsInOrder bytes transferred s order))
  Run-IsInOrder room (changes {s = s} k same stays r) =
      let (ready, order) = Run-IsInOrder room r in
      (
        record {
          front = ap (λ (b : MessageBuffer.MessageBuffer). b.rpos) same ∙ ready.front;
          full = ap (λ (b : MessageBuffer.MessageBuffer). length b.storage) same ∙ ready.full;
        },
        changed-IsInOrder s k stays order,
      )

  order_cases :
      {n m : ℕ} {s : AuthSession}
      → IsInOrder n m s
      → ((s.status ≡ not_authed) × (n ≡ 0) × (m ≡ 0))
        ⊎ (((s.status ≡ authed) × (n ≡ 1) × (1 ≤ m))
            ⊎ ((s.status ≡ authed) × (is_open s.socket ≡ false) × (n ≡ 0) × (m ≡ 0)))
  order_cases (before_logon e n0 m0) = inl (e, n0, m0)
  order_cases (behind_logon e n1 m1) = inr (inl (e, n1, m1))
  order_cases (shut e c n0 m0) = inr (inr (e, c, n0, m0))

  -- From its start, and after any sequence of reads whose handler returns and of other changes of
  -- its socket, a session that is not authenticated has had no message put in its write queue by
  -- ReadHandler, and no read asked for by it. One that is authenticated has had exactly one
  -- message, the answer to its logon, and at least one read; or else its socket is not open any
  -- more, and it has had neither. Each read puts 4096 bytes in the buffer, the other changes leave
  -- the read buffer alone and open no socket again, and the test text fits a ByteBuffer.
  pub one_logon_then_orders :
      {n m : ℕ} {s : AuthSession}
      → test_message_size + length test_text < max_size
      → Run n m s
      → ((s.status ≡ not_authed) × (n ≡ 0) × (m ≡ 0))
        ⊎ (((s.status ≡ authed) × (n ≡ 1) × (1 ≤ m))
            ⊎ ((s.status ≡ authed) × (is_open s.socket ≡ false) × (n ≡ 0) × (m ≡ 0)))
  one_logon_then_orders room r = order_cases (Run-IsInOrder room r).1
