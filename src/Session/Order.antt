-- ===== src/Session/Order.antt =====
-- In which order a session answers a logon and reads on: what one call of `ReadHandler` puts in the
-- write queue and asks of the socket, as the queue and the calls on the `tcp::socket` show it.
use warhead_fix.Base.{
  ℕ, suc, ◌+◌, ◌-◌, ◌≤◌, ◌<◌, ◌≡◌, refl, sym, ap, subst, ◌∙◌, inl, inr, Bool, true, false, not,
  List, [], ◌∷◌, ◌++◌, arith, if◌then◌else◌, Bool-cases, length, length-append,
}
use warhead_fix.Base.Bytes.{same_bytes}
use warhead_fix.FixMessage.{
  Reader, logon_type, order_type, reads_logon_fields, reads_order_fields, test_message_size,
}
use warhead_fix.ByteBuffer.{max_size}
use warhead_fix.Socket.{
  Socket, Effect, sent, wait_writable, start_read, shutdown_send, on_close, is_open, close_socket,
  queue_packet,
}
use warhead_fix.Session.{AuthSession, AuthStatus, authed, not_authed, ok, close}
use warhead_fix.Session.Reaction.{
  react, perform, reply, message_of, on_logon, on_order, Reaction, close_it, stay, reply_and_read,
  read_more,
}
use warhead_fix.Session.Replies.{asking, read_on_lem, message_with}
use warhead_fix.Session.Performing.{IsReady, answered, perform_reply, perform_closed}

-- The reads that were asked for.
unfoldable pub read_calls : List Effect → ℕ
read_calls [] = 0
read_calls (start_read n ∷ es) = suc (read_calls es)
read_calls (e ∷ es) = read_calls es

read_calls-append : (es fs : List Effect) → read_calls (es ++ fs) ≡ read_calls es + read_calls fs
unfolding read_calls
read_calls-append [] fs = omega arith
read_calls-append (wait_writable ∷ es) fs = read_calls-append es fs
read_calls-append (sent b ∷ es) fs = read_calls-append es fs
read_calls-append (start_read n ∷ es) fs = omega (arith, read_calls-append es fs)
read_calls-append (shutdown_send ∷ es) fs = read_calls-append es fs
read_calls-append (on_close ∷ es) fs = read_calls-append es fs

-- The messages that joined the write queue between two states, and the reads asked for.
abbrev pub queued_by : AuthSession → AuthSession → ℕ
queued_by s s' = length s'.socket.write_queue - length s.socket.write_queue

abbrev pub asked_by : AuthSession → AuthSession → ℕ
asked_by s s' = read_calls s'.socket.log - read_calls s.socket.log

-- Before its logon a session has queued and asked nothing; behind it, it has queued one answer and
-- asked for at least one read, unless the logon came when the socket was not open any more.
pub data IsInOrder (n m : ℕ) (s : AuthSession) : Type 0 where
  before_logon : s.status ≡ not_authed → n ≡ 0 → m ≡ 0 → IsInOrder n m s
  behind_logon : s.status ≡ authed → n ≡ 1 → 1 ≤ m → IsInOrder n m s
  shut : s.status ≡ authed → is_open s.socket ≡ false → n ≡ 0 → m ≡ 0 → IsInOrder n m s

-- A call of `ReadHandler` from `s` to `s'` keeps the order.
unfoldable pub KeepsOrder : AuthSession → AuthSession → Type 0
KeepsOrder s s' =
    (n m : ℕ) → IsInOrder n m s → IsInOrder (n + queued_by s s') (m + asked_by s s') s'

-- The steps that answer nothing.
no_answer :
    (s s' : AuthSession)
    → s'.status ≡ s.status
    → queued_by s s' ≡ 0
    → (is_open s.socket ≡ false → (is_open s'.socket ≡ false) × (asked_by s s' ≡ 0))
    → (s.status ≡ not_authed → asked_by s s' ≡ 0)
    → KeepsOrder s s'
unfolding KeepsOrder
no_answer s s' same none_queued when_shut fresh n m (before_logon e n0 m0) =
    before_logon (same ∙ e) (omega (arith, none_queued)) (omega (arith, fresh e))
no_answer s s' same none_queued when_shut fresh n m (behind_logon e n1 m1) =
    behind_logon (same ∙ e) (omega (arith, none_queued)) (omega arith)
no_answer s s' same none_queued when_shut fresh n m (shut e c n0 m0) =
    let (c', none_asked) = when_shut c in
    shut (same ∙ e) c' (omega (arith, none_queued)) (omega (arith, none_asked))

module _ (s : AuthSession) where
  closed_shut : (k : Socket) → is_open (close_socket k) ≡ false
  unfolding is_open close_socket
  closed_shut k = elim (Bool-cases k.closed) [
    | inl c ↦ ground (arith, c)
    | inr o ↦ ground (arith, o)
  ]

  close_asks : (k : Socket) → read_calls (close_socket k).log ≡ read_calls k.log
  unfolding close_socket read_calls
  close_asks k = ground (
    arith,
    read_calls-append k.log (shutdown_send ∷ []),
    read_calls-append (k.log ++ shutdown_send ∷ []) (on_close ∷ []),
  )

  close_queue : (k : Socket) → (close_socket k).write_queue ≡ k.write_queue
  unfolding close_socket
  close_queue k = ground arith

  pub close-KeepsOrder : KeepsOrder s (close s)
  close-KeepsOrder =
      let none_asked : asked_by s (close s) ≡ 0 = omega (arith, close_asks s.socket) in
      no_answer s (close s) refl (omega (arith, ap length (close_queue s.socket)))
        (λ c. (closed_shut s.socket, none_asked)) (λ e. none_asked)

  stay-KeepsOrder : KeepsOrder s s
  stay-KeepsOrder = no_answer s s refl (omega arith) (λ c. (c, omega arith)) (λ e. omega arith)

  asking_queue : (k : Socket) → (asking k).write_queue ≡ k.write_queue
  asking_queue k = elim (Bool-cases (is_open k)) [ inl o ↦ rw o refl | inr c ↦ rw c refl ]

  asking_shut :
      (k : Socket)
      → is_open k ≡ false
      → (is_open (asking k) ≡ false) × (read_calls (asking k).log ≡ read_calls k.log)
  unfolding is_open
  asking_shut k c = rw c (c, refl)

  asking_open : (k : Socket) → is_open k ≡ true → read_calls (asking k).log ≡ read_calls k.log + 1
  unfolding read_calls
  asking_open k o = rw o (read_calls-append k.log (start_read 4096 ∷ []))

  read_more-KeepsOrder : s.status ≡ authed → KeepsOrder s (record s { socket = asking s.socket })
  read_more-KeepsOrder known =
      no_answer s (record s { socket = asking s.socket }) refl
        (omega (arith, ap length (asking_queue s.socket)))
        (λ c. let (c', e) = asking_shut s.socket c in (c', omega (arith, e)))
        (λ e. absurd (let clash : authed ≡ not_authed = sym known ∙ e in cc))

  reply-KeepsOrder :
      (test_text : List ℕ)
      → is_open s.socket ≡ true
      → s.status ≡ not_authed
      → KeepsOrder s (answered test_text s)
  unfolding KeepsOrder queue_packet is_open
  reply-KeepsOrder test_text o fresh n m (before_logon e n0 m0) =
      let packet = message_with (reply test_text s).storage in
      let k = queue_packet packet s.socket in
      behind_logon refl
        (omega
          (arith, ap length (asking_queue k), length-append s.socket.write_queue (packet ∷ [])))
        (omega (arith, asking_open k o))
  reply-KeepsOrder test_text o fresh n m (behind_logon e n1 m1) =
      absurd (let clash : authed ≡ not_authed = sym e ∙ fresh in cc)
  reply-KeepsOrder test_text o fresh n m (shut e c n0 m0) =
      absurd (let clash : authed ≡ not_authed = sym e ∙ fresh in cc)

  late_reply-KeepsOrder :
      is_open s.socket ≡ false
      → s.status ≡ not_authed
      → KeepsOrder s (record { socket = asking s.socket; status = authed })
  unfolding KeepsOrder
  late_reply-KeepsOrder c fresh n m (before_logon e n0 m0) =
      let (c', same) = asking_shut s.socket c in
      shut refl c' (omega (arith, ap length (asking_queue s.socket))) (omega (arith, same))
  late_reply-KeepsOrder c fresh n m (behind_logon e n1 m1) =
      absurd (let clash : authed ≡ not_authed = sym e ∙ fresh in cc)
  late_reply-KeepsOrder c fresh n m (shut e c' n0 m0) =
      absurd (let clash : authed ≡ not_authed = sym e ∙ fresh in cc)

-- The status in which a reaction comes.
abbrev pub Allowed : Reaction → AuthStatus → Type 0
Allowed close_it status = Unit
Allowed stay status = Unit
Allowed reply_and_read status = status ≡ not_authed
Allowed read_more status = status ≡ authed

-- The tests of `react`, in their order.
decide :
    (valid logon order : Bool) (status : AuthStatus) (logon_fields order_fields : Bool) → Reaction
decide valid logon order status logon_fields order_fields =
    if not valid
    then stay
    else if logon
    then on_logon status logon_fields
    else if order
    then on_order status order_fields
    else stay

decide-Allowed :
    (valid logon order : Bool) (status : AuthStatus) (logon_fields order_fields : Bool)
    → Allowed (decide valid logon order status logon_fields order_fields) status
unfolding decide
decide-Allowed false logon order status f g = tt
decide-Allowed true true order not_authed true g = refl
decide-Allowed true true order not_authed false g = tt
decide-Allowed true true order authed f g = tt
decide-Allowed true false true not_authed f g = tt
decide-Allowed true false true authed f true = refl
decide-Allowed true false true authed f false = tt
decide-Allowed true false false status f g = tt

react-Allowed :
    (hffix : Reader) (s : AuthSession) → Allowed (react hffix s.status (message_of s)) s.status
unfolding react decide
react-Allowed hffix s =
    decide-Allowed (hffix.is_valid (message_of s))
      (same_bytes (hffix.message_type (message_of s)) logon_type)
      (same_bytes (hffix.message_type (message_of s)) order_type) s.status
      (reads_logon_fields hffix (message_of s)) (reads_order_fields hffix (message_of s))

module _ (test_text : List ℕ) (s s' : AuthSession) (ready : IsReady s)
    (room : test_message_size + length test_text < max_size) where
  perform-KeepsOrder :
      (r : Reaction) → Allowed r s.status → perform test_text r s ≡ ok s' → KeepsOrder s s'
  unfolding perform
  perform-KeepsOrder close_it a e =
      let e' : ok (close s) ≡ ok s' = e in
      let same : close s ≡ s' = cc in subst (KeepsOrder s) same (close-KeepsOrder s)
  perform-KeepsOrder stay a e =
      let e' : ok s ≡ ok s' = e in
      let same : s ≡ s' = cc in subst (KeepsOrder s) same (stay-KeepsOrder s)
  perform-KeepsOrder read_more a e =
      let left : AuthSession = record s { socket = asking s.socket } in
      let e' : ok left ≡ ok s' = sym (read_on_lem s ready.full) ∙ e in
      let same : left ≡ s' = cc in subst (KeepsOrder s) same (read_more-KeepsOrder s a)
  perform-KeepsOrder reply_and_read a e = elim (Bool-cases (is_open s.socket)) [
    | inl o ↦
        let e' : ok (answered test_text s) ≡ ok s' =
          sym (perform_reply test_text s ready room o) ∙ e in
        let same : answered test_text s ≡ s' = cc in
        subst (KeepsOrder s) same (reply-KeepsOrder s test_text o a)
    | inr c ↦
        let left : AuthSession = record { socket = asking s.socket; status = authed } in
        let e' : ok left ≡ ok s' = sym (perform_closed test_text s ready room c) ∙ e in
        let same : left ≡ s' = cc in subst (KeepsOrder s) same (late_reply-KeepsOrder s c a)
  ]

  pub react-KeepsOrder :
      (hffix : Reader)
      → perform test_text (react hffix s.status (message_of s)) s ≡ ok s'
      → KeepsOrder s s'
  react-KeepsOrder hffix =
      perform-KeepsOrder (react hffix s.status (message_of s)) (react-Allowed hffix s)
