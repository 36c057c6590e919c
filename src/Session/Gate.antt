-- ===== src/Session/Gate.antt =====
-- Which messages change the status of a session, in AuthSession.cpp, and which ones close it.
use warhead_fix.Base.{
  ℕ, ◌+◌, ◌<◌, ◌≡◌, refl, sym, ap, ◌∙◌, ◌≢◌, ◌⊎◌, inl, inr, Bool, true, false, not, List,
  if◌then◌else◌, Bool-cases, length,
}
use warhead_fix.Base.Bytes.{same_bytes, same_bytes→eq, same_bytes_refl, neq→not-same_bytes}
use warhead_fix.ByteBuffer.{max_size, invalid_value, string_kind}
use warhead_fix.FixMessage.{
  reads_logon_fields, reads_order_fields, Reader, test_message_size, logon_type, order_type,
}
use warhead_fix.Session.{
  AuthSession, AuthStatus, authed, not_authed, ok, err, close, read_handler, fix_protocol_support,
}
use warhead_fix.Session.Reaction.{
  react, perform, message_of, on_logon, on_order, Reaction, close_it, stay, reply_and_read,
  read_more,
}
use warhead_fix.Session.Replies.{asking, read_on_lem}
use warhead_fix.Session.Safety.{protocol, bad_protocol, other_protocol, same_protocol}
use warhead_fix.Session.Performing.{IsReady}

-- A logon message that the session may accept.
pub record IsLogon (hffix : Reader) (s : AuthSession) : Type 0 where
  pub supported : protocol s ≡ fix_protocol_support
  pub valid : hffix.is_valid (message_of s) ≡ true
  pub logon : hffix.message_type (message_of s) ≡ logon_type
  pub readable : reads_logon_fields hffix (message_of s) ≡ true

-- The tests of `react`, in their order.
decide :
    (valid logon order : Bool) (status : AuthStatus) (logon_fields order_fields : Bool) → Reaction
decide valid logon order status logon_fields order_fields =
    if not valid
    then stay
    else if logon
    then on_logon status logon_fields
    else if order
    then on_order status order_fields
    else stay

decide_reply :
    (valid logon order : Bool) (status : AuthStatus) (logon_fields order_fields : Bool)
    → decide valid logon order status logon_fields order_fields ≡ reply_and_read
    → (valid ≡ true) × (logon ≡ true) × (status ≡ not_authed) × (logon_fields ≡ true)
unfolding decide
decide_reply false logon order status f g r = cc
decide_reply true true order not_authed true g r = (refl, refl, refl, refl)
decide_reply true true order not_authed false g r = cc
decide_reply true true order authed f g r = cc
decide_reply true false true not_authed f g r = cc
decide_reply true false true authed f true r = cc
decide_reply true false true authed f false r = cc
decide_reply true false false status f g r = cc

react_logon :
    (hffix : Reader) (status : AuthStatus) (message : List ℕ)
    → react hffix status message ≡ reply_and_read
    → (hffix.is_valid message ≡ true)
      × (same_bytes (hffix.message_type message) logon_type ≡ true)
      × (status ≡ not_authed)
      × (reads_logon_fields hffix message ≡ true)
unfolding react decide
react_logon hffix status message r =
    decide_reply (hffix.is_valid message) (same_bytes (hffix.message_type message) logon_type)
      (same_bytes (hffix.message_type message) order_type) status (reads_logon_fields hffix message)
      (reads_order_fields hffix message) r

perform_status :
    (test_text : List ℕ) (r : Reaction) (s s' : AuthSession)
    → IsReady s
    → perform test_text r s ≡ ok s'
    → (s'.status ≡ s.status) ⊎ (r ≡ reply_and_read)
unfolding perform
perform_status test_text close_it s s' ready e = inl cc
perform_status test_text stay s s' ready e = inl cc
perform_status test_text reply_and_read s s' ready e = inr refl
perform_status test_text read_more s s' ready e =
    let e' : ok (record s { socket = asking s.socket }) ≡ ok s' =
      sym (read_on_lem s ready.full) ∙ e in
    inl cc

module _ (hffix : Reader) (is_valid_utf8 : List ℕ → Bool) (test_text : List ℕ) (s s' : AuthSession)
    (ready : IsReady s) (room : test_message_size + length test_text < max_size)
    (ran : read_handler hffix is_valid_utf8 test_text s ≡ ok s') where
  status_cases : (s'.status ≡ s.status) ⊎ IsLogon hffix s
  status_cases = elim (Bool-cases (is_valid_utf8 (protocol s))) [
    | inr bad ↦
        let e : err (invalid_value string_kind (protocol s)) ≡ ok s' =
          sym (bad_protocol hffix is_valid_utf8 test_text s ready room bad) ∙ ran in
        inl cc
    | inl valid ↦ elim (Bool-cases (same_bytes (protocol s) fix_protocol_support)) [
      | inr other ↦
          let e : ok (close s) ≡ ok s' =
            sym (other_protocol hffix is_valid_utf8 test_text s ready room valid other) ∙ ran in
          inl cc
      | inl same ↦
          elim (perform_status test_text (react hffix s.status (message_of s)) s s' ready
            (sym (same_protocol hffix is_valid_utf8 test_text s ready room valid same) ∙ ran)) [
              | inl kept ↦ inl kept
              | inr r ↦
                  let (v, l, n, f) = react_logon hffix s.status (message_of s) r in
                  inr (record {
                    supported = same_bytes→eq (protocol s) fix_protocol_support same;
                    valid = v;
                    logon = same_bytes→eq (hffix.message_type (message_of s)) logon_type l;
                    readable = f;
                  })
            ]
    ]
  ]

-- If ReadHandler takes a session from not authenticated to authenticated, then the message in its
-- read buffer names the protocol FIX.5.0, hffix holds it for valid, of the type "A", and its logon
-- fields can be read. The read buffer is ready (4096 bytes, read from the start), and the test text
-- is short enough for a ByteBuffer.
pub authed_by-IsLogon :
    (hffix : Reader) (is_valid_utf8 : List ℕ → Bool) (test_text : List ℕ) (s s' : AuthSession)
    → IsReady s
    → test_message_size + length test_text < max_size
    → read_handler hffix is_valid_utf8 test_text s ≡ ok s'
    → s.status ≡ not_authed
    → s'.status ≡ authed
    → IsLogon hffix s
authed_by-IsLogon hffix is_valid_utf8 test_text s s' ready room ran before after =
    elim (status_cases hffix is_valid_utf8 test_text s s' ready room ran) [
      | inl kept ↦ absurd (let e : not_authed ≡ authed = sym before ∙ sym kept ∙ after in cc)
      | inr logon ↦ logon
    ]

react_wrong :
    (hffix : Reader) (status : AuthStatus) (message : List ℕ)
    → hffix.is_valid message ≡ true
    → ((hffix.message_type message ≡ logon_type) × (status ≡ authed))
      ⊎ ((hffix.message_type message ≡ order_type) × (status ≡ not_authed))
    → react hffix status message ≡ close_it
unfolding react same_bytes
react_wrong hffix status message v (inl (l, a)) =
    rw
      (
        v,
        ap (λ t. same_bytes t logon_type) l,
        ap (λ x. on_logon x (reads_logon_fields hffix message)) a,
      )
      refl
react_wrong hffix status message v (inr (o, n)) =
    rw
      (
        v,
        ap (λ t. same_bytes t logon_type) o,
        ap (λ t. same_bytes t order_type) o,
        ap (λ x. on_order x (reads_order_fields hffix message)) n,
      )
      refl

react_unknown :
    (hffix : Reader) (status : AuthStatus) (message : List ℕ)
    → (hffix.is_valid message ≡ false)
      ⊎ ((hffix.message_type message ≢ logon_type) × (hffix.message_type message ≢ order_type))
    → react hffix status message ≡ stay
unfolding react
react_unknown hffix status message (inl bad) = rw bad refl
react_unknown hffix status message (inr (not_logon, not_order)) =
    elim (Bool-cases (hffix.is_valid message)) [
      | inl v ↦
          rw
            (
              v,
              neq→not-same_bytes (hffix.message_type message) logon_type not_logon,
              neq→not-same_bytes (hffix.message_type message) order_type not_order,
            )
            refl
      | inr bad ↦ rw bad refl
    ]

module _ (hffix : Reader) (is_valid_utf8 : List ℕ → Bool) (test_text : List ℕ) (s : AuthSession)
    (ready : IsReady s) (room : test_message_size + length test_text < max_size)
    (text : is_valid_utf8 (protocol s) ≡ true) (supported : protocol s ≡ fix_protocol_support) where
  handled :
      read_handler hffix is_valid_utf8 test_text s
      ≡ perform test_text (react hffix s.status (message_of s)) s
  handled =
      same_protocol hffix is_valid_utf8 test_text s ready room text (
        ap (λ p. same_bytes p fix_protocol_support) supported
        ∙ same_bytes_refl fix_protocol_support)

  -- On a ready read buffer that names FIX.5.0, a valid logon in an authenticated session, or a
  -- valid order in one that is not, only closes the socket. The test text fits a ByteBuffer, and
  -- the protocol's text is UTF-8.
  pub wrong_status_closes :
      hffix.is_valid (message_of s) ≡ true
      → ((hffix.message_type (message_of s) ≡ logon_type) × (s.status ≡ authed))
        ⊎ ((hffix.message_type (message_of s) ≡ order_type) × (s.status ≡ not_authed))
      → read_handler hffix is_valid_utf8 test_text s ≡ ok (close s)
  unfolding perform
  wrong_status_closes v wrong =
      handled ∙ ap (λ r. perform test_text r s) (react_wrong hffix s.status (message_of s) v wrong)

  -- On a ready read buffer that names FIX.5.0, a message that hffix does not hold for valid, or of
  -- a type that is neither "A" nor "D", leaves the session as it was: the socket is not closed,
  -- nothing is sent, and no further read is asked for. The test text fits a ByteBuffer, and the
  -- protocol's text is UTF-8.
  pub unknown_message_stalls :
      (hffix.is_valid (message_of s) ≡ false)
        ⊎ ((hffix.message_type (message_of s) ≢ logon_type)
            × (hffix.message_type (message_of s) ≢ order_type))
      → read_handler hffix is_valid_utf8 test_text s ≡ ok s
  unfolding perform
  unknown_message_stalls unknown =
      handled
      ∙ ap (λ r. perform test_text r s) (react_unknown hffix s.status (message_of s) unknown)
