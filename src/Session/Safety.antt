-- ===== src/Session/Safety.antt =====
-- `ReadHandler` of AuthSession.cpp as a whole: the header check and then the reaction, and that it
-- runs to its end on every session that waits for bytes, if the text of the protocol is UTF-8.
use warhead_fix.Base.{
  ℕ, ◌+◌, ◌<◌, ◌≡◌, refl, ap, ◌∙◌, inl, inr, Bool, true, false, List, [], ◌∷◌, ◌++◌, arith,
  if◌then◌else◌, Bool-cases, length,
}
use warhead_fix.Base.Bytes.{same_bytes, same_bytes_refl}
use warhead_fix.MessageBuffer.{MessageBuffer}
use warhead_fix.MessageBuffer.Contents.{active}
use warhead_fix.ByteBuffer.{invalid_value, string_kind, max_size}
use warhead_fix.ByteBuffer.Strings.Reference.{c_text}
use warhead_fix.FixMessage.{Reader, test_message_size}
use warhead_fix.Session.{AuthSession, authed, ok, err, close, read_handler, fix_protocol_support}
use warhead_fix.Session.Header.{header_bytes, fix_protocol_lem}
use warhead_fix.Session.Reaction.{react, perform, reply, message_of, reply_and_read}
use warhead_fix.Session.Reacting.{handle_command-react}
use warhead_fix.Session.Replies.{message_with, active-message_with, asking, reply_text}
use warhead_fix.Socket.{queue_packet, is_open}
use warhead_fix.Session.Performing.{
  IsReady, resize_same, length-reply, perform_reply, close-IsReady, perform-IsReady,
}

-- The protocol that the message names.
abbrev pub protocol : AuthSession → List ℕ
protocol s = c_text (header_bytes s)

module _ (hffix : Reader) (is_valid_utf8 : List ℕ → Bool) (test_text : List ℕ) (s : AuthSession)
    (ready : IsReady s) (room : test_message_size + length test_text < max_size) where
  -- On a ready read buffer, and with a test text that fits a ByteBuffer, ReadHandler does what the
  -- table `react` says: it throws if the text behind "8=" is not UTF-8, closes the socket if that
  -- text is not FIX.5.0, and otherwise performs the reaction to the message and the status.
  pub read_handler-react : read_handler hffix is_valid_utf8 test_text s ≡ (
      if is_valid_utf8 (protocol s)
      then (if same_bytes (protocol s) fix_protocol_support
          then perform test_text (react hffix s.status (message_of s)) s
          else ok (close s))
      else err (invalid_value string_kind (protocol s)))
  unfolding read_handler
  read_handler-react =
      rw
        (
          fix_protocol_lem is_valid_utf8 s (omega (arith, ready.front, ready.full)),
          handle_command-react hffix is_valid_utf8 test_text s (omega (arith, ready.full))
              (omega (arith, ready.full)) room,
        )
        (elim (Bool-cases (is_valid_utf8 (protocol s))) [
          | inr bad ↦ rw bad refl
          | inl valid ↦ elim (Bool-cases (same_bytes (protocol s) fix_protocol_support)) [
            | inl same ↦ rw (valid, same) refl
            | inr other ↦ rw (valid, other) refl
          ]
        ])

  -- The three cases of it.
  pub bad_protocol :
      is_valid_utf8 (protocol s) ≡ false
      → read_handler hffix is_valid_utf8 test_text s ≡ err (invalid_value string_kind (protocol s))
  bad_protocol bad = read_handler-react ∙ rw bad refl

  pub other_protocol :
      is_valid_utf8 (protocol s) ≡ true
      → same_bytes (protocol s) fix_protocol_support ≡ false
      → read_handler hffix is_valid_utf8 test_text s ≡ ok (close s)
  other_protocol valid other = read_handler-react ∙ rw (valid, other) refl

  pub same_protocol :
      is_valid_utf8 (protocol s) ≡ true
      → same_bytes (protocol s) fix_protocol_support ≡ true
      → read_handler hffix is_valid_utf8 test_text s
        ≡ perform test_text (react hffix s.status (message_of s)) s
  same_protocol valid same = read_handler-react ∙ rw (valid, same) refl

-- If the text behind "8=" is UTF-8, ReadHandler on a ready read buffer runs to its end, without an
-- exception, an assertion or an access outside a buffer, and leaves a ready read buffer. The test
-- text fits a ByteBuffer.
pub read_handler-IsReady :
    (hffix : Reader) (is_valid_utf8 : List ℕ → Bool) (test_text : List ℕ) (s : AuthSession)
    → IsReady s
    → test_message_size + length test_text < max_size
    → is_valid_utf8 (protocol s) ≡ true
    → (s' : AuthSession) × (read_handler hffix is_valid_utf8 test_text s ≡ ok s') × IsReady s'
read_handler-IsReady hffix is_valid_utf8 test_text s ready room valid =
    elim (Bool-cases (same_bytes (protocol s) fix_protocol_support)) [
      | inl same ↦
          let (s', e, ready', _) =
            perform-IsReady test_text s ready room (react hffix s.status (message_of s)) in
          (s', same_protocol hffix is_valid_utf8 test_text s ready room valid same ∙ e, ready')
      | inr other ↦ (
        close s,
        other_protocol hffix is_valid_utf8 test_text s ready room valid other,
        close-IsReady test_text s ready room,
      )
    ]

-- An open session with a ready read buffer that names FIX.5.0 and whose reaction is the answer to a
-- logon becomes authenticated, with one new message in the write queue and a new read asked for.
-- The bytes of the message are all 4096 bytes of the read buffer, then the test text and a zero
-- byte. The test text fits a ByteBuffer, and the protocol's text is UTF-8.
pub logon_answered :
    (hffix : Reader) (is_valid_utf8 : List ℕ → Bool) (test_text : List ℕ) (s : AuthSession)
    → IsReady s
    → test_message_size + length test_text < max_size
    → is_valid_utf8 (protocol s) ≡ true
    → protocol s ≡ fix_protocol_support
    → is_open s.socket ≡ true
    → react hffix s.status (message_of s) ≡ reply_and_read
    → (m : MessageBuffer) × (active m ≡ message_of s ++ test_text ++ 0 ∷ [])
      × (read_handler hffix is_valid_utf8 test_text s
          ≡ ok (record { socket = asking (queue_packet m s.socket); status = authed }))
logon_answered hffix is_valid_utf8 test_text s ready room valid same o r = (
  message_with (reply test_text s).storage,
  active-message_with (reply test_text s).storage
        (omega (arith, length-reply test_text s ready room))
      ∙ reply_text test_text s
      ∙ ap (λ front. front ++ test_text ++ 0 ∷ []) (resize_same (message_of s) 4096 ready.full),
  read_handler-react hffix is_valid_utf8 test_text s ready room
      ∙ rw
          (
            valid,
            ap (λ p. same_bytes p fix_protocol_support) same,
            same_bytes_refl fix_protocol_support,
            r,
          )
          (perform_reply test_text s ready room o),
)
