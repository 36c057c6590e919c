-- ===== src/Session/Reacting.antt =====
-- `ReadHandler` of AuthSession.cpp behind the check of the protocol, as an implementation of the table.
use warhead_fix.Base.{
  ℕ, ◌+◌, ◌^◌, ◌<◌, ◌≡◌, refl, ap, inl, inr, Bool, true, false, not, ◌&&◌, none, some, List, [],
  arith, if◌then◌else◌, Bool-cases, length, length-resize,
}
use warhead_fix.Base.Bytes.{same_bytes, same_bytes_refl}
use warhead_fix.ByteBuffer
use warhead_fix.ByteBuffer.{ByteBuffer, Outcome, contents, size, max_size}
use warhead_fix.ByteBuffer.Strings.RoundTrip.{append_string_lem}
use warhead_fix.FixMessage.{
  reads_logon_fields, reads_order_fields, Reader, logon_type, order_type, is_read_logon_message,
  is_read_new_order_single_message, is_valid_command, get_command, prepare_test_message,
  test_message_size,
}
use warhead_fix.Session.{
  AuthSession, AuthStatus, authed, not_authed, handle_logon, handle_new_order_single, Result, ok,
  err, ◌>>=◌, value_of, buffer_of, same_status, find_handler, close, read_copy, send_packet,
  handle_logon_message, handle_new_order_single_message, run_handler, read_on, dispatch,
  handle_command,
}
use warhead_fix.Session.Reaction.{
  on_logon, on_order, react, reply, perform, message_of, contents_lem,
}

read_on_after :
    (sent : Result AuthSession)
    → ◌>>=◌ {A = Bool × AuthSession}
        (◌>>=◌ sent (λ s'. ok (true, s')))
        (λ x. if x.0 then read_on x.1 else ok (close x.1))
      ≡ ◌>>=◌ sent (λ s'. read_on s')
read_on_after (ok s') = refl
read_on_after (err e) = refl

module _ (hffix : Reader) (is_valid_utf8 : List ℕ → Bool) (test_text : List ℕ) (s : AuthSession)
    (some_bytes : 0 < length (message_of s)) where
  found : contents (read_copy s) ≡ Outcome.ok (message_of s) (read_copy s)
  unfolding ByteBuffer.of_message_buffer
  found = contents_lem (read_copy s) some_bytes

  command_lem :
      value_of (get_command hffix (read_copy s))
      ≡ ok (if hffix.is_valid (message_of s) then hffix.message_type (message_of s) else [])
  unfolding get_command
  command_lem = rw (ByteBuffer.◌>>=◌, found) refl

  command_of_valid :
      hffix.is_valid (message_of s) ≡ true
      → value_of (get_command hffix (read_copy s)) ≡ ok (hffix.message_type (message_of s))
  command_of_valid v = rw (command_lem, v) refl

  command_of_invalid :
      hffix.is_valid (message_of s) ≡ false → value_of (get_command hffix (read_copy s)) ≡ ok []
  command_of_invalid v = rw (command_lem, v) refl

  valid_command_lem :
      (command : List ℕ)
      → value_of (is_valid_command hffix command (read_copy s))
        ≡ ok (
            hffix.is_valid (message_of s) && same_bytes command (hffix.message_type (message_of s)))
  unfolding is_valid_command
  valid_command_lem command = rw (ByteBuffer.◌>>=◌, found) refl

  order_lem :
      hffix.is_valid (message_of s) ≡ true
      → handle_new_order_single_message hffix is_valid_utf8 test_text s
        ≡ ok (
          (if not (same_bytes (hffix.message_type (message_of s)) order_type)
              then false
              else reads_order_fields hffix (message_of s)),
          s,
        )
  unfolding handle_new_order_single_message is_read_new_order_single_message
  order_lem v = rw (ByteBuffer.◌>>=◌, found, v) refl

  logon_test_lem :
      hffix.is_valid (message_of s) ≡ true
      → value_of (is_read_logon_message hffix is_valid_utf8 (read_copy s))
        ≡ ok (
            if not (same_bytes (hffix.message_type (message_of s)) logon_type)
            then false
            else reads_logon_fields hffix (message_of s))
  unfolding is_read_logon_message
  logon_test_lem v = rw (ByteBuffer.◌>>=◌, found, v) refl

  test_message_lem :
      length (message_of s) < 2 ^ 61
      → test_message_size + length test_text < max_size
      → buffer_of (prepare_test_message test_text (read_copy s)) ≡ ok (reply test_text s)
  unfolding prepare_test_message ByteBuffer.resize_to
  test_message_lem short room =
      let packet = ByteBuffer.resize_to (read_copy s) test_message_size in
      ap buffer_of (
        append_string_lem test_text packet (omega arith)
          (omega (arith, length-resize (read_copy s).storage test_message_size)))

  logon_lem :
      length (message_of s) < 2 ^ 61
      → test_message_size + length test_text < max_size
      → hffix.is_valid (message_of s) ≡ true
      → same_bytes (hffix.message_type (message_of s)) logon_type ≡ true
      → handle_logon_message hffix is_valid_utf8 test_text s ≡ (
          if reads_logon_fields hffix (message_of s)
          then (do
            s' ← send_packet (reply test_text s) (record s { status = authed })
            ok (true, s'))
          else ok (false, s))
  unfolding handle_logon_message
  logon_lem short room v a = rw (logon_test_lem v, ◌>>=◌, a, test_message_lem short room)

  dispatch_logon :
      length (message_of s) < 2 ^ 61
      → test_message_size + length test_text < max_size
      → hffix.is_valid (message_of s) ≡ true
      → same_bytes (hffix.message_type (message_of s)) logon_type ≡ true
      → (status : AuthStatus) (good : Bool) → s.status ≡ status
      → reads_logon_fields hffix (message_of s) ≡ good
      → dispatch hffix is_valid_utf8 test_text
          (record { status = not_authed; handler = handle_logon })
          (hffix.message_type (message_of s))
          s
        ≡ perform test_text (on_logon status good) s
  unfolding dispatch run_handler perform
  dispatch_logon short room v a authed good e g = rw (ap (λ x. same_status x not_authed) e) refl
  dispatch_logon short room v a not_authed true e g =
      rw
        (
          ap (λ x. same_status x not_authed) e,
          valid_command_lem (hffix.message_type (message_of s)),
          v,
          same_bytes_refl (hffix.message_type (message_of s)),
          logon_lem short room v a,
          g,
        )
        (read_on_after (send_packet (reply test_text s) (record s { status = authed })))
  dispatch_logon short room v a not_authed false e g =
      rw
        (
          ap (λ x. same_status x not_authed) e,
          valid_command_lem (hffix.message_type (message_of s)),
          v,
          same_bytes_refl (hffix.message_type (message_of s)),
          logon_lem short room v a,
          g,
        )
        refl

  dispatch_order :
      hffix.is_valid (message_of s) ≡ true
      → same_bytes (hffix.message_type (message_of s)) order_type ≡ true
      → (status : AuthStatus) (good : Bool) → s.status ≡ status
      → reads_order_fields hffix (message_of s) ≡ good
      → dispatch hffix is_valid_utf8 test_text
          (record { status = authed; handler = handle_new_order_single })
          (hffix.message_type (message_of s))
          s
        ≡ perform test_text (on_order status good) s
  unfolding dispatch run_handler perform
  dispatch_order v d not_authed good e g = rw (ap (λ x. same_status x authed) e) refl
  dispatch_order v d authed true e g =
      rw
        (
          ap (λ x. same_status x authed) e,
          valid_command_lem (hffix.message_type (message_of s)),
          v,
          same_bytes_refl (hffix.message_type (message_of s)),
          order_lem v,
          d,
          g,
        )
        refl
  dispatch_order v d authed false e g =
      rw
        (
          ap (λ x. same_status x authed) e,
          valid_command_lem (hffix.message_type (message_of s)),
          v,
          same_bytes_refl (hffix.message_type (message_of s)),
          order_lem v,
          d,
          g,
        )
        refl

  with_command :
      (command : List ℕ)
      → value_of (get_command hffix (read_copy s)) ≡ ok command
      → handle_command hffix is_valid_utf8 test_text s ≡ elim (find_handler command) [
        | none ↦ ok s
        | some h ↦ dispatch hffix is_valid_utf8 test_text h command s
      ]
  unfolding handle_command
  with_command command e = rw e refl

  find_none : find_handler [] ≡ none
  unfolding find_handler same_bytes
  find_none = refl

  find_logon :
      (command : List ℕ)
      → same_bytes command logon_type ≡ true
      → find_handler command ≡ some (record { status = not_authed; handler = handle_logon })
  unfolding find_handler
  find_logon command a = rw a refl

  find_order :
      (command : List ℕ)
      → same_bytes command logon_type ≡ false
      → same_bytes command order_type ≡ true
      → find_handler command ≡ some (record { status = authed; handler = handle_new_order_single })
  unfolding find_handler
  find_order command a d = rw (a, d) refl

  find_unknown :
      (command : List ℕ)
      → same_bytes command logon_type ≡ false
      → same_bytes command order_type ≡ false
      → find_handler command ≡ none
  unfolding find_handler
  find_unknown command a d = rw (a, d) refl

  -- Behind the check of the protocol, the code performs the reaction.
  pub handle_command-react :
      length (message_of s) < 2 ^ 61
      → test_message_size + length test_text < max_size
      → handle_command hffix is_valid_utf8 test_text s
        ≡ perform test_text (react hffix s.status (message_of s)) s
  unfolding react perform
  handle_command-react short room = elim (Bool-cases (hffix.is_valid (message_of s))) [
    | inr bad ↦ rw (with_command [] (command_of_invalid bad), find_none, bad) refl
    | inl v ↦ elim (Bool-cases (same_bytes command logon_type)) [
      | inl a ↦
          rw (with_command command (command_of_valid v), find_logon command a, v, a)
            (dispatch_logon short room v a s.status (reads_logon_fields hffix (message_of s)) refl
              refl)
      | inr other ↦ elim (Bool-cases (same_bytes command order_type)) [
        | inl d ↦
            rw (with_command command (command_of_valid v), find_order command other d, v, other, d)
              (dispatch_order v d s.status (reads_order_fields hffix (message_of s)) refl refl)
        | inr unknown ↦
            rw
              (
                with_command command (command_of_valid v),
                find_unknown command other unknown,
                v,
                other,
                unknown,
              )
              refl
      ]
    ]
  ]
    where
      command : List ℕ
      command = hffix.message_type (message_of s)
