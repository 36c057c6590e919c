-- ===== src/Session/Reaction.antt =====
-- What `ReadHandler` of AuthSession.cpp means to do, as a table from the message and the status of
-- the session to a reaction, and `ReadHandler` as its implementation.
use warhead_fix.Base.{ℕ, ◌<◌, ◌≡◌, Bool, true, false, not, List, arith, if◌then◌else◌}
use warhead_fix.Base.Bytes.{same_bytes}
use warhead_fix.ByteBuffer
use warhead_fix.ByteBuffer.{ByteBuffer, Outcome, contents, size, max_size}
use warhead_fix.ByteBuffer.Strings.RoundTrip.{with_string}
use warhead_fix.FixMessage.{
  reads_logon_fields, reads_order_fields, Reader, logon_type, order_type, test_message_size,
}
use warhead_fix.Session.{
  AuthSession, AuthStatus, authed, not_authed, Result, ok, ◌>>=◌, close, read_copy, send_packet,
  read_on,
}

pub data Reaction : Type 0 where
  -- close the socket; leave everything as it is; answer the logon and read on; read on
  close_it stay reply_and_read read_more : Reaction

-- The two handlers, by the status that they are for and whether the fields can be read.
abbrev pub on_logon : AuthStatus → Bool → Reaction
on_logon not_authed true = reply_and_read
on_logon not_authed false = close_it
on_logon authed readable = close_it

abbrev pub on_order : AuthStatus → Bool → Reaction
on_order authed true = read_more
on_order authed false = close_it
on_order not_authed readable = close_it

-- The reaction to a message with the supported header. A second logon, or an order before the logon,
-- closes the socket.
unfoldable pub react : Reader → AuthStatus → List ℕ → Reaction
react hffix status message =
    if not (hffix.is_valid message)
    then stay
    else if same_bytes (hffix.message_type message) logon_type
    then on_logon status (reads_logon_fields hffix message)
    else if same_bytes (hffix.message_type message) order_type
    then on_order status (reads_order_fields hffix message)
    else stay

-- What the answer to a logon is made of: the copy of the read buffer and the text behind it.
abbrev pub reply : List ℕ → AuthSession → ByteBuffer
reply test_text s = with_string (ByteBuffer.resize_to (read_copy s) test_message_size) test_text

unfoldable pub perform : List ℕ → Reaction → AuthSession → Result AuthSession
perform test_text close_it s = ok (close s)
perform test_text stay s = ok s
perform test_text reply_and_read s = do
  s' ← send_packet (reply test_text s) (record s { status = authed })
  read_on s'
perform test_text read_more s = read_on s

abbrev pub message_of : AuthSession → List ℕ
message_of s = s.socket.read_buffer.storage

pub contents_lem : (b : ByteBuffer) → 0 < size b → contents b ≡ Outcome.ok b.storage b
unfolding contents ByteBuffer.is_empty
contents_lem b h = ground arith
