-- ===== src/Session/Answer.antt =====
-- The answer to a logon, with the test message that PrepareTestMessage makes.
use warhead_fix.Base.{
  ℕ, ◌+◌, ◌-◌, ◌≤◌, ◌<◌, ◌≡◌, refl, ◌∙◌, Bool, true, some, List, [], ◌∷◌, ◌++◌, arith, length, drop,
  length-append, length-drop,
}
use warhead_fix.Base.Options
use warhead_fix.Base.Options.{◌>>=◌}
use warhead_fix.MessageBuffer.{MessageBuffer}
use warhead_fix.MessageBuffer.Contents.{active}
use warhead_fix.ByteBuffer.{max_size}
use warhead_fix.ByteBuffer.Strings.RoundTrip.{NoZero}
use warhead_fix.FixMessage.{Reader, test_message_size}
use warhead_fix.FixMessage.TestMessage.{
  Writer, logon_pushes, order_pushes, array_text, test_text, test_text_lem, length-array_text,
}
use warhead_fix.Socket.{queue_packet, is_open}
use warhead_fix.Session.{AuthSession, authed, ok, read_handler, fix_protocol_support}
use warhead_fix.Session.Reaction.{react, message_of, reply_and_read}
use warhead_fix.Session.Replies.{asking}
use warhead_fix.Session.Safety.{protocol, logon_answered}
use warhead_fix.Session.Performing.{IsReady}

-- If the reaction of an open session with a ready read buffer that names FIX.5.0 is the answer to a
-- logon, it becomes authenticated, with one new message in the write queue and a new read asked
-- for. The bytes of the message are all 4096 bytes of the read buffer, then the logon message and
-- the order that PrepareTestMessage has hffix write, then what the array of PrepareTestMessage held
-- behind them, up to its first zero byte, and a zero byte. The two messages fit the array and have
-- no zero byte, the array has one behind them, and the protocol's text is UTF-8.
pub logon_answer_holds_messages :
    (write : Writer) (now : ℕ) (buffer logon new_order left : List ℕ)
    → write (logon_pushes 1 now) test_message_size ≡ some logon
    → write (order_pushes 2 now) (test_message_size - length logon) ≡ some new_order
    → NoZero logon
    → NoZero new_order
    → length logon + length new_order ≤ test_message_size
    → length buffer ≡ test_message_size
    → array_text (drop (length logon + length new_order) buffer) ≡ some left
    → (hffix : Reader) (is_valid_utf8 : List ℕ → Bool) (s : AuthSession) → IsReady s
    → is_valid_utf8 (protocol s) ≡ true
    → protocol s ≡ fix_protocol_support
    → is_open s.socket ≡ true
    → react hffix s.status (message_of s) ≡ reply_and_read
    → (text : List ℕ) × (m : MessageBuffer) × (test_text write now buffer ≡ some text)
      × (active m ≡ message_of s ++ (logon ++ (new_order ++ left)) ++ 0 ∷ [])
      × (read_handler hffix is_valid_utf8 text s
          ≡ ok (record { socket = asking (queue_packet m s.socket); status = authed }))
logon_answer_holds_messages write now buffer logon new_order left writes_logon writes_order
      logon_NoZero order_NoZero room full rest hffix is_valid_utf8 s ready valid same open_yet
      reaction =
    let text : List ℕ = logon ++ (new_order ++ left) in
    let made : test_text write now buffer ≡ some text =
      test_text_lem write now buffer logon new_order writes_logon writes_order logon_NoZero
        order_NoZero room full
      ∙ rw (rest, Options.◌>>=◌) refl in
    let shorter = length-array_text (drop (length logon + length new_order) buffer) left rest in
    let fits : test_message_size + length text < max_size = omega (
      arith,
      shorter,
      length-drop (length logon + length new_order) buffer,
      length-append logon (new_order ++ left),
      length-append new_order left,
    ) in
    let (m, bytes, run) =
      logon_answered hffix is_valid_utf8 text s ready fits valid same open_yet reaction in
    (text, m, made, bytes, run)
