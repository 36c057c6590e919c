-- ===== src/Session.antt =====
-- app/Server/AuthSession.h and AuthSession.cpp: one client of the server, and what it does with the
-- bytes that its socket received. hffix and utf8cpp are parameters, and the text of the test message.
pub mod Header
pub mod Reaction
pub mod Reacting
pub mod Gate
pub mod Replies
pub mod Performing
pub mod Safety
pub mod Answer
pub mod Order
pub mod History
mod Tests
use warhead_fix.Base.{
  ℕ, zero, suc, ◌+◌, ◌-◌, ◌*◌, ◌/◌, ◌%◌, ◌^◌, ◌≤◌, ◌<◌, min, ◌≡◌, refl, sym, ap, ap₂, subst, ◌∙◌,
  ◌≢◌, ◌↔◌, ◌⊎◌, inl, inr, Bool, true, false, not, ◌&&◌, ◌||◌, Option, none, some, List, [], ◌∷◌,
  ◌++◌, append-nil, append_assoc, arith, ltb, leb, ◌==◌, if◌then◌else◌, ltb→lt, lt→ltb, le→not-ltb,
  leb→le, le→leb, lt→not-leb, ==_iff, Bool-cases, Option-cases, length, take, drop, replicate,
  length-append, length-take, length-drop, length-replicate, take-append-drop, take-append,
  drop-append, take-append_le, drop-append_le, take_all, take-take, drop-drop, drop-take, drop_all,
  take-splice, drop-splice, take-drop-splice, drop_behind-splice, size_mod, add_size, sub_size,
  resize, copy_out, splice, copy_in, length-resize, length-splice, copy_out-some, copy_in-some,
}
use warhead_fix.Base.Bytes.{same_bytes}
use warhead_fix.MessageBuffer
use warhead_fix.MessageBuffer.{MessageBuffer}
use warhead_fix.ByteBuffer
use warhead_fix.ByteBuffer.{ByteBuffer, Outcome, Error}
use warhead_fix.ByteBuffer.Strings.{read_string}
use warhead_fix.FixMessage.{
  Reader, logon_type, order_type, is_read_logon_message, is_read_new_order_single_message,
  is_valid_command, get_command, prepare_test_message,
}
use warhead_fix.Socket
use warhead_fix.Socket.{Socket, close_socket, queue_packet, async_read, receive, is_open}

pub data AuthStatus : Type 0 where
  not_authed authed : AuthStatus

-- The pointer in an `AuthHandler`.
pub data HandlerName : Type 0 where
  handle_logon handle_new_order_single : HandlerName

pub record AuthHandler : Type 0 where
  pub status : AuthStatus
  pub handler : HandlerName

pub record AuthSession : Type 0 where
  pub socket : Socket
  pub status : AuthStatus

-- An exception that nothing catches leaves the thread's event loop, and the process ends.
pub data Result {ℓ} (A : Type ℓ) : Type ℓ where
  ok : A → Result A
  err : Error → Result A

infixl 5 ◌>>=◌
abbrev pub ◌>>=◌ {ℓ κ} : {A : Type ℓ} {B : Type κ} → Result A → (A → Result B) → Result B
ok a >>= f = f a
err e >>= f = err e

-- The value of a method of a buffer that is a local variable, with the buffer where it is used again.
abbrev pub value_of {ℓ} : {A : Type ℓ} → Outcome A → Result A
value_of (Outcome.ok a b) = ok a
value_of (Outcome.err e b) = err e

abbrev pub buffer_of {ℓ} : {A : Type ℓ} → Outcome A → Result ByteBuffer
buffer_of (Outcome.ok a b) = ok b
buffer_of (Outcome.err e b) = err e

abbrev pub defined {ℓ} : {A : Type ℓ} → Option A → Result A
defined none = err Error.undefined
defined (some a) = ok a

abbrev pub same_status : AuthStatus → AuthStatus → Bool
same_status not_authed not_authed = true
same_status not_authed authed = false
same_status authed not_authed = false
same_status authed authed = true

-- FIX_PROTOCOL_SUPPORT
abbrev pub fix_protocol_support : List ℕ
fix_protocol_support = b'F' ∷ b'I' ∷ b'X' ∷ b'.' ∷ b'5' ∷ b'.' ∷ b'0' ∷ []

-- `Handlers`, made by `InitHandlers`, and `find`.
unfoldable pub find_handler : List ℕ → Option AuthHandler
find_handler cmd =
    if same_bytes cmd logon_type
    then some (record { status = not_authed; handler = handle_logon })
    else if same_bytes cmd order_type
    then some (record { status = authed; handler = handle_new_order_single })
    else none

-- `CloseSocket`
abbrev pub close : AuthSession → AuthSession
close s = record s { socket = close_socket s.socket }

-- `ByteBuffer buffer(std::move(MessageBuffer(GetReadBuffer())))`: a copy.
abbrev pub read_copy : AuthSession → ByteBuffer
read_copy s = ByteBuffer.of_message_buffer s.socket.read_buffer

-- `SendPacket`
unfoldable pub send_packet : ByteBuffer → AuthSession → Result AuthSession
send_packet packet s =
    if not (is_open s.socket) then ok s else if ByteBuffer.is_empty packet then ok s else do
      bytes ← value_of (ByteBuffer.contents packet)
      buffer ←
          defined (MessageBuffer.write (MessageBuffer.create_sized (length packet.storage)) bytes)
      ok (record s { socket = queue_packet buffer s.socket })

-- The text that the header check compares: seven bytes from the third byte on, as a C string.
unfoldable pub fix_protocol : (List ℕ → Bool) → AuthSession → Result (List ℕ)
fix_protocol is_valid_utf8 s = do
  let packet = s.socket.read_buffer
  bytes ← defined (copy_out packet.storage (packet.rpos + 2) 7)
  header ← defined (MessageBuffer.write (MessageBuffer.resize_to MessageBuffer.create 7) bytes)
  value_of (read_string is_valid_utf8 (ByteBuffer.of_message_buffer header))

-- `packet.Reset(); AsyncRead();`
unfoldable pub read_on : AuthSession → Result AuthSession
read_on s = do
  socket ←
      defined
        (async_read (record s.socket { read_buffer = MessageBuffer.reset s.socket.read_buffer }))
  ok (record s { socket = socket })

module _ (hffix : Reader) (is_valid_utf8 : List ℕ → Bool) (test_text : List ℕ) where
  -- `HandleLogonMessage`
  unfoldable pub handle_logon_message : AuthSession → Result (Bool × AuthSession)
  handle_logon_message s = do
    let buffer = read_copy s
    good ← value_of (is_read_logon_message hffix is_valid_utf8 buffer)
    if good
        then (do
          packet ← buffer_of (prepare_test_message test_text buffer)
          s' ← send_packet packet (record s { status = authed })
          ok (true, s'))
        else ok (false, s)

  -- `HandleNewOrderSingleMessage`
  unfoldable pub handle_new_order_single_message : AuthSession → Result (Bool × AuthSession)
  handle_new_order_single_message s = do
    good ← value_of (is_read_new_order_single_message hffix is_valid_utf8 (read_copy s))
    ok (good, s)

  unfoldable pub run_handler : HandlerName → AuthSession → Result (Bool × AuthSession)
  run_handler handle_logon s = handle_logon_message s
  run_handler handle_new_order_single s = handle_new_order_single_message s

  -- `ReadHandler` once a handler was found for the command.
  unfoldable pub dispatch : AuthHandler → List ℕ → AuthSession → Result AuthSession
  dispatch h cmd s = if not (same_status s.status h.status) then ok (close s) else do
    valid ← value_of (is_valid_command hffix cmd (read_copy s))
    if not valid
        then ok s
        else do (good, s') ← run_handler h.handler s; if good then read_on s' else ok (close s')

  -- `ReadHandler` once the protocol is accepted.
  unfoldable pub handle_command : AuthSession → Result AuthSession
  handle_command s = do
    cmd ← value_of (get_command hffix (read_copy s))
    elim (find_handler cmd) [ none ↦ ok s | some h ↦ dispatch h cmd s ]

  -- `ReadHandler`
  unfoldable pub read_handler : AuthSession → Result AuthSession
  read_handler s = do
    protocol ← fix_protocol is_valid_utf8 s
    if not (same_bytes protocol fix_protocol_support) then ok (close s) else handle_command s

  -- `ReadHandlerInternal`: the read failed, or so many bytes came.
  unfoldable pub read_handler_internal : Option ℕ → AuthSession → Result AuthSession
  read_handler_internal none s = ok (close s)
  read_handler_internal (some transferred) s =
      read_handler (record s { socket = receive transferred s.socket })

-- The constructor, and `Start`.
unfoldable pub create : AuthSession
create = record { socket = Socket.create; status = not_authed }

unfoldable pub start : AuthSession → Result AuthSession
start s = do socket ← defined (async_read s.socket); ok (record s { socket = socket })
