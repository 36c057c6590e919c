-- ===== src/Socket.antt =====
-- shared/Network/Socket.h, the build without IOCP: one connection, its read buffer and the queue of
-- messages to send. Boost.Asio is outside: what it reports is an argument of the handlers, and what
-- is asked of it is written to `log`, newest last.
pub mod Writing
pub mod Stream
pub mod Closing
pub mod Draining
pub mod History
pub mod Reading
mod Tests
use warhead_fix.Base.{
  ℕ, zero, suc, ◌+◌, ◌-◌, ◌*◌, ◌/◌, ◌%◌, ◌^◌, ◌≤◌, ◌<◌, min, ◌≡◌, refl, sym, ap, ap₂, subst, ◌∙◌,
  ◌≢◌, ◌↔◌, ◌⊎◌, inl, inr, Bool, true, false, not, ◌&&◌, ◌||◌, Option, none, some, List, [], ◌∷◌,
  ◌++◌, append-nil, append_assoc, arith, ltb, leb, ◌==◌, if◌then◌else◌, ltb→lt, lt→ltb, le→not-ltb,
  leb→le, le→leb, lt→not-leb, ==_iff, Bool-cases, Option-cases, length, take, drop, replicate,
  length-append, length-take, length-drop, length-replicate, take-append-drop, take-append,
  drop-append, take-append_le, drop-append_le, take_all, take-take, drop-drop, drop-take, drop_all,
  take-splice, drop-splice, take-drop-splice, drop_behind-splice, size_mod, add_size, sub_size,
  resize, copy_out, splice, copy_in, length-resize, length-splice, copy_out-some, copy_in-some,
}
use warhead_fix.Base.Options.{◌>>=◌}
use warhead_fix.MessageBuffer
use warhead_fix.MessageBuffer.{MessageBuffer, active_size, read_completed, write_completed}
use warhead_fix.MessageBuffer.Contents.{active}

-- The calls on the `tcp::socket`, and `OnClose`.
pub data Effect : Type 0 where
  -- `write_some` took these bytes
  sent : List ℕ → Effect
  -- `async_write_some(null_buffers)`: call back when the socket is writable
  wait_writable : Effect
  -- `async_read_some` into so many bytes
  start_read : ℕ → Effect
  shutdown_send : Effect
  on_close : Effect

-- What `write_some` reports: `would_block` or `try_again`, another error, or the bytes sent.
pub data WriteResult : Type 0 where
  blocked : WriteResult
  failed : WriteResult
  wrote : ℕ → WriteResult

pub record Socket : Type 0 where
  pub read_buffer : MessageBuffer
  pub write_queue : List MessageBuffer
  pub closed : Bool
  pub closing : Bool
  pub is_writing_async : Bool
  pub log : List Effect

abbrev pub read_block_size : ℕ
read_block_size = 4096

-- The constructor.
unfoldable pub create : Socket
create = record {
  read_buffer = MessageBuffer.resize_to MessageBuffer.create read_block_size;
  write_queue = [];
  closed = false;
  closing = false;
  is_writing_async = false;
  log = [];
}

abbrev pub emit : Effect → Socket → Socket
emit e s = record s { log = s.log ++ e ∷ [] }

unfoldable pub is_open : Socket → Bool
is_open s = not s.closed && not s.closing

-- `CloseSocket`, an error of `shutdown` being logged only.
unfoldable pub close_socket : Socket → Socket
close_socket s =
    if s.closed then s else emit on_close (emit shutdown_send (record s { closed = true }))

unfoldable pub delayed_close_socket : Socket → Socket
delayed_close_socket s = record s { closing = true }

unfoldable pub queue_packet : MessageBuffer → Socket → Socket
queue_packet buffer s = record s { write_queue = s.write_queue ++ buffer ∷ [] }

abbrev pub is_nil {ℓ} : {A : Type ℓ} → List A → Bool
is_nil [] = true
is_nil (x ∷ xs) = false

-- `AsyncProcessQueue`; it always returns false.
unfoldable pub async_process_queue : Socket → Bool × Socket
async_process_queue s = (
  false,
  if s.is_writing_async then s else emit wait_writable (record s { is_writing_async = true }),
)

-- `_writeQueue.pop(); if (_closing && _writeQueue.empty()) CloseSocket();`
unfoldable pub pop_message : List MessageBuffer → Socket → Socket
unfolding close_socket
pop_message rest s =
    let popped = record s { write_queue = rest } in
    if s.closing && is_nil rest then close_socket popped else popped

-- `HandleQueue` after its `write_some` when the queue is `front ∷ rest`.
unfoldable pub handle_front :
    WriteResult → MessageBuffer → List MessageBuffer → Socket → Bool × Socket
handle_front blocked front rest s = async_process_queue s
handle_front failed front rest s = (false, pop_message rest s)
handle_front (wrote n) front rest s =
    let s' = emit (sent (take n (active front))) s in
    if n == 0
    then (false, pop_message rest s')
    else if ltb n (active_size front)
    then async_process_queue (record s' { write_queue = read_completed front n ∷ rest })
    else (not (is_nil rest), pop_message rest s')

-- `HandleQueue` on the messages of the queue; `write_some` reports by the number of bytes that it is
-- offered.
unfoldable pub handle_messages : List MessageBuffer → (ℕ → WriteResult) → Socket → Bool × Socket
handle_messages [] write_some s = (false, s)
handle_messages (front ∷ rest) write_some s =
    handle_front (write_some (active_size front)) front rest s

-- `HandleQueue`
unfoldable pub handle_queue : (ℕ → WriteResult) → Socket → Bool × Socket
unfolding handle_messages
handle_queue write_some s = handle_messages s.write_queue write_some s

-- `for (; HandleQueue();) ;` where call number `k` of `write_some` reports by `results k`. `none` is a
-- loop that is not done when its fuel is.
unfoldable pub handle_all : (ℕ → ℕ → WriteResult) → ℕ → ℕ → Socket → Option Socket
handle_all results zero k s = none
handle_all results (suc fuel) k s =
    let (again, s') = handle_queue (results k) s in
    let rest = handle_all results fuel (k + 1) s' in if again then rest else some s'

-- `Update`
unfoldable pub update : (ℕ → ℕ → WriteResult) → Socket → Option (Bool × Socket)
update results s =
    if s.closed
    then some (false, s)
    else if s.is_writing_async || (is_nil s.write_queue && not s.closing)
    then some (true, s)
    else do s' ← handle_all results (length s.write_queue + 1) 0 s; some (true, s')

-- `WriteHandlerWrapper`: the socket is writable.
unfoldable pub write_handler : (ℕ → WriteResult) → Socket → Socket
write_handler write_some s = (handle_queue write_some (record s { is_writing_async = false })).1

-- `AsyncRead`. `none` is a `memmove` outside the read buffer.
unfoldable pub async_read : Socket → Option Socket
unfolding is_open
async_read s =
    if is_open s
    then (do
      front ← MessageBuffer.normalize s.read_buffer
      let buffer = MessageBuffer.ensure_free_space front
      some (
          emit (start_read (MessageBuffer.remaining_space buffer))
            (record s { read_buffer = buffer })))
    else some s

-- `ReadHandlerInternal` when bytes came, up to its call of `ReadHandler`.
unfoldable pub receive : ℕ → Socket → Socket
receive transferred s = record s { read_buffer = write_completed s.read_buffer transferred }
