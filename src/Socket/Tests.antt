-- ===== src/Socket/Tests.antt =====
-- The socket with one or two short messages, on a connection that takes two bytes at a time.
use warhead_fix.Base.{ℕ, zero, suc, ◌+◌, ◌≡◌, refl, true, false, some, [], ◌∷◌, ◌++◌, arith, resize}
use warhead_fix.MessageBuffer
use warhead_fix.MessageBuffer.{
  MessageBuffer, normalize, ensure_free_space, remaining_space, resize_to, active_size,
}
use warhead_fix.MessageBuffer.Valid.{IsValid}
use warhead_fix.Socket.{
  Socket, WriteResult, wrote, blocked, create, is_open, queue_packet, handle_queue, update,
  async_read, emit, start_read, wait_writable, close_socket, write_handler, receive, handle_all,
  handle_messages, handle_front, async_process_queue, delayed_close_socket,
}
use warhead_fix.Socket.Stream.{stream, sent_bytes, pending, Bounded, Delivers, handle_queue-stream}
use warhead_fix.Socket.Closing.{waits, closes, of_bool, delayed_close_idle}
use warhead_fix.Socket.Draining.{delayed_close_drains}
use warhead_fix.Socket.Reading.{Prepared, async_read_ready}
use warhead_fix.Socket.History.{
  Run, created, queued, asked, updated, writable, received, closed, no_byte_lost,
  one_wait_one_close,
}

abbrev two_at_most : ℕ → WriteResult
two_at_most zero = wrote 0
two_at_most (suc zero) = wrote 1
two_at_most (suc (suc n)) = wrote 2

two_at_most-Delivers : (n : ℕ) → Delivers (two_at_most n) n
two_at_most-Delivers zero = omega arith
two_at_most-Delivers (suc zero) = ground arith
two_at_most-Delivers (suc (suc n)) = ground arith

abbrev hello : MessageBuffer
hello = record { wpos = 3; rpos = 0; storage = 1 ∷ 2 ∷ 3 ∷ [] }

hello-IsValid : IsValid hello
hello-IsValid = omega arith

abbrev idle : Socket
idle = record {
  read_buffer = record { wpos = 3; rpos = 1; storage = 7 ∷ 8 ∷ 9 ∷ 0 ∷ [] };
  write_queue = [];
  closed = false;
  closing = false;
  is_writing_async = false;
  log = [];
}

abbrev loaded : Socket
loaded = record idle { write_queue = hello ∷ [] }

handled_stream : stream (handle_queue two_at_most loaded).1 ≡ 1 ∷ 2 ∷ 3 ∷ []
unfolding stream sent_bytes pending
handled_stream = handle_queue-stream two_at_most loaded two_at_most-Delivers (hello-IsValid, tt)

delayed_close_idle_run :
    update (λ _. two_at_most) (delayed_close_socket idle) ≡ some (true, delayed_close_socket idle)
delayed_close_idle_run = delayed_close_idle (λ _. two_at_most) idle refl refl

idle_read-IsValid : IsValid idle.read_buffer
idle_read-IsValid = omega arith

idle_open : is_open idle ≡ true
unfolding is_open
idle_open = refl

async_read_ready_example : (s' : Socket) × (async_read idle ≡ some s') × Prepared idle s'
async_read_ready_example =
    async_read_ready idle idle_open idle_read-IsValid (omega arith) (omega arith)

-- A connection that takes nothing at first, and then everything.
abbrev takes_nothing : ℕ → WriteResult
takes_nothing n = blocked

abbrev takes_all : ℕ → WriteResult
takes_all n = wrote n

takes_all-Delivers : (n : ℕ) → Delivers (takes_all n) n
takes_all-Delivers n = (omega arith, λ e. e)

takes_all-Bounded : (n : ℕ) → Bounded (takes_all n) n
takes_all-Bounded n = (omega arith, λ e. e)

-- Two messages are left when the socket is to be closed.
abbrev two_left : Socket
two_left = record idle { write_queue = hello ∷ hello ∷ [] }

delayed_close_drains_example :
    (s' : Socket) × (update (λ _. takes_all) (delayed_close_socket two_left) ≡ some (true, s'))
    × (s'.closed ≡ true)
    × (s'.write_queue ≡ [])
    × (sent_bytes s'.log ≡ sent_bytes two_left.log ++ pending two_left.write_queue)
unfolding active_size
delayed_close_drains_example =
    delayed_close_drains (λ _. takes_all) (λ k n. refl) two_left hello (hello ∷ []) refl refl refl
      (hello-IsValid, (hello-IsValid, tt)) (omega arith, (omega arith, tt))

abbrev listening : Socket
listening = emit (start_read 4096) create

asks_once : async_read create ≡ some listening
unfolding create async_read is_open normalize ensure_free_space remaining_space MessageBuffer.create
    resize_to resize
asks_once = refl

abbrev waiting : Socket
waiting = emit wait_writable (record (queue_packet hello listening) { is_writing_async = true })

update_waits : update (λ _. takes_nothing) (queue_packet hello listening) ≡ some (true, waiting)
unfolding create update handle_all handle_queue handle_messages handle_front async_process_queue
    queue_packet
update_waits = refl

-- A read is asked for, a packet is queued, the update has to wait, bytes come, the packet is written,
-- and the socket is closed.
abbrev written_out : Socket
written_out = close_socket (write_handler takes_all (receive 3 waiting))

life :
    (Result : WriteResult → ℕ → Type 0)
    → ((n : ℕ) → Result (takes_nothing n) n)
    → ((n : ℕ) → Result (takes_all n) n)
    → Run Result (1 ∷ 2 ∷ 3 ∷ []) 1 written_out
unfolding create waits queue_packet receive
life Result nothing all = closed (
    writable takes_all all (omega arith) (
      received 3 (
        updated (λ _. takes_nothing) true waiting (λ k. nothing) update_waits
          (queued hello hello-IsValid (asked listening asks_once created)))))

no_byte_lost_example :
    sent_bytes written_out.log ++ pending written_out.write_queue ≡ 1 ∷ 2 ∷ 3 ∷ []
no_byte_lost_example = no_byte_lost (life Delivers (λ _. tt) takes_all-Delivers)

one_wait_one_close_example :
    (waits written_out.log ≡ 1 + of_bool written_out.is_writing_async)
    × (closes written_out.log ≡ of_bool written_out.closed)
one_wait_one_close_example = one_wait_one_close Bounded (life Bounded (λ _. tt) takes_all-Bounded)
