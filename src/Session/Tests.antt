-- ===== src/Session/Tests.antt =====
-- A session that a logon has reached, in a read buffer of the first size. The library's answers are
-- those of a reader that accepts every message, of the type that it is made with.
use warhead_fix.Base.{
  Bool, List, [], arith, drop, false, inl, inr, length, length-append, length-replicate, none, refl,
  replicate, some, true, ℕ, ◌++◌, ◌⊎◌, ◌+◌, ◌≤◌, ◌<◌, ◌∷◌, ◌≡◌,
}
use warhead_fix.Base.Bytes.{same_bytes}
use warhead_fix.MessageBuffer.{MessageBuffer}
use warhead_fix.MessageBuffer.Contents.{active}
use warhead_fix.ByteBuffer.{max_size}
use warhead_fix.ByteBuffer.Strings.Reference.{c_text}
use warhead_fix.FixMessage.{
  absent, read_field, read_sending_time, end_lines, read_logon_fields, reads_logon_fields, Reader,
  test_message_size, logon_type, order_type,
}
use warhead_fix.Socket.{queue_packet, is_open}
use warhead_fix.Session.{
  AuthSession, AuthStatus, authed, not_authed, ok, close, read_handler, fix_protocol_support,
}
use warhead_fix.Session.Reaction.{react, perform, message_of, reply_and_read}
use warhead_fix.Session.Replies.{asking}
use warhead_fix.Session.Safety.{protocol, read_handler-react, read_handler-IsReady, logon_answered}
use warhead_fix.Session.Performing.{IsReady}
use warhead_fix.Session.Order.{read_calls}
use warhead_fix.Session.Answer.{logon_answer_holds_messages}
use warhead_fix.FixMessage.TestMessage.{Writer, array_text, test_text}
use warhead_fix.Session.History.{
  Run, starts, reads, filled, started, start_lem, one_logon_then_orders,
}
use warhead_fix.Socket
use warhead_fix.Socket.{receive}
use warhead_fix.MessageBuffer
use warhead_fix.MessageBuffer.{write_completed}
use warhead_fix.Session.Gate.{
  IsLogon, authed_by-IsLogon, wrong_status_closes, unknown_message_stalls,
}

abbrev reader_of : Bool → List ℕ → Reader
reader_of valid type = record {
  is_valid = λ _. valid;
  message_type = λ _. type;
  find_with_hint = λ _ _ _. absent;
  value = λ _ _. [];
  as_int = λ _. record { negative = false; magnitude = 0 };
  as_char = λ _. 0;
  as_timestamp = λ _. none;
  as_decimal =
      λ _. (record { negative = false; magnitude = 0 }, record { negative = false; magnitude = 0 });
  logs_info = true;
  logs_errors = true;
}

abbrev any_text : List ℕ → Bool
any_text text = true

abbrev start_of_message : List ℕ
start_of_message = b'8' ∷ b'=' ∷ b'F' ∷ b'I' ∷ b'X' ∷ b'.' ∷ b'5' ∷ b'.' ∷ b'0' ∷ []

abbrev received : AuthStatus → AuthSession
received status = record {
  socket = record {
    read_buffer = record { wpos = 9; rpos = 0; storage = start_of_message ++ replicate 4087 0 };
    write_queue = [];
    closed = false;
    closing = false;
    is_writing_async = false;
    log = [];
  };
  status = status;
}

received-IsReady : (status : AuthStatus) → IsReady (received status)
received-IsReady status = record {
  front = refl;
  full =
      omega
        (arith, length-append start_of_message (replicate 4087 0), length-replicate {A = ℕ} 4087 0);
}

protocol-received : (status : AuthStatus) → protocol (received status) ≡ fix_protocol_support
unfolding c_text
protocol-received status = refl

received_open : (status : AuthStatus) → is_open (received status).socket ≡ true
unfolding is_open
received_open status = refl

abbrev greeting : List ℕ
greeting = b'h' ∷ b'i' ∷ []

greeting_room : test_message_size + length greeting < max_size
greeting_room = omega arith

logon_reaction :
    react (reader_of true logon_type) not_authed (message_of (received not_authed)) ≡ reply_and_read
unfolding react same_bytes reads_logon_fields read_logon_fields read_field read_sending_time
    end_lines
logon_reaction = refl

logon_result :
    (m : MessageBuffer) × (active m ≡ message_of (received not_authed) ++ greeting ++ 0 ∷ [])
    × (read_handler (reader_of true logon_type) any_text greeting (received not_authed)
        ≡ ok (record {
          socket = asking (queue_packet m (received not_authed).socket);
          status = authed;
        }))
logon_result =
    logon_answered (reader_of true logon_type) any_text greeting (received not_authed)
      (received-IsReady not_authed) greeting_room refl (protocol-received not_authed)
      (received_open not_authed) logon_reaction

read_handler-react_example :
    read_handler (reader_of true logon_type) any_text greeting (received not_authed)
    ≡ perform greeting reply_and_read (received not_authed)
unfolding react same_bytes reads_logon_fields read_logon_fields read_field read_sending_time
    end_lines c_text
read_handler-react_example =
    read_handler-react (reader_of true logon_type) any_text greeting (received not_authed)
      (received-IsReady not_authed) greeting_room

read_handler-IsReady_example :
    (s' : AuthSession) × (read_handler
        (reader_of true order_type)
        any_text
        greeting
        (received authed)
      ≡ ok s')
    × IsReady s'
read_handler-IsReady_example =
    read_handler-IsReady (reader_of true order_type) any_text greeting (received authed)
      (received-IsReady authed) greeting_room refl

after_logon : AuthSession
after_logon = record {
  socket = asking (queue_packet logon_result.0 (received not_authed).socket);
  status = authed;
}

after_logon_status : after_logon.status ≡ authed
unfolding after_logon
after_logon_status = refl

logon_ran :
    read_handler (reader_of true logon_type) any_text greeting (received not_authed)
    ≡ ok after_logon
unfolding after_logon
logon_ran = logon_result.2

authed_by-IsLogon_example : IsLogon (reader_of true logon_type) (received not_authed)
authed_by-IsLogon_example =
    authed_by-IsLogon (reader_of true logon_type) any_text greeting (received not_authed)
      after_logon (received-IsReady not_authed) greeting_room logon_ran refl after_logon_status

-- An order before the logon.
wrong_status_closes_example :
    read_handler (reader_of true order_type) any_text greeting (received not_authed)
    ≡ ok (close (received not_authed))
wrong_status_closes_example =
    wrong_status_closes (reader_of true order_type) any_text greeting (received not_authed)
      (received-IsReady not_authed) greeting_room refl (protocol-received not_authed) refl
      (inr (refl, refl))

unknown_message_stalls_example :
    read_handler (reader_of false logon_type) any_text greeting (received not_authed)
    ≡ ok (received not_authed)
unknown_message_stalls_example =
    unknown_message_stalls (reader_of false logon_type) any_text greeting (received not_authed)
      (received-IsReady not_authed) greeting_room refl (protocol-received not_authed) (inl refl)

-- The two messages are two bytes each, and nothing is left over.
abbrev short : Writer
short calls space = some (b'A' ∷ b'B' ∷ [])

abbrev zeros : List ℕ
zeros = replicate 4096 0

nothing_left : array_text (drop 4 zeros) ≡ some []
unfolding array_text
nothing_left = refl

logon_answer_holds_messages_example :
    (text : List ℕ) × (m : MessageBuffer) × (test_text short 0 zeros ≡ some text)
    × (active m
        ≡ message_of (received not_authed)
          ++ ((b'A' ∷ b'B' ∷ []) ++ ((b'A' ∷ b'B' ∷ []) ++ []))
          ++ 0 ∷ [])
    × (read_handler (reader_of true logon_type) any_text text (received not_authed)
        ≡ ok (record {
          socket = asking (queue_packet m (received not_authed).socket);
          status = authed;
        }))
logon_answer_holds_messages_example =
    logon_answer_holds_messages short 0 zeros (b'A' ∷ b'B' ∷ []) (b'A' ∷ b'B' ∷ []) [] refl refl
      (omega arith, (omega arith, tt)) (omega arith, (omega arith, tt)) (omega arith)
      (length-replicate {A = ℕ} 4096 0) nothing_left (reader_of true logon_type) any_text
      (received not_authed) (received-IsReady not_authed) refl (protocol-received not_authed)
      (received_open not_authed) logon_reaction

-- A logon comes to a session that has just started.
first_bytes : length (message_of (received not_authed)) ≡ 4096
first_bytes = (received-IsReady not_authed).full

abbrev first_read : AuthSession
unfolding receive write_completed
first_read = filled (message_of (received not_authed)) 9 started

first_read-IsReady : IsReady first_read
unfolding receive write_completed Socket.create MessageBuffer.create MessageBuffer.resize_to
first_read-IsReady = record { front = refl; full = first_bytes }

first_logon :
    (m : MessageBuffer) × (active m ≡ message_of first_read ++ greeting ++ 0 ∷ [])
    × (read_handler (reader_of true logon_type) any_text greeting first_read
        ≡ ok (record { socket = asking (queue_packet m first_read.socket); status = authed }))
unfolding is_open react same_bytes reads_logon_fields read_logon_fields read_field read_sending_time
    end_lines c_text receive write_completed Socket.create MessageBuffer.create
    MessageBuffer.resize_to
first_logon =
    logon_answered (reader_of true logon_type) any_text greeting first_read first_read-IsReady
      greeting_room refl refl refl refl

abbrev logged_on : AuthSession
logged_on = record {
  socket = asking (queue_packet first_logon.0 first_read.socket);
  status = authed;
}

-- One answer was queued, and one read was asked for.
logon_Run : Run (reader_of true logon_type) any_text greeting 1 1 logged_on
unfolding is_open receive write_completed Socket.create queue_packet read_calls
logon_Run =
    reads (message_of (received not_authed)) 9 logged_on first_bytes first_logon.2
      (starts started start_lem)

one_logon_then_orders_example :
    ((logged_on.status ≡ not_authed) × (◌≡◌ {A = ℕ} 1 0) × (◌≡◌ {A = ℕ} 1 0))
    ⊎ (((logged_on.status ≡ authed) × (◌≡◌ {A = ℕ} 1 1) × (1 ≤ 1))
        ⊎ ((logged_on.status ≡ authed)
            × (is_open logged_on.socket ≡ false)
            × (◌≡◌ {A = ℕ} 1 0)
            × (◌≡◌ {A = ℕ} 1 0)))
one_logon_then_orders_example =
    one_logon_then_orders (reader_of true logon_type) any_text greeting greeting_room logon_Run
