-- ===== src/Session/Replies.antt =====
-- `SendPacket` and `packet.Reset(); AsyncRead();` of AuthSession.cpp: what they put in the queue of
-- the socket and what they ask of it.
use warhead_fix.Base.{
  ℕ, ◌^◌, ◌≤◌, ◌<◌, ◌≡◌, refl, sym, ap, ◌∙◌, Bool, true, false, some, List, [], ◌∷◌, ◌++◌,
  append-nil, arith, ◌==◌, if◌then◌else◌, length, length-append, resize, length-resize,
}
use warhead_fix.Base.Options
use warhead_fix.MessageBuffer
use warhead_fix.MessageBuffer.{MessageBuffer}
use warhead_fix.MessageBuffer.Valid.{IsValid}
use warhead_fix.MessageBuffer.Contents.{active, written, write_lem, active-written, written-IsValid}
use warhead_fix.ByteBuffer
use warhead_fix.ByteBuffer.{ByteBuffer, Outcome, contents, size, max_size}
use warhead_fix.ByteBuffer.Appending.{appended_at_end}
use warhead_fix.ByteBuffer.Strings.RoundTrip.{with_text, with_string, with_text_bounds}
use warhead_fix.FixMessage.{test_message_size}
use warhead_fix.Session.{AuthSession, ok, read_copy, send_packet, read_on}
use warhead_fix.Session.Reaction.{reply, message_of, contents_lem}
use warhead_fix.Socket.{Socket, start_read, queue_packet, emit, is_open, async_read}

-- The message buffer that `SendPacket` makes of the bytes.
abbrev pub message_with : List ℕ → MessageBuffer
message_with bytes = written (MessageBuffer.create_sized (length bytes)) bytes

module _ (bytes : List ℕ) (short : length bytes < 2 ^ 61) where
  sized-IsValid : IsValid (MessageBuffer.create_sized (length bytes))
  unfolding MessageBuffer.create_sized
  sized-IsValid = omega (arith, length-resize [] (length bytes))

  sized_room :
      length bytes ≤ MessageBuffer.remaining_space (MessageBuffer.create_sized (length bytes))
  unfolding MessageBuffer.create_sized MessageBuffer.remaining_space
  sized_room = omega (arith, length-resize [] (length bytes))

  pub message_with-IsValid : IsValid (message_with bytes)
  message_with-IsValid =
      written-IsValid (MessageBuffer.create_sized (length bytes)) bytes sized-IsValid sized_room

  pub active-message_with : active (message_with bytes) ≡ bytes
  unfolding MessageBuffer.create_sized
  active-message_with =
      active-written (MessageBuffer.create_sized (length bytes)) bytes sized-IsValid

  write_message :
      MessageBuffer.write (MessageBuffer.create_sized (length bytes)) bytes
      ≡ some (message_with bytes)
  write_message =
      write_lem (MessageBuffer.create_sized (length bytes)) bytes sized-IsValid sized_room

-- A packet that is not empty joins the queue of an open socket.
pub send_packet_lem :
    (packet : ByteBuffer) (s : AuthSession)
    → 0 < size packet
    → size packet < 2 ^ 61
    → is_open s.socket ≡ true
    → send_packet packet s
      ≡ ok (record s { socket = queue_packet (message_with packet.storage) s.socket })
unfolding send_packet ByteBuffer.is_empty
send_packet_lem packet s some_bytes short o =
    let full : (size packet == 0) ≡ false = ground arith in
    rw (o, full, contents_lem packet some_bytes, write_message packet.storage short) refl

-- The socket that waits for new bytes at the front of its read buffer.
abbrev pub asking : Socket → Socket
asking k =
    let fresh = record k { read_buffer = MessageBuffer.reset k.read_buffer } in
    if is_open k then emit (start_read 4096) fresh else fresh

fresh_normalize :
    (b : MessageBuffer)
    → MessageBuffer.normalize (MessageBuffer.reset b) ≡ some (MessageBuffer.reset b)
unfolding MessageBuffer.normalize MessageBuffer.reset
fresh_normalize b = refl

fresh_space :
    (b : MessageBuffer)
    → length b.storage ≡ 4096
    → MessageBuffer.remaining_space (MessageBuffer.reset b) ≡ 4096
unfolding MessageBuffer.remaining_space MessageBuffer.reset
fresh_space b full = omega (arith, full)

fresh_room :
    (b : MessageBuffer)
    → length b.storage ≡ 4096
    → MessageBuffer.ensure_free_space (MessageBuffer.reset b) ≡ MessageBuffer.reset b
unfolding MessageBuffer.ensure_free_space
fresh_room b full = rw (fresh_space b full) refl

some_if :
    {A : Type 0} (test : Bool) (x y : A)
    → (if test then some x else some y) ≡ some (if test then x else y)
some_if true x y = refl
some_if false x y = refl

async_read_fresh :
    (k : Socket)
    → length k.read_buffer.storage ≡ 4096
    → async_read (record k { read_buffer = MessageBuffer.reset k.read_buffer }) ≡ some (asking k)
unfolding async_read is_open
async_read_fresh k full =
    rw
      (
        fresh_normalize k.read_buffer,
        Options.◌>>=◌,
        fresh_room k.read_buffer full,
        fresh_space k.read_buffer full,
      )
      (some_if (is_open k) _ _)

pub read_on_lem :
    (s : AuthSession)
    → length (message_of s) ≡ 4096
    → read_on s ≡ ok (record s { socket = asking s.socket })
unfolding read_on
read_on_lem s full = rw (async_read_fresh s.socket full) refl

text_at_end :
    (text : List ℕ) (b : ByteBuffer)
    → b.wpos ≡ size b
    → (with_text b text).storage ≡ b.storage ++ text
text_at_end [] b e = sym (append-nil b.storage)
text_at_end (c ∷ cs) b e = appended_at_end b (c ∷ cs) e

string_at_end :
    (text : List ℕ) (b : ByteBuffer)
    → b.wpos ≡ size b
    → (with_string b text).storage ≡ b.storage ++ text ++ 0 ∷ []
string_at_end text b e =
    appended_at_end (with_text b text) (0 ∷ []) (
      omega (
        arith,
        with_text_bounds text b (omega arith),
        ap length (text_at_end text b e),
        length-append b.storage text,
      ))
    ∙ ap (λ front. front ++ 0 ∷ []) (text_at_end text b e)

-- The answer: the read buffer, the text, and a zero byte.
pub reply_text :
    (text : List ℕ) (s : AuthSession)
    → (reply text s).storage ≡ resize (message_of s) 4096 ++ text ++ 0 ∷ []
unfolding ByteBuffer.resize_to ByteBuffer.of_message_buffer
reply_text text s = string_at_end text (ByteBuffer.resize_to (read_copy s) test_message_size) refl
