-- ===== src/Session/Header.antt =====
-- The protocol check of `ReadHandler`: seven bytes of the read buffer as a C string.
use warhead_fix.Base.{
  ℕ, ◌+◌, ◌≤◌, ◌≡◌, ap, subst, ◌∙◌, Bool, true, not, ◌&&◌, List, [], ◌++◌, append-nil, arith,
  if◌then◌else◌, length, take, drop, length-take, length-drop, drop_all, resize, length-resize,
  copy_out-some,
}
use warhead_fix.MessageBuffer
use warhead_fix.MessageBuffer.{MessageBuffer}
use warhead_fix.MessageBuffer.Valid.{IsValid}
use warhead_fix.MessageBuffer.Contents.{written, write_lem}
use warhead_fix.ByteBuffer
use warhead_fix.ByteBuffer.{ByteBuffer, Outcome, Error, invalid_value, string_kind}
use warhead_fix.ByteBuffer.Strings.{read_string, read_c_string}
use warhead_fix.ByteBuffer.Strings.Reference.{c_text, c_size, read_c_string-reference}
use warhead_fix.Session.{AuthSession, ok, err, ◌>>=◌, value_of, fix_protocol}

-- The seven bytes behind "8=".
abbrev pub header_bytes : AuthSession → List ℕ
header_bytes s = let packet = s.socket.read_buffer in take 7 (drop (packet.rpos + 2) packet.storage)

abbrev header_buffer : MessageBuffer
header_buffer = MessageBuffer.resize_to MessageBuffer.create 7

header_buffer-IsValid : IsValid header_buffer
unfolding MessageBuffer.resize_to MessageBuffer.create
header_buffer-IsValid = omega (arith, length-resize (resize [] 4096) 7)

-- Seven bytes fill it.
header_storage : (bytes : List ℕ) → length bytes ≡ 7 → (written header_buffer bytes).storage ≡ bytes
unfolding MessageBuffer.resize_to MessageBuffer.create
header_storage bytes h =
    ap (◌++◌ bytes) (
      drop_all (resize (resize [] 4096) 7) (0 + length bytes)
        (omega (arith, length-resize (resize [] 4096) 7)))
    ∙ append-nil bytes

read_value_of :
    (is_valid_utf8 : List ℕ → Bool) (text : List ℕ) (b : ByteBuffer)
    → value_of (
        if true && not (is_valid_utf8 text)
        then Outcome.err (invalid_value string_kind text) b
        else Outcome.ok text b)
      ≡ (if is_valid_utf8 text then ok text else err (invalid_value string_kind text))
read_value_of is_valid_utf8 text b = ground arith

length-header_bytes :
    (s : AuthSession)
    → s.socket.read_buffer.rpos + 9 ≤ length s.socket.read_buffer.storage
    → length (header_bytes s) ≡ 7
length-header_bytes s long = omega (
  arith,
  length-take 7 (drop (s.socket.read_buffer.rpos + 2) s.socket.read_buffer.storage),
  length-drop (s.socket.read_buffer.rpos + 2) s.socket.read_buffer.storage,
)

header_room : 7 ≤ MessageBuffer.remaining_space header_buffer
unfolding MessageBuffer.remaining_space MessageBuffer.resize_to MessageBuffer.create
header_room = omega (arith, length-resize (resize [] 4096) 7)

-- The string read from a buffer that holds seven bytes.
read_header :
    (is_valid_utf8 : List ℕ → Bool) (h : MessageBuffer)
    → length h.storage ≡ 7
    → value_of (read_string is_valid_utf8 (ByteBuffer.of_message_buffer h)) ≡ (
        if is_valid_utf8 (c_text h.storage)
        then ok (c_text h.storage)
        else err (invalid_value string_kind (c_text h.storage)))
unfolding read_string read_c_string ByteBuffer.of_message_buffer
read_header is_valid_utf8 h seven =
    ap value_of (
      read_c_string-reference is_valid_utf8 true (ByteBuffer.of_message_buffer h)
        (omega (arith, seven)))
    ∙ read_value_of is_valid_utf8 (c_text h.storage)
        (record (ByteBuffer.of_message_buffer h) { rpos = 0 + c_size h.storage })

pub fix_protocol_lem :
    (is_valid_utf8 : List ℕ → Bool) (s : AuthSession)
    → s.socket.read_buffer.rpos + 9 ≤ length s.socket.read_buffer.storage
    → let text = c_text (header_bytes s) in
      fix_protocol is_valid_utf8 s
      ≡ (if is_valid_utf8 text then ok text else err (invalid_value string_kind text))
unfolding fix_protocol
fix_protocol_lem is_valid_utf8 s long =
    rw
      (
        copy_out-some s.socket.read_buffer.storage (s.socket.read_buffer.rpos + 2) 7 (omega arith),
        ◌>>=◌,
      )
      (rw
        (
          write_lem header_buffer (header_bytes s) header_buffer-IsValid
              (omega (arith, length-header_bytes s long, header_room)),
          ◌>>=◌,
        )
        (subst
          (λ bytes. value_of (read_string is_valid_utf8 (ByteBuffer.of_message_buffer h)) ≡ (
            if is_valid_utf8 (c_text bytes)
            then ok (c_text bytes)
            else err (invalid_value string_kind (c_text bytes))))
          same (read_header is_valid_utf8 h (ap length same ∙ length-header_bytes s long))))
  where
    h : MessageBuffer
    h = written header_buffer (header_bytes s)

    same : h.storage ≡ header_bytes s
    same = header_storage (header_bytes s) (length-header_bytes s long)
