-- ===== src/FixMessage/Tests.antt =====
-- A reader whose message has a sender and a version, and an array with a zero byte behind the messages.
use warhead_fix.Base.{
  ℕ, ◌≡◌, refl, Bool, true, false, ◌&&◌, none, some, List, [], ◌∷◌, ◌++◌, arith, ◌==◌,
  if◌then◌else◌, drop, replicate, length-replicate,
}
use warhead_fix.Base.Texts.{codes}
use warhead_fix.FixMessage.{
  Tag, sender_comp_id, begin_string, Found, absent, at_field, Reader, logon_message,
  new_order_single, sender_comp_id_line, begin_string_line, empty_line, read_field,
  read_sending_time, end_lines, read_logon_fields, read_order_fields, is_read_logon_message,
  is_read_new_order_single_message, logon_type, order_type,
}
use warhead_fix.ByteBuffer.{ByteBuffer, ok}
use warhead_fix.Base.Bytes.{same_bytes}
use warhead_fix.FixMessage.Lines.{lines_of, logon_fields, order_fields, listed}
use warhead_fix.FixMessage.Readings.{fields_lem}
use warhead_fix.FixMessage.TestMessage.{Writer, array_text, test_text, test_text_lem}
use warhead_fix.Base.Options.{◌>>=◌}

abbrev field_of : Tag → Found
field_of begin_string = at_field 0
field_of sender_comp_id = at_field 3
field_of tag = absent

abbrev text_of : ℕ → List ℕ
text_of i = if i == 0 then codes "FIX.5.0" else codes "AAAA"

abbrev reader : Reader
reader = record {
  is_valid = λ _. true;
  message_type = λ _. codes "A";
  find_with_hint = λ _ tag _. field_of tag;
  value = λ _ i. text_of i;
  as_int = λ _. record { negative = false; magnitude = 0 };
  as_char = λ _. 0;
  as_timestamp = λ _. none;
  as_decimal =
      λ _. (record { negative = false; magnitude = 0 }, record { negative = false; magnitude = 0 });
  logs_info = true;
  logs_errors = true;
}

-- A buffer with one byte, which the reader holds for a logon message.
abbrev packet : ByteBuffer
packet = record { rpos = 0; wpos = 1; storage = 7 ∷ [] }

abbrev any_text : List ℕ → Bool
any_text text = true

fields_lem_example :
    (is_read_logon_message reader any_text packet
      ≡ ok
          (same_bytes (codes "A") logon_type
            && (listed reader packet.storage (logon_fields reader packet.storage)).1)
          packet)
    × (lines_of (read_logon_fields reader packet.storage)
        ≡ logon_message ∷ (listed reader packet.storage (logon_fields reader packet.storage)).0)
    × (is_read_new_order_single_message reader any_text packet
        ≡ ok
            (same_bytes (codes "A") order_type
              && (listed reader packet.storage (order_fields reader packet.storage)).1)
            packet)
    × (lines_of (read_order_fields reader packet.storage)
        ≡ new_order_single ∷ (listed reader packet.storage (order_fields reader packet.storage)).0)
fields_lem_example = fields_lem reader any_text packet (omega arith) refl (λ tag i. refl)

-- The sender, then the version, which stands before it.
logon_lines :
    lines_of (read_logon_fields reader [])
    ≡ logon_message
      ∷ sender_comp_id_line (codes "AAAA")
      ∷ begin_string_line (codes "FIX.5.0")
      ∷ empty_line
      ∷ []
unfolding read_logon_fields read_field read_sending_time end_lines
logon_lines = refl

-- Every message is written as two bytes.
abbrev short : Writer
short calls space = some (b'A' ∷ b'B' ∷ [])

abbrev stack : List ℕ
stack = 1 ∷ 2 ∷ 3 ∷ 4 ∷ 5 ∷ 6 ∷ replicate 4090 0

test_text_lem_run : test_text short 0 stack ≡ (do
  left ← array_text (drop 4 stack)
  some ((b'A' ∷ b'B' ∷ []) ++ ((b'A' ∷ b'B' ∷ []) ++ left)))
test_text_lem_run =
    test_text_lem short 0 stack (b'A' ∷ b'B' ∷ []) (b'A' ∷ b'B' ∷ []) refl refl
      (omega arith, (omega arith, tt)) (omega arith, (omega arith, tt)) (omega arith)
      (omega (arith, length-replicate {A = ℕ} 4090 0))

left_on_stack : array_text (drop 4 stack) ≡ some (5 ∷ 6 ∷ [])
unfolding array_text
left_on_stack = refl
