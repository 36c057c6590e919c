-- ===== src/FixMessage.antt =====
-- shared/FixMessage/FixMessage.cpp: reading FIX messages and writing the test message. The library
-- hffix is outside. Of its `message_reader` the code uses what the record `Reader` lists, as functions
-- of the bytes that the reader is given.
pub mod Lines
pub mod Readings
pub mod TestMessage
mod Tests
use warhead_fix.Base.{
  ℕ, zero, suc, ◌+◌, ◌-◌, ◌*◌, ◌/◌, ◌%◌, ◌^◌, ◌≤◌, ◌<◌, min, ◌≡◌, refl, sym, ap, ap₂, subst, ◌∙◌,
  ◌≢◌, ◌↔◌, ◌⊎◌, inl, inr, Bool, true, false, not, ◌&&◌, ◌||◌, Option, none, some, List, [], ◌∷◌,
  ◌++◌, append-nil, append_assoc, arith, ltb, leb, ◌==◌, if◌then◌else◌, ltb→lt, lt→ltb, le→not-ltb,
  leb→le, le→leb, lt→not-leb, ==_iff, Bool-cases, Option-cases, length, take, drop, replicate,
  length-append, length-take, length-drop, length-replicate, take-append-drop, take-append,
  drop-append, take-append_le, drop-append_le, take_all, take-take, drop-drop, drop-take, drop_all,
  take-splice, drop-splice, take-drop-splice, drop_behind-splice, size_mod, add_size, sub_size,
  resize, copy_out, splice, copy_in, length-resize, length-splice, copy_out-some, copy_in-some,
}
use warhead_fix.Base.Bytes.{same_bytes}
use warhead_fix.Strings.Convert.{Signed}
use warhead_fix.ByteBuffer
use warhead_fix.ByteBuffer.{ByteBuffer, Outcome, ok, err, Method, ◌>>=◌, ◌>>◌, return, contents}
use warhead_fix.ByteBuffer.Strings.{append_string, read_c_string}

-- The fields that the code names.
pub data Tag : Type 0 where
  msg_type sender_comp_id target_comp_id begin_string msg_seq_num sending_time : Tag
  encrypt_method heart_bt_int cl_ord_id handl_inst symbol side : Tag
  transact_time order_qty ord_type price time_in_force : Tag

-- What `find_with_hint` comes to: an exception, false, or true with the iterator at a field.
pub data Found : Type 0 where
  raises : Found
  absent : Found
  at_field : ℕ → Found

pub record Reader : Type 0 where
  -- `reader.is_valid()`
  pub is_valid : List ℕ → Bool
  -- `reader.message_type()->value()`, asked of a valid reader only
  pub message_type : List ℕ → List ℕ
  -- `reader.find_with_hint(tag, i)`; an iterator is the number of a field
  pub find_with_hint : List ℕ → Tag → ℕ → Found
  -- `i->value()`, and what it is as a number, a character, a time in milliseconds and a decimal
  pub value : List ℕ → ℕ → List ℕ
  pub as_int : List ℕ → Signed
  pub as_char : List ℕ → ℕ
  pub as_timestamp : List ℕ → Option ℕ
  pub as_decimal : List ℕ → Signed × Signed
  -- whether the log wants information, and errors, of "fix.message"
  pub logs_info : Bool
  pub logs_errors : Bool

-- The lines of information.
pub data Line : Type 0 where
  logon_message new_order_single : Line
  sender_comp_id_line : List ℕ → Line
  begin_string_line : List ℕ → Line
  msg_seq_num_line : Signed → Line
  -- `none` is "<error>"
  sending_time_line : Option ℕ → Line
  -- true is "Buy"
  side_line : Bool → Line
  symbol_line : List ℕ → Line
  order_qty_line : Signed → Line
  price_line : Signed × Signed → Line
  empty_line : Line

-- Where the reading is: stopped by an exception, or with the iterator at a field.
pub data ReadState : Type 0 where
  raised : List Line → ReadState
  reading : ℕ → List Line → ReadState

abbrev pub is_readable : ReadState → Bool
is_readable (raised lines) = false
is_readable (reading i lines) = true

-- The message types "A" and "D".
abbrev pub logon_type : List ℕ
logon_type = b'A' ∷ []

abbrev pub order_type : List ℕ
order_type = b'D' ∷ []

module _ (hffix : Reader) where
  open hffix use {
    is_valid, message_type, find_with_hint, value, as_int, as_char, as_timestamp, as_decimal,
    logs_info, logs_errors,
  }

  -- A line of information, if the log wants it.
  abbrev pub say : Line → List Line → List Line
  say line lines = if logs_info then lines ++ line ∷ [] else lines

  -- The field is looked for, and its line is logged. `i++` is an argument of the line, so that the
  -- iterator moves only if the line is wanted.
  unfoldable pub read_field : List ℕ → Tag → (List ℕ → Line) → ReadState → ReadState
  read_field message tag line (raised lines) = raised lines
  read_field message tag line (reading i lines) = elim (find_with_hint message tag i) [
    | raises ↦ raised lines
    | absent ↦ reading i lines
    | at_field k ↦ reading (if logs_info then k + 1 else k) (say (line (value message k)) lines)
  ]

  -- SendingTime: `i++` is in the test of `as_timestamp`.
  unfoldable pub read_sending_time : List ℕ → ReadState → ReadState
  read_sending_time message (raised lines) = raised lines
  read_sending_time message (reading i lines) = elim (find_with_hint message sending_time i) [
    | raises ↦ raised lines
    | absent ↦ reading i lines
    | at_field k ↦ reading (k + 1) (say (sending_time_line (as_timestamp (value message k))) lines)
  ]

  -- Price: the iterator stays.
  unfoldable pub read_price : List ℕ → ReadState → ReadState
  read_price message (raised lines) = raised lines
  read_price message (reading i lines) = elim (find_with_hint message price i) [
    | raises ↦ raised lines
    | absent ↦ reading i lines
    | at_field k ↦ reading k (say (price_line (as_decimal (value message k))) lines)
  ]

  -- The empty line at the end.
  unfoldable pub end_lines : ReadState → ReadState
  end_lines (raised lines) = raised lines
  end_lines (reading i lines) = reading i (say empty_line lines)

  unfoldable pub read_logon_fields : List ℕ → ReadState
  read_logon_fields message =
      let begun = reading 0 (say logon_message []) in
      let sender = read_field message sender_comp_id sender_comp_id_line begun in
      let named = read_field message begin_string begin_string_line sender in
      let numbered = read_field message msg_seq_num (λ v. msg_seq_num_line (as_int v)) named in
      end_lines (read_sending_time message numbered)

  unfoldable pub read_order_fields : List ℕ → ReadState
  read_order_fields message =
      let begun = reading 0 (say new_order_single []) in
      let sided = read_field message side (λ v. side_line (as_char v == b'1')) begun in
      let named = read_field message symbol symbol_line sided in
      let counted = read_field message order_qty (λ v. order_qty_line (as_int v)) named in
      end_lines (read_price message counted)

  -- Whether the fields of a logon message, or of an order, are read without an exception.
  unfoldable pub reads_logon_fields : List ℕ → Bool
  reads_logon_fields message = is_readable (read_logon_fields message)

  unfoldable pub reads_order_fields : List ℕ → Bool
  reads_order_fields message = is_readable (read_order_fields message)

  -- The error for a message that is not valid: `packet.ReadCString()` is an argument of the line, and
  -- the macro catches its exceptions.
  unfoldable pub log_invalid_message : (List ℕ → Bool) → Method (Unit {0})
  log_invalid_message is_valid_utf8 b =
      if logs_errors
      then elim (read_c_string is_valid_utf8 true b) [ ok text b' ↦ ok tt b' | err e b' ↦ ok tt b' ]
      else ok tt b

  -- `IsReadLogonMessage`; its lines of information are those of `read_logon_fields`.
  unfoldable pub is_read_logon_message : (List ℕ → Bool) → Method Bool
  is_read_logon_message is_valid_utf8 = do
    message ← contents
    if not (is_valid message)
        then (do log_invalid_message is_valid_utf8; return false)
        else return (
            if not (same_bytes (message_type message) logon_type)
            then false
            else reads_logon_fields message)

  -- `IsReadNewOrderSingleMessage`, with those of `read_order_fields`.
  unfoldable pub is_read_new_order_single_message : (List ℕ → Bool) → Method Bool
  is_read_new_order_single_message is_valid_utf8 = do
    message ← contents
    if not (is_valid message)
        then (do log_invalid_message is_valid_utf8; return false)
        else return (
            if not (same_bytes (message_type message) order_type)
            then false
            else reads_order_fields message)

  -- `IsValidCommand`
  unfoldable pub is_valid_command : List ℕ → Method Bool
  is_valid_command command = do
    message ← contents
    return (is_valid message && same_bytes command (message_type message))

  -- `GetCommand`
  unfoldable pub get_command : Method (List ℕ)
  get_command = do
    message ← contents
    return (if is_valid message then message_type message else [])

-- The size of the array that the two messages are written to, and of the packet.
abbrev pub test_message_size : ℕ
test_message_size = 4096

-- `PrepareTestMessage`: `text` is what the array holds before its first zero byte, once hffix has
-- written a logon message and an order to it.
unfoldable pub prepare_test_message : (text : List ℕ) → Method (Unit {0})
prepare_test_message text b = append_string text (ByteBuffer.resize_to b test_message_size)
