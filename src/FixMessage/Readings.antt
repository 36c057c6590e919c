-- ===== src/FixMessage/Readings.antt =====
-- `IsReadLogonMessage` and `IsReadNewOrderSingleMessage` of FixMessage.cpp on a valid message.
use warhead_fix.Base.{
  ℕ, ◌<◌, ◌≡◌, refl, ap, inl, inr, Bool, true, false, ◌&&◌, List, [], ◌∷◌, arith, ◌==◌,
  if◌then◌else◌, Bool-cases,
}
use warhead_fix.Base.Bytes.{same_bytes}
use warhead_fix.ByteBuffer.{ByteBuffer, ok, size, contents, is_empty, ◌>>=◌}
use warhead_fix.FixMessage.{
  Tag, Reader, logon_message, new_order_single, read_logon_fields, read_order_fields,
  reads_logon_fields, reads_order_fields, is_read_logon_message, is_read_new_order_single_message,
  logon_type, order_type,
}
use warhead_fix.FixMessage.Lines.{
  lines_of, listed, logon_fields, order_fields, logon_lines, order_lines,
}

module _ (hffix : Reader) (is_valid_utf8 : List ℕ → Bool) (b : ByteBuffer) (filled : 0 < size b)
    (valid : hffix.is_valid b.storage ≡ true)
    (same : (tag : Tag) (i : ℕ)
      → hffix.find_with_hint b.storage tag i ≡ hffix.find_with_hint b.storage tag 0) where
  whole : contents b ≡ ok b.storage b
  unfolding contents is_empty
  whole = let some_bytes : (size b == 0) ≡ false = ground arith in rw some_bytes refl

  read_logon :
      is_read_logon_message hffix is_valid_utf8 b
      ≡ ok
          (same_bytes (hffix.message_type b.storage) logon_type
            && (listed hffix b.storage (logon_fields hffix b.storage)).1)
          b
  unfolding is_read_logon_message reads_logon_fields
  read_logon =
      let readable = ap (λ o. o.1) (logon_lines hffix b.storage same) in
      elim (Bool-cases (same_bytes (hffix.message_type b.storage) logon_type)) [
        | inl logon ↦
            rw (is_read_logon_message, whole, ◌>>=◌, valid, logon, reads_logon_fields, readable)
              refl
        | inr other ↦ rw (is_read_logon_message, whole, ◌>>=◌, valid, other) refl
      ]

  read_order :
      is_read_new_order_single_message hffix is_valid_utf8 b
      ≡ ok
          (same_bytes (hffix.message_type b.storage) order_type
            && (listed hffix b.storage (order_fields hffix b.storage)).1)
          b
  unfolding is_read_new_order_single_message reads_order_fields
  read_order =
      let readable = ap (λ o. o.1) (order_lines hffix b.storage same) in
      elim (Bool-cases (same_bytes (hffix.message_type b.storage) order_type)) [
        | inl order ↦
            rw
              (
                is_read_new_order_single_message, whole, ◌>>=◌, valid, order, reads_order_fields,
                readable,
              )
              refl
        | inr other ↦ rw (is_read_new_order_single_message, whole, ◌>>=◌, valid, other) refl
      ]

  -- If a buffer has a byte, hffix holds its bytes for a valid message, and find_with_hint finds a
  -- field of it wherever it starts, then IsReadLogonMessage leaves the buffer as it is, and returns
  -- true exactly if the message is of the type A and no look-up of its fields, each as if from the
  -- start, throws. Behind the test of the type it logs, if the log wants information, the title,
  -- then a line for each field of its list that the message has, up to the first exception, and an
  -- empty line if there is none. The same holds of IsReadNewOrderSingleMessage, with its own fields
  -- and the type D.
  pub fields_lem :
      (is_read_logon_message hffix is_valid_utf8 b
        ≡ ok
            (same_bytes (hffix.message_type b.storage) logon_type
              && (listed hffix b.storage (logon_fields hffix b.storage)).1)
            b)
      × (lines_of (read_logon_fields hffix b.storage) ≡ (
          if hffix.logs_info
          then logon_message ∷ (listed hffix b.storage (logon_fields hffix b.storage)).0
          else []))
      × (is_read_new_order_single_message hffix is_valid_utf8 b
          ≡ ok
              (same_bytes (hffix.message_type b.storage) order_type
                && (listed hffix b.storage (order_fields hffix b.storage)).1)
              b)
      × (lines_of (read_order_fields hffix b.storage) ≡ (
          if hffix.logs_info
          then new_order_single ∷ (listed hffix b.storage (order_fields hffix b.storage)).0
          else []))
  fields_lem = (
    read_logon,
    ap (λ o. o.0) (logon_lines hffix b.storage same),
    read_order,
    ap (λ o. o.0) (order_lines hffix b.storage same),
  )
