-- ===== src/FixMessage/Lines.antt =====
-- What the two readers of FixMessage.cpp log of a message, and whether they read it.
use warhead_fix.Base.{
  ℕ, ◌+◌, ◌≡◌, refl, sym, ap, ◌∙◌, inl, inr, Bool, true, false, List, [], ◌∷◌, ◌++◌, append-nil,
  append_assoc, ◌==◌, if◌then◌else◌, Bool-cases,
}
use warhead_fix.FixMessage.{
  Tag, sender_comp_id, begin_string, msg_seq_num, sending_time, symbol, side, order_qty, price,
  Found, raises, absent, at_field, Reader, Line, logon_message, new_order_single,
  sender_comp_id_line, begin_string_line, msg_seq_num_line, sending_time_line, side_line,
  symbol_line, order_qty_line, price_line, empty_line, ReadState, raised, reading, is_readable, say,
  read_field, read_sending_time, read_price, end_lines, read_logon_fields, read_order_fields,
}

-- What was logged.
abbrev pub lines_of : ReadState → List Line
lines_of (raised lines) = lines
lines_of (reading i lines) = lines

abbrev pub outcome : ReadState → List Line × Bool
outcome p = (lines_of p, is_readable p)

-- The fields to look for, each with its line.
abbrev pub Fields : Type 0
Fields = List (Tag × (List ℕ → Line))

module _ (hffix : Reader) (message : List ℕ) where
  open hffix use {find_with_hint, value, as_int, as_char, as_timestamp, as_decimal, logs_info}

  abbrev pub logon_fields : Fields
  logon_fields =
      (sender_comp_id, sender_comp_id_line)
      ∷ (begin_string, begin_string_line)
      ∷ (msg_seq_num, λ v. msg_seq_num_line (as_int v))
      ∷ (sending_time, λ v. sending_time_line (as_timestamp v))
      ∷ []

  abbrev pub order_fields : Fields
  order_fields =
      (side, λ v. side_line (as_char v == b'1'))
      ∷ (symbol, symbol_line)
      ∷ (order_qty, λ v. order_qty_line (as_int v))
      ∷ (price, λ v. price_line (as_decimal v))
      ∷ []

  -- The lines of the fields that the message has, each looked for from its start, up to the first
  -- exception, and whether there is none.
  abbrev pub listed : Fields → List Line × Bool
  listed [] = (empty_line ∷ [], true)
  listed (f ∷ fs) = elim (find_with_hint message f.0 0) [
    | raises ↦ ([], false)
    | absent ↦ listed fs
    | at_field k ↦ (f.1 (value message k) ∷ (listed fs).0, (listed fs).1)
  ]

  -- Lines and what follows them, if the log wants them.
  abbrev pub followed : List Line → List Line × Bool → List Line × Bool
  followed lines (more, good) = (if logs_info then lines ++ more else lines, good)

  -- `read` reads the fields `fs` and ends.
  record Reads (fs : Fields) (read : ReadState → ReadState) : Type 0 where
    goes_on :
        (i : ℕ) (lines : List Line) → outcome (read (reading i lines)) ≡ followed lines (listed fs)
    stops : (lines : List Line) → outcome (read (raised lines)) ≡ (lines, false)

  followed-say :
      (line : Line) (lines : List Line) (rest : List Line × Bool)
      → followed (say hffix line lines) rest ≡ followed lines (line ∷ rest.0, rest.1)
  followed-say line lines rest = elim (Bool-cases logs_info) [
    | inl wanted ↦ rw wanted (ap (λ l. (l, rest.1)) (append_assoc lines (line ∷ []) rest.0))
    | inr silent ↦ rw silent refl
  ]

  end_lines-Reads : Reads [] (end_lines hffix)
  unfolding end_lines
  end_lines-Reads = record { goes_on = λ i lines. refl; stops = λ lines. refl }

  nothing_followed : (lines : List Line) → followed lines ([], false) ≡ (lines, false)
  nothing_followed lines = elim (Bool-cases logs_info) [
    | inl wanted ↦ rw wanted (ap (λ l. (l, false)) (append-nil lines))
    | inr silent ↦ rw silent refl
  ]

  module _
      (same : (tag : Tag) (i : ℕ) → find_with_hint message tag i ≡ find_with_hint message tag 0)
      (fs : Fields) (read : ReadState → ReadState) (reads : Reads fs read) where
    -- One field more, wherever the iterator is then.
    found-Reads :
        (tag : Tag) (line : List ℕ → Line) (next : ℕ → ℕ) (i : ℕ) (lines : List Line)
        → outcome (
            read (elim (find_with_hint message tag i) [
              | raises ↦ raised lines
              | absent ↦ reading i lines
              | at_field k ↦ reading (next k) (say hffix (line (value message k)) lines)
            ]))
          ≡ followed lines (listed ((tag, line) ∷ fs))
    found-Reads tag line next i lines = rw (same tag i) (from_start (find_with_hint message tag 0))
      where
        from_start :
            (found : Found)
            → outcome (
                read (elim found [
                  | raises ↦ raised lines
                  | absent ↦ reading i lines
                  | at_field k ↦ reading (next k) (say hffix (line (value message k)) lines)
                ]))
              ≡ followed lines (elim found [
                | raises ↦ ([], false)
                | absent ↦ listed fs
                | at_field k ↦ (line (value message k) ∷ (listed fs).0, (listed fs).1)
              ])
        from_start raises = reads.stops lines ∙ sym (nothing_followed lines)
        from_start absent = reads.goes_on i lines
        from_start (at_field k) =
            reads.goes_on (next k) (say hffix (line (value message k)) lines)
            ∙ followed-say (line (value message k)) lines (listed fs)

    read_field-Reads :
        (tag : Tag) (line : List ℕ → Line)
        → Reads ((tag, line) ∷ fs) (λ p. read (read_field hffix message tag line p))
    unfolding read_field
    read_field-Reads tag line = record {
      goes_on = λ i lines. found-Reads tag line (λ k. if logs_info then k + 1 else k) i lines;
      stops = reads.stops;
    }

    read_sending_time-Reads :
        Reads
          ((sending_time, λ v. sending_time_line (as_timestamp v)) ∷ fs)
          (λ p. read (read_sending_time hffix message p))
    unfolding read_sending_time
    read_sending_time-Reads = record {
      goes_on = λ i lines.
          found-Reads sending_time (λ v. sending_time_line (as_timestamp v)) (λ k. k + 1) i lines;
      stops = reads.stops;
    }

    read_price-Reads :
        Reads
          ((price, λ v. price_line (as_decimal v)) ∷ fs)
          (λ p. read (read_price hffix message p))
    unfolding read_price
    read_price-Reads = record {
      goes_on = λ i lines. found-Reads price (λ v. price_line (as_decimal v)) (λ k. k) i lines;
      stops = reads.stops;
    }

  module _
      (same : (tag : Tag) (i : ℕ)
        → find_with_hint message tag i ≡ find_with_hint message tag 0) where
    logon-Reads : Reads logon_fields (λ p. end_lines hffix (
        read_sending_time hffix message (
          read_field hffix message msg_seq_num
            (λ v. msg_seq_num_line (as_int v))
            (read_field hffix message begin_string begin_string_line
              (read_field hffix message sender_comp_id sender_comp_id_line p)))))
    logon-Reads =
        read_field-Reads same _ _
          (read_field-Reads same _ _
            (read_field-Reads same _ _
              (read_sending_time-Reads same [] (end_lines hffix) end_lines-Reads) msg_seq_num
              (λ v. msg_seq_num_line (as_int v)))
            begin_string begin_string_line)
          sender_comp_id sender_comp_id_line

    order-Reads : Reads order_fields (λ p. end_lines hffix (
        read_price hffix message (
          read_field hffix message order_qty
            (λ v. order_qty_line (as_int v))
            (read_field hffix message symbol symbol_line
              (read_field hffix message side (λ v. side_line (as_char v == b'1')) p)))))
    order-Reads =
        read_field-Reads same _ _
          (read_field-Reads same _ _
            (read_field-Reads same _ _ (read_price-Reads same [] (end_lines hffix) end_lines-Reads)
              order_qty (λ v. order_qty_line (as_int v)))
            symbol symbol_line)
          side (λ v. side_line (as_char v == b'1'))

    pub logon_lines :
        outcome (read_logon_fields hffix message)
        ≡ followed [] (logon_message ∷ (listed logon_fields).0, (listed logon_fields).1)
    unfolding read_logon_fields
    logon_lines =
        logon-Reads.goes_on 0 (say hffix logon_message [])
        ∙ followed-say logon_message [] (listed logon_fields)

    pub order_lines :
        outcome (read_order_fields hffix message)
        ≡ followed [] (new_order_single ∷ (listed order_fields).0, (listed order_fields).1)
    unfolding read_order_fields
    order_lines =
        order-Reads.goes_on 0 (say hffix new_order_single [])
        ∙ followed-say new_order_single [] (listed order_fields)
