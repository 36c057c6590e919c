-- ===== src/FixMessage/TestMessage.antt =====
-- PrepareTestMessage of FixMessage.cpp: the calls of hffix's `message_writer`, and the array that they
-- write to. What the calls write is a parameter.
use warhead_fix.Base.{
  ℕ, suc, ◌+◌, ◌-◌, ◌≤◌, ◌<◌, ◌≡◌, refl, sym, ap, ap₂, subst, ◌∙◌, inl, inr, true, false, Option,
  none, some, List, [], ◌∷◌, ◌++◌, arith, ◌==◌, if◌then◌else◌, Bool-cases, Option-cases, length,
  take, drop, take-append, drop-append, drop-drop, splice, copy_in, length-splice, copy_in-some,
}
use warhead_fix.Base.Options
use warhead_fix.Base.Options.{◌>>=◌}
use warhead_fix.Strings.Convert.{Signed}
use warhead_fix.ByteBuffer.Strings.RoundTrip.{NoZero}
use warhead_fix.FixMessage.{
  Tag, msg_type, sender_comp_id, target_comp_id, msg_seq_num, sending_time, encrypt_method,
  heart_bt_int, cl_ord_id, handl_inst, symbol, side, transact_time, order_qty, ord_type, price,
  time_in_force, logon_type, order_type, test_message_size,
}
use warhead_fix.Base.Texts.{codes}

-- The calls of a `message_writer`.
pub data Push : Type 0 where
  push_back_header : List ℕ → Push
  push_back_string : Tag → List ℕ → Push
  push_back_int : Tag → ℕ → Push
  push_back_char : Tag → ℕ → Push
  push_back_timestamp : Tag → ℕ → Push
  push_back_decimal : Tag → Signed → Signed → Push
  push_back_trailer : Push

-- The logon message, from the sequence number and the time.
abbrev pub logon_pushes : ℕ → ℕ → List Push
logon_pushes seq_send now =
    push_back_header (codes "FIX.5.0")
    ∷ push_back_string msg_type logon_type
    ∷ push_back_string sender_comp_id (codes "AAAA")
    ∷ push_back_string target_comp_id (codes "BBBB")
    ∷ push_back_int msg_seq_num seq_send
    ∷ push_back_timestamp sending_time now
    ∷ push_back_int encrypt_method 0
    ∷ push_back_int heart_bt_int 10
    ∷ push_back_trailer
    ∷ []

-- The order.
abbrev pub order_pushes : ℕ → ℕ → List Push
order_pushes seq_send now =
    push_back_header (codes "FIX.5.0")
    ∷ push_back_string msg_type order_type
    ∷ push_back_string sender_comp_id (codes "AAAA")
    ∷ push_back_string target_comp_id (codes "BBBB")
    ∷ push_back_int msg_seq_num seq_send
    ∷ push_back_timestamp sending_time now
    ∷ push_back_string cl_ord_id (codes "A1")
    ∷ push_back_char handl_inst b'1'
    ∷ push_back_string symbol (codes "OIH")
    ∷ push_back_char side b'1'
    ∷ push_back_timestamp transact_time now
    ∷ push_back_int order_qty 100
    ∷ push_back_char ord_type b'2'
    ∷ push_back_decimal price (record { negative = false; magnitude = 50001 })
        (record { negative = true; magnitude = 2 })
    ∷ push_back_char time_in_force b'1'
    ∷ push_back_trailer
    ∷ []

-- The text of an array as a C string; `none` is a read behind its end.
unfoldable pub array_text : List ℕ → Option (List ℕ)
array_text [] = none
array_text (c ∷ cs) = if c == 0 then some [] else (do text ← array_text cs; some (c ∷ text))

-- What the calls write from the start of so many free bytes, up to `message_end()`; `none` is the
-- exception for a message that does not fit.
abbrev pub Writer : Type 0
Writer = List Push → ℕ → Option (List ℕ)

-- The text that PrepareTestMessage adds to the packet, from what its array holds at first, which
-- nothing sets.
unfoldable pub test_text : Writer → (now : ℕ) (buffer : List ℕ) → Option (List ℕ)
test_text write now buffer = do
  logon ← write (logon_pushes 1 now) test_message_size
  with_logon ← copy_in buffer 0 logon
  new_order ← write (order_pushes 2 now) (test_message_size - length logon)
  with_both ← copy_in with_logon (length logon) new_order
  array_text with_both

array_text-append :
    (text rest : List ℕ)
    → NoZero text
    → array_text (text ++ rest) ≡ (do left ← array_text rest; some (text ++ left))
unfolding array_text
array_text-append [] rest h = elim (Option-cases (array_text rest)) [
  | inl none_left ↦ rw (none_left, Options.◌>>=◌) refl
  | inr (left, e) ↦ rw (e, Options.◌>>=◌) refl
]
array_text-append (c ∷ text) rest (above, h) =
    let more : (c == 0) ≡ false = ground arith in
    rw (more, array_text-append text rest h)
      (elim (Option-cases (array_text rest)) [
        | inl none_left ↦ rw (none_left, Options.◌>>=◌) refl
        | inr (left, e) ↦ rw (e, Options.◌>>=◌) refl
      ])

array_text_twice :
    (text others rest : List ℕ)
    → NoZero text
    → NoZero others
    → array_text (text ++ (others ++ rest))
      ≡ (do left ← array_text rest; some (text ++ (others ++ left)))
array_text_twice text others rest h k =
    array_text-append text (others ++ rest) h
    ∙ rw (array_text-append others rest k) (elim (Option-cases (array_text rest)) [
      | inl none_left ↦ rw (none_left, Options.◌>>=◌) refl
      | inr (left, e) ↦ rw (e, Options.◌>>=◌) refl
    ])

pub length-array_text :
    (buffer text : List ℕ) → array_text buffer ≡ some text → length text < length buffer
unfolding array_text
length-array_text [] text e = absurd (ground (arith, e))
length-array_text (c ∷ cs) text e = elim (Bool-cases (c == 0)) [
  | inl end ↦
      let both : some [] ≡ some text = rw end at e in
      let same : [] ≡ text = cc in subst (λ t. length t < suc (length cs)) same (omega arith)
  | inr more ↦ elim (Option-cases (array_text cs)) [
    | inl none_left ↦ absurd (ground (arith, rw (more, none_left, Options.◌>>=◌) at e))
    | inr (left, found) ↦
        let both : some (c ∷ left) ≡ some text = rw (more, found, Options.◌>>=◌) at e in
        let same : c ∷ left ≡ text = cc in
        let shorter = length-array_text cs left found in
        subst (λ t. length t < suc (length cs)) same (omega (arith, shorter))
  ]
]

module _ (write : Writer) (now : ℕ) (buffer logon new_order : List ℕ)
    (writes_logon : write (logon_pushes 1 now) test_message_size ≡ some logon)
    (writes_order : write (order_pushes 2 now) (test_message_size - length logon) ≡ some new_order)
    (logon_NoZero : NoZero logon) (order_NoZero : NoZero new_order)
    (room : length logon + length new_order ≤ test_message_size)
    (full : length buffer ≡ test_message_size) where
  left_over : List ℕ
  left_over = drop (length logon + length new_order) buffer

  arrays :
      (with_logon : List ℕ) × (copy_in buffer 0 logon ≡ some with_logon)
      × (copy_in with_logon (length logon) new_order ≡ some (logon ++ (new_order ++ left_over)))
  unfolding left_over
  arrays =
      let fits : 0 + length logon ≤ length buffer = omega arith in
      let size = length-splice buffer 0 logon fits in
      let rest : List ℕ = drop (0 + length logon) buffer in
      let front : take (length logon) (logon ++ rest) ≡ logon =
        take-append logon rest (length logon) refl in
      let behind : drop (length logon + length new_order) (logon ++ rest) ≡ left_over =
        sym (drop-drop (logon ++ rest) (length new_order) (length logon) _ refl)
        ∙ ap (drop (length new_order)) (drop-append logon rest (length logon) refl)
        ∙ drop-drop buffer (length new_order) (0 + length logon) _ (omega arith) in
      (
        splice buffer 0 logon,
        copy_in-some buffer 0 logon fits,
        copy_in-some (splice buffer 0 logon) (length logon) new_order (omega (arith, size))
            ∙ ap₂ (λ front behind. some (front ++ (new_order ++ behind))) front behind,
      )

  -- x
  pub test_text_lem : test_text write now buffer ≡ (do
    left ← array_text (drop (length logon + length new_order) buffer)
    some (logon ++ (new_order ++ left)))
  unfolding test_text left_over
  test_text_lem =
      let (with_logon, first, second) = arrays in
      rw (writes_logon, Options.◌>>=◌, first, writes_order, second)
        (array_text_twice logon new_order left_over logon_NoZero order_NoZero)
