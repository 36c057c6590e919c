-- ===== src/Threading/MpscQueue/History.antt =====
-- Any interleaving of the producers' steps and the consumer's calls, and the destructor.
use warhead_fix.Base.{
  ℕ, suc, ◌≡◌, refl, sym, ap, subst, ◌∙◌, ◌≢◌, inl, inr, Bool, true, false, Option, none, some,
  List, [], ◌∷◌, ◌++◌, append-nil, append_assoc, arith, ◌==◌, if◌then◌else◌, Bool-cases, length,
}
use mathlib.Core.List.{append_cancel_left}
use warhead_fix.Base.Options
use warhead_fix.Threading.MpscQueue.{
  Node, MpscQueue, Link, set, create, exchange, link, dequeue, destroy,
}
use warhead_fix.Threading.MpscQueue.Chain.{NotIn, Chain, last, set_same, set_other}
use warhead_fix.Threading.MpscQueue.Links.{Pick}
use warhead_fix.Threading.MpscQueue.Steps.{
  is_blocked, first, rest, IsQueue, is_queue, NoOther, dequeue-IsQueue, exchange-IsQueue,
  link-IsQueue,
}

module _ {T : Type 0} where
  -- The item that a call of `Dequeue` hands out, if any.
  abbrev pub handed : Option T → List T
  handed none = []
  handed (some x) = x ∷ []

  -- `Run entered taken gaps q`: the queue `q` is reached when the items `entered` were exchanged, in
  -- this order, the items `taken` were handed out, and the producers of `gaps` have yet to link.
  pub data Run : List T → List T → List Link → MpscQueue T → Type 0 where
    created : (dummy : ℕ) → Run [] [] [] (create dummy)
    exchanges :
        {es ts : List T} {gaps : List Link} {q : MpscQueue T} (node : ℕ) (x : T)
        → q.heap node ≡ none
        → Run es ts gaps q
        → Run (es ++ x ∷ []) ts (gaps ++ (exchange node x q).0 ∷ []) (exchange node x q).1
    links :
        {es ts : List T} {gaps others : List Link} {q : MpscQueue T} (l : Link) (q' : MpscQueue T)
        → Pick l gaps others
        → link l q ≡ some q'
        → Run es ts gaps q
        → Run es ts others q'
    dequeues :
        {es ts : List T} {gaps : List Link} {q : MpscQueue T} (o : Option T) (q' : MpscQueue T)
        → dequeue q ≡ some (o, q')
        → Run es ts gaps q
        → Run es (ts ++ handed o) gaps q'

  -- What is left of the items in the queue.
  pub record Left (es ts : List T) (gaps : List Link) (q : MpscQueue T) : Type 0 where
    pub items : List T
    pub in_order : es ≡ ts ++ items
    pub queue : IsQueue items gaps q

  created-Left : (dummy : ℕ) → Left [] [] [] (create dummy)
  unfolding create
  created-Left dummy = record {
    items = [];
    in_order = refl;
    queue =
        is_queue []
          (last (record {
            cell = record { payload = none; next = none };
            found = set_same (λ _. none) dummy _;
            points = refl;
          }))
          (λ p h. set_other (λ _. none) dummy p _ (λ e. h.0 (sym e)));
  }

  taken_first :
      (blocked : Bool) (items ts es : List T)
      → es ≡ ts ++ items
      → es
        ≡ (ts ++ handed (if blocked then none else first items))
          ++ (if blocked then items else rest items)
  taken_first true items ts es e = e ∙ ap (λ l. l ++ items) (sym (append-nil ts))
  taken_first false [] ts es e = e ∙ ap (λ l. l ++ []) (sym (append-nil ts))
  taken_first false (x ∷ items) ts es e = e ∙ sym (append_assoc ts (x ∷ []) items)

  pub Run-Left :
      {es ts : List T} {gaps : List Link} {q : MpscQueue T} → Run es ts gaps q → Left es ts gaps q
  Run-Left (created dummy) = created-Left dummy
  Run-Left (exchanges {ts = ts} {q = q} node x free r) =
      let left = Run-Left r in
      record {
        items = left.items ++ x ∷ [];
        in_order = ap (λ l. l ++ x ∷ []) left.in_order ∙ append_assoc ts left.items (x ∷ []);
        queue = exchange-IsQueue node x q free left.queue;
      }
  Run-Left (links {q = q} l q' pick e r) =
      let left = Run-Left r in
      let (q0, e0, queue) = link-IsQueue l q pick left.queue in
      let both : some q0 ≡ some q' = sym e0 ∙ e in
      let same : q0 ≡ q' = cc in
      record {
        items = left.items;
        in_order = left.in_order;
        queue = subst (IsQueue left.items _) same queue;
      }
  Run-Left (dequeues {es} {ts} {gaps} {q} o q' e r) =
      let left = Run-Left r in
      let blocked = is_blocked q.tail gaps in
      let (q0, e0, queue) = dequeue-IsQueue q left.queue in
      let o0 : Option T = (if blocked then none else first left.items) in
      let both : ◌≡◌ {A = Option (Option T × MpscQueue T)} (some (o0, q0)) (some (o, q')) =
        sym e0 ∙ e in
      let same_o : o0 ≡ o = cc in
      let same_q : q0 ≡ q' = cc in
      record {
        items = if blocked then left.items else rest left.items;
        in_order =
            taken_first blocked left.items ts es left.in_order
            ∙ ap (λ a. (ts ++ handed a) ++ (if blocked then left.items else rest left.items))
                same_o;
        queue = subst (IsQueue (if blocked then left.items else rest left.items) gaps) same_q queue;
      }

  -- After any interleaving of the steps of producers, each an exchange and a link, and of calls of
  -- Dequeue, the items handed out and then those left are the items in the order of their
  -- exchanges, and Dequeue touches no deleted node: it hands out the first item left, or none if
  -- there is none or if the producer behind the tail has yet to link its node.
  pub dequeued_in_order :
      {es ts : List T} {gaps : List Link} {q : MpscQueue T}
      → Run es ts gaps q
      → (items : List T) × (q' : MpscQueue T) × (es ≡ ts ++ items)
        × (dequeue q ≡ some (if is_blocked q.tail gaps then none else first items, q'))
  dequeued_in_order {q} r =
      let left = Run-Left r in
      let (q', e, queue) = dequeue-IsQueue q left.queue in (left.items, q', left.in_order, e)

  -- A producer that has exchanged links a node that is not deleted, whatever the consumer did meanwhile.
  pub link_is_safe :
      {es ts : List T} {gaps others : List Link} {q : MpscQueue T} (l : Link)
      → Run es ts gaps q
      → Pick l gaps others
      → (q' : MpscQueue T) × (link l q ≡ some q')
  link_is_safe {q} l r pick = let (q', e, _) = link-IsQueue l q pick (Run-Left r).queue in (q', e)

  Chain-nil :
      {heap : ℕ → Option (Node T)} {n z : ℕ} {ns : List ℕ}
      → Chain heap n ns [] [] z
      → (ns ≡ []) × (n ≡ z)
  Chain-nil (last h) = (refl, refl)

  -- Once the last node is gone, nothing is left.
  all_freed :
      (q : MpscQueue T) (ns : List ℕ)
      → Chain q.heap q.tail ns [] [] q.head
      → NoOther q.heap q.tail ns
      → (p : ℕ) → set q.heap q.head none p ≡ none
  all_freed q ns chain free p = elim (Bool-cases (q.head == p)) [
    | inl same ↦ rw same refl
    | inr other ↦
        let (no_more, tail_is_head) = Chain-nil chain in
        let away : p ≢ q.tail = λ e. absurd (ground (arith, e, tail_is_head)) in
        rw other (free p (subst (λ l. NotIn p (q.tail ∷ l)) (sym no_more) (away, tt)))
  ]

  destroy-IsQueue :
      (xs : List T) (q : MpscQueue T)
      → IsQueue xs [] q
      → (q' : MpscQueue T) × (destroy (suc (length xs)) q ≡ some q') × ((p : ℕ) → q'.heap p ≡ none)
  unfolding destroy
  destroy-IsQueue [] q queue =
      let (q', e, queue') = dequeue-IsQueue q queue in
      (record q' { heap = set q'.heap q'.head none }, rw (e, Options.◌>>=◌) refl, freed q' queue')
    where
      freed : (q' : MpscQueue T) → IsQueue [] [] q' → (p : ℕ) → set q'.heap q'.head none p ≡ none
      freed q' (is_queue ns chain free) = all_freed q' ns chain free
  destroy-IsQueue (x ∷ xs) q queue =
      let (q1, e, queue1) = dequeue-IsQueue q queue in
      let (q', e', freed) = destroy-IsQueue xs q1 queue1 in (q', rw (e, Options.◌>>=◌) e', freed)

  -- When no producer is between its two steps, the destructor ends after one round for each item
  -- left and one more, touches no deleted node, and leaves no node allocated.
  pub destroy_frees :
      {ts : List T} {q : MpscQueue T} (items : List T)
      → Run (ts ++ items) ts [] q
      → (q' : MpscQueue T) × (destroy (suc (length items)) q ≡ some q')
        × ((p : ℕ) → q'.heap p ≡ none)
  destroy_frees {ts} {q} items r =
      let left = Run-Left r in
      let same : left.items ≡ items = append_cancel_left ts left.items items (sym left.in_order) in
      let queue : IsQueue items [] q = subst (λ xs. IsQueue xs [] q) same left.queue in
      destroy-IsQueue items q queue
