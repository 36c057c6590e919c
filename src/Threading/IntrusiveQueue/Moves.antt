-- ===== src/Threading/IntrusiveQueue/Moves.antt =====
-- What the moves of `Dequeue` keep: to another point, to the next node, and the hand-out of the tail.
use warhead_fix.Base.{
  ℕ, ◌≡◌, refl, sym, ap, subst, ◌∙◌, ◌≢◌, inl, inr, Option, none, some, List, [], ◌∷◌, ◌++◌,
  append-nil, append_assoc, arith, ◌==◌, Bool-cases,
}
use warhead_fix.Threading.MpscQueue.{Link}
use warhead_fix.Threading.MpscQueue.Chain.{NotIn, set_other}
use warhead_fix.Threading.IntrusiveQueue.{IntrusiveQueue, Consumer, behind_dummy, hand_out}
use warhead_fix.Threading.IntrusiveQueue.Nodes.{Nodes, last, linked, broken, Nodes-set}
use warhead_fix.Threading.IntrusiveQueue.Pending.{
  without, without-item, without-first, AtPoint, Sound,
}

-- The consumer is elsewhere, and the queue is as it was.
pub moves-Sound :
    {es ts : List ℕ} {gaps : List Link} {c : Option Consumer} {q : IntrusiveQueue}
    (c' : Option Consumer) (s : Sound es ts gaps c q)
    → AtPoint q.dummy q.tail s.nodes s.all_gaps gaps c'
    → Sound es ts gaps c' q
moves-Sound c' s point = record {
  nodes = s.nodes;
  all_gaps = s.all_gaps;
  chain = s.chain;
  point = point;
  in_order = s.in_order;
  dummy_next = s.dummy_next;
  dummy_alive = s.dummy_alive;
  no_other = s.no_other;
}

pub at-Sound :
    {es ts : List ℕ} {gaps : List Link} {c : Option Consumer} {q : IntrusiveQueue}
    (c' : Option Consumer) (s : Sound es ts gaps c q)
    → AtPoint q.dummy q.tail s.nodes s.all_gaps gaps c'
    → Sound es (ts ++ []) gaps c' q
at-Sound {es} {ts} {gaps} {q} c' s point =
    subst (λ l. Sound es l gaps c' q) (sym (append-nil ts)) (moves-Sound c' s point)

same_node : {k m : ℕ} → ◌≡◌ {A = Option (Option ℕ)} (some (some k)) (some (some m)) → k ≡ m
same_node e = cc

not_null : {m : ℕ} → ◌≡◌ {A = Option (Option ℕ)} (some (some m)) (some none) → ⊥
not_null e = cc

-- The nodes behind a node whose link is written.
first_linked :
    {links : ℕ → Option (Option ℕ)} {n m z : ℕ} {ns : List ℕ} {gaps : List Link}
    → links n ≡ some (some m)
    → Nodes links n ns gaps z
    → (rest : List ℕ) × (ns ≡ m ∷ rest) × NotIn n (m ∷ rest) × Nodes links m rest gaps z
first_linked e (last h) = absurd (not_null (sym e ∙ h))
first_linked {links} {n} {z} {gaps} e (linked {m = k} {ns = ns} h d t) =
    subst
      (λ m. (rest : List ℕ) × (k ∷ ns ≡ m ∷ rest) × NotIn n (m ∷ rest) × Nodes links m rest gaps z)
      (same_node (sym h ∙ e)) (ns, refl, d, t)
first_linked e (broken h d t) = absurd (not_null (sym e ∙ h))

-- `Dequeue` takes the tail, which is not the dummy.
pub hand_out-Sound :
    {es ts : List ℕ} {gaps : List Link} {c : Option Consumer} (next : ℕ) (q : IntrusiveQueue)
    (s : Sound es ts gaps c q)
    → q.tail ≢ q.dummy
    → s.all_gaps ≡ gaps
    → q.links q.tail ≡ some (some next)
    → Sound es (ts ++ q.tail ∷ []) gaps none (hand_out q.tail next q)
unfolding hand_out
hand_out-Sound {es} {ts} next q s other e found =
    let (rest, ns, d, chain) = first_linked found s.chain in
    record {
      nodes = rest;
      all_gaps = s.all_gaps;
      chain = Nodes-set q.tail none d chain;
      point = e;
      in_order =
          s.in_order
          ∙ ap (λ l. ts ++ l)
              (without-item q.dummy q.tail s.nodes other ∙ ap (λ l. q.tail ∷ without q.dummy l) ns)
          ∙ sym (append_assoc ts (q.tail ∷ []) (without q.dummy (next ∷ rest)));
      dummy_next = s.dummy_next;
      dummy_alive = set_other q.links q.tail q.dummy _ other ∙ s.dummy_alive;
      no_other = λ p o h. elim (Bool-cases (q.tail == p)) [
        | inl here ↦ rw here refl
        | inr away ↦ rw away (
            s.no_other p o ((λ e'. absurd (ground (arith, e'))), subst (λ l. NotIn p l) (sym ns) h))
      ];
    }

-- The tail is the dummy: the consumer passes it.
pub pass-Sound :
    {es ts : List ℕ} {gaps : List Link} {c : Option Consumer} (next : ℕ) (q : IntrusiveQueue)
    (s : Sound es ts gaps c q)
    → q.tail ≡ q.dummy
    → s.all_gaps ≡ gaps
    → q.links q.tail ≡ some (some next)
    → Sound es (ts ++ []) gaps (some (behind_dummy next)) (record q { tail = next })
pass-Sound {es} {ts} next q s same e found =
    let (rest, ns, d, chain) = first_linked found s.chain in
    record {
      nodes = rest;
      all_gaps = s.all_gaps;
      chain = chain;
      point = (refl, (λ e'. d.0 (same ∙ sym e')), e);
      in_order =
          s.in_order
          ∙ ap (λ l. ts ++ l)
              (without-first q.dummy q.tail s.nodes same ∙ ap (λ l. without q.dummy l) ns)
          ∙ ap (λ l. l ++ without q.dummy (next ∷ rest)) (sym (append-nil ts));
      dummy_next = s.dummy_next;
      dummy_alive = s.dummy_alive;
      no_other = λ p o h. s.no_other p o ((λ e'. o (e' ∙ same)), subst (λ l. NotIn p l) (sym ns) h);
    }
