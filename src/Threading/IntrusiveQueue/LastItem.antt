-- ===== src/Threading/IntrusiveQueue/LastItem.antt =====
-- `Dequeue` takes the last item, where no producer is between its two steps.
use warhead_fix.Base.{
  ℕ, suc, ◌≡◌, refl, sym, ap, ap₂, subst, ◌∙◌, ◌≢◌, ◌⊎◌, inl, inr, true, Option, none, some, List,
  [], ◌∷◌, arith, ◌==◌, Bool-cases,
}
use warhead_fix.Base.Options
use warhead_fix.Threading.MpscQueue.{Link, set}
use warhead_fix.Threading.MpscQueue.Chain.{NotIn, set_other, set_same}
use warhead_fix.Threading.MpscQueue.Steps.{first, rest}
use warhead_fix.Threading.IntrusiveQueue.{
  IntrusiveQueue, Consumer, at_end, enters, joins, looks_again, goes_on, returns, exchange, link,
  hand_out, last_step, step, finish,
}
use warhead_fix.Threading.IntrusiveQueue.Nodes.{Nodes, last, linked, broken}
use warhead_fix.Threading.IntrusiveQueue.Pending.{without, without-item, without-first, Sound}

-- The first of the nodes is the only one, or its link is written.
pub quiet_chain :
    {links : ℕ → Option (Option ℕ)} {n z : ℕ} {ns : List ℕ} {gaps : List Link}
    → gaps ≡ []
    → Nodes links n ns gaps z
    → ((ns ≡ []) × (n ≡ z) × (links n ≡ some none)) ⊎ ((m : ℕ) × (links n ≡ some (some m)))
quiet_chain e (last h) = inl (refl, refl, h)
quiet_chain e (linked {m = m} h d t) = inr (m, h)
quiet_chain e (broken h d t) = absurd (ground (arith, e))

-- The queue with the items `xs`.
abbrev pub Quiet : List ℕ → IntrusiveQueue → Type 0
Quiet xs q = Sound xs [] [] none q

-- What a call of `Dequeue` is to do from here, within `fuel` steps.
abbrev pub Takes : ℕ → Consumer → List ℕ → IntrusiveQueue → Type 0
Takes fuel c xs q =
    (q' : IntrusiveQueue) × (finish fuel c q ≡ some (first xs, q')) × Quiet (rest xs) q'

-- One item was handed out.
pub one_less :
    {xs : List ℕ} {n : ℕ} {q : IntrusiveQueue}
    → Sound xs (n ∷ []) [] none q
    → (some n ≡ first xs) × Quiet (rest xs) q
one_less {xs} {q} s = (
  ap first (sym s.in_order),
  record {
    nodes = s.nodes;
    all_gaps = s.all_gaps;
    chain = s.chain;
    point = s.point;
    in_order = ap rest s.in_order;
    dummy_next = s.dummy_next;
    dummy_alive = s.dummy_alive;
    no_other = s.no_other;
  },
)

pub finish-goes_on :
    (fuel : ℕ) (c c' : Consumer) (q q' : IntrusiveQueue)
    → step c q ≡ some (goes_on c', q')
    → finish (suc fuel) c q ≡ finish fuel c' q'
unfolding finish
finish-goes_on fuel c c' q q' e = rw (e, Options.◌>>=◌) refl

pub finish-returns :
    (fuel : ℕ) (c : Consumer) (r : Option ℕ) (q q' : IntrusiveQueue)
    → step c q ≡ some (returns r, q')
    → finish (suc fuel) c q ≡ some (r, q')
unfolding finish
finish-returns fuel c r q q' e = rw (e, Options.◌>>=◌) refl

module _ (d t : ℕ) (links : ℕ → Option (Option ℕ)) where
  with_dummy : ℕ → Option (Option ℕ)
  with_dummy = set links d (some none)

  with_both : ℕ → Option (Option ℕ)
  with_both = set with_dummy t (some (some d))

  taken_links : ℕ → Option (Option ℕ)
  taken_links = set with_both t none

  module _ (other : t ≢ d) (last_one : links t ≡ some none) where
    end_step :
        step (at_end t) (record { dummy = d; head = t; tail = t; links = links })
        ≡ some (goes_on (enters t), record { dummy = d; head = t; tail = t; links = links })
    unfolding step
    end_step = let same : (t == t) ≡ true = ground arith in rw same refl

    enters_step :
        step (enters t) (record { dummy = d; head = t; tail = t; links = links })
        ≡ some (goes_on (joins t t), record { dummy = d; head = d; tail = t; links = with_dummy })
    unfolding step exchange with_dummy
    enters_step = refl

    joins_step :
        step (joins t t) (record { dummy = d; head = d; tail = t; links = with_dummy })
        ≡ some
            (goes_on (looks_again t), record { dummy = d; head = d; tail = t; links = with_both })
    unfolding step link with_dummy with_both
    joins_step =
        let found : with_dummy t ≡ some none =
          set_other links d t _ (λ e. other (sym e)) ∙ last_one in
        rw (found, Options.◌>>=◌) refl

    looks_step :
        step (looks_again t) (record { dummy = d; head = d; tail = t; links = with_both })
        ≡ some (returns (some t), record { dummy = d; head = d; tail = d; links = taken_links })
    unfolding step last_step hand_out taken_links with_both
    looks_step = rw (set_same with_dummy t (some (some d)), Options.◌>>=◌) refl

    -- The last item is taken: the dummy goes behind it.
    end_run :
        (k : ℕ)
        → finish
            (suc (suc (suc (suc k))))
            (at_end t)
            (record { dummy = d; head = t; tail = t; links = links })
          ≡ some (some t, record { dummy = d; head = d; tail = d; links = taken_links })
    end_run k =
        finish-goes_on (suc (suc (suc k))) _ _ _ _ end_step
        ∙ finish-goes_on (suc (suc k)) _ _ _ _ enters_step
        ∙ finish-goes_on (suc k) _ _ _ _ joins_step
        ∙ finish-returns k _ _ _ _ looks_step

    end_Quiet :
        ((p : ℕ) → p ≢ d → p ≢ t → links p ≡ none)
        → Quiet [] (record { dummy = d; head = d; tail = d; links = taken_links })
    unfolding taken_links with_both with_dummy
    end_Quiet free =
        let alive : taken_links d ≡ some none =
          set_other with_both t d none other
          ∙ set_other with_dummy t d _ other
          ∙ set_same links d _ in
        record {
          nodes = [];
          all_gaps = [];
          chain = last alive;
          point = refl;
          in_order = sym (without-first d d [] refl);
          dummy_next = none;
          dummy_alive = alive;
          no_other = λ p o h. elim (Bool-cases (t == p)) [
            | inl same ↦ rw same refl
            | inr away ↦ rw away (
                set_other links d p _ (λ e. o (sym e)) ∙ free p o (λ e. absurd (ground (arith, e))))
          ];
        }

pub end-Takes :
    {xs : List ℕ} {c : Option Consumer} (k t : ℕ) (q : IntrusiveQueue) (s : Sound xs [] [] c q)
    → t ≡ q.tail
    → t ≢ q.dummy
    → s.nodes ≡ []
    → q.tail ≡ q.head
    → q.links q.tail ≡ some none
    → Takes (suc (suc (suc (suc k)))) (at_end t) xs q
end-Takes {xs} k t q s same other ns head found =
    let away : q.tail ≢ q.dummy = λ e. other (same ∙ e) in
    let items : xs ≡ q.tail ∷ [] =
      s.in_order
      ∙ without-item q.dummy q.tail s.nodes away
      ∙ ap (λ l. q.tail ∷ without q.dummy l) ns in
    let q' : IntrusiveQueue = record {
      dummy = q.dummy;
      head = q.dummy;
      tail = q.dummy;
      links = taken_links q.dummy q.tail q.links;
    } in
    let run : finish (suc (suc (suc (suc k)))) (at_end q.tail) (record q { head = q.tail })
        ≡ some (some q.tail, q') =
      end_run q.dummy q.tail q.links away found k in
    let quiet : Quiet [] q' =
      end_Quiet q.dummy q.tail q.links away found
        (λ p o h. s.no_other p o (h, subst (λ l. NotIn p l) (sym ns) tt)) in
    (
      q',
      ap₂ (λ n h. finish (suc (suc (suc (suc k)))) (at_end n) (record q { head = h })) same
            (sym head)
          ∙ run
          ∙ ap (λ l. some (first l, q')) (sym items),
      subst (λ l. Quiet (rest l) q') (sym items) quiet,
    )
