-- ===== src/Threading/IntrusiveQueue/Steps.antt =====
-- The steps of producers and of the consumer on the whole queue.
use warhead_fix.Base.{
  ℕ, ◌≡◌, refl, sym, ap, subst, ◌∙◌, ◌≢◌, inl, inr, Option, none, some, List, [], ◌∷◌, ◌++◌,
  append_assoc, ◌==◌, Bool-cases,
}
use warhead_fix.Base.Options
use warhead_fix.Threading.MpscQueue.{Link, set}
use warhead_fix.Threading.MpscQueue.Chain.{NotIn, set_other}
use warhead_fix.Threading.MpscQueue.Links.{Pick, NotIn-append, NotIn-concat}
use warhead_fix.Threading.IntrusiveQueue.{
  IntrusiveQueue, Consumer, begins, behind_dummy, at_end, enters, joins, looks_again, Outcome,
  goes_on, returns, exchange, link,
}
use warhead_fix.Threading.IntrusiveQueue.Nodes.{
  Nodes, last, linked, broken, exchange-Nodes, gap_elsewhere, link-Nodes,
}
use warhead_fix.Threading.IntrusiveQueue.Pending.{
  without, without-concat, AtPoint, Sound, Pick-concat, Pick-comm,
}

-- The node that a call hands out, if any.
abbrev pub out : Outcome → List ℕ
out (goes_on c) = []
out (returns none) = []
out (returns (some n)) = n ∷ []

abbrev pub goes_to : Outcome → Option Consumer
goes_to (goes_on c) = some c
goes_to (returns r) = none

apart :
    (links : ℕ → Option (Option ℕ)) {a n : ℕ} {next : Option ℕ}
    → links a ≡ none
    → links n ≡ some next
    → a ≢ n
apart links free h e = let bad : none ≡ some _ = sym free ∙ ap links e ∙ h in cc

-- A node of somebody else is not in the queue.
free-NotIn :
    {links : ℕ → Option (Option ℕ)} {n z a : ℕ} {ns : List ℕ} {gaps : List Link}
    → links a ≡ none
    → Nodes links n ns gaps z
    → NotIn a (n ∷ ns)
free-NotIn {links} free (last h) = (apart links free h, tt)
free-NotIn {links} free (linked h d t) = (apart links free h, free-NotIn free t)
free-NotIn {links} free (broken h d t) = (apart links free h, free-NotIn free t)

exchange-AtPoint :
    (a : ℕ) (l : Link) (dummy tail : ℕ) (ns : List ℕ) (all gaps : List Link) (c : Option Consumer)
    → dummy ≢ a
    → AtPoint dummy tail ns all gaps c
    → AtPoint dummy tail (ns ++ a ∷ []) (all ++ l ∷ []) (gaps ++ l ∷ []) c
exchange-AtPoint a l dummy tail ns all gaps none other e = ap (λ ls. ls ++ l ∷ []) e
exchange-AtPoint a l dummy tail ns all gaps (some begins) other e = ap (λ ls. ls ++ l ∷ []) e
exchange-AtPoint a l dummy tail ns all gaps (some (behind_dummy t)) other (e0, d, e) =
    (e0, d, ap (λ ls. ls ++ l ∷ []) e)
exchange-AtPoint a l dummy tail ns all gaps (some (at_end t)) other (e0, d, e) =
    (e0, d, ap (λ ls. ls ++ l ∷ []) e)
exchange-AtPoint a l dummy tail ns all gaps (some (enters t)) other (e0, d, e) =
    (e0, (d.0, NotIn-concat ns d.1 other), ap (λ ls. ls ++ l ∷ []) e)
exchange-AtPoint a l dummy tail ns all gaps (some (joins t p)) other (e0, d, pick) =
    (e0, d, Pick-concat l pick)
exchange-AtPoint a l dummy tail ns all gaps (some (looks_again t)) other (e0, d, e) =
    (e0, d, ap (λ ls. ls ++ l ∷ []) e)

pub exchange-Sound :
    {es ts : List ℕ} {gaps : List Link} {c : Option Consumer} (a : ℕ) (q : IntrusiveQueue)
    → q.links a ≡ none
    → Sound es ts gaps c q
    → Sound (es ++ a ∷ []) ts (gaps ++ (exchange a q).0 ∷ []) c (exchange a q).1
unfolding exchange
exchange-Sound {ts} {gaps} {c} a q free s =
    let away : a ≢ q.dummy = apart q.links free s.dummy_alive in
    let back : q.dummy ≢ a = λ e. away (sym e) in
    record {
      nodes = s.nodes ++ a ∷ [];
      all_gaps = s.all_gaps ++ (exchange a q).0 ∷ [];
      chain = exchange-Nodes a (free-NotIn free s.chain) s.chain;
      point =
          exchange-AtPoint a (exchange a q).0 q.dummy q.tail s.nodes s.all_gaps gaps c back s.point;
      in_order =
          ap (λ l. l ++ a ∷ []) s.in_order
          ∙ append_assoc ts (without q.dummy (q.tail ∷ s.nodes)) (a ∷ [])
          ∙ ap (λ l. ts ++ l) (sym (without-concat q.dummy a (q.tail ∷ s.nodes) away));
      dummy_next = s.dummy_next;
      dummy_alive = set_other q.links a q.dummy _ away ∙ s.dummy_alive;
      no_other = λ p o h.
          set_other q.links a p _ (λ e. (NotIn-append s.nodes h.1).1 (sym e))
          ∙ s.no_other p o (h.0, (NotIn-append s.nodes h.1).0);
    }

Pick-from :
    (l : Link) (all gaps others : List Link) → Pick l gaps others → all ≡ gaps → Pick l all others
Pick-from l all gaps others pick e = subst (λ ls. Pick l ls others) (sym e) pick

link-AtPoint :
    (l : Link) (dummy tail : ℕ) (ns : List ℕ) (all gaps others : List Link) (c : Option Consumer)
    → Pick l gaps others
    → AtPoint dummy tail ns all gaps c
    → (left : List Link) × Pick l all left × AtPoint dummy tail ns left others c
link-AtPoint l dummy tail ns all gaps others none pick e =
    (others, Pick-from l all gaps others pick e, refl)
link-AtPoint l dummy tail ns all gaps others (some begins) pick e =
    (others, Pick-from l all gaps others pick e, refl)
link-AtPoint l dummy tail ns all gaps others (some (behind_dummy t)) pick (e0, d, e) =
    (others, Pick-from l all gaps others pick e, (e0, d, refl))
link-AtPoint l dummy tail ns all gaps others (some (at_end t)) pick (e0, d, e) =
    (others, Pick-from l all gaps others pick e, (e0, d, refl))
link-AtPoint l dummy tail ns all gaps others (some (enters t)) pick (e0, d, e) =
    (others, Pick-from l all gaps others pick e, (e0, d, refl))
link-AtPoint l dummy tail ns all gaps others (some (joins t p)) pick (e0, d, own) =
    let (left, pick', own') = Pick-comm own pick in (left, pick', (e0, d, own'))
link-AtPoint l dummy tail ns all gaps others (some (looks_again t)) pick (e0, d, e) =
    (others, Pick-from l all gaps others pick e, (e0, d, refl))

-- A write to a node of the queue.
alive_behind :
    (links : ℕ → Option (Option ℕ)) (p q : ℕ) (next x : Option ℕ)
    → links q ≡ some next
    → (next' : Option ℕ) × (set links p (some x) q ≡ some next')
alive_behind links p q next x e = elim (Bool-cases (p == q)) [
  | inl same ↦ (x, rw same refl)
  | inr other ↦ (next, rw other e)
]

-- Closing a gap, of a producer or of the consumer.
pub close-Sound :
    {es ts : List ℕ} {gaps gaps' : List Link} {c c' : Option Consumer} (l : Link)
    (q : IntrusiveQueue) (s : Sound es ts gaps c q) (left : List Link)
    → Pick l s.all_gaps left
    → AtPoint q.dummy q.tail s.nodes left gaps' c'
    → (q' : IntrusiveQueue) × (link l q ≡ some q') × Sound es ts gaps' c' q'
unfolding link
close-Sound l q s left pick point =
    let (found, chain) = link-Nodes s.chain pick in
    let (next, alive) =
      alive_behind q.links l.prev_head q.dummy s.dummy_next (some l.node) s.dummy_alive in
    (
      record q { links = set q.links l.prev_head (some (some l.node)) },
      rw (found, Options.◌>>=◌) refl,
      record {
        nodes = s.nodes;
        all_gaps = left;
        chain = chain;
        point = point;
        in_order = s.in_order;
        dummy_next = next;
        dummy_alive = alive;
        no_other = λ p o h.
            set_other q.links l.prev_head p _ (λ e. gap_elsewhere h s.chain pick (sym e))
            ∙ s.no_other p o h;
      },
    )

-- The second step of a producer.
pub link-Sound :
    {es ts : List ℕ} {gaps others : List Link} {c : Option Consumer} (l : Link) (q : IntrusiveQueue)
    → Pick l gaps others
    → Sound es ts gaps c q
    → (q' : IntrusiveQueue) × (link l q ≡ some q') × Sound es ts others c q'
link-Sound {gaps} {others} {c} l q pick s =
    let (left, pick', point) =
      link-AtPoint l q.dummy q.tail s.nodes s.all_gaps gaps others c pick s.point in
    close-Sound l q s left pick' point
