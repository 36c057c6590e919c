-- ===== src/Threading/IntrusiveQueue/History.antt =====
-- Any interleaving of the producers' steps and the consumer's steps.
use warhead_fix.Base.{ℕ, ◌<◌, ◌≡◌, refl, sym, subst, ◌∙◌, Option, none, some, List, [], ◌∷◌, ◌++◌}
use warhead_fix.Threading.MpscQueue.{Link}
use warhead_fix.Threading.MpscQueue.Chain.{set_other, set_same}
use warhead_fix.Threading.MpscQueue.Links.{Pick}
use warhead_fix.Threading.IntrusiveQueue.{
  IntrusiveQueue, Consumer, begins, Outcome, create, exchange, link, step,
}
use warhead_fix.Threading.IntrusiveQueue.Nodes.{last}
use warhead_fix.Threading.IntrusiveQueue.Pending.{without, without-first, Sound}
use warhead_fix.Threading.IntrusiveQueue.Steps.{out, goes_to, exchange-Sound, link-Sound}
use warhead_fix.Threading.IntrusiveQueue.Moves.{moves-Sound}
use warhead_fix.Threading.IntrusiveQueue.Calls.{steps_left, step-Sound}

-- `Run entered taken gaps c q`: the queue `q` is reached when the items `entered` were exchanged, in
-- this order, `Dequeue` handed out the items `taken`, the producers of `gaps` have yet to link, and the
-- consumer is at `c`, or between two calls.
pub data Run : List ℕ → List ℕ → List Link → Option Consumer → IntrusiveQueue → Type 0 where
  created : (dummy : ℕ) → Run [] [] [] none (create dummy)
  exchanges :
      {es ts : List ℕ} {gaps : List Link} {c : Option Consumer} {q : IntrusiveQueue} (node : ℕ)
      → q.links node ≡ none
      → Run es ts gaps c q
      → Run (es ++ node ∷ []) ts (gaps ++ (exchange node q).0 ∷ []) c (exchange node q).1
  links :
      {es ts : List ℕ} {gaps others : List Link} {c : Option Consumer} {q : IntrusiveQueue}
      (l : Link) (q' : IntrusiveQueue)
      → Pick l gaps others
      → link l q ≡ some q'
      → Run es ts gaps c q
      → Run es ts others c q'
  calls :
      {es ts : List ℕ} {gaps : List Link} {q : IntrusiveQueue}
      → Run es ts gaps none q
      → Run es ts gaps (some begins) q
  steps :
      {es ts : List ℕ} {gaps : List Link} {c : Consumer} {q : IntrusiveQueue} (o : Outcome)
      (q' : IntrusiveQueue)
      → step c q ≡ some (o, q')
      → Run es ts gaps (some c) q
      → Run es (ts ++ out o) gaps (goes_to o) q'

created-Sound : (dummy : ℕ) → Sound [] [] [] none (create dummy)
unfolding create
created-Sound dummy = record {
  nodes = [];
  all_gaps = [];
  chain = last (set_same (λ _. none) dummy _);
  point = refl;
  in_order = sym (without-first dummy dummy [] refl);
  dummy_next = none;
  dummy_alive = set_same (λ _. none) dummy _;
  no_other = λ p o h. set_other (λ _. none) dummy p _ (λ e. o (sym e));
}

pub Run-Sound :
    {es ts : List ℕ} {gaps : List Link} {c : Option Consumer} {q : IntrusiveQueue}
    → Run es ts gaps c q
    → Sound es ts gaps c q
Run-Sound (created dummy) = created-Sound dummy
Run-Sound (exchanges {q = q} node free r) = exchange-Sound node q free (Run-Sound r)
Run-Sound (links {es} {ts} {others = others} {c = c} {q = q} l q' pick e r) =
    let (q0, e0, s) = link-Sound l q pick (Run-Sound r) in
    let both : some q0 ≡ some q' = sym e0 ∙ e in
    let same : q0 ≡ q' = cc in subst (λ x. Sound es ts others c x) same s
Run-Sound (calls r) = let s = Run-Sound r in moves-Sound (some begins) s s.point
Run-Sound (steps {es} {ts} {gaps} {c} {q} o q' e r) =
    let (o0, q0, e0, _, s) = step-Sound c q (Run-Sound r) in
    let both : ◌≡◌ {A = Option (Outcome × IntrusiveQueue)} (some (o0, q0)) (some (o, q')) =
      sym e0 ∙ e in
    let same : ◌≡◌ {A = Outcome × IntrusiveQueue} (o0, q0) (o, q') = cc in
    subst (λ x. Sound es (ts ++ out x.0) gaps (goes_to x.0) x.1) same s

-- After any interleaving of the steps of producers, each an exchange and a link, and of the steps
-- of the consumer in Dequeue, the next step of Dequeue touches no node but those of the queue and
-- the dummy, what it has handed out then is, in order, the first of the items in the order of their
-- exchanges, and it leaves fewer than the six steps that a call has at most.
pub items_in_order :
    {es ts : List ℕ} {gaps : List Link} {c : Consumer} {q : IntrusiveQueue}
    → Run es ts gaps (some c) q
    → (o : Outcome) × (q' : IntrusiveQueue) × (items : List ℕ) × (step c q ≡ some (o, q'))
      × (es ≡ (ts ++ out o) ++ items)
      × (steps_left (goes_to o) < steps_left (some c))
items_in_order {c} {q} r =
    let (o, q', e, fewer, s) = step-Sound c q (Run-Sound r) in
    (o, q', without q'.dummy (q'.tail ∷ s.nodes), e, s.in_order, fewer)

-- x
pub link_is_safe :
    {es ts : List ℕ} {gaps others : List Link} {c : Option Consumer} {q : IntrusiveQueue} (l : Link)
    → Run es ts gaps c q
    → Pick l gaps others
    → (q' : IntrusiveQueue) × (link l q ≡ some q')
link_is_safe {q} l r pick = let (q', e, _) = link-Sound l q pick (Run-Sound r) in (q', e)
