-- ===== src/Threading/IntrusiveQueue/Calls.antt =====
-- The steps of `Dequeue` on the whole queue.
use warhead_fix.Base.{
  ℕ, ◌<◌, ◌≡◌, refl, sym, ap, subst, ◌∙◌, inl, inr, Option, none, some, List, [], ◌∷◌, ◌++◌,
  append-nil, arith, ◌==◌, Bool-cases,
}
use warhead_fix.Base.Options
use warhead_fix.Threading.MpscQueue.{Link}
use warhead_fix.Threading.MpscQueue.Chain.{NotIn, set_other, set_same}
use warhead_fix.Threading.MpscQueue.Links.{Pick, NotIn-append}
use warhead_fix.Threading.IntrusiveQueue.{
  IntrusiveQueue, Consumer, begins, behind_dummy, at_end, enters, joins, looks_again, Outcome,
  goes_on, returns, exchange, begin_step, behind_step, last_step, step,
}
use warhead_fix.Threading.IntrusiveQueue.Nodes.{first_alive, exchange-Nodes, only_node}
use warhead_fix.Threading.IntrusiveQueue.Pending.{without, without-dummy, Sound, Pick-last}
use warhead_fix.Threading.IntrusiveQueue.Steps.{out, goes_to, close-Sound}
use warhead_fix.Threading.IntrusiveQueue.Moves.{at-Sound, hand_out-Sound, pass-Sound}

-- How many steps `Dequeue` has before it, at most.
abbrev pub steps_left : Option Consumer → ℕ
steps_left none = 0
steps_left (some begins) = 6
steps_left (some (behind_dummy tail)) = 5
steps_left (some (at_end tail)) = 4
steps_left (some (enters tail)) = 3
steps_left (some (joins tail prev_head)) = 2
steps_left (some (looks_again tail)) = 1

begin_fewer :
    (next : Option ℕ) (q : IntrusiveQueue) → steps_left (goes_to (begin_step next q).0) < 6
unfolding begin_step
begin_fewer none q = ground arith
begin_fewer (some next) q = ground arith

behind_fewer :
    (tail : ℕ) (next : Option ℕ) (q : IntrusiveQueue)
    → steps_left (goes_to (behind_step tail next q).0) < 5
unfolding behind_step
behind_fewer tail none q = omega arith
behind_fewer tail (some next) q = omega arith

last_fewer :
    (tail : ℕ) (next : Option ℕ) (q : IntrusiveQueue)
    → steps_left (goes_to (last_step tail next q).0) < 1
unfolding last_step
last_fewer tail none q = omega arith
last_fewer tail (some next) q = omega arith

-- What a step leaves.
abbrev pub StepSound : List ℕ → List ℕ → List Link → Outcome × IntrusiveQueue → Type 0
StepSound es ts gaps (o, q) = Sound es (ts ++ out o) gaps (goes_to o) q

pub begin-Sound :
    {es ts : List ℕ} {gaps : List Link} (next : Option ℕ) (q : IntrusiveQueue)
    → q.links q.tail ≡ some next
    → Sound es ts gaps (some begins) q
    → StepSound es ts gaps (begin_step next q)
unfolding begin_step
begin-Sound none q found s = elim (Bool-cases (q.tail == q.dummy)) [
  | inl same ↦ rw same (at-Sound none s s.point)
  | inr other ↦
      rw other
        (at-Sound (some (at_end q.tail)) s (refl, (λ e. absurd (ground (arith, e))), s.point))
]
begin-Sound (some next) q found s = elim (Bool-cases (q.tail == q.dummy)) [
  | inl same ↦ rw same (pass-Sound next q s (ground arith) s.point found)
  | inr other ↦ rw other (hand_out-Sound next q s (λ e. absurd (ground (arith, e))) s.point found)
]

pub behind-Sound :
    {es ts : List ℕ} {gaps : List Link} (tail : ℕ) (next : Option ℕ) (q : IntrusiveQueue)
    → tail ≡ q.tail
    → q.links q.tail ≡ some next
    → Sound es ts gaps (some (behind_dummy tail)) q
    → StepSound es ts gaps (behind_step tail next q)
unfolding behind_step
behind-Sound tail none q e found s = at-Sound (some (at_end tail)) s s.point
behind-Sound tail (some next) q e found s =
    rw e (hand_out-Sound next q s (λ e'. s.point.1 (e ∙ e')) s.point.2 found)

last-Sound :
    {es ts : List ℕ} {gaps : List Link} (tail : ℕ) (next : Option ℕ) (q : IntrusiveQueue)
    → tail ≡ q.tail
    → q.links q.tail ≡ some next
    → Sound es ts gaps (some (looks_again tail)) q
    → StepSound es ts gaps (last_step tail next q)
unfolding last_step
last-Sound tail none q e found s = at-Sound none s s.point.2
last-Sound tail (some next) q e found s =
    rw e (hand_out-Sound next q s (λ e'. s.point.1 (e ∙ e')) s.point.2 found)

-- The tail is the head, so that the dummy is not in the queue.
only-Sound :
    {es ts : List ℕ} {gaps : List Link} (tail : ℕ) (q : IntrusiveQueue)
    → tail ≡ q.head
    → Sound es ts gaps (some (at_end tail)) q
    → Sound es (ts ++ []) gaps (some (enters tail)) q
only-Sound tail q e s =
    let (same, other, gaps_same) = s.point in
    let ns = only_node (sym same ∙ e) s.chain in
    at-Sound (some (enters tail)) s
      (same, ((λ e'. other (same ∙ sym e')), subst (λ l. NotIn q.dummy l) (sym ns) tt), gaps_same)

enters-Sound :
    {es ts : List ℕ} {gaps : List Link} (tail : ℕ) (q : IntrusiveQueue)
    → Sound es ts gaps (some (enters tail)) q
    → Sound es
        (ts ++ [])
        gaps
        (some (joins tail (exchange q.dummy q).0.prev_head))
        (exchange q.dummy q).1
unfolding exchange
enters-Sound {ts} {gaps} tail q s =
    let (same, absent, gaps_same) = s.point in
    let l : Link = record { prev_head = q.head; node = q.dummy } in
    record {
      nodes = s.nodes ++ q.dummy ∷ [];
      all_gaps = s.all_gaps ++ l ∷ [];
      chain = exchange-Nodes q.dummy absent s.chain;
      point = (
        same,
        (λ e. absent.0 (sym e ∙ same)),
        subst (λ ls. Pick l (s.all_gaps ++ l ∷ []) ls) gaps_same (Pick-last l s.all_gaps),
      );
      in_order =
          s.in_order
          ∙ ap (λ xs. ts ++ xs) (sym (without-dummy q.dummy (q.tail ∷ s.nodes)))
          ∙ ap (λ xs. xs ++ without q.dummy (q.tail ∷ (s.nodes ++ q.dummy ∷ [])))
              (sym (append-nil ts));
      dummy_next = none;
      dummy_alive = set_same q.links q.dummy _;
      no_other = λ p o h.
          set_other q.links q.dummy p _ (λ e. o (sym e))
          ∙ s.no_other p o (h.0, (NotIn-append s.nodes h.1).0);
    }

-- A step of the consumer, wherever it is.
pub step-Sound :
    {es ts : List ℕ} {gaps : List Link} (c : Consumer) (q : IntrusiveQueue)
    → Sound es ts gaps (some c) q
    → (o : Outcome) × (q' : IntrusiveQueue) × (step c q ≡ some (o, q'))
      × (steps_left (goes_to o) < steps_left (some c))
      × Sound es (ts ++ out o) gaps (goes_to o) q'
unfolding step exchange
step-Sound begins q s =
    let (next, found) = first_alive s.chain in
    (
      (begin_step next q).0,
      (begin_step next q).1,
      rw (found, Options.◌>>=◌) refl,
      begin_fewer next q,
      begin-Sound next q found s,
    )
step-Sound (behind_dummy tail) q s =
    let (next, found) = first_alive s.chain in
    let same : tail ≡ q.tail = s.point.0 in
    (
      (behind_step tail next q).0,
      (behind_step tail next q).1,
      rw (same, found, Options.◌>>=◌) refl,
      behind_fewer tail next q,
      behind-Sound tail next q same found s,
    )
step-Sound (at_end tail) q s = elim (Bool-cases (tail == q.head)) [
  | inl same ↦
      (goes_on (enters tail), q, rw same refl, omega arith, only-Sound tail q (ground arith) s)
  | inr other ↦ (returns none, q, rw other refl, omega arith, at-Sound none s s.point.2)
]
step-Sound (enters tail) q s =
    (goes_on (joins tail q.head), (exchange q.dummy q).1, refl, omega arith, enters-Sound tail q s)
step-Sound {gaps} (joins tail p) q s =
    let (same, other, pick) = s.point in
    let (q', e, s') =
      close-Sound {c' = some (looks_again tail)} (record { prev_head = p; node = q.dummy }) q s gaps
        pick (same, other, refl) in
    (
      goes_on (looks_again tail),
      q',
      rw (e, Options.◌>>=◌) refl,
      omega arith,
      at-Sound (some (looks_again tail)) s' s'.point,
    )
step-Sound (looks_again tail) q s =
    let (next, found) = first_alive s.chain in
    let same : tail ≡ q.tail = s.point.0 in
    (
      (last_step tail next q).0,
      (last_step tail next q).1,
      rw (same, found, Options.◌>>=◌) refl,
      last_fewer tail next q,
      last-Sound tail next q same found s,
    )
