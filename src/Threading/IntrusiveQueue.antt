-- ===== src/Threading/IntrusiveQueue.antt =====
-- common/Threading/MPSCQueue.h, `MPSCQueueIntrusive`: the queue whose nodes are the items, for many
-- producers and one consumer. The consumer moves a dummy node behind the last item, by the same
-- `Enqueue`, to take that item. `Dequeue` is cut into steps, each with one access to what the producers
-- write too, so that they run in between. An item is its address.
pub mod Nodes
pub mod Pending
pub mod Steps
pub mod Moves
pub mod Calls
pub mod History
pub mod LastItem
pub mod Quiet
mod Tests
use warhead_fix.Base.{
  ℕ, zero, suc, ◌+◌, ◌-◌, ◌*◌, ◌/◌, ◌%◌, ◌^◌, ◌≤◌, ◌<◌, min, ◌≡◌, refl, sym, ap, ap₂, subst, ◌∙◌,
  ◌≢◌, ◌↔◌, ◌⊎◌, inl, inr, Bool, true, false, not, ◌&&◌, ◌||◌, Option, none, some, List, [], ◌∷◌,
  ◌++◌, append-nil, append_assoc, arith, ltb, leb, ◌==◌, if◌then◌else◌, ltb→lt, lt→ltb, le→not-ltb,
  leb→le, le→leb, lt→not-leb, ==_iff, Bool-cases, Option-cases, length, take, drop, replicate,
  length-append, length-take, length-drop, length-replicate, take-append-drop, take-append,
  drop-append, take-append_le, drop-append_le, take_all, take-take, drop-drop, drop-take, drop_all,
  take-splice, drop-splice, take-drop-splice, drop_behind-splice, size_mod, add_size, sub_size,
  resize, copy_out, splice, copy_in, length-resize, length-splice, copy_out-some, copy_in-some,
}
use warhead_fix.Base.Options.{◌>>=◌}
use warhead_fix.Threading.MpscQueue.{Link, set}

pub record IntrusiveQueue : Type 0 where
  pub dummy : ℕ
  pub head : ℕ
  pub tail : ℕ
  -- the link of each node of the queue and of the dummy; `none` is a node of somebody else, who may
  -- have deleted it
  pub links : ℕ → Option (Option ℕ)

-- The constructor.
unfoldable pub create : ℕ → IntrusiveQueue
create dummy = record {
  dummy = dummy;
  head = dummy;
  tail = dummy;
  links = set (λ _. none) dummy (some none);
}

-- `Enqueue` up to the exchange: no other thread knows the node before.
unfoldable pub exchange : ℕ → IntrusiveQueue → Link × IntrusiveQueue
exchange input q = (
  record { prev_head = q.head; node = input },
  record q { head = input; links = set q.links input (some none) },
)

-- The store of the link behind the node that was the last; `none` is a write to a node of somebody else.
unfoldable pub link : Link → IntrusiveQueue → Option IntrusiveQueue
link l q = do
  next ← q.links l.prev_head
  some (record q { links = set q.links l.prev_head (some (some l.node)) })

-- `Enqueue` of a producer that is not interrupted.
unfoldable pub enqueue : ℕ → IntrusiveQueue → Option IntrusiveQueue
enqueue input q = let (l, q') = exchange input q in link l q'

-- Where the consumer is in `Dequeue`, with its variables `tail` and `prevHead`: at the first load of a
-- link, behind the dummy, at the load of the head, before and behind the exchange of the dummy, and at
-- the last load.
pub data Consumer : Type 0 where
  begins : Consumer
  behind_dummy : ℕ → Consumer
  at_end : ℕ → Consumer
  enters : ℕ → Consumer
  joins : ℕ → ℕ → Consumer
  looks_again : ℕ → Consumer

-- A step goes on, or is the return of `Dequeue`, with `result` if it returns true.
pub data Outcome : Type 0 where
  goes_on : Consumer → Outcome
  returns : Option ℕ → Outcome

-- `_tail.store(next); result = tail; return true`: the item is the caller's.
unfoldable pub hand_out : ℕ → ℕ → IntrusiveQueue → IntrusiveQueue
hand_out tail next q = record q { tail = next; links = set q.links tail none }

unfoldable pub begin_step : Option ℕ → IntrusiveQueue → Outcome × IntrusiveQueue
begin_step none q = if q.tail == q.dummy then (returns none, q) else (goes_on (at_end q.tail), q)
begin_step (some next) q =
    if q.tail == q.dummy
    then (goes_on (behind_dummy next), record q { tail = next })
    else (returns (some q.tail), hand_out q.tail next q)

unfoldable pub behind_step : ℕ → Option ℕ → IntrusiveQueue → Outcome × IntrusiveQueue
behind_step tail none q = (goes_on (at_end tail), q)
behind_step tail (some next) q = (returns (some tail), hand_out tail next q)

unfoldable pub last_step : ℕ → Option ℕ → IntrusiveQueue → Outcome × IntrusiveQueue
last_step tail none q = (returns none, q)
last_step tail (some next) q = (returns (some tail), hand_out tail next q)

-- One step of `Dequeue`. `none` is an access to a node of somebody else.
unfoldable pub step : Consumer → IntrusiveQueue → Option (Outcome × IntrusiveQueue)
step begins q = do next ← q.links q.tail; some (begin_step next q)
step (behind_dummy tail) q = do next ← q.links tail; some (behind_step tail next q)
step (at_end tail) q =
    some (if tail == q.head then (goes_on (enters tail), q) else (returns none, q))
step (enters tail) q =
    let (l, q') = exchange q.dummy q in some (goes_on (joins tail l.prev_head), q')
step (joins tail prev_head) q = do
  q' ← link (record { prev_head = prev_head; node = q.dummy }) q
  some (goes_on (looks_again tail), q')
step (looks_again tail) q = do next ← q.links tail; some (last_step tail next q)

-- The rest of a `Dequeue` that is not interrupted, in at most `fuel` steps.
unfoldable pub finish : ℕ → Consumer → IntrusiveQueue → Option (Option ℕ × IntrusiveQueue)
finish zero c q = none
finish (suc fuel) c q = do
  (o, q') ← step c q
  elim o [ goes_on c' ↦ finish fuel c' q' | returns r ↦ some (r, q') ]

-- `Dequeue` has at most six steps.
unfoldable pub dequeue : IntrusiveQueue → Option (Option ℕ × IntrusiveQueue)
dequeue q = finish 6 begins q

-- The loop of the destructor, with the items that it deletes.
unfoldable pub destroy : ℕ → IntrusiveQueue → Option (List ℕ × IntrusiveQueue)
destroy zero q = none
destroy (suc fuel) q = do
  (output, q') ← dequeue q
  elim output [
    | none ↦ some ([], q')
    | some item ↦ do (deleted, q'') ← destroy fuel q'; some (item ∷ deleted, q'')
  ]
