-- ===== src/Threading/MpscQueue.antt =====
-- common/Threading/MPSCQueue.h, `MPSCQueueNonIntrusive`: a queue without a lock, for many producers
-- and one consumer. `Enqueue` is two atomic steps, the exchange of the head and the link from the node
-- before; other threads run in between. An address of the heap is a number, and `new` may return any
-- one that is free.
pub mod Chain
pub mod Links
pub mod Steps
pub mod History
mod Tests
use warhead_fix.Base.{
  ℕ, zero, suc, ◌+◌, ◌-◌, ◌*◌, ◌/◌, ◌%◌, ◌^◌, ◌≤◌, ◌<◌, min, ◌≡◌, refl, sym, ap, ap₂, subst, ◌∙◌,
  ◌≢◌, ◌↔◌, ◌⊎◌, inl, inr, Bool, true, false, not, ◌&&◌, ◌||◌, Option, none, some, List, [], ◌∷◌,
  ◌++◌, append-nil, append_assoc, arith, ltb, leb, ◌==◌, if◌then◌else◌, ltb→lt, lt→ltb, le→not-ltb,
  leb→le, le→leb, lt→not-leb, ==_iff, Bool-cases, Option-cases, length, take, drop, replicate,
  length-append, length-take, length-drop, length-replicate, take-append-drop, take-append,
  drop-append, take-append_le, drop-append_le, take_all, take-take, drop-drop, drop-take, drop_all,
  take-splice, drop-splice, take-drop-splice, drop_behind-splice, size_mod, add_size, sub_size,
  resize, copy_out, splice, copy_in, length-resize, length-splice, copy_out-some, copy_in-some,
}
use warhead_fix.Base.Options.{◌>>=◌}

pub record Node (T : Type 0) : Type 0 where
  -- `none` is left uninitialised
  pub payload : Option T
  pub next : Option ℕ

pub record MpscQueue (T : Type 0) : Type 0 where
  pub head : ℕ
  pub tail : ℕ
  -- the nodes that are allocated
  pub heap : ℕ → Option (Node T)

-- A producer between the two steps of its `Enqueue`: `prevHead` and `node`.
pub record Link : Type 0 where
  pub prev_head : ℕ
  pub node : ℕ

abbrev pub set {ℓ} : {A : Type ℓ} → (ℕ → A) → ℕ → A → ℕ → A
set f p a q = if p == q then a else f q

-- The constructor, on a heap where `dummy` is free.
unfoldable pub create : {T : Type 0} → ℕ → MpscQueue T
create dummy = record {
  head = dummy;
  tail = dummy;
  heap = set (λ _. none) dummy (some (record { payload = none; next = none }));
}

module _ {T : Type 0} where
  -- `new Node(input)` at the address `node`, and the exchange.
  unfoldable pub exchange : ℕ → T → MpscQueue T → Link × MpscQueue T
  exchange node input q = (
    record { prev_head = q.head; node = node },
    record {
      head = node;
      tail = q.tail;
      heap = set q.heap node (some (record { payload = some input; next = none }));
    },
  )

  -- `prevHead->Next.store(node)`; `none` is a write to a node that was deleted.
  unfoldable pub link : Link → MpscQueue T → Option (MpscQueue T)
  link l q = do
    prev ← q.heap l.prev_head
    some (record q { heap = set q.heap l.prev_head (some (record prev { next = some l.node })) })

  -- `Enqueue` of a producer that is not interrupted.
  unfoldable pub enqueue : ℕ → T → MpscQueue T → Option (MpscQueue T)
  enqueue node input q = let (l, q') = exchange node input q in link l q'

  -- The rest of `Dequeue`, where there is a next node.
  unfoldable pub take_next : ℕ → MpscQueue T → Option (Option T × MpscQueue T)
  take_next next q = do
    node ← q.heap next
    result ← node.payload
    some (some result, record q { tail = next; heap = set q.heap q.tail none })

  -- `Dequeue`: its result if it returns true. The outer `none` is a read of a node that was deleted,
  -- or of a payload that was never written.
  unfoldable pub dequeue : MpscQueue T → Option (Option T × MpscQueue T)
  dequeue q = do
    tail ← q.heap q.tail
    elim tail.next [ none ↦ some (none, q) | some next ↦ take_next next q ]

  -- The loop of the destructor, and its last `delete`. `none` is also a loop that is not done when its
  -- fuel is.
  unfoldable pub destroy : ℕ → MpscQueue T → Option (MpscQueue T)
  destroy zero q = none
  destroy (suc fuel) q = do
    (output, q') ← dequeue q
    elim output [
      | none ↦ some (record q' { heap = set q'.heap q'.head none })
      | some item ↦ destroy fuel q'
    ]
