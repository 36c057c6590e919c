-- ===== src/Threading/ProducerConsumerQueue.antt =====
-- common/Threading/PCQueue.h: a queue with a condition that consumers wait for. The mutex makes each
-- part of a function that holds it one step; a wait on the condition ends a step.
pub mod Steps
pub mod Wakeups
mod Tests
use warhead_fix.Base.{
  ℕ, zero, suc, ◌+◌, ◌-◌, ◌*◌, ◌/◌, ◌%◌, ◌^◌, ◌≤◌, ◌<◌, min, ◌≡◌, refl, sym, ap, ap₂, subst, ◌∙◌,
  ◌≢◌, ◌↔◌, ◌⊎◌, inl, inr, Bool, true, false, not, ◌&&◌, ◌||◌, Option, none, some, List, [], ◌∷◌,
  ◌++◌, append-nil, append_assoc, arith, ltb, leb, ◌==◌, if◌then◌else◌, ltb→lt, lt→ltb, le→not-ltb,
  leb→le, le→leb, lt→not-leb, ==_iff, Bool-cases, Option-cases, length, take, drop, replicate,
  length-append, length-take, length-drop, length-replicate, take-append-drop, take-append,
  drop-append, take-append_le, drop-append_le, take_all, take-take, drop-drop, drop-take, drop_all,
  take-splice, drop-splice, take-drop-splice, drop_behind-splice, size_mod, add_size, sub_size,
  resize, copy_out, splice, copy_in, length-resize, length-splice, copy_out-some, copy_in-some,
}

pub record ProducerConsumerQueue (T : Type 0) : Type 0 where
  pub queue : List T
  pub shutdown : Bool
  -- the threads that wait for the condition, and those that were notified and have not run since
  pub waiting : ℕ
  pub woken : ℕ

-- What a thread in `WaitAndPop` does next.
pub data Progress (T : Type 0) : Type 0 where
  -- wait for the condition; return, with a value or without one
  waits : Progress T
  returns : Option T → Progress T

module _ {T : Type 0} where
  unfoldable pub create : ProducerConsumerQueue T
  create = record { queue = []; shutdown = false; waiting = 0; woken = 0 }

  -- `notify_one` and `notify_all`
  unfoldable pub notify_one : ProducerConsumerQueue T → ProducerConsumerQueue T
  notify_one q =
      if q.waiting == 0 then q else record q { waiting = q.waiting - 1; woken = q.woken + 1 }

  unfoldable pub notify_all : ProducerConsumerQueue T → ProducerConsumerQueue T
  notify_all q = record q { waiting = 0; woken = q.woken + q.waiting }

  unfoldable pub push : T → ProducerConsumerQueue T → ProducerConsumerQueue T
  push value q = notify_one (record q { queue = q.queue ++ value ∷ [] })

  unfoldable pub is_empty : ProducerConsumerQueue T → Bool
  is_empty q = length q.queue == 0

  unfoldable pub size : ProducerConsumerQueue T → ℕ
  size q = length q.queue

  -- `Pop`: its value if it returns true.
  unfoldable pub pop : ProducerConsumerQueue T → Option T × ProducerConsumerQueue T
  pop q = elim q.queue [
    | [] ↦ (none, q)
    | front ∷ behind ↦ if q.shutdown then (none, q) else (some front, record q { queue = behind })
  ]

  -- `WaitAndPop` from its test on.
  unfoldable pub wait_and_pop : ProducerConsumerQueue T → Progress T × ProducerConsumerQueue T
  wait_and_pop q = elim q.queue [
    | [] ↦ if q.shutdown then (returns none, q) else (waits, record q { waiting = q.waiting + 1 })
    | front ∷ behind ↦
        if q.shutdown
        then (returns none, q)
        else (returns (some front), record q { queue = behind })
  ]

  -- A thread that was notified runs, and tests again.
  unfoldable pub wake : ProducerConsumerQueue T → Progress T × ProducerConsumerQueue T
  wake q = wait_and_pop (record q { woken = q.woken - 1 })

  unfoldable pub cancel : ProducerConsumerQueue T → ProducerConsumerQueue T
  cancel q = notify_all (record q { queue = []; shutdown = true })
