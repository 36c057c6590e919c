-- ===== src/Threading/ProducerConsumerQueue/Wakeups.antt =====
-- Any sequence of calls on a queue of PCQueue.h: what becomes of the values, and of the waiting threads.
use warhead_fix.Base.{
  ◌+◌, ◌-◌, ◌≤◌, ◌<◌, ◌≡◌, refl, ◌⊎◌, inl, inr, true, false, List, [], ◌∷◌, ◌++◌, length,
}
use warhead_fix.Threading.ProducerConsumerQueue.{
  ProducerConsumerQueue, create, push, pop, wait_and_pop, wake, cancel,
}
use warhead_fix.Threading.ProducerConsumerQueue.Steps.{
  given, popped, IsSound, no_slack, more_slack, push-IsSound, pop-IsSound, wait-IsSound,
  wake-IsSound, spurious-IsSound, cancel-IsSound,
}

module _ {T : Type 0} where
  -- `Run pushed taken deleted q`: the values that were pushed, that consumers got, and that `Cancel`
  -- deleted.
  pub data Run : List T → List T → List T → ProducerConsumerQueue T → Type 0 where
    created : Run [] [] [] create
    pushes :
        {es ts ds : List T} {q : ProducerConsumerQueue T} (x : T)
        → Run es ts ds q
        → Run (es ++ x ∷ []) ts ds (push x q)
    pops :
        {es ts ds : List T} {q : ProducerConsumerQueue T}
        → Run es ts ds q
        → Run es (ts ++ popped (pop q).0) ds (pop q).1
    enters :
        {es ts ds : List T} {q : ProducerConsumerQueue T}
        → Run es ts ds q
        → Run es (ts ++ given (wait_and_pop q).0) ds (wait_and_pop q).1
    wakes :
        {es ts ds : List T} {q : ProducerConsumerQueue T}
        → 0 < q.woken
        → Run es ts ds q
        → Run es (ts ++ given (wake q).0) ds (wake q).1
    -- a wait may end without a notification
    spurious :
        {es ts ds : List T} {q : ProducerConsumerQueue T}
        → 0 < q.waiting
        → Run es ts ds q
        → Run es ts ds (record q { waiting = q.waiting - 1; woken = q.woken + 1 })
    cancels :
        {es ts ds : List T} {q : ProducerConsumerQueue T}
        → Run es ts ds q
        → Run es ts (ds ++ q.queue) (cancel q)

  Run-IsSound :
      {es ts ds : List T} {q : ProducerConsumerQueue T} → Run es ts ds q → IsSound 0 es ts ds q
  unfolding create
  Run-IsSound created = record { in_order = refl; none_deleted = inr refl; awake = inl refl }
  Run-IsSound (pushes {q = q} x r) = push-IsSound x q (Run-IsSound r)
  Run-IsSound (pops {q = q} r) = pop-IsSound q.queue q.shutdown q.waiting q.woken (Run-IsSound r)
  Run-IsSound (enters {q = q} r) =
      wait-IsSound q.queue q.shutdown q.waiting q.woken (more_slack q (Run-IsSound r))
  Run-IsSound (wakes {q = q} woken r) = wake-IsSound q woken (Run-IsSound r)
  Run-IsSound (spurious {q = q} some_wait r) = spurious-IsSound q some_wait (Run-IsSound r)
  Run-IsSound (cancels {q = q} r) = cancel-IsSound q (Run-IsSound r)

  -- After any sequence of Push, Pop, Cancel and the steps of threads in WaitAndPop, spurious
  -- wake-ups included, the values pushed are those taken, then those that Cancel deleted, then
  -- those in the queue, in their order; nothing was deleted unless the queue is shut down; and if a
  -- thread waits, the queue is not shut down and there are at least as many woken threads that have
  -- yet to run as values.
  pub no_lost_wakeup :
      {es ts ds : List T} {q : ProducerConsumerQueue T}
      → Run es ts ds q
      → (es ≡ ts ++ (ds ++ q.queue))
        × ((q.shutdown ≡ true) ⊎ (ds ≡ []))
        × ((q.waiting ≡ 0) ⊎ ((q.shutdown ≡ false) × (length q.queue ≤ q.woken)))
  no_lost_wakeup {q} r =
      let s = Run-IsSound r in (s.in_order, s.none_deleted, no_slack q.woken s.awake)
