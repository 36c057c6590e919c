-- ===== src/Threading/ProducerConsumerQueue/Tests.antt =====
-- Two consumers wait; one value is pushed, and one of the two takes it.
use warhead_fix.Base.{◌≤◌, ◌≡◌, ◌⊎◌, Bool, true, false, List, [], ◌∷◌, ◌++◌, arith, length}
use warhead_fix.Threading.ProducerConsumerQueue.{
  ProducerConsumerQueue, create, notify_one, push, wait_and_pop, wake,
}
use warhead_fix.Threading.ProducerConsumerQueue.Wakeups.{
  Run, created, pushes, enters, wakes, no_lost_wakeup,
}

abbrev both_wait : ProducerConsumerQueue Bool
unfolding create wait_and_pop
both_wait = (wait_and_pop (wait_and_pop create).1).1

abbrev one_woken : ProducerConsumerQueue Bool
unfolding create wait_and_pop push notify_one
one_woken = push true both_wait

one_woken-Run : Run (true ∷ []) [] [] one_woken
unfolding create wait_and_pop push notify_one
one_woken-Run = pushes true (enters (enters created))

one_taken-Run : Run (true ∷ []) (true ∷ []) [] (wake one_woken).1
unfolding create wait_and_pop push notify_one wake
one_taken-Run = wakes (ground arith) one_woken-Run

no_lost_wakeup_example :
    let q : ProducerConsumerQueue Bool = (wake one_woken).1 in
    (true ∷ [] ≡ (true ∷ []) ++ ([] ++ q.queue))
    × ((q.shutdown ≡ true) ⊎ (◌≡◌ {A = List Bool} [] []))
    × ((q.waiting ≡ 0) ⊎ ((q.shutdown ≡ false) × (length q.queue ≤ q.woken)))
no_lost_wakeup_example = no_lost_wakeup one_taken-Run
