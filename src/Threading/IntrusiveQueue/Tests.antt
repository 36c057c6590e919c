-- ===== src/Threading/IntrusiveQueue/Tests.antt =====
-- A producer enters while the consumer moves the dummy: the call fails, a later one takes the item.
use warhead_fix.Base.{ℕ, ◌<◌, ◌≡◌, refl, ◌≢◌, Option, none, some, List, [], ◌∷◌, ◌++◌}
use warhead_fix.Threading.MpscQueue.{Link, set}
use warhead_fix.Threading.MpscQueue.Links.{here}
use warhead_fix.Threading.IntrusiveQueue.{
  IntrusiveQueue, behind_dummy, at_end, enters, Outcome, goes_on, create, exchange, link,
  begin_step, behind_step, last_step, step, finish, dequeue, destroy,
}
use warhead_fix.Threading.IntrusiveQueue.Steps.{out, goes_to}
use warhead_fix.Threading.IntrusiveQueue.Calls.{steps_left}
use warhead_fix.Threading.IntrusiveQueue.History.{
  Run, created, exchanges, links, calls, steps, items_in_order,
}
use warhead_fix.Threading.IntrusiveQueue.Quiet.{deletes_rest}

abbrev one_linked : IntrusiveQueue
one_linked = record {
  dummy = 10;
  head = 11;
  tail = 10;
  links = set (set (set (λ _. none) 10 (some none)) 11 (some none)) 10 (some (some 11));
}

abbrev passed : IntrusiveQueue
passed = record one_linked { tail = 11 }

one_Run : Run (11 ∷ []) [] [] none one_linked
unfolding create exchange link
one_Run =
    links (record { prev_head = 10; node = 11 }) one_linked here refl
      (exchanges 11 refl (created 10))

-- The consumer has seen that the item is the last one.
enters_Run : Run (11 ∷ []) [] [] (some (enters 11)) passed
unfolding step begin_step behind_step
enters_Run = steps (goes_on (enters 11)) passed refl (
    steps (goes_on (at_end 11)) passed refl
      (steps (goes_on (behind_dummy 11)) passed refl (calls one_Run)))

abbrev other_entered : IntrusiveQueue
unfolding exchange
other_entered = (exchange 12 passed).1

abbrev second_link : Link
second_link = record { prev_head = 11; node = 12 }

other_Run : Run (11 ∷ 12 ∷ []) [] (second_link ∷ []) (some (enters 11)) other_entered
unfolding exchange
other_Run = exchanges 12 refl enters_Run

items_in_order_example :
    (o : Outcome) × (q' : IntrusiveQueue) × (items : List ℕ) × (step (enters 11) other_entered
      ≡ some (o, q'))
    × (11 ∷ 12 ∷ [] ≡ out o ++ items)
    × (steps_left (goes_to o) < 3)
items_in_order_example = items_in_order other_Run

deletes_rest_example :
    (q' : IntrusiveQueue) × (destroy 2 one_linked ≡ some (11 ∷ [], q'))
    × ((p : ℕ) → p ≢ q'.dummy → q'.links p ≡ none)
deletes_rest_example = deletes_rest (11 ∷ []) one_Run

-- The items that a call hands out.
abbrev taken : Option (Option ℕ × IntrusiveQueue) → Option (Option ℕ)
taken none = none
taken (some (r, q)) = some r

-- With the other producer between its two steps, the call that moved the dummy returns false.
call_fails : taken (finish 3 (enters 11) other_entered) ≡ some none
unfolding finish step exchange link last_step
call_fails = refl

single_item_taken : taken (dequeue one_linked) ≡ some (some 11)
unfolding dequeue finish step begin_step behind_step exchange link last_step
single_item_taken = refl
