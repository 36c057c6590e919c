-- ===== src/Threading/MpscQueue/Tests.antt =====
-- Two producers: the second one has linked its node, the first one not yet.
use warhead_fix.Base.{ℕ, ◌≡◌, refl, Bool, true, false, none, some, List, [], ◌∷◌, if◌then◌else◌}
use warhead_fix.Threading.MpscQueue.{MpscQueue, Link, create, exchange, link, dequeue, destroy}
use warhead_fix.Threading.MpscQueue.Links.{here, there}
use warhead_fix.Threading.MpscQueue.Steps.{is_blocked, first}
use warhead_fix.Threading.MpscQueue.History.{
  Run, created, exchanges, links, dequeued_in_order, link_is_safe, destroy_frees,
}

abbrev empty : MpscQueue Bool
unfolding create
empty = create 10

abbrev one : MpscQueue Bool
unfolding create exchange
one = (exchange 11 true empty).1

abbrev two : MpscQueue Bool
unfolding create exchange
two = (exchange 12 false one).1

abbrev first_link : Link
first_link = record { prev_head = 10; node = 11 }

abbrev second_link : Link
second_link = record { prev_head = 11; node = 12 }

both_entered : Run (true ∷ false ∷ []) [] (first_link ∷ second_link ∷ []) two
unfolding create exchange
both_entered = exchanges 12 false refl (exchanges 11 true refl (created 10))

second_link_step : (q : MpscQueue Bool) × (link second_link two ≡ some q)
second_link_step = link_is_safe second_link both_entered (there here)

second_linked : Run (true ∷ false ∷ []) [] (first_link ∷ []) second_link_step.0
second_linked = links second_link second_link_step.0 (there here) second_link_step.1 both_entered

dequeued_in_order_example :
    (items : List Bool) × (q' : MpscQueue Bool) × (true ∷ false ∷ [] ≡ items)
    × (dequeue two
        ≡ some
            (if is_blocked two.tail (first_link ∷ second_link ∷ []) then none else first items, q'))
dequeued_in_order_example = dequeued_in_order both_entered

all_linked_step : (q : MpscQueue Bool) × (link first_link second_link_step.0 ≡ some q)
all_linked_step = link_is_safe first_link second_linked here

all_linked : Run (true ∷ false ∷ []) [] [] all_linked_step.0
all_linked = links first_link all_linked_step.0 here all_linked_step.1 second_linked

destroy_frees_run :
    (q' : MpscQueue Bool) × (destroy 3 all_linked_step.0 ≡ some q') × ((p : ℕ) → q'.heap p ≡ none)
destroy_frees_run = destroy_frees (true ∷ false ∷ []) all_linked
