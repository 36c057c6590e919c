-- ===== src/Threading/IntrusiveQueue/Quiet.antt =====
-- Whole calls of `Dequeue`, and the destructor, where no producer is between its two steps.
use warhead_fix.Base.{
  ℕ, suc, ◌≡◌, refl, sym, ap, subst, ◌∙◌, ◌≢◌, inl, inr, true, false, none, some, List, [], ◌∷◌,
  ◌++◌, arith, ◌==◌, Bool-cases, length,
}
use mathlib.Core.List.{append_cancel_left}
use warhead_fix.Threading.IntrusiveQueue.LastItem.{
  quiet_chain, Quiet, Takes, one_less, finish-goes_on, finish-returns, end-Takes,
}
use warhead_fix.Base.Options
use warhead_fix.Threading.MpscQueue.Chain.{NotIn}
use warhead_fix.Threading.MpscQueue.Steps.{first, rest}
use warhead_fix.Threading.IntrusiveQueue.{
  IntrusiveQueue, begins, behind_dummy, at_end, goes_on, returns, hand_out, begin_step, behind_step,
  step, dequeue, destroy,
}
use warhead_fix.Threading.IntrusiveQueue.Pending.{without, without-first, Sound}
use warhead_fix.Threading.IntrusiveQueue.Moves.{moves-Sound}
use warhead_fix.Threading.IntrusiveQueue.Calls.{StepSound, begin-Sound, behind-Sound}
use warhead_fix.Threading.IntrusiveQueue.History.{Run, Run-Sound}

behind-Takes :
    {xs : List ℕ} (t : ℕ) (q : IntrusiveQueue)
    → Sound xs [] [] (some (behind_dummy t)) q
    → Takes 5 (behind_dummy t) xs q
unfolding step behind_step
behind-Takes {xs} t q s = elim (quiet_chain s.point.2 s.chain) [
  | inl (ns, head, found) ↦
      let e : step (behind_dummy t) q ≡ some (goes_on (at_end t), q) =
        rw (s.point.0, found, Options.◌>>=◌) refl in
      let (q', run, quiet) = end-Takes 0 t q s s.point.0 s.point.1 ns head found in
      (q', finish-goes_on 4 _ _ _ _ e ∙ run, quiet)
  | inr (m, found) ↦
      let e : step (behind_dummy t) q ≡ some (returns (some t), hand_out t m q) =
        rw (s.point.0, found, Options.◌>>=◌) refl in
      let (is_first, quiet) = one_less (behind-Sound t (some m) q s.point.0 found s) in
      (
        hand_out t m q,
        finish-returns 4 _ _ _ _ e ∙ ap (λ x. some (x, hand_out t m q)) is_first,
        quiet,
      )
]

at_dummy-Takes :
    {xs : List ℕ} (q : IntrusiveQueue)
    → (q.tail == q.dummy) ≡ true
    → Sound xs [] [] (some begins) q
    → Takes 6 begins xs q
unfolding step begin_step
at_dummy-Takes {xs} q same s = elim (quiet_chain s.point s.chain) [
  | inl (ns, head, found) ↦
      let e : step begins q ≡ some (returns none, q) = rw (found, Options.◌>>=◌, same) refl in
      let nothing : xs ≡ [] =
        s.in_order
        ∙ without-first q.dummy q.tail s.nodes (ground arith)
        ∙ ap (λ l. without q.dummy l) ns in
      (
        q,
        finish-returns 5 _ _ _ _ e ∙ ap (λ l. some (first l, q)) (sym nothing),
        subst (λ l. Quiet l q) (nothing ∙ ap rest (sym nothing)) (moves-Sound none s s.point),
      )
  | inr (m, found) ↦
      let e : step begins q ≡ some (goes_on (behind_dummy m), record q { tail = m }) =
        rw (found, Options.◌>>=◌, same) refl in
      let s' : StepSound xs [] [] (begin_step (some m) q) = begin-Sound (some m) q found s in
      let (q', run, quiet) = behind-Takes m (record q { tail = m }) (rw same at s') in
      (q', finish-goes_on 5 _ _ _ _ e ∙ run, quiet)
]

at_item-Takes :
    {xs : List ℕ} (q : IntrusiveQueue)
    → (q.tail == q.dummy) ≡ false
    → Sound xs [] [] (some begins) q
    → Takes 6 begins xs q
unfolding step begin_step
at_item-Takes {xs} q other s = elim (quiet_chain s.point s.chain) [
  | inl (ns, head, found) ↦
      let e : step begins q ≡ some (goes_on (at_end q.tail), q) =
        rw (found, Options.◌>>=◌, other) refl in
      let (q', run, quiet) =
        end-Takes 1 q.tail q s refl (λ e'. absurd (ground (arith, e'))) ns head found in
      (q', finish-goes_on 5 _ _ _ _ e ∙ run, quiet)
  | inr (m, found) ↦
      let e : step begins q ≡ some (returns (some q.tail), hand_out q.tail m q) =
        rw (found, Options.◌>>=◌, other) refl in
      let s' : StepSound xs [] [] (begin_step (some m) q) = begin-Sound (some m) q found s in
      let (is_first, quiet) = one_less (rw other at s') in
      (
        hand_out q.tail m q,
        finish-returns 5 _ _ _ _ e ∙ ap (λ x. some (x, hand_out q.tail m q)) is_first,
        quiet,
      )
]

pub dequeue-Quiet :
    {xs : List ℕ} (q : IntrusiveQueue)
    → Quiet xs q
    → (q' : IntrusiveQueue) × (dequeue q ≡ some (first xs, q')) × Quiet (rest xs) q'
unfolding dequeue
dequeue-Quiet q s = elim (Bool-cases (q.tail == q.dummy)) [
  | inl same ↦ at_dummy-Takes q same (moves-Sound (some begins) s s.point)
  | inr other ↦ at_item-Takes q other (moves-Sound (some begins) s s.point)
]

Run-Quiet :
    {ts : List ℕ} {q : IntrusiveQueue} (items : List ℕ)
    → Run (ts ++ items) ts [] none q
    → Quiet items q
Run-Quiet {ts} {q} items r =
    let s = Run-Sound r in
    record {
      nodes = s.nodes;
      all_gaps = s.all_gaps;
      chain = s.chain;
      point = s.point;
      in_order = append_cancel_left ts items (without q.dummy (q.tail ∷ s.nodes)) s.in_order;
      dummy_next = s.dummy_next;
      dummy_alive = s.dummy_alive;
      no_other = s.no_other;
    }

-- x
pub dequeue_quiet :
    {ts : List ℕ} {q : IntrusiveQueue} (items : List ℕ)
    → Run (ts ++ items) ts [] none q
    → (q' : IntrusiveQueue) × (dequeue q ≡ some (first items, q'))
dequeue_quiet {q = q} items r = let (q', e, quiet) = dequeue-Quiet q (Run-Quiet items r) in (q', e)

nothing_else : (dummy p : ℕ) (ns : List ℕ) → without dummy ns ≡ [] → p ≢ dummy → NotIn p ns
nothing_else dummy p [] e other = tt
nothing_else dummy p (n ∷ ns) e other = elim (Bool-cases (n == dummy)) [
  | inl same ↦
      ((λ e'. absurd (ground (arith, other, e'))), nothing_else dummy p ns (rw same at e) other)
  | inr away ↦ absurd (ground (arith, rw away at e))
]

destroy-Quiet :
    (items : List ℕ) (q : IntrusiveQueue)
    → Quiet items q
    → (q' : IntrusiveQueue) × (destroy (suc (length items)) q ≡ some (items, q'))
      × ((p : ℕ) → p ≢ q'.dummy → q'.links p ≡ none)
unfolding destroy
destroy-Quiet [] q s =
    let (q', e, s') = dequeue-Quiet q s in
    (
      q',
      rw (e, Options.◌>>=◌) refl,
      λ p other.
          s'.no_other p other
            (nothing_else q'.dummy p (q'.tail ∷ s'.nodes) (sym s'.in_order) other),
    )
destroy-Quiet (x ∷ items) q s =
    let (q1, e, s1) = dequeue-Quiet q s in
    let (q', e', free) = destroy-Quiet items q1 s1 in (q', rw (e, e', Options.◌>>=◌) refl, free)

-- When no producer is between its two steps and no call of Dequeue is under way, the destructor of
-- the intrusive queue ends after one call of Dequeue for each item left and one more. It deletes
-- the items left, in their order, and no node but the dummy remains.
pub deletes_rest :
    {ts : List ℕ} {q : IntrusiveQueue} (items : List ℕ)
    → Run (ts ++ items) ts [] none q
    → (q' : IntrusiveQueue) × (destroy (suc (length items)) q ≡ some (items, q'))
      × ((p : ℕ) → p ≢ q'.dummy → q'.links p ≡ none)
deletes_rest {q = q} items r = destroy-Quiet items q (Run-Quiet items r)
