-- ===== src/Threading/ProducerConsumerQueue/Steps.antt =====
-- What holds of a queue of PCQueue.h between its calls, and that each call keeps it.
use warhead_fix.Base.{
  ℕ, suc, ◌+◌, ◌-◌, ◌≤◌, ◌<◌, ◌≡◌, refl, sym, ap, ◌∙◌, ◌⊎◌, inl, inr, Bool, true, false, Option,
  none, some, List, [], ◌∷◌, ◌++◌, append-nil, append_assoc, arith, ◌==◌, Bool-cases, length,
  length-append,
}
use warhead_fix.Threading.ProducerConsumerQueue.{
  ProducerConsumerQueue, Progress, waits, returns, notify_one, notify_all, push, pop, wait_and_pop,
  wake, cancel,
}

shut-waiting : {n m k : ℕ} → (n ≡ 0) ⊎ ((true ≡ false) × (m ≤ k)) → n ≡ 0
shut-waiting (inl e) = e
shut-waiting (inr e) = absurd (ground (arith, e.0))

fewer-awake :
    {n m : ℕ} (k : ℕ)
    → (n ≡ 0) ⊎ ((false ≡ false) × (suc m ≤ k + 1))
    → (n ≡ 0) ⊎ ((false ≡ false) × (m ≤ k + 0))
fewer-awake k (inl e) = inl e
fewer-awake k (inr e) = let b = e.1 in inr (refl, ground arith)

pub no_slack :
    {n m : ℕ} {closed : Bool} (k : ℕ)
    → (n ≡ 0) ⊎ ((closed ≡ false) × (m ≤ k + 0))
    → (n ≡ 0) ⊎ ((closed ≡ false) × (m ≤ k))
no_slack k (inl e) = inl e
no_slack k (inr e) = let b = e.1 in inr (e.0, ground arith)

module _ {T : Type 0} where
  abbrev pub given : Progress T → List T
  given waits = []
  given (returns none) = []
  given (returns (some x)) = x ∷ []

  abbrev pub popped : Option T → List T
  popped none = []
  popped (some x) = x ∷ []

  -- What holds between the calls; `slack` is 1 within a call of a consumer that has just woken.
  pub record IsSound (slack : ℕ) (es ts ds : List T) (q : ProducerConsumerQueue T) : Type 0 where
    pub in_order : es ≡ ts ++ (ds ++ q.queue)
    pub none_deleted : (q.shutdown ≡ true) ⊎ (ds ≡ [])
    pub awake : (q.waiting ≡ 0) ⊎ ((q.shutdown ≡ false) × (length q.queue ≤ q.woken + slack))

  take_front :
      (ts ds behind : List T) (front : T)
      → ds ≡ []
      → ts ++ (ds ++ front ∷ behind) ≡ (ts ++ front ∷ []) ++ (ds ++ behind)
  take_front ts ds behind front e = rw e (sym (append_assoc ts (front ∷ []) behind))

  open_none_deleted : {ds : List T} → (false ≡ true) ⊎ (ds ≡ []) → ds ≡ []
  open_none_deleted (inl e) = absurd (ground (arith, e))
  open_none_deleted (inr e) = e

  untouched :
      {es ts ds : List T} (queue : List T) (waiting woken : ℕ)
      → let q : ProducerConsumerQueue T = record {
        queue = queue;
        shutdown = true;
        waiting = waiting;
        woken = woken;
      } in
        IsSound 1 es ts ds q → IsSound 0 es (ts ++ []) ds q
  untouched {ts} {ds} queue waiting woken s = record {
    in_order = s.in_order ∙ ap (λ l. l ++ (ds ++ queue)) (sym (append-nil ts));
    none_deleted = s.none_deleted;
    awake = inl (shut-waiting s.awake);
  }

  pub push-IsSound :
      {es ts ds : List T} (x : T) (q : ProducerConsumerQueue T)
      → IsSound 0 es ts ds q
      → IsSound 0 (es ++ x ∷ []) ts ds (push x q)
  unfolding push notify_one
  push-IsSound {es} {ts} {ds} x q s = elim (Bool-cases (q.waiting == 0)) [
    | inl nobody ↦
        rw nobody
          (record { in_order = entered; none_deleted = s.none_deleted; awake = inl (ground arith) })
    | inr somebody ↦
        rw somebody
          (record { in_order = entered; none_deleted = s.none_deleted; awake = one_more s.awake })
  ]
    where
      one_more :
          (q.waiting ≡ 0) ⊎ ((q.shutdown ≡ false) × (length q.queue ≤ q.woken + 0))
          → (q.waiting - 1 ≡ 0)
            ⊎ ((q.shutdown ≡ false) × (length (q.queue ++ x ∷ []) ≤ (q.woken + 1) + 0))
      one_more (inl e) = inl (ground arith)
      one_more (inr e) =
          let b = e.1 in inr (e.0, rw (length-append q.queue (x ∷ [])) (ground arith))

      entered : es ++ x ∷ [] ≡ ts ++ (ds ++ (q.queue ++ x ∷ []))
      entered =
          ap (λ l. l ++ x ∷ []) s.in_order
          ∙ append_assoc ts (ds ++ q.queue) (x ∷ [])
          ∙ ap (◌++◌ ts) (append_assoc ds q.queue (x ∷ []))

  pub wait-IsSound :
      {es ts ds : List T} (queue : List T) (shutdown : Bool) (waiting woken : ℕ)
      → let q : ProducerConsumerQueue T = record {
        queue = queue;
        shutdown = shutdown;
        waiting = waiting;
        woken = woken;
      } in
        IsSound 1 es ts ds q → IsSound 0 es (ts ++ given (wait_and_pop q).0) ds (wait_and_pop q).1
  unfolding wait_and_pop
  wait-IsSound {ts} {ds} [] false waiting woken s = record {
    in_order = s.in_order ∙ ap (λ l. l ++ (ds ++ [])) (sym (append-nil ts));
    none_deleted = s.none_deleted;
    awake = inr (refl, ground arith);
  }
  wait-IsSound [] true waiting woken s = untouched [] waiting woken s
  wait-IsSound {ts} {ds} (front ∷ behind) false waiting woken s = record {
    in_order = s.in_order ∙ take_front ts ds behind front (open_none_deleted s.none_deleted);
    none_deleted = s.none_deleted;
    awake = fewer-awake woken s.awake;
  }
  wait-IsSound (front ∷ behind) true waiting woken s = untouched (front ∷ behind) waiting woken s

  pub more_slack :
      {es ts ds : List T} (q : ProducerConsumerQueue T)
      → IsSound 0 es ts ds q
      → IsSound 1 es ts ds q
  more_slack q s = record {
    in_order = s.in_order;
    none_deleted = s.none_deleted;
    awake = more s.awake;
  }
    where
      more :
          (q.waiting ≡ 0) ⊎ ((q.shutdown ≡ false) × (length q.queue ≤ q.woken + 0))
          → (q.waiting ≡ 0) ⊎ ((q.shutdown ≡ false) × (length q.queue ≤ q.woken + 1))
      more (inl e) = inl e
      more (inr e) = let b = e.1 in inr (e.0, ground arith)

  -- A thread that runs again is one woken thread less.
  pub wake-IsSound :
      {es ts ds : List T} (q : ProducerConsumerQueue T)
      → 0 < q.woken
      → IsSound 0 es ts ds q
      → IsSound 0 es (ts ++ given (wake q).0) ds (wake q).1
  unfolding wake
  wake-IsSound q woken s =
      wait-IsSound q.queue q.shutdown q.waiting (q.woken - 1)
        (record { in_order = s.in_order; none_deleted = s.none_deleted; awake = less s.awake })
    where
      less :
          (q.waiting ≡ 0) ⊎ ((q.shutdown ≡ false) × (length q.queue ≤ q.woken + 0))
          → (q.waiting ≡ 0) ⊎ ((q.shutdown ≡ false) × (length q.queue ≤ (q.woken - 1) + 1))
      less (inl e) = inl e
      less (inr e) = let b = e.1 in inr (e.0, ground arith)

  -- `Pop` does what `WaitAndPop` does, but that it returns where that waits.
  pub pop-IsSound :
      {es ts ds : List T} (queue : List T) (shutdown : Bool) (waiting woken : ℕ)
      → let q : ProducerConsumerQueue T = record {
        queue = queue;
        shutdown = shutdown;
        waiting = waiting;
        woken = woken;
      } in
        IsSound 0 es ts ds q → IsSound 0 es (ts ++ popped (pop q).0) ds (pop q).1
  unfolding pop wait_and_pop
  pop-IsSound {ts} {ds} [] shutdown waiting woken s = record {
    in_order = s.in_order ∙ ap (λ l. l ++ (ds ++ [])) (sym (append-nil ts));
    none_deleted = s.none_deleted;
    awake = s.awake;
  }
  pop-IsSound (front ∷ behind) false waiting woken s =
      wait-IsSound (front ∷ behind) false waiting woken (more_slack _ s)
  pop-IsSound (front ∷ behind) true waiting woken s =
      untouched (front ∷ behind) waiting woken (more_slack _ s)

  pub spurious-IsSound :
      {es ts ds : List T} (q : ProducerConsumerQueue T)
      → 0 < q.waiting
      → IsSound 0 es ts ds q
      → IsSound 0 es ts ds (record q { waiting = q.waiting - 1; woken = q.woken + 1 })
  spurious-IsSound q some_wait s = record {
    in_order = s.in_order;
    none_deleted = s.none_deleted;
    awake = runs s.awake;
  }
    where
      runs :
          (q.waiting ≡ 0) ⊎ ((q.shutdown ≡ false) × (length q.queue ≤ q.woken + 0))
          → (q.waiting - 1 ≡ 0) ⊎ ((q.shutdown ≡ false) × (length q.queue ≤ (q.woken + 1) + 0))
      runs (inl e) = inl (ground arith)
      runs (inr e) = let b = e.1 in inr (e.0, ground arith)

  pub cancel-IsSound :
      {es ts ds : List T} (q : ProducerConsumerQueue T)
      → IsSound 0 es ts ds q
      → IsSound 0 es ts (ds ++ q.queue) (cancel q)
  unfolding cancel notify_all
  cancel-IsSound {ts} {ds} q s = record {
    in_order = s.in_order ∙ ap (◌++◌ ts) (sym (append-nil (ds ++ q.queue)));
    none_deleted = inl refl;
    awake = inl refl;
  }
