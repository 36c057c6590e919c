-- ===== src/SocketMgr/Choice.antt =====
-- The thread that SocketMgr.h chooses for a new connection.
use warhead_fix.Base.{
  ℕ, zero, suc, ◌+◌, ◌-◌, ◌%◌, ◌^◌, ◌≤◌, ◌<◌, ◌≡◌, refl, sym, ap, subst, ◌∙◌, inl, inr, some, List,
  [], ◌∷◌, arith, ltb, if◌then◌else◌, ltb→lt, Bool-cases, length,
}
use warhead_fix.Base.Options
use warhead_fix.NetworkThread.{NetworkThread}
use warhead_fix.SocketMgr.{
  SocketMgr, thread_at, less_int32, select_from, select_thread_with_min_connections,
  get_socket_for_accept,
}

-- The counter as a signed number, moved up by 2 ^ 31.
abbrev pub load : {S : Type 0} → NetworkThread S → ℕ
load t = (t.connections + 2 ^ 31) % 2 ^ 32

module _ {S : Type 0} where
  thread_at-some :
      (ts : List (NetworkThread S)) (i : ℕ)
      → i < length ts
      → (t : NetworkThread S) × (thread_at ts i ≡ some t)
  unfolding thread_at
  thread_at-some [] i h = absurd (omega arith)
  thread_at-some (t ∷ ts) zero h = (t, refl)
  thread_at-some (t ∷ ts) (suc i) h = thread_at-some ts i (omega arith)

  -- `t`, with number `best`, is the first of the least loaded threads before number `i`.
  pub record IsLeast (ts : List (NetworkThread S)) (i best : ℕ) (t : NetworkThread S) : Type 0 where
    pub found : thread_at ts best ≡ some t
    pub least : (j : ℕ) (u : NetworkThread S) → j < i → thread_at ts j ≡ some u → load t ≤ load u
    pub first : (j : ℕ) (u : NetworkThread S) → j < best → thread_at ts j ≡ some u → load t < load u
    pub before : best < i

  extend :
      (ts : List (NetworkThread S)) (i : ℕ) (u : NetworkThread S) (bound : ℕ)
      → thread_at ts i ≡ some u
      → ((j : ℕ) (v : NetworkThread S) → j < i → thread_at ts j ≡ some v → bound ≤ load v)
      → bound ≤ load u
      → (j : ℕ) (v : NetworkThread S) → j < i + 1
      → thread_at ts j ≡ some v
      → bound ≤ load v
  extend ts i u bound e below at j v h f = elim (Bool-cases (ltb j i)) [
    | inl less ↦ below j v (ltb→lt j i less) f
    | inr more ↦
        let same : j ≡ i = ground arith in
        let v_is : some v ≡ some u = sym f ∙ ap (thread_at ts) same ∙ e in
        let v_eq : v ≡ u = cc in subst (λ w. bound ≤ load w) (sym v_eq) at
  ]

  next-IsLeast :
      (ts : List (NetworkThread S)) (i best : ℕ) (t u : NetworkThread S)
      → IsLeast ts i best t
      → thread_at ts i ≡ some u
      → (v : NetworkThread S) × IsLeast ts
          (i + 1)
          (if less_int32 u.connections t.connections then i else best)
          v
  next-IsLeast ts i best t u l e = elim (Bool-cases (less_int32 u.connections t.connections)) [
    | inl less ↦
        let up : load u < load t = ltb→lt (load u) (load t) less in
        (
          u,
          rw less (record {
            found = e;
            least = λ j v h f.
                extend ts i u (load u) e (λ k w g x. let y = l.least k w g x in omega arith)
                  (omega arith) j v h f;
            first = λ j v h f. let y = l.least j v h f in omega arith;
            before = omega arith;
          }),
        )
    | inr more ↦
        let not_less : load t ≤ load u = ground arith in
        (
          t,
          rw more (record {
            found = l.found;
            least = λ j v h f. extend ts i u (load t) e l.least not_less j v h f;
            first = l.first;
            before = omega (arith, l.before);
          }),
        )
  ]

  select_from-IsLeast :
      (rounds : ℕ) (ts : List (NetworkThread S)) (i best : ℕ) (t : NetworkThread S)
      → i + rounds ≡ length ts
      → IsLeast ts i best t
      → (b : ℕ) × (u : NetworkThread S) × (select_from ts rounds i best ≡ some b)
        × IsLeast ts (length ts) b u
  unfolding select_from
  select_from-IsLeast zero ts i best t e l =
      let same : i ≡ length ts = omega arith in
      (best, t, refl, subst (λ n. IsLeast ts n best t) same l)
  select_from-IsLeast (suc rounds) ts i best t e l =
      let (u, f) = thread_at-some ts i (omega arith) in
      let (v, l') = next-IsLeast ts i best t u l f in
      let (b, w, e', l'') =
        select_from-IsLeast rounds ts (i + 1)
          (if less_int32 u.connections t.connections then i else best) v (omega arith) l' in
      (b, w, rw (f, Options.◌>>=◌, l.found) e', l'')

  first-IsLeast :
      (ts : List (NetworkThread S)) (t : NetworkThread S)
      → thread_at ts 0 ≡ some t
      → IsLeast ts 1 0 t
  first-IsLeast ts t e = record {
    found = e;
    least = λ j v h f.
        extend ts 0 t (load t) e (λ k w g x. absurd (omega arith)) (omega arith) j v (omega arith)
          f;
    first = λ j v h f. absurd (omega arith);
    before = omega arith;
  }

  -- With as many threads as the thread count says, and at least one, GetSocketForAccept ends inside
  -- the array, with the first of the threads that have the fewest connections, compared as signed
  -- numbers.
  pub get_socket_for_accept-IsLeast :
      (m : SocketMgr S)
      → length m.threads ≡ m.thread_count
      → 0 < m.thread_count
      → (best : ℕ) × (t : NetworkThread S) × (get_socket_for_accept m ≡ some best)
        × IsLeast m.threads (length m.threads) best t
  unfolding get_socket_for_accept select_thread_with_min_connections
  get_socket_for_accept-IsLeast m full some_threads =
      let (t, e) = thread_at-some m.threads 0 (omega (arith, full)) in
      let (b, u, e', l) =
        select_from-IsLeast (m.thread_count - 1) m.threads 1 0 t (omega (arith, full))
          (first-IsLeast m.threads t e) in
      (b, u, rw (e', Options.◌>>=◌, l.found) refl, l)
