-- ===== src/AsyncAcceptor/Balance.antt =====
-- How the connections are spread over the threads.
use warhead_fix.Base.{
  ℕ, ◌+◌, ◌^◌, ◌≤◌, ◌<◌, ◌≡◌, refl, sym, ap, subst, ◌∙◌, false, Option, none, some, List, [], ◌∷◌,
  arith,
}
use warhead_fix.Base.Options
use warhead_fix.Base.Options.{◌>>=◌}
use warhead_fix.NetworkThread.{NetworkThread}
use warhead_fix.SocketMgr.{SocketMgr, thread_at, on_socket_open}
use warhead_fix.SocketMgr.Choice.{get_socket_for_accept-IsLeast}
use warhead_fix.AsyncAcceptor.{
  Completion, error, refused, accepted, AsyncAcceptor, create, async_accept_with_callback,
  accept_callback, accept_handler, comes_back,
}
use warhead_fix.AsyncAcceptor.Accepts.{IsStarted, thread_at-inside}
use warhead_fix.AsyncAcceptor.Spread.{
  total, most, fewest, Within, thread_at-total, thread_at-Within, load_order, Within-raise,
  add_socket-Within, idle-Within, all_spread,
}

module _ {S : Type 0} where
  -- The accepts come back, one after the other.
  unfoldable pub all_back : List (Completion S) → AsyncAcceptor S → Option (AsyncAcceptor S)
  all_back [] a = some a
  all_back (c ∷ cs) a = do a' ← comes_back c a; all_back cs a'

  abbrev sessions_of : Completion S → ℕ
  sessions_of error = 0
  sessions_of refused = 0
  sessions_of (accepted none) = 0
  sessions_of (accepted (some sock)) = 1

  -- How many of them made a session.
  abbrev pub sessions_made : List (Completion S) → ℕ
  sessions_made [] = 0
  sessions_made (c ∷ cs) = sessions_of c + sessions_made cs

  -- An open acceptor with one accept out, for a thread with the fewest connections.
  record IsBalanced (k i : ℕ) (mgr : SocketMgr S) : Type 0 where
    started : IsStarted mgr
    next : NetworkThread S
    found : thread_at mgr.threads i ≡ some next
    within : Within next.connections mgr.threads
    count : total mgr.threads ≡ k

  accept-IsBalanced :
      (k least : ℕ) (mgr : SocketMgr S)
      → IsStarted mgr
      → Within least mgr.threads
      → total mgr.threads ≡ k
      → k < 2 ^ 31
      → (i : ℕ) × (async_accept_with_callback
            (record { closed = false; accepts = []; socket_mgr = mgr })
          ≡ some (record { closed = false; accepts = i ∷ []; socket_mgr = mgr }))
        × IsBalanced k i mgr
  unfolding async_accept_with_callback
  accept-IsBalanced k least mgr s within count small =
      let (i, t, e, l) = get_socket_for_accept-IsLeast mgr s.full s.some_threads in
      let bound : (j : ℕ) (u : NetworkThread S)
          → thread_at mgr.threads j ≡ some u
          → u.connections ≤ k =
        λ j u f. let h = thread_at-total mgr.threads j u f in omega arith in
      (
        i,
        rw (e, Options.◌>>=◌) refl,
        record {
          started = s;
          next = t;
          found = l.found;
          within =
              Within-raise least t.connections mgr.threads
                (thread_at-Within least mgr.threads i t l.found within).0
                (λ j u f.
                  load_order t u k (l.least j u (thread_at-inside mgr.threads j u f) f)
                    (bound i t l.found) (bound j u f) small)
                within;
          count = count;
        },
      )

  callback-IsBalanced :
      (c : Completion S) (k i : ℕ) (mgr : SocketMgr S)
      → IsBalanced k i mgr
      → sessions_of c + k < 2 ^ 31
      → (mgr' : SocketMgr S) × (accept_callback c i mgr ≡ some mgr')
        × (least : ℕ) × IsStarted mgr'
        × Within least mgr'.threads
        × (total mgr'.threads ≡ sessions_of c + k)
  unfolding accept_callback on_socket_open
  callback-IsBalanced error k i mgr s small =
      (mgr, refl, s.next.connections, s.started, s.within, omega (arith, s.count))
  callback-IsBalanced refused k i mgr s small =
      (mgr, refl, s.next.connections, s.started, s.within, omega (arith, s.count))
  callback-IsBalanced (accepted none) k i mgr s small =
      (mgr, refl, s.next.connections, s.started, s.within, omega (arith, s.count))
  callback-IsBalanced (accepted (some sock)) k i mgr s small =
      let (ts, e, size, more, within) =
        add_socket-Within sock i s.next.connections mgr.threads s.next s.found refl
          (omega (arith, small, s.count)) s.within in
      (
        record mgr { threads = ts },
        rw (e, Options.◌>>=◌) refl,
        s.next.connections,
        record { full = size ∙ s.started.full; some_threads = s.started.some_threads },
        within,
        omega (arith, more, s.count),
      )

  back-IsBalanced :
      (c : Completion S) (k i : ℕ) (mgr : SocketMgr S)
      → IsBalanced k i mgr
      → sessions_of c + k < 2 ^ 31
      → (j : ℕ) × (mgr' : SocketMgr S) × (comes_back c
            (record { closed = false; accepts = i ∷ []; socket_mgr = mgr })
          ≡ some (record { closed = false; accepts = j ∷ []; socket_mgr = mgr' }))
        × IsBalanced (sessions_of c + k) j mgr'
  unfolding comes_back accept_handler
  back-IsBalanced c k i mgr s small =
      let (mgr', e, least, started, within, count) = callback-IsBalanced c k i mgr s small in
      let (j, e', next) =
        accept-IsBalanced (sessions_of c + k) least mgr' started within count small in
      (j, mgr', rw (accept_handler, e, Options.◌>>=◌) e', next)

  all_back-IsBalanced :
      (cs : List (Completion S)) (k i : ℕ) (mgr : SocketMgr S)
      → IsBalanced k i mgr
      → sessions_made cs + k < 2 ^ 31
      → (j : ℕ) × (mgr' : SocketMgr S) × (all_back cs
            (record { closed = false; accepts = i ∷ []; socket_mgr = mgr })
          ≡ some (record { closed = false; accepts = j ∷ []; socket_mgr = mgr' }))
        × IsBalanced (sessions_made cs + k) j mgr'
  unfolding all_back
  all_back-IsBalanced [] k i mgr s small =
      (i, mgr, refl, subst (λ n. IsBalanced n i mgr) (omega arith) s)
  all_back-IsBalanced (c ∷ cs) k i mgr s small =
      let (i', mgr1, e, s1) = back-IsBalanced c k i mgr s (omega arith) in
      let (j, mgr', e', s') = all_back-IsBalanced cs (sessions_of c + k) i' mgr1 s1 (omega arith) in
      (j, mgr', rw (e, Options.◌>>=◌) e', subst (λ n. IsBalanced n j mgr') (omega arith) s')

  -- From the first accept of a manager whose threads have no connections, after any sequence of
  -- accepts that come back, with less than 2 ^ 31 sessions in all, the threads have together as
  -- many connections as there were sessions, and the thread with the most has at most one more than
  -- the thread with the fewest. The manager has at least one thread and all of them, and no
  -- connection is closed in between.
  pub connections_spread :
      (cs : List (Completion S)) (mgr : SocketMgr S)
      → IsStarted mgr
      → total mgr.threads ≡ 0
      → sessions_made cs < 2 ^ 31
      → (a a' : AsyncAcceptor S) × (t : NetworkThread S) × (ts : List (NetworkThread S))
        × (async_accept_with_callback (create mgr) ≡ some a)
        × (all_back cs a ≡ some a')
        × (a'.socket_mgr.threads ≡ t ∷ ts)
        × (total (t ∷ ts) ≡ sessions_made cs)
        × (most (t ∷ ts) ≤ fewest t ts + 1)
  unfolding create
  connections_spread cs mgr started idle small =
      let (i, e, s) =
        accept-IsBalanced 0 0 mgr started (idle-Within mgr.threads idle) idle (omega arith) in
      let (j, mgr', e', s') = all_back-IsBalanced cs 0 i mgr s (omega (arith, small)) in
      let (t, ts, shape, near) =
        all_spread s'.next.connections mgr'.threads
          (omega (arith, s'.started.full, s'.started.some_threads)) s'.within in
      (
        record { closed = false; accepts = i ∷ []; socket_mgr = mgr },
        record { closed = false; accepts = j ∷ []; socket_mgr = mgr' },
        t,
        ts,
        e,
        e',
        shape,
        ap total (sym shape) ∙ s'.count ∙ omega arith,
        subst (λ l. most l ≤ fewest t ts + 1) shape near,
      )
