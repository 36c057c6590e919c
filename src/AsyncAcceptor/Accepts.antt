-- ===== src/AsyncAcceptor/Accepts.antt =====
-- What one accept leaves that comes back.
use warhead_fix.Base.{
  ℕ, zero, suc, ◌<◌, ◌≡◌, refl, ap, ◌∙◌, ◌⊎◌, inl, inr, Bool, true, false, none, some, List, [],
  ◌∷◌, arith, if◌then◌else◌, length,
}
use warhead_fix.Base.Options
use warhead_fix.NetworkThread.{NetworkThread, add_socket}
use warhead_fix.SocketMgr.{SocketMgr, thread_at, change_thread, on_socket_open}
use warhead_fix.SocketMgr.Choice.{get_socket_for_accept-IsLeast}
use warhead_fix.AsyncAcceptor.{
  Completion, error, refused, accepted, async_accept_with_callback, accept_callback, accept_handler,
  comes_back,
}

module _ {S : Type 0} where
  -- A manager with all its threads.
  pub record IsStarted (mgr : SocketMgr S) : Type 0 where
    pub full : length mgr.threads ≡ mgr.thread_count
    pub some_threads : 0 < mgr.thread_count

  -- One accept is out while the acceptor is open, none or one once it is closed.
  pub record IsAccepting (closed : Bool) (accepts : List ℕ) (mgr : SocketMgr S) : Type 0 where
    pub started : IsStarted mgr
    pub out :
        ((closed ≡ true) × (accepts ≡ []))
        ⊎ ((i : ℕ) × (accepts ≡ i ∷ []) × (i < length mgr.threads))

  pub thread_at-inside :
      (ts : List (NetworkThread S)) (i : ℕ) (t : NetworkThread S)
      → thread_at ts i ≡ some t
      → i < length ts
  unfolding thread_at
  thread_at-inside [] i t e = absurd (ground (arith, e))
  thread_at-inside (u ∷ ts) zero t e = omega arith
  thread_at-inside (u ∷ ts) (suc i) t e = omega (arith, thread_at-inside ts i t e)

  change_thread-some :
      (f : NetworkThread S → NetworkThread S) (i : ℕ) (ts : List (NetworkThread S))
      → i < length ts
      → (ts' : List (NetworkThread S)) × (change_thread f i ts ≡ some ts')
        × (length ts' ≡ length ts)
  unfolding change_thread
  change_thread-some f i [] h = absurd (omega (arith, h))
  change_thread-some f zero (t ∷ ts) h = (f t ∷ ts, refl, refl)
  change_thread-some f (suc i) (t ∷ ts) h =
      let (ts', e, same) = change_thread-some f i ts (omega (arith, h)) in
      (t ∷ ts', rw (e, Options.◌>>=◌) refl, ap suc same)

  accept_callback-IsStarted :
      (c : Completion S) (i : ℕ) (mgr : SocketMgr S)
      → IsStarted mgr
      → i < length mgr.threads
      → (mgr' : SocketMgr S) × (accept_callback c i mgr ≡ some mgr')
        × IsStarted mgr'
        × (length mgr'.threads ≡ length mgr.threads)
  unfolding accept_callback on_socket_open
  accept_callback-IsStarted error i mgr s h = (mgr, refl, s, refl)
  accept_callback-IsStarted refused i mgr s h = (mgr, refl, s, refl)
  accept_callback-IsStarted (accepted none) i mgr s h = (mgr, refl, s, refl)
  accept_callback-IsStarted (accepted (some sock)) i mgr s h =
      let (ts, e, same) = change_thread-some (add_socket sock) i mgr.threads h in
      (
        record mgr { threads = ts },
        rw (e, Options.◌>>=◌) refl,
        record { full = same ∙ s.full; some_threads = s.some_threads },
        same,
      )

  -- A new accept, where none is out.
  pub accept-IsAccepting :
      (mgr : SocketMgr S)
      → IsStarted mgr
      → (i : ℕ) × (async_accept_with_callback
            (record { closed = false; accepts = []; socket_mgr = mgr })
          ≡ some (record { closed = false; accepts = i ∷ []; socket_mgr = mgr }))
        × IsAccepting false (i ∷ []) mgr
  unfolding async_accept_with_callback
  accept-IsAccepting mgr s =
      let (i, t, e, l) = get_socket_for_accept-IsLeast mgr s.full s.some_threads in
      (
        i,
        rw (e, Options.◌>>=◌) refl,
        record { started = s; out = inr (i, refl, thread_at-inside mgr.threads i t l.found) },
      )

  -- An accept that is out comes back: another one is out then, unless the acceptor is closed.
  pub comes_back-IsAccepting :
      (c : Completion S) (closed : Bool) (i : ℕ) (mgr : SocketMgr S)
      → IsStarted mgr
      → i < length mgr.threads
      → (accepts : List ℕ) × (mgr' : SocketMgr S) × (comes_back c
            (record { closed = closed; accepts = i ∷ []; socket_mgr = mgr })
          ≡ some (record { closed = closed; accepts = accepts; socket_mgr = mgr' }))
        × (length accepts ≡ (if closed then 0 else 1))
        × IsAccepting closed accepts mgr'
  unfolding comes_back accept_handler
  comes_back-IsAccepting c true i mgr s h =
      let (mgr', e, s', same) = accept_callback-IsStarted c i mgr s h in
      (
        [],
        mgr',
        rw (accept_handler, e, Options.◌>>=◌) refl,
        refl,
        record { started = s'; out = inl (refl, refl) },
      )
  comes_back-IsAccepting c false i mgr s h =
      let (mgr', e, s', same) = accept_callback-IsStarted c i mgr s h in
      let (j, e', next) = accept-IsAccepting mgr' s' in
      (j ∷ [], mgr', rw (accept_handler, e, Options.◌>>=◌) e', refl, next)
