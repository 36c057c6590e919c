-- ===== src/AsyncAcceptor/Accepting.antt =====
-- The loop of accepting goes on until the acceptor is closed.
use warhead_fix.Base.{
  ℕ, ◌<◌, ◌≡◌, refl, sym, ap, subst, ◌∙◌, ◌⊎◌, inl, inr, Bool, true, false, Option, none, some,
  List, [], ◌∷◌, arith, if◌then◌else◌, Bool-cases, length,
}
use warhead_fix.NetworkThread.{NetworkThread}
use warhead_fix.SocketMgr.{SocketMgr}
use warhead_fix.AsyncAcceptor.{
  Completion, AsyncAcceptor, create, async_accept_with_callback, comes_back, close,
}
use warhead_fix.AsyncAcceptor.Accepts.{
  IsStarted, IsAccepting, accept-IsAccepting, comes_back-IsAccepting,
}

module _ {S : Type 0} where
  -- What becomes of the acceptor: its first accept, accepts that come back, closing, and changes that
  -- the threads make to themselves.
  pub data Run : AsyncAcceptor S → Type 0 where
    starts :
        (mgr : SocketMgr S) (a : AsyncAcceptor S)
        → IsStarted mgr
        → async_accept_with_callback (create mgr) ≡ some a
        → Run a
    returns :
        {a : AsyncAcceptor S} (c : Completion S) (a' : AsyncAcceptor S)
        → Run a
        → comes_back c a ≡ some a'
        → Run a'
    closes : {a : AsyncAcceptor S} → Run a → Run (close a)
    threads_change :
        {a : AsyncAcceptor S} (ts : List (NetworkThread S))
        → Run a
        → length ts ≡ length a.socket_mgr.threads
        → Run (record a { socket_mgr = record a.socket_mgr { threads = ts } })

  none_back :
      (c : Completion S) (closed : Bool) (mgr : SocketMgr S)
      → comes_back c (record { closed = closed; accepts = []; socket_mgr = mgr }) ≡ none
  unfolding comes_back
  none_back c closed mgr = refl

  back-IsAccepting :
      (c : Completion S) (closed : Bool) (accepts : List ℕ) (mgr : SocketMgr S)
      (a' : AsyncAcceptor S)
      → IsAccepting closed accepts mgr
      → comes_back c (record { closed = closed; accepts = accepts; socket_mgr = mgr }) ≡ some a'
      → IsAccepting a'.closed a'.accepts a'.socket_mgr
  back-IsAccepting c closed accepts mgr a' s e = elim s.out [
    | inl out ↦
        let nothing =
          ap (λ l. comes_back c (record { closed = closed; accepts = l; socket_mgr = mgr }))
            (sym out.1)
          ∙ e in
        absurd (ground (arith, sym (none_back c closed mgr) ∙ nothing))
    | inr out ↦
        let (i, one, h) = out in
        let (next, mgr', e', size, s') = comes_back-IsAccepting c closed i mgr s.started h in
        let found =
          ap (λ l. comes_back c (record { closed = closed; accepts = l; socket_mgr = mgr }))
            (sym one)
          ∙ e in
        let both : ◌≡◌ {A = Option (AsyncAcceptor S)}
            (some (record { closed = closed; accepts = next; socket_mgr = mgr' })) (some a') =
          sym e' ∙ found in
        let same : record { closed = closed; accepts = next; socket_mgr = mgr' } ≡ a' = cc in
        subst (λ b. IsAccepting b.closed b.accepts b.socket_mgr) same s'
  ]

  close-IsAccepting :
      (closed : Bool) (accepts : List ℕ) (mgr : SocketMgr S)
      → IsAccepting closed accepts mgr
      → IsAccepting true accepts mgr
  close-IsAccepting closed accepts mgr s = record { started = s.started; out = still s.out }
    where
      still :
          ((closed ≡ true) × (accepts ≡ []))
            ⊎ ((i : ℕ) × (accepts ≡ i ∷ []) × (i < length mgr.threads))
          → ((true ≡ true) × (accepts ≡ []))
            ⊎ ((i : ℕ) × (accepts ≡ i ∷ []) × (i < length mgr.threads))
      still (inl out) = inl (refl, out.1)
      still (inr out) = inr out

  closing :
      (a : AsyncAcceptor S)
      → IsAccepting a.closed a.accepts a.socket_mgr
      → IsAccepting (close a).closed (close a).accepts (close a).socket_mgr
  unfolding close
  closing a s = elim (Bool-cases a.closed) [
    | inl shut ↦ rw (close, shut) (close-IsAccepting a.closed a.accepts a.socket_mgr s)
    | inr open_yet ↦ rw (close, open_yet) (close-IsAccepting a.closed a.accepts a.socket_mgr s)
  ]

  goes :
      (c : Completion S) (closed : Bool) (accepts : List ℕ) (mgr : SocketMgr S)
      → IsAccepting closed accepts mgr
      → ((closed ≡ true) × (accepts ≡ []))
        ⊎ ((length accepts ≡ 1)
            × ((a' : AsyncAcceptor S) × (comes_back c
                    (record { closed = closed; accepts = accepts; socket_mgr = mgr })
                  ≡ some a')
                × (length a'.accepts ≡ (if closed then 0 else 1))))
  goes c closed accepts mgr s = elim s.out [
    | inl out ↦ inl out
    | inr out ↦
        let (i, one, h) = out in
        let (next, mgr', e, size, _) = comes_back-IsAccepting c closed i mgr s.started h in
        inr (
          ap length one,
          (
            record { closed = closed; accepts = next; socket_mgr = mgr' },
            ap (λ l. comes_back c (record { closed = closed; accepts = l; socket_mgr = mgr })) one
                ∙ e,
            size,
          ),
        )
  ]

  Run-IsAccepting : {a : AsyncAcceptor S} → Run a → IsAccepting a.closed a.accepts a.socket_mgr
  unfolding create close
  Run-IsAccepting (starts mgr a s e) =
      let (i, e', next) = accept-IsAccepting mgr s in
      let both : ◌≡◌ {A = Option (AsyncAcceptor S)}
          (some (record { closed = false; accepts = i ∷ []; socket_mgr = mgr })) (some a) =
        sym e' ∙ e in
      let same : record { closed = false; accepts = i ∷ []; socket_mgr = mgr } ≡ a = cc in
      subst (λ b. IsAccepting b.closed b.accepts b.socket_mgr) same next
  Run-IsAccepting (returns {a = a} c a' r e) =
      back-IsAccepting c a.closed a.accepts a.socket_mgr a' (Run-IsAccepting r) e
  Run-IsAccepting (closes {a = a} r) = closing a (Run-IsAccepting r)
  Run-IsAccepting (threads_change {a = a} ts r same) =
      let s = Run-IsAccepting r in
      record {
        started = record { full = same ∙ s.started.full; some_threads = s.started.some_threads };
        out = moved s.out;
      }
    where
      moved :
          ((a.closed ≡ true) × (a.accepts ≡ []))
            ⊎ ((i : ℕ) × (a.accepts ≡ i ∷ []) × (i < length a.socket_mgr.threads))
          → ((a.closed ≡ true) × (a.accepts ≡ []))
            ⊎ ((i : ℕ) × (a.accepts ≡ i ∷ []) × (i < length ts))
      moved (inl out) = inl out
      moved (inr (i, one, h)) = inr (i, one, omega (arith, h, same))

  -- From the first accept of a manager with at least one thread and all of them, and after any
  -- sequence of accepts that come back, with an error, an exception or a socket, of changes that
  -- the threads make to themselves, and of closes, exactly one accept is out until the acceptor is
  -- closed. When it comes back, nothing is accessed outside the array of threads, and another one
  -- is out, or none if the acceptor is closed.
  pub accepting_goes_on :
      {a : AsyncAcceptor S} (c : Completion S)
      → Run a
      → ((a.closed ≡ true) × (a.accepts ≡ []))
        ⊎ ((length a.accepts ≡ 1)
            × ((a' : AsyncAcceptor S) × (comes_back c a ≡ some a')
                × (length a'.accepts ≡ (if a.closed then 0 else 1))))
  accepting_goes_on {a} c r = let s = Run-IsAccepting r in goes c a.closed a.accepts a.socket_mgr s
