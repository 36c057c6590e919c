-- ===== src/AsyncAcceptor/Tests.antt =====
-- A manager with two threads, an accept that comes back with an error, and one with a session.
use warhead_fix.Base.{
  ◌≡◌, refl, ◌⊎◌, Bool, true, false, some, List, [], ◌∷◌, ◌+◌, ◌≤◌, arith, length,
}
use warhead_fix.NetworkThread
use warhead_fix.NetworkThread.{NetworkThread}
use warhead_fix.SocketMgr.{
  SocketMgr, thread_at, get_socket_for_accept, select_thread_with_min_connections, select_from,
}
use warhead_fix.AsyncAcceptor.{
  Completion, error, accepted, AsyncAcceptor, create, async_accept_with_callback, accept_callback,
  accept_handler, comes_back,
}
use warhead_fix.AsyncAcceptor.Accepting.{Run, starts, returns, accepting_goes_on}
use warhead_fix.AsyncAcceptor.Accepts.{IsStarted}
use warhead_fix.AsyncAcceptor.Balance.{all_back, connections_spread}
use warhead_fix.AsyncAcceptor.Spread.{total, most, fewest}

abbrev two : SocketMgr Bool
unfolding NetworkThread.create
two = record {
  acceptor = true;
  threads = NetworkThread.create ∷ NetworkThread.create ∷ [];
  thread_count = 2;
}

abbrev waiting : AsyncAcceptor Bool
waiting = record { closed = false; accepts = 0 ∷ []; socket_mgr = two }

first_error : Run waiting
unfolding NetworkThread.create create async_accept_with_callback comes_back accept_handler
    accept_callback get_socket_for_accept select_thread_with_min_connections select_from thread_at
first_error =
    returns error waiting
      (starts two waiting (record { full = refl; some_threads = omega arith }) refl) refl

accepting_goes_on_example :
    ((false ≡ true) × (waiting.accepts ≡ []))
    ⊎ ((length waiting.accepts ≡ 1)
        × ((a' : AsyncAcceptor Bool) × (comes_back (accepted (some true)) waiting ≡ some a')
            × (length a'.accepts ≡ 1)))
accepting_goes_on_example = accepting_goes_on (accepted (some true)) first_error

abbrev three_back : List (Completion Bool)
three_back = accepted (some true) ∷ error ∷ accepted (some false) ∷ accepted (some true) ∷ []

two-IsStarted : IsStarted two
unfolding two
two-IsStarted = record { full = refl; some_threads = omega arith }

two_idle : total two.threads ≡ 0
unfolding two NetworkThread.create
two_idle = refl

connections_spread_example :
    (a a' : AsyncAcceptor Bool) × (t : NetworkThread Bool) × (ts : List (NetworkThread Bool))
    × (async_accept_with_callback (create two) ≡ some a)
    × (all_back three_back a ≡ some a')
    × (a'.socket_mgr.threads ≡ t ∷ ts)
    × (total (t ∷ ts) ≡ 3)
    × (most (t ∷ ts) ≤ fewest t ts + 1)
connections_spread_example = connections_spread three_back two two-IsStarted two_idle (omega arith)
