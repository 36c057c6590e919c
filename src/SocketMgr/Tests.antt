-- ===== src/SocketMgr/Tests.antt =====
-- Three threads with five, two and two connections.
use warhead_fix.Base.{ℕ, ◌≡◌, refl, Bool, true, false, some, [], ◌∷◌, arith}
use warhead_fix.NetworkThread.{NetworkThread}
use warhead_fix.SocketMgr.{SocketMgr, get_socket_for_accept}
use warhead_fix.SocketMgr.Choice.{IsLeast, get_socket_for_accept-IsLeast}

abbrev busy : ℕ → NetworkThread Bool
busy n = record {
  connections = n;
  stopped = false;
  thread = true;
  sockets = [];
  new_sockets = [];
  removed = [];
}

abbrev three : SocketMgr Bool
three = record { acceptor = true; threads = busy 5 ∷ busy 2 ∷ busy 2 ∷ []; thread_count = 3 }

get_socket_for_accept-IsLeast_run :
    (best : ℕ) × (t : NetworkThread Bool) × (get_socket_for_accept three ≡ some best)
    × IsLeast three.threads 3 best t
get_socket_for_accept-IsLeast_run = get_socket_for_accept-IsLeast three refl (omega arith)
