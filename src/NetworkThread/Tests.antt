-- ===== src/NetworkThread/Tests.antt =====
-- A thread whose sockets are truth values: whether the socket is open. An update closes it.
use warhead_fix.Base.{◌≡◌, refl, Bool, true, false, not, some, Option, List, [], ◌∷◌}
use warhead_fix.NetworkThread.{
  SocketType, NetworkThread, create, add_socket, update, add_new_sockets, admit_all, admit,
  update_all, update_socket,
}
use warhead_fix.NetworkThread.Counting.{IsCounted, NoneOpen, update_counts}
use warhead_fix.NetworkThread.History.{IsSound, Run, done, adds, changes, updates, created-IsSound}
use warhead_fix.NetworkThread.Sessions.{
  Reports, session_open, update_session, update_in_round, sessions-IsSound,
}
use warhead_fix.Session.{AuthSession, not_authed, close}
use warhead_fix.Socket
use warhead_fix.Socket.{blocked, is_open}

abbrev is_up : Bool → Bool
is_up o = o

abbrev put_down : Bool → Bool
put_down o = false

abbrev flags : SocketType Bool
flags = record { is_open = is_up; update = λ o. some (not o, o); close_socket = put_down }

abbrev two_sockets : NetworkThread Bool
two_sockets = record {
  connections = 2;
  stopped = false;
  thread = true;
  sockets = true ∷ [];
  new_sockets = false ∷ [];
  removed = [];
}

update_of_two :
    (t' : NetworkThread Bool) × (gone : List Bool) × (update flags two_sockets ≡ some t')
    × IsCounted t'
    × (t'.removed ≡ gone)
    × NoneOpen is_up gone
update_of_two =
    update_counts flags (λ o. (not o, o, refl)) (λ _. refl) two_sockets (record { counted = refl })

-- The socket stays as it is, and its update returns what is found outside.
abbrev flag_update : Bool → Bool → Option (Bool × Bool)
flag_update outside o = some (outside, o)

abbrev with_one : NetworkThread Bool
with_one = record {
  connections = 1;
  stopped = false;
  thread = false;
  sockets = true ∷ [];
  new_sockets = [];
  removed = [];
}

abbrev given_up : NetworkThread Bool
given_up = record {
  connections = 0;
  stopped = false;
  thread = false;
  sockets = [];
  new_sockets = [];
  removed = false ∷ [];
}

-- A socket is added, stays over one update, and is given up in the next.
flag_Run : Run is_up put_down flag_update create given_up
unfolding create add_socket update add_new_sockets admit_all admit update_all update_socket
flag_Run = adds true create given_up (
    updates true (add_socket true create) with_one given_up refl
      (updates false with_one given_up given_up refl (done given_up)))

created-IsSound_example : IsSound is_up put_down flag_update given_up
created-IsSound_example =
    created-IsSound is_up put_down flag_update (λ outside o. (outside, o, refl)) (λ _. refl)
      given_up flag_Run

abbrev fresh : AuthSession
fresh = record {
  socket = record {
    read_buffer = record { wpos = 0; rpos = 0; storage = [] };
    write_queue = [];
    closed = false;
    closing = false;
    is_writing_async = false;
    log = [];
  };
  status = not_authed;
}

abbrev ended : AuthSession
ended = record fresh { socket = record fresh.socket { closed = true } }

abbrev nothing_taken : Reports
nothing_taken s k n = blocked

abbrev with_session : AuthSession → NetworkThread AuthSession
with_session s = record {
  connections = 1;
  stopped = false;
  thread = false;
  sockets = s ∷ [];
  new_sockets = [];
  removed = [];
}

abbrev session_gone : NetworkThread AuthSession
session_gone = record {
  connections = 0;
  stopped = false;
  thread = false;
  sockets = [];
  new_sockets = [];
  removed = ended ∷ [];
}

-- A session is added and admitted, its socket is closed by a read, and an update gives it up.
session_Run : Run session_open close update_in_round create session_gone
unfolding create add_socket update add_new_sockets admit_all admit update_all update_socket
    update_in_round update_session Socket.update is_open
session_Run = adds fresh create session_gone (
    updates nothing_taken (add_socket fresh create) (with_session fresh) session_gone refl (
      changes (ended ∷ []) [] (with_session fresh) session_gone refl refl (
        updates nothing_taken (with_session ended) session_gone session_gone refl
          (done session_gone))))

sessions-IsSound_example : IsSound session_open close update_in_round session_gone
sessions-IsSound_example = sessions-IsSound session_gone session_Run
