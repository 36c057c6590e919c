-- ===== src/NetworkThread/Sessions.antt =====
-- The sessions of app/Server/AuthSession.h as the sockets of a NetworkThread.
use warhead_fix.Base.{
  ℕ, ◌≡◌, refl, inl, inr, Bool, true, false, not, Option, some, arith, Bool-cases,
}
use warhead_fix.Base.Options
use warhead_fix.NetworkThread.{NetworkThread, create}
use warhead_fix.NetworkThread.History.{IsSound, Run, created-IsSound}
use warhead_fix.Session.{AuthSession, close}
use warhead_fix.Socket
use warhead_fix.Socket.{Socket, WriteResult, is_open, close_socket}
use warhead_fix.Socket.Writing.{update_keeps}

-- `AuthSession::Update`
unfoldable pub update_session : (ℕ → ℕ → WriteResult) → AuthSession → Option (Bool × AuthSession)
update_session results s =
    Options.◌>>=◌ (Socket.update results s.socket) (λ r. some (r.0, record s { socket = r.1 }))

abbrev pub session_open : AuthSession → Bool
session_open s = is_open s.socket

-- What the connections report in one round of updates, to each session.
abbrev pub Reports : Type 0
Reports = AuthSession → ℕ → ℕ → WriteResult

unfoldable pub update_in_round : Reports → AuthSession → Option (Bool × AuthSession)
update_in_round reports s = update_session (reports s) s

update_session_ends :
    (results : ℕ → ℕ → WriteResult) (s : AuthSession)
    → (alive : Bool) × (s' : AuthSession) × (update_session results s ≡ some (alive, s'))
unfolding update_session
update_session_ends results s =
    let (k, e, _) = update_keeps (λ _. Unit {0}) results (λ _ _ _. tt) s.socket tt in
    (not s.socket.closed, record s { socket = k }, rw e refl)

closed_after : (k : Socket) → (close_socket k).closed ≡ true
unfolding close_socket
closed_after k = elim (Bool-cases k.closed) [
  | inl c ↦ ground (arith, c)
  | inr o ↦ ground (arith, o)
]

close_closes : (s : AuthSession) → session_open (close s) ≡ false
unfolding is_open
close_closes s = simp (closed_after s.socket)

-- The sessions meet what the thread asks of its sockets: after any sequence of new sessions, stops
-- and updates of a new thread, and of changes of its sessions by their callbacks, the connection
-- count is the number of its sessions modulo 2 ^ 32, and every session that was given up was closed
-- or marked for closing, whatever write_some reports in each update to each session.
pub sessions-IsSound :
    (t : NetworkThread AuthSession)
    → Run session_open close update_in_round create t
    → IsSound session_open close update_in_round t
unfolding update_in_round
sessions-IsSound t r =
    created-IsSound session_open close update_in_round
      (λ reports s. update_session_ends (reports s) s) close_closes t r
