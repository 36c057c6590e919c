-- ===== src/SocketMgr.antt =====
-- shared/Network/SocketMgr.h and app/Server/AuthSocketMgr.h: the threads that share the connections,
-- and the choice of one for the next connection. The acceptor is Boost's.
pub mod Choice
mod Tests
use warhead_fix.Base.{
  ℕ, zero, suc, ◌+◌, ◌-◌, ◌*◌, ◌/◌, ◌%◌, ◌^◌, ◌≤◌, ◌<◌, min, ◌≡◌, refl, sym, ap, ap₂, subst, ◌∙◌,
  ◌≢◌, ◌↔◌, ◌⊎◌, inl, inr, Bool, true, false, not, ◌&&◌, ◌||◌, Option, none, some, List, [], ◌∷◌,
  ◌++◌, append-nil, append_assoc, arith, ltb, leb, ◌==◌, if◌then◌else◌, ltb→lt, lt→ltb, le→not-ltb,
  leb→le, le→leb, lt→not-leb, ==_iff, Bool-cases, Option-cases, length, take, drop, replicate,
  length-append, length-take, length-drop, length-replicate, take-append-drop, take-append,
  drop-append, take-append_le, drop-append_le, take_all, take-take, drop-drop, drop-take, drop_all,
  take-splice, drop-splice, take-drop-splice, drop_behind-splice, size_mod, add_size, sub_size,
  resize, copy_out, splice, copy_in, length-resize, length-splice, copy_out-some, copy_in-some,
}
use warhead_fix.Base.Options.{◌>>=◌}
use warhead_fix.NetworkThread
use warhead_fix.NetworkThread.{NetworkThread, add_socket}
use warhead_fix.Session
use warhead_fix.Session.{AuthSession, Result}

pub record SocketMgr (S : Type 0) : Type 0 where
  -- whether `_acceptor` is set
  pub acceptor : Bool
  -- the array `_threads`, empty for a null pointer
  pub threads : List (NetworkThread S)
  pub thread_count : ℕ

-- `_threads[i]`; `none` is an access outside the array.
unfoldable pub thread_at : {S : Type 0} → List (NetworkThread S) → ℕ → Option (NetworkThread S)
thread_at [] i = none
thread_at (t ∷ ts) zero = some t
thread_at (t ∷ ts) (suc i) = thread_at ts i

-- `<` of two `int32`, given as their bits.
abbrev pub less_int32 : ℕ → ℕ → Bool
less_int32 a b = ltb ((a + 2 ^ 31) % 2 ^ 32) ((b + 2 ^ 31) % 2 ^ 32)

-- The loop of `SelectThreadWithMinConnections`, with so many rounds left.
unfoldable pub select_from : {S : Type 0} → List (NetworkThread S) → ℕ → ℕ → ℕ → Option ℕ
select_from ts zero i least = some least
select_from ts (suc rounds) i least = do
  a ← thread_at ts i
  b ← thread_at ts least
  select_from ts rounds (i + 1) (if less_int32 a.connections b.connections then i else least)

unfoldable pub select_thread_with_min_connections : {S : Type 0} → SocketMgr S → Option ℕ
select_thread_with_min_connections m = select_from m.threads (m.thread_count - 1) 1 0

-- `GetSocketForAccept`, the socket being that of the thread with the index.
unfoldable pub get_socket_for_accept : {S : Type 0} → SocketMgr S → Option ℕ
get_socket_for_accept m = do
  index ← select_thread_with_min_connections m
  t ← thread_at m.threads index
  some index

-- A change of `_threads[i]`.
unfoldable pub change_thread :
    {S : Type 0}
    → (NetworkThread S → NetworkThread S)
    → ℕ
    → List (NetworkThread S)
    → Option (List (NetworkThread S))
change_thread f i [] = none
change_thread f zero (t ∷ ts) = some (f t ∷ ts)
change_thread f (suc i) (t ∷ ts) = do ts' ← change_thread f i ts; some (t ∷ ts')

-- A loop over the threads from number `i` on, with so many rounds left.
unfoldable pub change_threads :
    {S : Type 0}
    → (NetworkThread S → NetworkThread S)
    → ℕ
    → ℕ
    → List (NetworkThread S)
    → Option (List (NetworkThread S))
change_threads f zero i ts = some ts
change_threads f (suc rounds) i ts = do
  ts' ← change_thread f i ts
  change_threads f rounds (i + 1) ts'

-- `OnSocketOpen`: `sock` is the started socket, if no exception stopped its making.
unfoldable pub on_socket_open : {S : Type 0} → Option S → ℕ → SocketMgr S → Option (SocketMgr S)
on_socket_open none index m = some m
on_socket_open (some sock) index m = do
  ts ← change_thread (add_socket sock) index m.threads
  some (record m { threads = ts })

-- `StartNetwork`: whether an acceptor could be made, and bound, and the threads that `CreateThreads`
-- makes. `none` is a failed assertion or an access outside the array.
unfoldable pub start_network :
    {S : Type 0}
    → Bool
    → Bool
    → List (NetworkThread S)
    → ℕ
    → SocketMgr S
    → Option (Bool × SocketMgr S)
start_network made bound created thread_count m =
    if thread_count == 0
    then none
    else if not made
    then some (false, m)
    else if not bound
    then some (false, m)
    else if length created == 0
    then none
    else (do
      ts ← change_threads (λ t. (NetworkThread.start t).1) thread_count 0 created
      some (true, record { acceptor = true; threads = ts; thread_count = thread_count }))

-- `AuthSocketMgr::CreateThreads`
abbrev pub create_threads : List (NetworkThread AuthSession)
create_threads = NetworkThread.create ∷ []
