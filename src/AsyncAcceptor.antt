-- ===== src/AsyncAcceptor.antt =====
-- shared/Network/AsyncAcceptor.h: the loop of accepting, with the factory and the callback that
-- SocketMgr.h gives it. Boost's acceptor is outside: what its calls report is a parameter.
pub mod Accepts
pub mod Accepting
pub mod Spread
pub mod Balance
mod Tests
use warhead_fix.Base.{
  ℕ, zero, suc, ◌+◌, ◌-◌, ◌*◌, ◌/◌, ◌%◌, ◌^◌, ◌≤◌, ◌<◌, min, ◌≡◌, refl, sym, ap, ap₂, subst, ◌∙◌,
  ◌≢◌, ◌↔◌, ◌⊎◌, inl, inr, Bool, true, false, not, ◌&&◌, ◌||◌, Option, none, some, List, [], ◌∷◌,
  ◌++◌, append-nil, append_assoc, arith, ltb, leb, ◌==◌, if◌then◌else◌, ltb→lt, lt→ltb, le→not-ltb,
  leb→le, le→leb, lt→not-leb, ==_iff, Bool-cases, Option-cases, length, take, drop, replicate,
  length-append, length-take, length-drop, length-replicate, take-append-drop, take-append,
  drop-append, take-append_le, drop-append_le, take_all, take-take, drop-drop, drop-take, drop_all,
  take-splice, drop-splice, take-drop-splice, drop_behind-splice, size_mod, add_size, sub_size,
  resize, copy_out, splice, copy_in, length-resize, length-splice, copy_out-some, copy_in-some,
}
use warhead_fix.Base.Options.{◌>>=◌}
use warhead_fix.SocketMgr.{SocketMgr, get_socket_for_accept, on_socket_open}

-- How an `async_accept` comes back: with an error; with a socket that `non_blocking` throws on; or with
-- a socket, and the session that is started on it, if no exception stops its making.
pub data Completion (S : Type 0) : Type 0 where
  error : Completion S
  refused : Completion S
  accepted : Option S → Completion S

pub record AsyncAcceptor (S : Type 0) : Type 0 where
  pub closed : Bool
  -- the calls of `async_accept` that have not come back, by the index of the thread whose socket they fill
  pub accepts : List ℕ
  pub socket_mgr : SocketMgr S

-- What the calls of `Bind` report: true is no error.
pub record BindReport : Type 0 where
  pub opens : Bool
  pub reuses_address : Bool
  pub binds : Bool
  pub listens : Bool

unfoldable pub bind : BindReport → Bool
bind report =
    if not report.opens
    then false
    else if not report.reuses_address
    then false
    else if not report.binds
    then false
    else if not report.listens
    then false
    else true

module _ {S : Type 0} where
  -- The acceptor of a manager that has been started.
  unfoldable pub create : SocketMgr S → AsyncAcceptor S
  create mgr = record { closed = false; accepts = []; socket_mgr = mgr }

  -- `AsyncAcceptWithCallback`; `none` is an access outside the array of threads.
  unfoldable pub async_accept_with_callback : AsyncAcceptor S → Option (AsyncAcceptor S)
  async_accept_with_callback a = do
    thread_index ← get_socket_for_accept a.socket_mgr
    some (record a { accepts = a.accepts ++ thread_index ∷ [] })

  unfoldable pub accept_callback : Completion S → ℕ → SocketMgr S → Option (SocketMgr S)
  accept_callback error thread_index mgr = some mgr
  accept_callback refused thread_index mgr = some mgr
  accept_callback (accepted sock) thread_index mgr = on_socket_open sock thread_index mgr

  -- The handler of `async_accept`.
  unfoldable pub accept_handler : Completion S → ℕ → AsyncAcceptor S → Option (AsyncAcceptor S)
  unfolding accept_callback
  accept_handler c thread_index a = do
    mgr ← accept_callback c thread_index a.socket_mgr
    let next = record a { socket_mgr = mgr } in
        if a.closed then some next else async_accept_with_callback next

  -- The oldest `async_accept` comes back.
  unfoldable pub comes_back : Completion S → AsyncAcceptor S → Option (AsyncAcceptor S)
  comes_back c a = elim a.accepts [
    | [] ↦ none
    | thread_index ∷ accepts ↦ accept_handler c thread_index (record a { accepts = accepts })
  ]

  unfoldable pub close : AsyncAcceptor S → AsyncAcceptor S
  close a = if a.closed then a else record a { closed = true }
