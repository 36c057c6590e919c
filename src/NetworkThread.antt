-- ===== src/NetworkThread.antt =====
-- shared/Network/NetworkThread.h: the sockets that one thread serves. The type of the sockets is a
-- parameter, with the operations that the template uses of it. The timer that calls `Update` again, and
-- the event loop, are Boost's. `SocketRemoved` and `SocketAdded` are hooks with an empty body; the calls
-- of the first are kept as a list of the sockets that it is given.
pub mod Counting
pub mod History
pub mod Sessions
mod Tests
use warhead_fix.Base.{
  ℕ, zero, suc, ◌+◌, ◌-◌, ◌*◌, ◌/◌, ◌%◌, ◌^◌, ◌≤◌, ◌<◌, min, ◌≡◌, refl, sym, ap, ap₂, subst, ◌∙◌,
  ◌≢◌, ◌↔◌, ◌⊎◌, inl, inr, Bool, true, false, not, ◌&&◌, ◌||◌, Option, none, some, List, [], ◌∷◌,
  ◌++◌, append-nil, append_assoc, arith, ltb, leb, ◌==◌, if◌then◌else◌, ltb→lt, lt→ltb, le→not-ltb,
  leb→le, le→leb, lt→not-leb, ==_iff, Bool-cases, Option-cases, length, take, drop, replicate,
  length-append, length-take, length-drop, length-replicate, take-append-drop, take-append,
  drop-append, take-append_le, drop-append_le, take_all, take-take, drop-drop, drop-take, drop_all,
  take-splice, drop-splice, take-drop-splice, drop_behind-splice, size_mod, add_size, sub_size,
  resize, copy_out, splice, copy_in, length-resize, length-splice, copy_out-some, copy_in-some,
}
use warhead_fix.Base.Options.{◌>>=◌}

pub record SocketType (S : Type 0) : Type 0 where
  pub is_open : S → Bool
  -- `none` is a loop that does not end
  pub update : S → Option (Bool × S)
  pub close_socket : S → S

pub record NetworkThread (S : Type 0) : Type 0 where
  -- the 32 bits of `_connections`
  pub connections : ℕ
  pub stopped : Bool
  -- whether there is a `std::thread`
  pub thread : Bool
  pub sockets : List S
  pub new_sockets : List S
  pub removed : List S

-- `++` and `--` of an `int32`.
abbrev pub add_one : ℕ → ℕ
add_one n = (n + 1) % 2 ^ 32

abbrev pub sub_one : ℕ → ℕ
sub_one n = (n + 2 ^ 32 - 1) % 2 ^ 32

unfoldable pub create : {S : Type 0} → NetworkThread S
create = record {
  connections = 0;
  stopped = false;
  thread = false;
  sockets = [];
  new_sockets = [];
  removed = [];
}

unfoldable pub stop : {S : Type 0} → NetworkThread S → NetworkThread S
stop t = record t { stopped = true }

unfoldable pub start : {S : Type 0} → NetworkThread S → Bool × NetworkThread S
start t = if t.thread then (false, t) else (true, record t { thread = true })

-- `Wait`, when `join` has come back. `none` is its failed assertion.
unfoldable pub wait : {S : Type 0} → NetworkThread S → Option (NetworkThread S)
wait t = if t.thread then some (record t { thread = false }) else none

unfoldable pub add_socket : {S : Type 0} → S → NetworkThread S → NetworkThread S
add_socket sock t = record t {
  connections = add_one t.connections;
  new_sockets = t.new_sockets ++ sock ∷ [];
}

-- The end of `Run`, when the event loop was stopped.
unfoldable pub exit : {S : Type 0} → NetworkThread S → NetworkThread S
exit t = record t { new_sockets = []; sockets = [] }

module _ {S : Type 0} (type : SocketType S) where
  open type use {is_open, close_socket}

  -- The body of the loop of `AddNewSockets`.
  unfoldable pub admit : S → NetworkThread S → NetworkThread S
  admit sock t =
      if not (is_open sock)
      then record t { connections = sub_one t.connections; removed = t.removed ++ sock ∷ [] }
      else record t { sockets = t.sockets ++ sock ∷ [] }

  unfoldable pub admit_all : List S → NetworkThread S → NetworkThread S
  admit_all [] t = t
  admit_all (sock ∷ socks) t = admit_all socks (admit sock t)

  -- `AddNewSockets`
  unfoldable pub add_new_sockets : NetworkThread S → NetworkThread S
  add_new_sockets t =
      if length t.new_sockets == 0
      then t
      else record (admit_all t.new_sockets t) { new_sockets = [] }

  -- The test of `remove_if`: whether the socket goes, what becomes of it, and of the thread.
  unfoldable pub update_socket : S → NetworkThread S → Option (Bool × S × NetworkThread S)
  update_socket sock t = do
    (alive, sock') ← type.update sock
    let closed = if is_open sock' then close_socket sock' else sock'
    some (
        if alive then (false, sock', t) else (
          true,
          closed,
          record t { connections = sub_one t.connections; removed = t.removed ++ closed ∷ [] },
        ))

  -- `remove_if` and `erase` on the sockets: those that stay, in their order.
  unfoldable pub update_all : List S → NetworkThread S → Option (List S × NetworkThread S)
  update_all [] t = some ([], t)
  update_all (sock ∷ socks) t = do
    (gone, sock', t') ← update_socket sock t
    (kept, t'') ← update_all socks t'
    some ((if gone then kept else sock' ∷ kept), t'')

  -- `Update`, its timer aside.
  unfoldable pub update : NetworkThread S → Option (NetworkThread S)
  update t =
      let admitted = add_new_sockets t in
      if t.stopped then some t else (do
        (kept, t') ← update_all admitted.sockets admitted
        some (record t' { sockets = kept }))
