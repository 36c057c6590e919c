-- ===== src/NetworkThread/History.antt =====
-- Any sequence of calls on a thread of NetworkThread.h, by the acceptor's thread and by itself, and of
-- changes of its sockets.
use warhead_fix.Base.{◌≡◌, refl, sym, subst, ◌∙◌, Bool, false, some, Option, List, length, arith}
use warhead_fix.NetworkThread.{SocketType, NetworkThread, create, stop, add_socket, update}
use warhead_fix.NetworkThread.Counting.{
  IsCounted, NoneOpen, NoneOpen-append, add_socket-IsCounted, update_counts,
}

-- `E` is what an update may find outside; each update of the thread finds its own.
module _ {S E : Type 0} (is_open : S → Bool) (close_socket : S → S)
    (update_in : E → S → Option (Bool × S)) where
  abbrev pub type_in : E → SocketType S
  type_in outside = record {
    is_open = is_open;
    update = update_in outside;
    close_socket = close_socket;
  }

  -- What the two threads do, in any order.
  pub data Run : NetworkThread S → NetworkThread S → Type 0 where
    done : (t : NetworkThread S) → Run t t
    adds : (k : S) (t u : NetworkThread S) → Run (add_socket k t) u → Run t u
    -- the callbacks of the sockets change them
    changes :
        (kept added : List S) (t u : NetworkThread S)
        → length kept ≡ length t.sockets
        → length added ≡ length t.new_sockets
        → Run (record t { sockets = kept; new_sockets = added }) u
        → Run t u
    stops : (t u : NetworkThread S) → Run (stop t) u → Run t u
    updates :
        (outside : E) (t t' u : NetworkThread S)
        → update (type_in outside) t ≡ some t'
        → Run t' u
        → Run t u

  pub record IsSound (t : NetworkThread S) : Type 0 where
    pub is_counted : IsCounted t
    pub removed_shut : NoneOpen is_open t.removed

  module _
      (updates_total : (outside : E) (k : S)
        → (alive : Bool) × (k' : S) × (update_in outside k ≡ some (alive, k')))
      (closes : (k : S) → is_open (close_socket k) ≡ false) where
    update-IsSound :
        (outside : E) (t t' : NetworkThread S)
        → IsSound t
        → update (type_in outside) t ≡ some t'
        → IsSound t'
    update-IsSound outside t t' s e =
        let (t0, gone, e0, c, r, h) =
          update_counts (type_in outside) (updates_total outside) closes t s.is_counted in
        let same : t0 ≡ t' = let both : some t0 ≡ some t' = sym e0 ∙ e in cc in
        subst IsSound same (record {
          is_counted = c;
          removed_shut =
              subst (NoneOpen is_open) (sym r)
                (NoneOpen-append is_open t.removed gone s.removed_shut h);
        })

    Run-IsSound : (t u : NetworkThread S) → IsSound t → Run t u → IsSound u
    unfolding add_socket stop
    Run-IsSound t u s (done t') = s
    Run-IsSound t u s (adds k t' u' r) =
        Run-IsSound (add_socket k t) u
          (record {
            is_counted = add_socket-IsCounted k t s.is_counted;
            removed_shut = s.removed_shut;
          })
          r
    Run-IsSound t u s (changes kept added t' u' same_kept same_added r) =
        Run-IsSound (record t { sockets = kept; new_sockets = added }) u
          (record {
            is_counted = record {
              counted = omega (arith, s.is_counted.counted, same_kept, same_added);
            };
            removed_shut = s.removed_shut;
          })
          r
    Run-IsSound t u s (stops t' u' r) =
        Run-IsSound (stop t) u
          (record {
            is_counted = record { counted = s.is_counted.counted };
            removed_shut = s.removed_shut;
          })
          r
    Run-IsSound t u s (updates outside t' t1 u' e r) =
        Run-IsSound t1 u (update-IsSound outside t t1 s e) r

    -- After any sequence of new sockets, stops and updates of a new thread, and of changes of its
    -- sockets by their callbacks, its connection count is the number of its sockets, new ones
    -- included, modulo 2 ^ 32, and no socket that it has given up was open when it was given up. An
    -- update of a socket must end, and CloseSocket must leave it not open.
    pub created-IsSound : (u : NetworkThread S) → Run create u → IsSound u
    unfolding create
    created-IsSound u r =
        Run-IsSound create u (record { is_counted = record { counted = refl }; removed_shut = tt })
          r
