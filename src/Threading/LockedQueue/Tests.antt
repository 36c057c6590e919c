-- ===== src/Threading/LockedQueue/Tests.antt =====
-- A queue of two items, while another thread adds a third.
use warhead_fix.Base.{◌≡◌, Bool, true, false, none, some, [], ◌∷◌}
use warhead_fix.Threading.LockedQueue.{LockedQueue, unlock, next, peek}
use warhead_fix.Threading.LockedQueue.Holding.{adds, perform, peek_holds}

peek_of_two :
    let q : LockedQueue Bool = record {
      locked = false;
      queue = true ∷ false ∷ [];
      canceled = false;
    } in
    (held : LockedQueue Bool) × (peek false q ≡ some (some true, held))
    × (perform (adds true) held ≡ none)
    × (next (unlock held) ≡ some (some true, record q { queue = false ∷ [] }))
peek_of_two = peek_holds true (false ∷ []) false (adds true)
