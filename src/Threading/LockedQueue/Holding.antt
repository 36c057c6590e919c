-- ===== src/Threading/LockedQueue/Holding.antt =====
-- Who holds the mutex of a queue of LockedQueue.h, and what the other calls do meanwhile.
use warhead_fix.Base.{◌≡◌, refl, Bool, true, false, Option, none, some, List, ◌∷◌}
use warhead_fix.Threading.LockedQueue.{
  LockedQueue, lock, unlock, add, readd, next_checked, next, peek, cancel, cancelled, pop_front,
  is_empty,
}

-- The calls that take the mutex.
pub data Call (T : Type 0) : Type 0 where
  locks : Call T
  adds : T → Call T
  readds : List T → Call T
  nexts : Call T
  nexts_checked : (T → Bool) → Call T
  peeks : Bool → Call T
  cancels : Call T
  asks_cancelled : Call T
  pops : Call T
  asks_empty : Call T

module _ {T : Type 0} where
  second : {U : Type 0} → Option (U × LockedQueue T) → Option (LockedQueue T)
  second none = none
  second (some p) = some p.1

  -- The queue after a call; `none` if the call waits.
  unfoldable pub perform : Call T → LockedQueue T → Option (LockedQueue T)
  unfolding second
  perform locks q = lock q
  perform (adds item) q = add item q
  perform (readds items) q = readd items q
  perform nexts q = second (next q)
  perform (nexts_checked check) q = second (next_checked check q)
  perform (peeks auto_unlock) q = second (peek auto_unlock q)
  perform cancels q = cancel q
  perform asks_cancelled q = second (cancelled q)
  perform pops q = pop_front q
  perform asks_empty q = second (is_empty q)

  perform_locked :
      (call : Call T) (queue : List T) (canceled : Bool)
      → perform call (record { locked = true; queue = queue; canceled = canceled }) ≡ none
  unfolding perform lock add readd next next_checked peek cancel cancelled pop_front is_empty
  perform_locked locks queue canceled = refl
  perform_locked (adds item) queue canceled = refl
  perform_locked (readds items) queue canceled = refl
  perform_locked nexts queue canceled = refl
  perform_locked (nexts_checked check) queue canceled = refl
  perform_locked (peeks auto_unlock) queue canceled = refl
  perform_locked cancels queue canceled = refl
  perform_locked asks_cancelled queue canceled = refl
  perform_locked pops queue canceled = refl
  perform_locked asks_empty queue canceled = refl

  -- After `peek` that keeps the mutex, every call waits until it is unlocked, and then the item that was
  -- peeked at is the next one.
  pub peek_holds :
      (front : T) (behind : List T) (canceled : Bool) (call : Call T)
      → let q : LockedQueue T = record {
        locked = false;
        queue = front ∷ behind;
        canceled = canceled;
      } in
        (held : LockedQueue T) × (peek false q ≡ some (some front, held))
        × (perform call held ≡ none)
        × (next (unlock held) ≡ some (some front, record q { queue = behind }))
  unfolding peek lock next unlock
  peek_holds front behind canceled call = (
    record { locked = true; queue = front ∷ behind; canceled = canceled },
    refl,
    perform_locked call (front ∷ behind) canceled,
    refl,
  )
