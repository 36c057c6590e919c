-- ===== src/Threading/LockedQueue.antt =====
-- common/Threading/LockedQueue.h: a queue under a mutex. `none` is a thread that waits for the mutex.
pub mod Holding
mod Tests
use warhead_fix.Base.{
  ℕ, zero, suc, ◌+◌, ◌-◌, ◌*◌, ◌/◌, ◌%◌, ◌^◌, ◌≤◌, ◌<◌, min, ◌≡◌, refl, sym, ap, ap₂, subst, ◌∙◌,
  ◌≢◌, ◌↔◌, ◌⊎◌, inl, inr, Bool, true, false, not, ◌&&◌, ◌||◌, Option, none, some, List, [], ◌∷◌,
  ◌++◌, append-nil, append_assoc, arith, ltb, leb, ◌==◌, if◌then◌else◌, ltb→lt, lt→ltb, le→not-ltb,
  leb→le, le→leb, lt→not-leb, ==_iff, Bool-cases, Option-cases, length, take, drop, replicate,
  length-append, length-take, length-drop, length-replicate, take-append-drop, take-append,
  drop-append, take-append_le, drop-append_le, take_all, take-take, drop-drop, drop-take, drop_all,
  take-splice, drop-splice, take-drop-splice, drop_behind-splice, size_mod, add_size, sub_size,
  resize, copy_out, splice, copy_in, length-resize, length-splice, copy_out-some, copy_in-some,
}
use warhead_fix.Base.Options.{◌>>=◌}

pub record LockedQueue (T : Type 0) : Type 0 where
  pub locked : Bool
  pub queue : List T
  pub canceled : Bool

module _ {T : Type 0} where
  unfoldable pub create : LockedQueue T
  create = record { locked = false; queue = []; canceled = false }

  unfoldable pub lock : LockedQueue T → Option (LockedQueue T)
  lock q = if q.locked then none else some (record q { locked = true })

  unfoldable pub unlock : LockedQueue T → LockedQueue T
  unlock q = record q { locked = false }

  unfoldable pub add : T → LockedQueue T → Option (LockedQueue T)
  add item q = do held ← lock q; some (unlock (record held { queue = held.queue ++ item ∷ [] }))

  unfoldable pub readd : List T → LockedQueue T → Option (LockedQueue T)
  readd items q = do held ← lock q; some (unlock (record held { queue = items ++ held.queue }))

  -- `next(T& result, Checker& check)`: the result if it returns true.
  unfoldable pub next_checked : (T → Bool) → LockedQueue T → Option (Option T × LockedQueue T)
  next_checked check q = do
    held ← lock q
    some (elim held.queue [
      | [] ↦ (none, unlock held)
      | front ∷ behind ↦
          if check front
          then (some front, unlock (record held { queue = behind }))
          else (none, unlock held)
    ])

  -- `next(T& result)`
  unfoldable pub next : LockedQueue T → Option (Option T × LockedQueue T)
  next q = do
    held ← lock q
    some (elim held.queue [
      | [] ↦ (none, unlock held)
      | front ∷ behind ↦ (some front, unlock (record held { queue = behind }))
    ])

  -- `peek`: the inner `none` is the front of an empty queue, which is undefined.
  unfoldable pub peek : (auto_unlock : Bool) → LockedQueue T → Option (Option T × LockedQueue T)
  peek auto_unlock q = do
    held ← lock q
    some (
      elim held.queue [ [] ↦ none | front ∷ behind ↦ some front ],
      if auto_unlock then unlock held else held,
    )

  unfoldable pub cancel : LockedQueue T → Option (LockedQueue T)
  cancel q = do held ← lock q; some (unlock (record held { canceled = true }))

  unfoldable pub cancelled : LockedQueue T → Option (Bool × LockedQueue T)
  cancelled q = do held ← lock q; some (held.canceled, unlock held)

  -- `pop_front`; `none` is also the removal from an empty queue, which is undefined.
  unfoldable pub pop_front : LockedQueue T → Option (LockedQueue T)
  pop_front q = do
    held ← lock q
    elim held.queue [ [] ↦ none | front ∷ behind ↦ some (unlock (record held { queue = behind })) ]

  unfoldable pub is_empty : LockedQueue T → Option (Bool × LockedQueue T)
  is_empty q = do held ← lock q; some (length held.queue == 0, unlock held)
