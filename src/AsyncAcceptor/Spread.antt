-- ===== src/AsyncAcceptor/Spread.antt =====
-- The numbers of connections of the threads.
use warhead_fix.Base.{
  ℕ, zero, suc, ◌+◌, ◌^◌, ◌≤◌, ◌<◌, ◌≡◌, refl, ap, subst, ◌∙◌, some, List, [], ◌∷◌, arith, ltb,
  if◌then◌else◌, length,
}
use warhead_fix.Base.Options
use warhead_fix.Base.Options.{◌>>=◌}
use warhead_fix.NetworkThread.{NetworkThread, add_one, add_socket}
use warhead_fix.SocketMgr.{thread_at, change_thread}
use warhead_fix.SocketMgr.Choice.{load}

module _ {S : Type 0} where
  -- The connections of all the threads, and of the threads with the most and the fewest.
  abbrev pub total : List (NetworkThread S) → ℕ
  total [] = 0
  total (t ∷ ts) = t.connections + total ts

  abbrev pub most : List (NetworkThread S) → ℕ
  most [] = 0
  most (t ∷ ts) = if ltb (most ts) t.connections then t.connections else most ts

  abbrev pub fewest : NetworkThread S → List (NetworkThread S) → ℕ
  fewest t [] = t.connections
  fewest t (u ∷ ts) = if ltb t.connections (fewest u ts) then t.connections else fewest u ts

  -- Every thread has `least` connections or one more.
  abbrev pub Within : ℕ → List (NetworkThread S) → Type 0
  Within least [] = Unit {0}
  Within least (t ∷ ts) = (least ≤ t.connections) × (t.connections ≤ least + 1) × Within least ts

  pub thread_at-total :
      (ts : List (NetworkThread S)) (i : ℕ) (t : NetworkThread S)
      → thread_at ts i ≡ some t
      → t.connections ≤ total ts
  unfolding thread_at
  thread_at-total [] i t e = absurd (ground (arith, e))
  thread_at-total (u ∷ ts) zero t e =
      let same : u ≡ t = cc in
      let as_many = ap (λ (v : NetworkThread S). v.connections) same in omega arith
  thread_at-total (u ∷ ts) (suc i) t e = let rest = thread_at-total ts i t e in omega arith

  pub thread_at-Within :
      (least : ℕ) (ts : List (NetworkThread S)) (i : ℕ) (t : NetworkThread S)
      → thread_at ts i ≡ some t
      → Within least ts
      → (least ≤ t.connections) × (t.connections ≤ least + 1)
  unfolding thread_at
  thread_at-Within least [] i t e w = absurd (ground (arith, e))
  thread_at-Within least (u ∷ ts) zero t e (a, b, w) =
      let same : u ≡ t = cc in
      subst (λ (v : NetworkThread S). (least ≤ v.connections) × (v.connections ≤ least + 1)) same
        (a, b)
  thread_at-Within least (u ∷ ts) (suc i) t e (a, b, w) = thread_at-Within least ts i t e w

  -- The counters are too small to wrap.
  pub load_order :
      (t u : NetworkThread S) (k : ℕ)
      → load t ≤ load u
      → t.connections ≤ k
      → u.connections ≤ k
      → k < 2 ^ 31
      → t.connections ≤ u.connections
  load_order t u k h a b small = omega arith

  pub Within-raise :
      (low least : ℕ) (ts : List (NetworkThread S))
      → low ≤ least
      → ((i : ℕ) (t : NetworkThread S) → thread_at ts i ≡ some t → least ≤ t.connections)
      → Within low ts
      → Within least ts
  unfolding thread_at
  Within-raise low least [] h below w = tt
  Within-raise low least (t ∷ ts) h below (a, b, w) =
      (below 0 t refl, omega arith, Within-raise low least ts h (λ i u e. below (suc i) u e) w)

  -- One more connection, on a thread with the fewest.
  pub add_socket-Within :
      (sock : S) (i least : ℕ) (ts : List (NetworkThread S)) (t : NetworkThread S)
      → thread_at ts i ≡ some t
      → t.connections ≡ least
      → total ts + 1 < 2 ^ 32
      → Within least ts
      → (ts' : List (NetworkThread S)) × (change_thread (add_socket sock) i ts ≡ some ts')
        × (length ts' ≡ length ts)
        × (total ts' ≡ total ts + 1)
        × Within least ts'
  unfolding thread_at change_thread add_socket
  add_socket-Within sock i least [] t e l h w = absurd (ground (arith, e))
  add_socket-Within sock zero least (u ∷ ts) t e l h (a, b, w) =
      let same : u ≡ t = cc in
      let as_many : u.connections ≡ least = ap (λ (v : NetworkThread S). v.connections) same ∙ l in
      let one_more : add_one u.connections ≡ u.connections + 1 = omega (arith, h) in
      (
        add_socket sock u ∷ ts,
        refl,
        refl,
        omega (arith, one_more),
        (omega (arith, one_more), omega (arith, one_more), w),
      )
  add_socket-Within sock (suc i) least (u ∷ ts) t e l h (a, b, w) =
      let (ts', e', size, more, w') = add_socket-Within sock i least ts t e l (omega arith) w in
      (u ∷ ts', rw (e', Options.◌>>=◌) refl, ap suc size, omega arith, (a, b, w'))

  spread :
      (least : ℕ) (t : NetworkThread S) (ts : List (NetworkThread S))
      → Within least (t ∷ ts)
      → (most (t ∷ ts) ≤ least + 1) × (least ≤ fewest t ts)
  spread least t [] (a, b, w) = (ground arith, a)
  spread least t (u ∷ ts) (a, b, w) =
      let (high, low) = spread least u ts w in (ground (arith, high), ground (arith, low))

  pub idle-Within : (ts : List (NetworkThread S)) → total ts ≡ 0 → Within 0 ts
  idle-Within [] e = tt
  idle-Within (t ∷ ts) e = (omega arith, omega arith, idle-Within ts (omega arith))

  pub all_spread :
      (least : ℕ) (ts : List (NetworkThread S))
      → 0 < length ts
      → Within least ts
      → (t : NetworkThread S) × (others : List (NetworkThread S)) × (ts ≡ t ∷ others)
        × (most ts ≤ fewest t others + 1)
  all_spread least [] h w = absurd (omega arith)
  all_spread least (t ∷ ts) h w =
      let (high, low) = spread least t ts w in (t, ts, refl, omega (arith, high, low))
  -- From the first accept of a manager whose threads have no connections, after any sequence of
  -- accepts that come back, with less than 2 ^ 31 sessions in all, the threads have together as
  -- many connections as there were sessions, and the thread with the most has at most one more than
  -- the thread with the fewest. The manager has at least one thread and all of them, and no
