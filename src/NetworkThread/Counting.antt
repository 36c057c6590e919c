-- ===== src/NetworkThread/Counting.antt =====
-- The counter `_connections` of NetworkThread.h, which its acceptor's thread and its own both change,
-- and the sockets that are given up.
use warhead_fix.Base.{
  ℕ, suc, ◌+◌, ◌%◌, ◌^◌, ◌≡◌, refl, sym, ap, subst, ◌∙◌, inl, inr, Bool, true, false, some, List,
  [], ◌∷◌, ◌++◌, append-nil, append_assoc, arith, ◌==◌, if◌then◌else◌, Bool-cases, length,
  length-append,
}
use warhead_fix.Base.Options
use warhead_fix.NetworkThread.{
  SocketType, NetworkThread, sub_one, add_socket, admit, admit_all, add_new_sockets, update_socket,
  update_all, update,
}

-- The counter says how many sockets there are, modulo 2 ^ 32.
pub record IsCounted {S : Type 0} (t : NetworkThread S) : Type 0 where
  pub counted : t.connections ≡ (length t.new_sockets + length t.sockets) % 2 ^ 32

pub add_socket-IsCounted :
    {S : Type 0} (k : S) (t : NetworkThread S) → IsCounted t → IsCounted (add_socket k t)
unfolding add_socket
add_socket-IsCounted k t c = record {
  counted = omega (arith, c.counted, length-append t.new_sockets (k ∷ []));
}

-- None of the sockets is open: each was closed, or at least marked for closing.
abbrev pub NoneOpen : {S : Type 0} → (S → Bool) → List S → Type 0
NoneOpen is_open [] = Unit
NoneOpen is_open (k ∷ ks) = (is_open k ≡ false) × NoneOpen is_open ks

pub NoneOpen-append :
    {S : Type 0} (is_open : S → Bool) (xs ys : List S)
    → NoneOpen is_open xs
    → NoneOpen is_open ys
    → NoneOpen is_open (xs ++ ys)
NoneOpen-append is_open [] ys hx hy = hy
NoneOpen-append is_open (x ∷ xs) ys (h, hx) hy = (h, NoneOpen-append is_open xs ys hx hy)

module _ {S : Type 0} (type : SocketType S) where
  open type use {is_open, close_socket}

  -- What a step of the thread does: it gives up sockets that are not open, and `k` is what it leaves to count.
  record Goes (t t' : NetworkThread S) (left : ℕ) : Type 0 where
    gone : List S
    gone_eq : t'.removed ≡ t.removed ++ gone
    none_open : NoneOpen is_open gone
    counted : t'.connections ≡ left % 2 ^ 32
    same_stopped : t'.stopped ≡ t.stopped
    same_new : t'.new_sockets ≡ t.new_sockets

  stays : (t : NetworkThread S) (left : ℕ) → t.connections ≡ left % 2 ^ 32 → Goes t t left
  stays t left c = record {
    gone = [];
    gone_eq = sym (append-nil t.removed);
    none_open = tt;
    counted = c;
    same_stopped = refl;
    same_new = refl;
  }

  Goes-trans : {t t' t'' : NetworkThread S} {m n : ℕ} → Goes t t' m → Goes t' t'' n → Goes t t'' n
  Goes-trans {t} g h = record {
    gone = g.gone ++ h.gone;
    gone_eq = h.gone_eq ∙ ap (λ r. r ++ h.gone) g.gone_eq ∙ append_assoc t.removed g.gone h.gone;
    none_open = NoneOpen-append is_open g.gone h.gone g.none_open h.none_open;
    counted = h.counted;
    same_stopped = h.same_stopped ∙ g.same_stopped;
    same_new = h.same_new ∙ g.same_new;
  }

  admit_step :
      (sock : S) (t : NetworkThread S) (n : ℕ)
      → t.connections ≡ (suc n + length t.sockets) % 2 ^ 32
      → Goes t (admit type sock t) (n + length (admit type sock t).sockets)
  unfolding admit
  admit_step sock t n c = elim (Bool-cases (is_open sock)) [
    | inl o ↦ rw o (record {
      gone = [];
      gone_eq = sym (append-nil t.removed);
      none_open = tt;
      counted = omega (arith, c, length-append t.sockets (sock ∷ []));
      same_stopped = refl;
      same_new = refl;
    })
    | inr o ↦ rw o (record {
      gone = sock ∷ [];
      gone_eq = refl;
      none_open = (o, tt);
      counted = omega (arith, c);
      same_stopped = refl;
      same_new = refl;
    })
  ]

  admit_all-Goes :
      (socks : List S) (t : NetworkThread S)
      → t.connections ≡ (length socks + length t.sockets) % 2 ^ 32
      → Goes t (admit_all type socks t) (length (admit_all type socks t).sockets)
  unfolding admit_all
  admit_all-Goes [] t c = record {
    gone = [];
    gone_eq = sym (append-nil t.removed);
    none_open = tt;
    counted = omega (arith, c);
    same_stopped = refl;
    same_new = refl;
  }
  admit_all-Goes (sock ∷ socks) t c =
      let g = admit_step sock t (length socks) c in
      Goes-trans g (admit_all-Goes socks (admit type sock t) g.counted)

  module _ (updates : (k : S) → (alive : Bool) × (k' : S) × (type.update k ≡ some (alive, k')))
      (closes : (k : S) → is_open (close_socket k) ≡ false) where
    closed_off : (k : S) → is_open (if is_open k then close_socket k else k) ≡ false
    closed_off k = elim (Bool-cases (is_open k)) [
      | inl o ↦ rw o (closes k)
      | inr o ↦ rw (o, o) refl
    ]

    update_step :
        (k : S) (t : NetworkThread S) (n : ℕ)
        → t.connections ≡ suc n % 2 ^ 32
        → (gone : Bool) × (k' : S) × (t' : NetworkThread S) × (update_socket type k t
            ≡ some (gone, k', t'))
          × Goes t t' (if gone then n else suc n)
    unfolding update_socket
    update_step k t n c = by_alive (updates k).0 (updates k).1 (updates k).2
      where
        by_alive :
            (alive : Bool) (k' : S)
            → type.update k ≡ some (alive, k')
            → (gone : Bool) × (k'' : S) × (t' : NetworkThread S) × (update_socket type k t
                ≡ some (gone, k'', t'))
              × Goes t t' (if gone then n else suc n)
        by_alive true k' e = (
          false,
          k',
          t,
          rw e refl,
          record {
            gone = [];
            gone_eq = sym (append-nil t.removed);
            none_open = tt;
            counted = c;
            same_stopped = refl;
            same_new = refl;
          },
        )
        by_alive false k' e =
            let closed = if is_open k' then close_socket k' else k' in
            (
              true,
              closed,
              record t { connections = sub_one t.connections; removed = t.removed ++ closed ∷ [] },
              rw e refl,
              record {
                gone = closed ∷ [];
                gone_eq = refl;
                none_open = (closed_off k', tt);
                counted = omega (arith, c);
                same_stopped = refl;
                same_new = refl;
              },
            )

    -- What `update_all` makes of the sockets that are left.
    Rest : List S → Type 0
    Rest socks =
        (t : NetworkThread S) (n : ℕ)
        → t.connections ≡ (length socks + n) % 2 ^ 32
        → (kept : List S) × (t' : NetworkThread S) × (update_all type socks t ≡ some (kept, t'))
          × Goes t t' (length kept + n)

    by_gone :
        (k : S) (ks : List S) (t : NetworkThread S) (n : ℕ)
        → Rest ks
        → (gone : Bool) (k' : S) (t' : NetworkThread S)
        → update_socket type k t ≡ some (gone, k', t')
        → Goes t t' (if gone then length ks + n else suc (length ks + n))
        → (kept : List S) × (t'' : NetworkThread S) × (update_all type (k ∷ ks) t
            ≡ some (kept, t''))
          × Goes t t'' (length kept + n)
    unfolding Rest update_all
    by_gone k ks t n rest true k' t' e g =
        let (kept, t'', e', h) = rest t' n g.counted in
        (kept, t'', rw (e, Options.◌>>=◌, e') refl, Goes-trans g h)
    by_gone k ks t n rest false k' t' e g =
        let (kept, t'', e', h) = rest t' (suc n) (omega (arith, g.counted)) in
        let same : length kept + suc n ≡ length (k' ∷ kept) + n = omega arith in
        (k' ∷ kept, t'', rw (e, Options.◌>>=◌, e') refl, subst (Goes t t'') same (Goes-trans g h))

    update_all-Goes : (socks : List S) → Rest socks
    unfolding Rest update_all
    update_all-Goes [] t n c = ([], t, refl, stays t (0 + n) c)
    update_all-Goes (k ∷ ks) t n c =
        let (gone, k', t', e, g) = update_step k t (length ks + n) (omega (arith, c)) in
        by_gone k ks t n (update_all-Goes ks) gone k' t' e g

    record Admitted (t t' : NetworkThread S) : Type 0 where
      gone : List S
      gone_eq : t'.removed ≡ t.removed ++ gone
      none_open : NoneOpen is_open gone
      counted : t'.connections ≡ length t'.sockets % 2 ^ 32
      none_new : t'.new_sockets ≡ []

    no_element : (ks : List S) → (length ks == 0) ≡ true → ks ≡ []
    no_element [] h = refl
    no_element (k ∷ ks) h = absurd (ground arith)

    add_new_sockets_lem : (t : NetworkThread S) → IsCounted t → Admitted t (add_new_sockets type t)
    unfolding add_new_sockets
    add_new_sockets_lem t c = elim (Bool-cases (length t.new_sockets == 0)) [
      | inl empty ↦ rw empty (record {
        gone = [];
        gone_eq = sym (append-nil t.removed);
        none_open = tt;
        counted = omega (arith, c.counted, ap length (no_element t.new_sockets empty));
        none_new = no_element t.new_sockets empty;
      })
      | inr more ↦
          let g = admit_all-Goes t.new_sockets t c.counted in
          rw more (record {
            gone = g.gone;
            gone_eq = g.gone_eq;
            none_open = g.none_open;
            counted = g.counted;
            none_new = refl;
          })
    ]

    update_runs :
        (t : NetworkThread S)
        → t.stopped ≡ false
        → let admitted = add_new_sockets type t in
          update type t
          ≡ Options.◌>>=◌
              (update_all type admitted.sockets admitted)
              (λ r. some (record r.1 { sockets = r.0 }))
    unfolding update
    update_runs t runs =
        let admitted = add_new_sockets type t in
        ap
          (λ b.
            if b
            then some t
            else Options.◌>>=◌ (update_all type admitted.sockets admitted)
                (λ r. some (record r.1 { sockets = r.0 })))
          runs

    update_stopped : (t : NetworkThread S) → t.stopped ≡ true → update type t ≡ some t
    unfolding update
    update_stopped t stopped =
        let admitted = add_new_sockets type t in
        ap
          (λ b.
            if b
            then some t
            else Options.◌>>=◌ (update_all type admitted.sockets admitted)
                (λ r. some (record r.1 { sockets = r.0 })))
          stopped

    -- Update of a thread whose connection count is right ends with a right count, and no socket that
    -- it gives up is open. An update of a socket must end, and CloseSocket must leave it not open.
    pub update_counts :
        (t : NetworkThread S)
        → IsCounted t
        → (t' : NetworkThread S) × (gone : List S) × (update type t ≡ some t')
          × IsCounted t'
          × (t'.removed ≡ t.removed ++ gone)
          × NoneOpen is_open gone
    unfolding Rest
    update_counts t c = elim (Bool-cases t.stopped) [
      | inl stopped ↦ (t, [], update_stopped t stopped, c, sym (append-nil t.removed), tt)
      | inr runs ↦
          let a = add_new_sockets_lem t c in
          let t1 = add_new_sockets type t in
          let (kept, t', e, g) = update_all-Goes t1.sockets t1 0 (omega (arith, a.counted)) in
          (
            record t' { sockets = kept },
            a.gone ++ g.gone,
            update_runs t runs
                ∙ ap (λ o. Options.◌>>=◌ o (λ r. some (record r.1 { sockets = r.0 }))) e,
            record { counted = omega (arith, g.counted, ap length (g.same_new ∙ a.none_new)) },
            g.gone_eq ∙ ap (λ r. r ++ g.gone) a.gone_eq ∙ append_assoc t.removed a.gone g.gone,
            NoneOpen-append is_open a.gone g.gone a.none_open g.none_open,
          )
    ]
