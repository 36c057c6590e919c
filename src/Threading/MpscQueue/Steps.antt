-- ===== src/Threading/MpscQueue/Steps.antt =====
-- The steps of `Enqueue`, and `Dequeue`, on the whole queue.
use warhead_fix.Base.{
  ℕ, ◌≡◌, refl, sym, ◌∙◌, inl, inr, Bool, true, false, ◌||◌, Option, none, some, List, [], ◌∷◌,
  ◌++◌, arith, ◌==◌, if◌then◌else◌, Bool-cases,
}
use warhead_fix.Base.Options
use warhead_fix.Threading.MpscQueue.{Node, MpscQueue, Link, set, exchange, link, take_next, dequeue}
use warhead_fix.Threading.MpscQueue.Chain.{NotIn, Chain, last, linked, broken, set_other, Chain-set}
use warhead_fix.Threading.MpscQueue.Links.{
  Pick, NotIn-append, exchange-Chain, link-Chain, gap_elsewhere,
}

-- Whether the link from the tail is still to be written.
abbrev pub is_blocked : ℕ → List Link → Bool
is_blocked tail [] = false
is_blocked tail (l ∷ ls) = tail == l.prev_head || is_blocked tail ls

abbrev pub first : {T : Type 0} → List T → Option T
first [] = none
first (x ∷ xs) = some x

abbrev pub rest : {T : Type 0} → List T → List T
rest [] = []
rest (x ∷ xs) = xs

module _ {T : Type 0} where
  not_blocked :
      {heap : ℕ → Option (Node T)} {n z p : ℕ} {ns : List ℕ} {xs : List T} {gaps : List Link}
      → NotIn p (n ∷ ns)
      → Chain heap n ns xs gaps z
      → is_blocked p gaps ≡ false
  not_blocked (o, os) (last h) = refl
  not_blocked (o, os) (linked h k d t) = not_blocked os t
  not_blocked {p} (o, os) (broken {n} h k d t) = ground (arith, o, not_blocked os t)

  -- Nothing is allocated but the nodes of the chain.
  abbrev pub NoOther : (heap : ℕ → Option (Node T)) → ℕ → List ℕ → Type 0
  NoOther heap n ns = (p : ℕ) → NotIn p (n ∷ ns) → heap p ≡ none

  -- The queue with the items `xs` and the gaps.
  pub data IsQueue (xs : List T) (gaps : List Link) (q : MpscQueue T) : Type 0 where
    is_queue :
        (ns : List ℕ)
        → Chain q.heap q.tail ns xs gaps q.head
        → NoOther q.heap q.tail ns
        → IsQueue xs gaps q

  NoOther-exchange :
      {heap : ℕ → Option (Node T)} {n : ℕ} (ns : List ℕ) (a : ℕ) (c : Option (Node T))
      → NoOther heap n ns
      → NoOther (set heap a c) n (ns ++ a ∷ [])
  NoOther-exchange {heap} ns a c free p h =
      set_other heap a p c (λ e. (NotIn-append ns h.1).1 (sym e))
      ∙ free p (h.0, (NotIn-append ns h.1).0)

  NoOther-link :
      {heap : ℕ → Option (Node T)} {n z : ℕ} {ns : List ℕ} {xs : List T} {gaps others : List Link}
      {l : Link} (c : Option (Node T))
      → Chain heap n ns xs gaps z
      → Pick l gaps others
      → NoOther heap n ns
      → NoOther (set heap l.prev_head c) n ns
  NoOther-link {heap} {l} c chain pick free p h =
      set_other heap l.prev_head p c (λ e. gap_elsewhere h chain pick (sym e)) ∙ free p h

  NoOther-dequeue :
      {heap : ℕ → Option (Node T)} {n m : ℕ} (ns : List ℕ)
      → NoOther heap n (m ∷ ns)
      → NoOther (set heap n none) m ns
  NoOther-dequeue {heap} {n} ns free p h = elim (Bool-cases (n == p)) [
    | inl same ↦ rw same refl
    | inr other ↦ rw other (free p ((λ e. absurd (ground (arith, e))), h))
  ]

  dequeue-Chain :
      {heap : ℕ → Option (Node T)} {n z : ℕ} {ns : List ℕ} {xs : List T} {gaps : List Link}
      → Chain heap n ns xs gaps z
      → NoOther heap n ns
      → (q' : MpscQueue T) × (dequeue (record { head = z; tail = n; heap = heap })
          ≡ some (if is_blocked n gaps then none else first xs, q'))
        × IsQueue (if is_blocked n gaps then xs else rest xs) gaps q'
  unfolding dequeue take_next
  dequeue-Chain {heap} (last {n} h) free = (
    record { head = n; tail = n; heap = heap },
    rw (h.found, Options.◌>>=◌, h.points) refl,
    is_queue [] (last h) free,
  )
  dequeue-Chain {heap} {z} (linked {n} {m} {ns = ns} h k d t) free = rw (not_blocked d t) (
    record { head = z; tail = m; heap = set heap n none },
    rw (h.found, Options.◌>>=◌, h.points, k.found, k.holds) refl,
    is_queue ns (Chain-set n none d t) (NoOther-dequeue ns free),
  )
  dequeue-Chain {heap} {z} (broken {n} {m} {ns = ns} h k d t) free =
      let same : (n == n) ≡ true = ground arith in
      rw same (
        record { head = z; tail = n; heap = heap },
        rw (h.found, Options.◌>>=◌, h.points) refl,
        is_queue (m ∷ ns) (broken h k d t) free,
      )

  pub dequeue-IsQueue :
      {xs : List T} {gaps : List Link} (q : MpscQueue T)
      → IsQueue xs gaps q
      → (q' : MpscQueue T) × (dequeue q
          ≡ some (if is_blocked q.tail gaps then none else first xs, q'))
        × IsQueue (if is_blocked q.tail gaps then xs else rest xs) gaps q'
  dequeue-IsQueue q (is_queue ns chain free) = dequeue-Chain chain free

  pub exchange-IsQueue :
      {xs : List T} {gaps : List Link} (node : ℕ) (x : T) (q : MpscQueue T)
      → q.heap node ≡ none
      → IsQueue xs gaps q
      → IsQueue (xs ++ x ∷ []) (gaps ++ (exchange node x q).0 ∷ []) (exchange node x q).1
  unfolding exchange
  exchange-IsQueue node x q unused (is_queue ns chain free) =
      is_queue (ns ++ node ∷ []) (exchange-Chain node x unused chain)
        (NoOther-exchange ns node _ free)

  pub link-IsQueue :
      {xs : List T} {gaps others : List Link} (l : Link) (q : MpscQueue T)
      → Pick l gaps others
      → IsQueue xs gaps q
      → (q' : MpscQueue T) × (link l q ≡ some q') × IsQueue xs others q'
  unfolding link
  link-IsQueue l q pick (is_queue ns chain free) =
      let (c, found, chain') = link-Chain chain pick in
      (
        record q { heap = set q.heap l.prev_head (some (record c { next = some l.node })) },
        rw (found, Options.◌>>=◌) refl,
        is_queue ns chain' (NoOther-link _ chain pick free),
      )
