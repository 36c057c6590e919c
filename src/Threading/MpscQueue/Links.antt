-- ===== src/Threading/MpscQueue/Links.antt =====
-- The two steps of `Enqueue` on the chain of nodes.
use warhead_fix.Base.{
  ℕ, ◌≡◌, refl, sym, ap, ◌∙◌, ◌≢◌, inl, inr, Option, none, some, List, [], ◌∷◌, ◌++◌, arith, ◌==◌,
  Bool-cases,
}
use warhead_fix.Threading.MpscQueue.{Node, Link, set}
use warhead_fix.Threading.MpscQueue.Chain.{
  NotIn, Holds, Points, Chain, last, linked, broken, set_same, Points-set, Holds-set, Chain-set,
}

-- `Pick x xs ys`: `ys` is `xs` without one element `x`, the others in their order.
pub data Pick {A : Type 0} : A → List A → List A → Type 0 where
  here : {x : A} {xs : List A} → Pick x (x ∷ xs) xs
  there : {x y : A} {xs ys : List A} → Pick x xs ys → Pick x (y ∷ xs) (y ∷ ys)

pub NotIn-concat : {p a : ℕ} (ns : List ℕ) → NotIn p ns → p ≢ a → NotIn p (ns ++ a ∷ [])
NotIn-concat [] h d = (d, tt)
NotIn-concat (n ∷ ns) (e, h) d = (e, NotIn-concat ns h d)

pub NotIn-append : {p a : ℕ} (ns : List ℕ) → NotIn p (ns ++ a ∷ []) → NotIn p ns × (p ≢ a)
NotIn-append [] h = (tt, h.0)
NotIn-append (n ∷ ns) (e, h) = let (k, d) = NotIn-append ns h in ((e, k), d)

module _ {T : Type 0} where
  is_free :
      {heap : ℕ → Option (Node T)} {p n : ℕ} {next : Option ℕ}
      → heap p ≡ none
      → Points heap n next
      → p ≢ n
  is_free {heap} free h e = let bad : none ≡ some h.cell = sym free ∙ ap heap e ∙ h.found in cc

  Holds-elsewhere :
      {heap : ℕ → Option (Node T)} {p m : ℕ} {x : T} → heap p ≡ none → Holds heap m x → p ≢ m
  Holds-elsewhere {heap} free k e =
      let bad : none ≡ some k.cell = sym free ∙ ap heap e ∙ k.found in cc

  -- The exchange puts a node behind the last one, and leaves a gap before it.
  pub exchange-Chain :
      {heap : ℕ → Option (Node T)} {n z : ℕ} {ns : List ℕ} {xs : List T} {gaps : List Link} (a : ℕ)
      (x : T)
      → heap a ≡ none
      → Chain heap n ns xs gaps z
      → Chain
          (set heap a (some (record { payload = some x; next = none })))
          n
          (ns ++ a ∷ [])
          (xs ++ x ∷ [])
          (gaps ++ record { prev_head = z; node = a } ∷ [])
          a
  exchange-Chain {heap} {n} a x free (last h) =
      broken (Points-set a (some (record { payload = some x; next = none })) (is_free free h) h)
        (record {
          cell = record { payload = some x; next = none };
          found = set_same heap a _;
          holds = refl;
        })
        ((λ e. is_free free h (sym e)), tt)
        (last (record {
          cell = record { payload = some x; next = none };
          found = set_same heap a _;
          points = refl;
        }))
  exchange-Chain a x free (linked {ns = ns} h k d t) =
      linked (Points-set a _ (is_free free h) h) (Holds-set a _ (Holds-elsewhere free k) k)
        (d.0, NotIn-concat ns d.1 (λ e. is_free free h (sym e))) (exchange-Chain a x free t)
  exchange-Chain a x free (broken {ns = ns} h k d t) =
      broken (Points-set a _ (is_free free h) h) (Holds-set a _ (Holds-elsewhere free k) k)
        (d.0, NotIn-concat ns d.1 (λ e. is_free free h (sym e))) (exchange-Chain a x free t)

  -- The node before a gap is one of the chain.
  pub gap_elsewhere :
      {heap : ℕ → Option (Node T)} {n z p : ℕ} {ns : List ℕ} {xs : List T} {gaps others : List Link}
      {l : Link}
      → NotIn p (n ∷ ns)
      → Chain heap n ns xs gaps z
      → Pick l gaps others
      → p ≢ l.prev_head
  gap_elsewhere (o, os) (last h) pick = elim pick [ ]
  gap_elsewhere (o, os) (linked h k d t) pick = gap_elsewhere os t pick
  gap_elsewhere (o, os) (broken h k d t) here = o
  gap_elsewhere (o, os) (broken h k d t) (there pick) = gap_elsewhere os t pick

  Holds-link :
      {heap : ℕ → Option (Node T)} {m : ℕ} {x : T} (p q : ℕ) (c : Node T)
      → heap p ≡ some c
      → Holds heap m x
      → Holds (set heap p (some (record c { next = some q }))) m x
  Holds-link {heap} {m} p q c found k = elim (Bool-cases (p == m)) [
    | inr other ↦ Holds-set p _ (λ e. absurd (ground (arith, e))) k
    | inl same ↦ record {
      cell = record c { next = some q };
      found = rw same refl;
      holds =
          let e : p ≡ m = ground arith in
          let cells : some c ≡ some k.cell = sym found ∙ ap heap e ∙ k.found in
          let eq : c ≡ k.cell = cc in ap (λ (d : Node T). d.payload) eq ∙ k.holds;
    }
  ]

  -- The link closes its gap, whichever it is.
  pub link-Chain :
      {heap : ℕ → Option (Node T)} {n z : ℕ} {ns : List ℕ} {xs : List T} {gaps others : List Link}
      {l : Link}
      → Chain heap n ns xs gaps z
      → Pick l gaps others
      → (c : Node T) × (heap l.prev_head ≡ some c)
        × Chain (set heap l.prev_head (some (record c { next = some l.node }))) n ns xs others z
  link-Chain (last h) pick = elim pick [ ]
  link-Chain {l} (linked h k d t) pick =
      let (c, found, t') = link-Chain t pick in
      let away = gap_elsewhere d t pick in
      (
        c,
        found,
        linked (Points-set l.prev_head _ (λ e. away (sym e)) h)
            (Holds-link l.prev_head l.node c found k) d t',
      )
  link-Chain {heap} (broken {n} {m} h k d t) here = (
    h.cell,
    h.found,
    linked
        (record {
          cell = record h.cell { next = some m };
          found = set_same heap n _;
          points = refl;
        })
        (Holds-set n _ d.0 k) d (Chain-set n _ d t),
  )
  link-Chain {l} (broken h k d t) (there pick) =
      let (c, found, t') = link-Chain t pick in
      let away = gap_elsewhere d t pick in
      (
        c,
        found,
        broken (Points-set l.prev_head _ (λ e. away (sym e)) h)
            (Holds-link l.prev_head l.node c found k) d t',
      )
