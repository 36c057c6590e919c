-- ===== src/Threading/IntrusiveQueue/Nodes.antt =====
-- The nodes from the tail to the head, with the links that are still to be written.
use warhead_fix.Base.{ℕ, ◌≡◌, refl, sym, ◌∙◌, ◌≢◌, Option, none, some, List, [], ◌∷◌, ◌++◌}
use warhead_fix.Threading.MpscQueue.{Link, set}
use warhead_fix.Threading.MpscQueue.Chain.{NotIn, set_other, set_same}
use warhead_fix.Threading.MpscQueue.Links.{Pick, here, there, NotIn-concat}

-- `Nodes links n ns gaps z`: the nodes `n` and `ns` are distinct, the last one is `z`, and each points
-- to the next one, except where the link is one of `gaps`.
pub data Nodes (links : ℕ → Option (Option ℕ)) : ℕ → List ℕ → List Link → ℕ → Type 0 where
  last : {n : ℕ} → links n ≡ some none → Nodes links n [] [] n
  linked :
      {n m z : ℕ} {ns : List ℕ} {gaps : List Link}
      → links n ≡ some (some m)
      → NotIn n (m ∷ ns)
      → Nodes links m ns gaps z
      → Nodes links n (m ∷ ns) gaps z
  broken :
      {n m z : ℕ} {ns : List ℕ} {gaps : List Link}
      → links n ≡ some none
      → NotIn n (m ∷ ns)
      → Nodes links m ns gaps z
      → Nodes links n (m ∷ ns) (record { prev_head = n; node = m } ∷ gaps) z

-- A write elsewhere changes nothing.
pub Nodes-set :
    {links : ℕ → Option (Option ℕ)} {n z : ℕ} {ns : List ℕ} {gaps : List Link} (p : ℕ)
    (c : Option (Option ℕ))
    → NotIn p (n ∷ ns)
    → Nodes links n ns gaps z
    → Nodes (set links p c) n ns gaps z
Nodes-set {links} {n} p c (o, os) (last h) = last (set_other links p n c o ∙ h)
Nodes-set {links} {n} p c (o, os) (linked h d t) =
    linked (set_other links p n c o ∙ h) d (Nodes-set p c os t)
Nodes-set {links} {n} p c (o, os) (broken h d t) =
    broken (set_other links p n c o ∙ h) d (Nodes-set p c os t)

-- The first node can be read.
pub first_alive :
    {links : ℕ → Option (Option ℕ)} {n z : ℕ} {ns : List ℕ} {gaps : List Link}
    → Nodes links n ns gaps z
    → (next : Option ℕ) × (links n ≡ some next)
first_alive (last h) = (none, h)
first_alive (linked {m} h d t) = (some m, h)
first_alive (broken h d t) = (none, h)

-- The exchange puts a node behind the last one, and leaves a gap before it.
pub exchange-Nodes :
    {links : ℕ → Option (Option ℕ)} {n z : ℕ} {ns : List ℕ} {gaps : List Link} (a : ℕ)
    → NotIn a (n ∷ ns)
    → Nodes links n ns gaps z
    → Nodes
        (set links a (some none))
        n
        (ns ++ a ∷ [])
        (gaps ++ record { prev_head = z; node = a } ∷ [])
        a
exchange-Nodes {links} {n} a (o, os) (last h) =
    broken (set_other links a n _ o ∙ h) ((λ e. o (sym e)), tt) (last (set_same links a _))
exchange-Nodes {links} {n} a (o, os) (linked {ns = ns} h d t) =
    linked (set_other links a n _ o ∙ h) (d.0, NotIn-concat ns d.1 (λ e. o (sym e)))
      (exchange-Nodes a os t)
exchange-Nodes {links} {n} a (o, os) (broken {ns = ns} h d t) =
    broken (set_other links a n _ o ∙ h) (d.0, NotIn-concat ns d.1 (λ e. o (sym e)))
      (exchange-Nodes a os t)

-- The node before a gap is one of the nodes.
pub gap_elsewhere :
    {links : ℕ → Option (Option ℕ)} {n z p : ℕ} {ns : List ℕ} {gaps others : List Link} {l : Link}
    → NotIn p (n ∷ ns)
    → Nodes links n ns gaps z
    → Pick l gaps others
    → p ≢ l.prev_head
gap_elsewhere (o, os) (last h) pick = elim pick [ ]
gap_elsewhere (o, os) (linked h d t) pick = gap_elsewhere os t pick
gap_elsewhere (o, os) (broken h d t) here = o
gap_elsewhere (o, os) (broken h d t) (there pick) = gap_elsewhere os t pick

-- The link closes its gap, whichever it is.
pub link-Nodes :
    {links : ℕ → Option (Option ℕ)} {n z : ℕ} {ns : List ℕ} {gaps others : List Link} {l : Link}
    → Nodes links n ns gaps z
    → Pick l gaps others
    → (links l.prev_head ≡ some none)
      × Nodes (set links l.prev_head (some (some l.node))) n ns others z
link-Nodes (last h) pick = elim pick [ ]
link-Nodes {links} {n} {l} (linked h d t) pick =
    let (found, t') = link-Nodes t pick in
    let away = gap_elsewhere d t pick in
    (found, linked (set_other links l.prev_head n _ (λ e. away (sym e)) ∙ h) d t')
link-Nodes {links} {n} (broken {m} h d t) here =
    (h, linked (set_same links n _) d (Nodes-set n _ d t))
link-Nodes {links} {n} {l} (broken h d t) (there pick) =
    let (found, t') = link-Nodes t pick in
    let away = gap_elsewhere d t pick in
    (found, broken (set_other links l.prev_head n _ (λ e. away (sym e)) ∙ h) d t')

-- The head is one of the nodes.
pub head_elsewhere :
    {links : ℕ → Option (Option ℕ)} {n z p : ℕ} {ns : List ℕ} {gaps : List Link}
    → NotIn p (n ∷ ns)
    → Nodes links n ns gaps z
    → p ≢ z
head_elsewhere (o, os) (last h) = o
head_elsewhere (o, os) (linked h d t) = head_elsewhere os t
head_elsewhere (o, os) (broken h d t) = head_elsewhere os t

-- Where the tail is the head, no other node follows.
pub only_node :
    {links : ℕ → Option (Option ℕ)} {n z : ℕ} {ns : List ℕ} {gaps : List Link}
    → n ≡ z
    → Nodes links n ns gaps z
    → ns ≡ []
only_node e (last h) = refl
only_node e (linked h d t) = absurd (head_elsewhere d t e)
only_node e (broken h d t) = absurd (head_elsewhere d t e)
