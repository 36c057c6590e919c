-- ===== src/Threading/IntrusiveQueue/Pending.antt =====
-- What holds of the queue while producers and the consumer are between their steps.
use warhead_fix.Base.{
  ℕ, ◌≡◌, ap, ◌≢◌, inl, inr, Option, none, some, List, [], ◌∷◌, ◌++◌, arith, ◌==◌, if◌then◌else◌,
  Bool-cases,
}
use warhead_fix.Threading.MpscQueue.{Link}
use warhead_fix.Threading.MpscQueue.Chain.{NotIn}
use warhead_fix.Threading.MpscQueue.Links.{Pick, here, there}
use warhead_fix.Threading.IntrusiveQueue.{
  IntrusiveQueue, Consumer, begins, behind_dummy, at_end, enters, joins, looks_again,
}
use warhead_fix.Threading.IntrusiveQueue.Nodes.{Nodes}

-- The nodes that are items.
abbrev pub without : ℕ → List ℕ → List ℕ
without dummy [] = []
without dummy (n ∷ ns) = if n == dummy then without dummy ns else n ∷ without dummy ns

pub without-concat :
    (dummy a : ℕ) (ns : List ℕ)
    → a ≢ dummy
    → without dummy (ns ++ a ∷ []) ≡ without dummy ns ++ a ∷ []
without-concat dummy a [] other = ground arith
without-concat dummy a (n ∷ ns) other = elim (Bool-cases (n == dummy)) [
  | inl same ↦ rw same (without-concat dummy a ns other)
  | inr away ↦ rw away (ap (λ l. n ∷ l) (without-concat dummy a ns other))
]

pub without-dummy : (dummy : ℕ) (ns : List ℕ) → without dummy (ns ++ dummy ∷ []) ≡ without dummy ns
without-dummy dummy [] = ground arith
without-dummy dummy (n ∷ ns) = elim (Bool-cases (n == dummy)) [
  | inl same ↦ rw same (without-dummy dummy ns)
  | inr away ↦ rw away (ap (λ l. n ∷ l) (without-dummy dummy ns))
]

pub without-item :
    (dummy n : ℕ) (ns : List ℕ) → n ≢ dummy → without dummy (n ∷ ns) ≡ n ∷ without dummy ns
without-item dummy n ns other = ground arith

pub without-first :
    (dummy n : ℕ) (ns : List ℕ) → n ≡ dummy → without dummy (n ∷ ns) ≡ without dummy ns
without-first dummy n ns same = ground arith

-- The links that are still to be written, `all`, are those of the producers, `gaps`, and that of the
-- consumer, if it is before it. What it read of the tail still holds.
abbrev pub AtPoint : ℕ → ℕ → List ℕ → List Link → List Link → Option Consumer → Type 0
AtPoint dummy tail ns all gaps none = all ≡ gaps
AtPoint dummy tail ns all gaps (some begins) = all ≡ gaps
AtPoint dummy tail ns all gaps (some (behind_dummy t)) = (t ≡ tail) × (t ≢ dummy) × (all ≡ gaps)
AtPoint dummy tail ns all gaps (some (at_end t)) = (t ≡ tail) × (t ≢ dummy) × (all ≡ gaps)
AtPoint dummy tail ns all gaps (some (enters t)) =
    (t ≡ tail) × NotIn dummy (tail ∷ ns) × (all ≡ gaps)
AtPoint dummy tail ns all gaps (some (joins t p)) =
    (t ≡ tail) × (t ≢ dummy) × Pick (record { prev_head = p; node = dummy }) all gaps
AtPoint dummy tail ns all gaps (some (looks_again t)) = (t ≡ tail) × (t ≢ dummy) × (all ≡ gaps)

-- The items `entered`, in the order of their exchanges, are the items `taken` that `Dequeue` has handed
-- out and then those between the tail and the head. Every other node is somebody else's.
pub record Sound (entered taken : List ℕ) (gaps : List Link) (c : Option Consumer)
    (q : IntrusiveQueue) : Type 0 where
  pub nodes : List ℕ
  pub all_gaps : List Link
  pub chain : Nodes q.links q.tail nodes all_gaps q.head
  pub point : AtPoint q.dummy q.tail nodes all_gaps gaps c
  pub in_order : entered ≡ taken ++ without q.dummy (q.tail ∷ nodes)
  pub dummy_next : Option ℕ
  pub dummy_alive : q.links q.dummy ≡ some dummy_next
  pub no_other : (p : ℕ) → p ≢ q.dummy → NotIn p (q.tail ∷ nodes) → q.links p ≡ none

pub Pick-last : {A : Type 0} (l : A) (xs : List A) → Pick l (xs ++ l ∷ []) xs
Pick-last l [] = here
Pick-last l (x ∷ xs) = there (Pick-last l xs)

pub Pick-concat :
    {A : Type 0} {l : A} {xs ys : List A} (k : A)
    → Pick l xs ys
    → Pick l (xs ++ k ∷ []) (ys ++ k ∷ [])
Pick-concat k here = here
Pick-concat k (there p) = there (Pick-concat k p)

-- Two elements can be left out in either order.
pub Pick-comm :
    {A : Type 0} {l m : A} {xs ys zs : List A}
    → Pick l xs ys
    → Pick m ys zs
    → (ws : List A) × Pick m xs ws × Pick l ws zs
Pick-comm {l} {zs} here pm = (l ∷ zs, there pm, here)
Pick-comm (there {xs = xs} pl) here = (xs, here, pl)
Pick-comm (there {y = y} pl) (there pm) =
    let (ws, pm', pl') = Pick-comm pl pm in (y ∷ ws, there pm', there pl')
