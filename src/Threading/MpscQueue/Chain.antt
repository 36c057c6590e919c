-- ===== src/Threading/MpscQueue/Chain.antt =====
-- The nodes from the tail to the head, with the links that are still to be written.
use warhead_fix.Base.{ℕ, ◌≡◌, ◌∙◌, ◌≢◌, Option, none, some, List, [], ◌∷◌, arith}
use warhead_fix.Threading.MpscQueue.{Node, Link, set}

abbrev pub NotIn : ℕ → List ℕ → Type 0
NotIn p [] = Unit
NotIn p (n ∷ ns) = (p ≢ n) × NotIn p ns

pub set_other {ℓ} : {A : Type ℓ} (heap : ℕ → A) (p q : ℕ) (c : A) → p ≢ q → set heap p c q ≡ heap q
set_other heap p q c other = ground arith

pub set_same {ℓ} : {A : Type ℓ} (heap : ℕ → A) (p : ℕ) (c : A) → set heap p c p ≡ c
set_same heap p c = ground arith

module _ {T : Type 0} where
  -- The node at an address holds the payload, if any is asked for.
  pub record Holds (heap : ℕ → Option (Node T)) (p : ℕ) (x : T) : Type 0 where
    pub cell : Node T
    pub found : heap p ≡ some cell
    pub holds : cell.payload ≡ some x

  pub record Points (heap : ℕ → Option (Node T)) (p : ℕ) (next : Option ℕ) : Type 0 where
    pub cell : Node T
    pub found : heap p ≡ some cell
    pub points : cell.next ≡ next

  -- `Chain heap n ns xs gaps z`: the nodes `n` and `ns`, the last one `z`, hold `xs` behind `n`. Each
  -- points to the next one, except where the link is one of `gaps`.
  pub data Chain (heap : ℕ → Option (Node T)) : ℕ → List ℕ → List T → List Link → ℕ → Type 0 where
    last : {n : ℕ} → Points heap n none → Chain heap n [] [] [] n
    linked :
        {n m z : ℕ} {ns : List ℕ} {x : T} {xs : List T} {gaps : List Link}
        → Points heap n (some m)
        → Holds heap m x
        → NotIn n (m ∷ ns)
        → Chain heap m ns xs gaps z
        → Chain heap n (m ∷ ns) (x ∷ xs) gaps z
    broken :
        {n m z : ℕ} {ns : List ℕ} {x : T} {xs : List T} {gaps : List Link}
        → Points heap n none
        → Holds heap m x
        → NotIn n (m ∷ ns)
        → Chain heap m ns xs gaps z
        → Chain heap n (m ∷ ns) (x ∷ xs) (record { prev_head = n; node = m } ∷ gaps) z

  pub Points-set :
      {heap : ℕ → Option (Node T)} {q : ℕ} {next : Option ℕ} (p : ℕ) (c : Option (Node T))
      → p ≢ q
      → Points heap q next
      → Points (set heap p c) q next
  Points-set {heap} {q} p c other h = record {
    cell = h.cell;
    found = set_other heap p q c other ∙ h.found;
    points = h.points;
  }

  pub Holds-set :
      {heap : ℕ → Option (Node T)} {q : ℕ} {x : T} (p : ℕ) (c : Option (Node T))
      → p ≢ q
      → Holds heap q x
      → Holds (set heap p c) q x
  Holds-set {heap} {q} p c other h = record {
    cell = h.cell;
    found = set_other heap p q c other ∙ h.found;
    holds = h.holds;
  }

  -- A write elsewhere changes nothing.
  pub Chain-set :
      {heap : ℕ → Option (Node T)} {n z : ℕ} {ns : List ℕ} {xs : List T} {gaps : List Link} (p : ℕ)
      (c : Option (Node T))
      → NotIn p (n ∷ ns)
      → Chain heap n ns xs gaps z
      → Chain (set heap p c) n ns xs gaps z
  Chain-set p c (o, os) (last h) = last (Points-set p c o h)
  Chain-set p c (o, os) (linked h k d t) =
      linked (Points-set p c o h) (Holds-set p c os.0 k) d (Chain-set p c os t)
  Chain-set p c (o, os) (broken h k d t) =
      broken (Points-set p c o h) (Holds-set p c os.0 k) d (Chain-set p c os t)
