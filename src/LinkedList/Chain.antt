-- ===== src/LinkedList/Chain.antt =====
-- What a memory holds: a row of doubly linked nodes, and how writes act on it.
use technopark_cpp.LinkedList.{
  Ptr, null, Node, node, Memory, write, deref, set_next, set_prev, LinkedList,
}
use technopark_cpp.Prelude.{
  List, Option, [], ap, arith, none, ok, refl, some, sym, ℤ, ◌++◌, ◌↔◌, ◌∷◌, ◌≡◌, ◌≢◌,
}

-- A row of nodes: the address and the value of each.
abbrev pub Cells : Type 0
Cells = List (Ptr × ℤ)

-- The address of the first node of a row that `after` follows.
abbrev pub first : Cells → Ptr → Ptr
first [] after = after
first ((a, v) ∷ xs) after = a

-- The address of the last node of a row that follows `before`.
abbrev pub last : Ptr → Cells → Ptr
last before [] = before
last before ((a, v) ∷ xs) = last a xs

-- The nodes of the row stand in memory, linked both ways between `before` and `after`.
abbrev pub Chain : Memory → Ptr → Cells → Ptr → Type 0
Chain m before [] after = Unit {0}
Chain m before ((a, v) ∷ xs) after =
    (a ≢ null) × (m a ≡ some (node v (first xs after) before)) × Chain m a xs after

abbrev pub NotIn : Ptr → Cells → Type 0
NotIn p [] = Unit {0}
NotIn p ((a, v) ∷ xs) = (p ≢ a) × NotIn p xs

abbrev pub Distinct : Cells → Type 0
Distinct [] = Unit {0}
Distinct ((a, v) ∷ xs) = NotIn a xs × Distinct xs

-- The object `l` is the list of exactly the nodes `xs`, in order.
pub record IsList (m : Memory) (l : LinkedList) (xs : Cells) : Type 0 where
  pub at_head : l.head ≡ first xs null
  pub at_tail : l.tail ≡ last null xs
  pub chain : Chain m null xs null
  pub distinct : Distinct xs

pub first-append :
    (xs ys : Cells) (after : Ptr) → first (xs ++ ys) after ≡ first xs (first ys after)
first-append [] ys after = refl
first-append ((a, v) ∷ xs) ys after = refl

pub last-append : (before : Ptr) (xs ys : Cells) → last before (xs ++ ys) ≡ last (last before xs) ys
last-append before [] ys = refl
last-append before ((a, v) ∷ xs) ys = last-append a xs ys

pub Chain-split :
    (m : Memory) (before : Ptr) (xs ys : Cells) (after : Ptr)
    → Chain m before (xs ++ ys) after
    → Chain m before xs (first ys after) × Chain m (last before xs) ys after
Chain-split m before [] ys after c = (tt, c)
Chain-split m before ((a, v) ∷ xs) ys after c =
    let rest = Chain-split m a xs ys after c.2 in
    ((c.0, rw (first-append xs ys after) at c.1, rest.0), rest.1)

pub Chain-join :
    (m : Memory) (before : Ptr) (xs ys : Cells) (after : Ptr)
    → Chain m before xs (first ys after)
    → Chain m (last before xs) ys after
    → Chain m before (xs ++ ys) after
Chain-join m before [] ys after c d = d
Chain-join m before ((a, v) ∷ xs) ys after c d =
    (c.0, rw (first-append xs ys after) c.1, Chain-join m a xs ys after c.2 d)

-- A write to an address outside the row spares it.
pub Chain-write :
    (m : Memory) (before : Ptr) (xs : Cells) (after p : Ptr) (n : Option Node)
    → NotIn p xs
    → Chain m before xs after
    → Chain (write m p n) before xs after
Chain-write m before [] after p n out c = tt
Chain-write m before ((a, v) ∷ xs) after p n out c =
    (c.0, ground (arith, out.0), Chain-write m a xs after p n out.1 c.2)

pub NotIn-append : (p : Ptr) (xs ys : Cells) → NotIn p (xs ++ ys) ↔ (NotIn p xs × NotIn p ys)
NotIn-append p [] ys = (λ o. (tt, o), λ o. o.1)
NotIn-append p ((a, v) ∷ xs) ys =
    let rest = NotIn-append p xs ys in
    (λ o. ((o.0, (rest.0 o.1).0), (rest.0 o.1).1), λ o. (o.0.0, rest.1 (o.0.1, o.1)))

-- No node of a row lies at an address that holds none.
pub NotIn-of_none :
    (m : Memory) (before : Ptr) (xs : Cells) (after p : Ptr)
    → m p ≡ none
    → Chain m before xs after
    → NotIn p xs
NotIn-of_none m before [] after p e c = tt
NotIn-of_none m before ((a, v) ∷ xs) after p e c =
    (λ same. ground arith, NotIn-of_none m a xs after p e c.2)

-- The parts of a row of distinct nodes around one of them.
pub Distinct-split :
    (xs ys : Cells) (a : Ptr) (v : ℤ)
    → Distinct (xs ++ (a, v) ∷ ys)
    → NotIn a xs × NotIn a ys × Distinct (xs ++ ys)
Distinct-split [] ys a v d = (tt, d.0, d.1)
Distinct-split ((b, w) ∷ xs) ys a v d =
    let rest = Distinct-split xs ys a v d.1 in
    let out = (NotIn-append b xs ((a, v) ∷ ys)).0 d.0 in
    (((λ e. out.1.0 (sym e)), rest.0), rest.1, ((NotIn-append b xs ys).1 (out.0, out.1.1), rest.2))

pub Distinct-insert :
    (xs ys : Cells) (a : Ptr) (v : ℤ)
    → NotIn a xs
    → NotIn a ys
    → Distinct (xs ++ ys)
    → Distinct (xs ++ (a, v) ∷ ys)
Distinct-insert [] ys a v o p d = (p, d)
Distinct-insert ((b, w) ∷ xs) ys a v o p d =
    let out = (NotIn-append b xs ys).0 d.0 in
    (
      (NotIn-append b xs ((a, v) ∷ ys)).1 (out.0, (λ e. o.0 (sym e), out.1)),
      Distinct-insert xs ys a v o.1 p d.1,
    )

module _ (m : Memory) (p : Ptr) (n : Node) (live : p ≢ null) (holds : m p ≡ some n) where
  pub deref-ok : deref p m ≡ ok n
  unfolding deref
  deref-ok = ground arith

  pub set_next-ok : (q : Ptr) → set_next p q m ≡ ok (write m p (some (record n { next = q })))
  unfolding set_next
  set_next-ok q = rw deref-ok refl

  pub set_prev-ok : (q : Ptr) → set_prev p q m ≡ ok (write m p (some (record n { prev = q })))
  unfolding set_prev
  set_prev-ok q = rw deref-ok refl

-- The node in the middle of a row.
pub Chain-node :
    (m : Memory) (before : Ptr) (xs ys : Cells) (a : Ptr) (v : ℤ) (after : Ptr)
    → Chain m before (xs ++ (a, v) ∷ ys) after
    → (a ≢ null) × (m a ≡ some (node v (first ys after) (last before xs)))
Chain-node m before xs ys a v after c =
    let there = (Chain-split m before xs ((a, v) ∷ ys) after c).1 in (there.0, there.1)

-- A row that is not empty ends in a node.
pub snoc_cases :
    (x : Ptr × ℤ) (xs : Cells) → (ys : Cells) × (a : Ptr) × (v : ℤ) × (x ∷ xs ≡ ys ++ (a, v) ∷ [])
snoc_cases (a, v) [] = ([], a, v, refl)
snoc_cases x (y ∷ xs) = let (ys, a, v, e) = snoc_cases y xs in (x ∷ ys, a, v, ap (◌∷◌ x) e)

pub first_live :
    (m : Memory) (before : Ptr) (xs ys : Cells) (a : Ptr) (v : ℤ) (after : Ptr)
    → Chain m before (xs ++ (a, v) ∷ ys) after
    → first (xs ++ (a, v) ∷ ys) after ≢ null
first_live m before [] ys a v after c = c.0
first_live m before ((b, w) ∷ xs) ys a v after c = c.0
