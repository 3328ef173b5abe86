-- ===== src/LinkedList/Push.antt =====
-- LinkedList::PushBack puts one node at the end.
use technopark_cpp.LinkedList.{Ptr, null, node, Memory, write, LinkedList, push_back}
use technopark_cpp.LinkedList.Chain.{
  Chain, first, Distinct, NotIn, snoc_cases, Distinct-insert, set_next-ok, set_prev-ok, Chain-write,
  first-append, first_live, Chain-join, NotIn-append, Distinct-split, Chain-split, last-append,
  NotIn-of_none, Cells, last, IsList,
}
use technopark_cpp.Prelude.{
  Returns, [], append-nil, append_assoc, arith, false, none, refl, Returns-map, some, subst, sym, ℤ,
  ◌++◌, ◌==◌, ◌∙◌, ◌∷◌, ◌≡◌, ◌≢◌,
}

module _ (m : Memory) (l : LinkedList) (fresh : Ptr) (val : ℤ) (live : fresh ≢ null) where
  push_back-empty :
      IsList m l [] → Returns (λ r. IsList r.1 r.0 ((fresh, val) ∷ [])) (push_back fresh l val m)
  unfolding push_back
  push_back-empty is = (
    (record { head = fresh; tail = fresh }, write m fresh (some (node val null null))),
    (let e = is.at_head in ground arith),
    record {
      at_head = refl;
      at_tail = refl;
      chain = (live, ground arith, tt);
      distinct = (tt, tt);
    },
  )

  -- The memory after PushBack on a list that ends in the node `a`.
  abbrev linked : Cells → Ptr → ℤ → Memory
  linked ys a v =
      write
        (write (write m fresh (some (node val null null))) a (some (node v fresh (last null ys))))
        fresh (some (node val null a))

  -- The write behind the node that `tail_` names, whatever that node's `next` was.
  pub push_back-behind :
      (ys : Cells) (a : Ptr) (v : ℤ) (n : Ptr)
      → l.head ≡ first (ys ++ (a, v) ∷ []) null
      → l.tail ≡ a
      → a ≢ null
      → m a ≡ some (node v n (last null ys))
      → Chain m null ys a
      → Distinct (ys ++ (a, v) ∷ [])
      → NotIn fresh (ys ++ (a, v) ∷ [])
      → l.head ≢ null
      → Returns (λ r. IsList r.1 r.0 (ys ++ (a, v) ∷ (fresh, val) ∷ [])) (push_back fresh l val m)
  unfolding push_back
  push_back-behind ys a v n at_head at_a alive holds c dist out nonempty =
      let apart = (NotIn-append fresh ys ((a, v) ∷ [])).0 out in
      let d = Distinct-split ys [] a v dist in
      let ne : fresh ≢ a = apart.1.0 in
      let m1 = write m fresh (some (node val null null)) in
      let m2 = write m1 a (some (node v fresh (last null ys))) in
      let some_nodes : (l.head == null) ≡ false = ground arith in
      let link = set_next-ok m1 a (node v n (last null ys)) alive (ground arith) fresh in
      let back = set_prev-ok m2 fresh (node val null null) live (ground arith) a in
      (
        (record l { tail = fresh }, linked ys a v),
        rw (some_nodes, at_a, link, back) refl,
        record {
          at_head =
              at_head
              ∙ (first-append ys ((a, v) ∷ []) null
                  ∙ sym (first-append ys ((a, v) ∷ (fresh, val) ∷ []) null));
          at_tail = sym (last-append null ys ((a, v) ∷ (fresh, val) ∷ []));
          chain =
              Chain-join (linked ys a v) null ys ((a, v) ∷ (fresh, val) ∷ []) null
                (Chain-write m2 null ys a fresh _ apart.0
                  (Chain-write m1 null ys a a _ d.0 (Chain-write m null ys a fresh _ apart.0 c)))
                (alive, ground arith, (live, ground arith, tt));
          distinct = rw (append_assoc ys ((a, v) ∷ []) ((fresh, val) ∷ [])) at (
              Distinct-insert (ys ++ (a, v) ∷ []) [] fresh val out tt
                (rw (append-nil (ys ++ (a, v) ∷ [])) dist));
        },
      )

module _ (m : Memory) (l : LinkedList) (fresh : Ptr) (val : ℤ) (live : fresh ≢ null)
    (unused : m fresh ≡ none) where
  push_back-snoc :
      (ys : Cells) (a : Ptr) (v : ℤ)
      → IsList m l (ys ++ (a, v) ∷ [])
      → Returns (λ r. IsList r.1 r.0 (ys ++ (a, v) ∷ (fresh, val) ∷ [])) (push_back fresh l val m)
  push_back-snoc ys a v is =
      let c = Chain-split m null ys ((a, v) ∷ []) null is.chain in
      push_back-behind m l fresh val live ys a v null is.at_head
        (is.at_tail ∙ last-append null ys ((a, v) ∷ [])) c.1.0 c.1.1 c.0 is.distinct
        (NotIn-of_none m null (ys ++ (a, v) ∷ []) null fresh unused is.chain)
        (rw is.at_head (first_live m null ys [] a v null is.chain))

  -- PushBack appends a node with the value to a list, at the free address other than null that
  -- `new` returned.
  pub push_back-IsList :
      (xs : Cells)
      → IsList m l xs
      → Returns (λ r. IsList r.1 r.0 (xs ++ (fresh, val) ∷ [])) (push_back fresh l val m)
  push_back-IsList [] is = push_back-empty m l fresh val live is
  push_back-IsList (x ∷ xs) is =
      let (ys, a, v, e) = snoc_cases x xs in
      Returns-map (push_back-snoc ys a v (subst (IsList m l) e is)) λ r s.
        subst (λ zs. IsList r.1 r.0 (zs ++ (fresh, val) ∷ [])) (sym e)
          (rw (append_assoc ys ((a, v) ∷ []) ((fresh, val) ∷ [])) s)
