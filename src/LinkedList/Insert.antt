-- ===== src/LinkedList/Insert.antt =====
-- LinkedList::InsertAfter puts a node behind another. It does not update `tail_`.
use technopark_cpp.LinkedList.{push_back, LinkedList, Ptr, null, node, Memory, write, insert_after}
use technopark_cpp.LinkedList.Chain.{
  first-append, last-append, IsList, first_live, Chain-split, NotIn-append, Chain-write,
  Distinct-split, set_prev-ok, NotIn-of_none, Distinct-insert, Chain-join, set_next-ok, deref-ok,
  Cells, first, last, Chain, NotIn, Distinct,
}
use technopark_cpp.Prelude.{
  Returns, [], append_assoc, arith, false, none, refl, Returns-bind, Returns-map, some, sym, ℤ,
  ◌++◌, ◌==◌, ◌>>=◌, ◌∙◌, ◌∷◌, ◌≡◌, ◌≢◌,
}
use technopark_cpp.LinkedList.Push.{push_back-behind}

-- What InsertAfter returns behind the node `a`: the new node's address and a memory with it in place.
pub record Inserted (m : Memory) (xs ys : Cells) (a : Ptr) (v : ℤ) (fresh : Ptr) (d : ℤ)
    (r : Ptr × Memory) : Type 0 where
  pub address : r.0 ≡ fresh
  pub chain : Chain r.1 null (xs ++ (a, v) ∷ (fresh, d) ∷ ys) null
  pub distinct : Distinct (xs ++ (a, v) ∷ (fresh, d) ∷ ys)
  pub elsewhere : (p : Ptr) → NotIn p (xs ++ (a, v) ∷ (fresh, d) ∷ ys) → r.1 p ≡ m p

module _ (m : Memory) (xs : Cells) (a : Ptr) (v : ℤ) (fresh : Ptr) (d : ℤ) (live : fresh ≢ null)
    (unused : m fresh ≡ none) where
  grown-Distinct :
      (ys : Cells)
      → Chain m null (xs ++ (a, v) ∷ ys) null
      → Distinct (xs ++ (a, v) ∷ ys)
      → Distinct (xs ++ (a, v) ∷ (fresh, d) ∷ ys)
  grown-Distinct ys c dist =
      let out =
        (NotIn-append fresh xs ((a, v) ∷ ys)).0
          (NotIn-of_none m null (xs ++ (a, v) ∷ ys) null fresh unused c) in
      rw (append_assoc xs ((a, v) ∷ []) ((fresh, d) ∷ ys)) at (
        Distinct-insert (xs ++ (a, v) ∷ []) ys fresh d
          ((NotIn-append fresh xs ((a, v) ∷ [])).1 (out.0, (out.1.0, tt))) out.1.1
          (rw (append_assoc xs ((a, v) ∷ []) ys) dist))

  insert_after-end :
      Chain m null (xs ++ (a, v) ∷ []) null
      → Distinct (xs ++ (a, v) ∷ [])
      → Returns (Inserted m xs [] a v fresh d) (insert_after fresh a d m)
  unfolding insert_after
  insert_after-end c dist =
      let parts = Chain-split m null xs ((a, v) ∷ []) null c in
      let out =
        (NotIn-append fresh xs ((a, v) ∷ [])).0
          (NotIn-of_none m null (xs ++ (a, v) ∷ []) null fresh unused c) in
      let apart = Distinct-split xs [] a v dist in
      let at_live : (a == null) ≡ false = let away = parts.1.0 in ground arith in
      let read = deref-ok m a (node v null (last null xs)) parts.1.0 parts.1.1 in
      let ne : fresh ≢ a = out.1.0 in
      let m1 = write m fresh (some (node d null a)) in
      let m2 = write m1 a (some (node v fresh (last null xs))) in
      let link =
        set_next-ok m1 a (node v null (last null xs)) parts.1.0 (let e = parts.1.1 in ground arith)
          fresh in
      (
        (fresh, m2),
        rw (at_live, read, link) refl,
        record {
          address = refl;
          chain =
              Chain-join m2 null xs ((a, v) ∷ (fresh, d) ∷ []) null
                (Chain-write m1 null xs a a _ apart.0
                  (Chain-write m null xs a fresh _ out.0 parts.0))
                (parts.1.0, ground arith, (live, ground arith, tt));
          distinct = grown-Distinct [] c dist;
          elsewhere = λ p o.
              let far = (NotIn-append p xs ((a, v) ∷ (fresh, d) ∷ [])).0 o in
              ground (arith, far.1.0, far.1.1.0);
        },
      )

  insert_after-middle :
      (b : Ptr) (w : ℤ) (ys : Cells)
      → Chain m null (xs ++ (a, v) ∷ (b, w) ∷ ys) null
      → Distinct (xs ++ (a, v) ∷ (b, w) ∷ ys)
      → Returns (Inserted m xs ((b, w) ∷ ys) a v fresh d) (insert_after fresh a d m)
  unfolding insert_after
  insert_after-middle b w ys c dist =
      let parts = Chain-split m null xs ((a, v) ∷ (b, w) ∷ ys) null c in
      let here = parts.1 in
      let next = here.2 in
      let out =
        (NotIn-append fresh xs ((a, v) ∷ (b, w) ∷ ys)).0
          (NotIn-of_none m null (xs ++ (a, v) ∷ (b, w) ∷ ys) null fresh unused c) in
      let apart = Distinct-split xs ((b, w) ∷ ys) a v dist in
      let apart_b = Distinct-split xs ys b w apart.2 in
      let at_live : (a == null) ≡ false = let away = here.0 in ground arith in
      let next_live : (b == null) ≡ false = let away = next.0 in ground arith in
      let read = deref-ok m a (node v b (last null xs)) here.0 here.1 in
      let ne_a : fresh ≢ a = out.1.0 in
      let ne_b : fresh ≢ b = out.1.1.0 in
      let ab : a ≢ b = apart.1.0 in
      let n_b = node w (first ys null) in
      let m1 = write m fresh (some (node d b a)) in
      let m2 = write m1 b (some (n_b fresh)) in
      let m3 = write m2 a (some (node v fresh (last null xs))) in
      let back = set_prev-ok m1 b (n_b a) next.0 (let e = next.1 in ground arith) fresh in
      let link =
        set_next-ok m2 a (node v b (last null xs)) here.0 (let e = here.1 in ground arith) fresh in
      (
        (fresh, m3),
        rw (at_live, read, next_live, back, link) refl,
        record {
          address = refl;
          chain =
              Chain-join m3 null xs ((a, v) ∷ (fresh, d) ∷ (b, w) ∷ ys) null
                (Chain-write m2 null xs a a _ apart.0 (
                  Chain-write m1 null xs a b _ apart_b.0
                    (Chain-write m null xs a fresh _ out.0 parts.0)))
                (
                  here.0,
                  ground arith,
                  (
                    live,
                    ground arith,
                    (
                      next.0,
                      ground arith,
                      Chain-write m2 b ys null a _ apart.1.1 (
                          Chain-write m1 b ys null b _ apart_b.1
                            (Chain-write m b ys null fresh _ out.1.1.1 next.2)),
                    ),
                  ),
                );
          distinct = grown-Distinct ((b, w) ∷ ys) c dist;
          elsewhere = λ p o.
              let far = (NotIn-append p xs ((a, v) ∷ (fresh, d) ∷ (b, w) ∷ ys)).0 o in
              ground (arith, far.1.0, far.1.1.0, far.1.1.1.0);
        },
      )

-- Behind a node that is not the last InsertAfter, whose `new` returns a free address other than
-- null, keeps the object a list, with the new node in place.
pub insert_after-IsList :
    (m : Memory) (l : LinkedList) (xs ys : Cells) (a b : Ptr) (v w : ℤ) (fresh : Ptr) (d : ℤ)
    → fresh ≢ null
    → m fresh ≡ none
    → IsList m l (xs ++ (a, v) ∷ (b, w) ∷ ys)
    → Returns
        (λ r. (r.0 ≡ fresh) × IsList r.1 l (xs ++ (a, v) ∷ (fresh, d) ∷ (b, w) ∷ ys))
        (insert_after fresh a d m)
insert_after-IsList m l xs ys a b v w fresh d live unused is =
    Returns-map (insert_after-middle m xs a v fresh d live unused b w ys is.chain is.distinct)
      λ r i. (
        i.address,
        record {
          at_head =
              is.at_head
              ∙ (first-append xs ((a, v) ∷ (b, w) ∷ ys) null
                  ∙ sym (first-append xs ((a, v) ∷ (fresh, d) ∷ (b, w) ∷ ys) null));
          at_tail =
              is.at_tail
              ∙ (last-append null xs ((a, v) ∷ (b, w) ∷ ys)
                  ∙ sym (last-append null xs ((a, v) ∷ (fresh, d) ∷ (b, w) ∷ ys)));
          chain = i.chain;
          distinct = i.distinct;
        },
      )

-- Behind the last node InsertAfter leaves `tail_` at the old last node, so the next PushBack puts
-- its node there and the inserted one drops out of the list; both `new` return addresses that were
-- free before.
pub push_back-insert_after-lost :
    (m : Memory) (l : LinkedList) (xs : Cells) (a : Ptr) (v : ℤ) (fresh g : Ptr) (d w : ℤ)
    → fresh ≢ null
    → m fresh ≡ none
    → g ≢ null
    → m g ≡ none
    → IsList m l (xs ++ (a, v) ∷ [])
    → Returns
        (λ r. IsList r.1 r.0 (xs ++ (a, v) ∷ (g, w) ∷ []))
        (insert_after fresh a d m >>= λ r. push_back g l w r.1)
push_back-insert_after-lost m l xs a v fresh g d w live unused live_g unused_g is =
    Returns-bind (insert_after-end m xs a v fresh d live unused is.chain is.distinct) λ r i.
      let c = Chain-split r.1 null xs ((a, v) ∷ (fresh, d) ∷ []) null i.chain in
      push_back-behind r.1 l g w live_g xs a v fresh is.at_head
        (is.at_tail ∙ last-append null xs ((a, v) ∷ [])) c.1.0 c.1.1 c.0 is.distinct
        (NotIn-of_none m null (xs ++ (a, v) ∷ []) null g unused_g is.chain)
        (rw is.at_head (first_live m null xs [] a v null is.chain))
