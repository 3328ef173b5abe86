-- ===== src/LinkedList/Remove.antt =====
-- LinkedList::DeteleAt links the neighbours of a node to one another. It updates neither `head_`
-- nor `tail_`.
use technopark_cpp.LinkedList.{
  push_back, display, Ptr, null, node, Memory, write, LinkedList, insert_after, delete_at,
}
use technopark_cpp.LinkedList.Chain.{
  first_live, NotIn-of_none, NotIn, NotIn-append, Chain-write, first-append, deref-ok, Chain-split,
  last-append, Distinct-split, set_next-ok, Chain-join, set_prev-ok, Cells, first, last, Chain,
  Distinct, IsList,
}
use technopark_cpp.LinkedList.Insert.{insert_after-IsList}
use technopark_cpp.LinkedList.Walk.{display_loop-Forward, Chain-Forward, values}
use technopark_cpp.Prelude.{
  Bool, Returns, [], append-nil, append_assoc, arith, false, length, none, ok, refl, Returns-bind,
  Returns-map, some, sym, true, ℕ, ℤ, ◌++◌, ◌<◌, ◌==◌, ◌>>=◌, ◌∙◌, ◌∷◌, ◌≡◌, ◌≢◌,
}

-- What DeteleAt leaves behind: the row without the node.
record Unlinked (m : Memory) (xs ys : Cells) (r : Bool × Memory) : Type 0 where
  reported : r.0 ≡ true
  chain : Chain r.1 null (xs ++ ys) null
  elsewhere : (q : Ptr) → NotIn q (xs ++ ys) → r.1 q ≡ m q

module _ (m : Memory) (zs : Cells) (p : Ptr) (u : ℤ) (a : Ptr) (v : ℤ) where
  delete_at-last :
      Chain m null (zs ++ (p, u) ∷ (a, v) ∷ []) null
      → Distinct (zs ++ (p, u) ∷ (a, v) ∷ [])
      → Returns (Unlinked m (zs ++ (p, u) ∷ []) []) (delete_at a m)
  unfolding delete_at
  delete_at-last c dist =
      let parts = Chain-split m null zs ((p, u) ∷ (a, v) ∷ []) null c in
      let at_p = parts.1 in
      let at_a = at_p.2 in
      let apart = Distinct-split zs ((a, v) ∷ []) p u dist in
      let live : (a == null) ≡ false = let away = at_a.0 in ground arith in
      let live_p : (p == null) ≡ false = let away = at_p.0 in ground arith in
      let read = deref-ok m a (node v null p) at_a.0 at_a.1 in
      let m2 = write m p (some (node u null (last null zs))) in
      let link = set_next-ok m p (node u a (last null zs)) at_p.0 at_p.1 null in
      (
        (true, m2),
        rw (live, read, read, live_p, link) refl,
        record {
          reported = refl;
          chain = rw append-nil (
              Chain-join m2 null zs ((p, u) ∷ []) null (Chain-write m null zs p p _ apart.0 parts.0)
                (at_p.0, ground arith, tt));
          elsewhere = λ q o.
              let far = (NotIn-append q zs ((p, u) ∷ [])).0 (rw append-nil at o) in
              ground (arith, far.1.0);
        },
      )

  delete_at-between :
      (b : Ptr) (w : ℤ) (ys : Cells)
      → Chain m null (zs ++ (p, u) ∷ (a, v) ∷ (b, w) ∷ ys) null
      → Distinct (zs ++ (p, u) ∷ (a, v) ∷ (b, w) ∷ ys)
      → Returns (Unlinked m (zs ++ (p, u) ∷ []) ((b, w) ∷ ys)) (delete_at a m)
  unfolding delete_at
  delete_at-between b w ys c dist =
      let parts = Chain-split m null zs ((p, u) ∷ (a, v) ∷ (b, w) ∷ ys) null c in
      let at_p = parts.1 in
      let at_a = at_p.2 in
      let at_b = at_a.2 in
      let apart = Distinct-split zs ((a, v) ∷ (b, w) ∷ ys) p u dist in
      let apart_a = Distinct-split zs ((b, w) ∷ ys) a v apart.2 in
      let apart_b = Distinct-split zs ys b w apart_a.2 in
      let pb : p ≢ b = apart.1.1.0 in
      let ab : a ≢ b = apart_a.1.0 in
      let live : (a == null) ≡ false = let away = at_a.0 in ground arith in
      let live_p : (p == null) ≡ false = let away = at_p.0 in ground arith in
      let live_b : (b == null) ≡ false = let away = at_b.0 in ground arith in
      let read = deref-ok m a (node v b p) at_a.0 at_a.1 in
      let m1 = write m b (some (node w (first ys null) p)) in
      let back = set_prev-ok m b (node w (first ys null) a) at_b.0 at_b.1 p in
      let again = deref-ok m1 a (node v b p) at_a.0 (let e = at_a.1 in ground arith) in
      let m2 = write m1 p (some (node u b (last null zs))) in
      let link =
        set_next-ok m1 p (node u a (last null zs)) at_p.0 (let e = at_p.1 in ground arith) b in
      (
        (true, m2),
        rw (live, read, live_b, back, again, live_p, link) refl,
        record {
          reported = refl;
          chain = rw append_assoc (
              Chain-join m2 null zs ((p, u) ∷ (b, w) ∷ ys) null
                (Chain-write m1 null zs p p _ apart.0
                  (Chain-write m null zs p b _ apart_b.0 parts.0))
                (
                  at_p.0,
                  ground arith,
                  (
                    at_b.0,
                    ground arith,
                    Chain-write m1 b ys null p _ apart.1.1.1
                        (Chain-write m b ys null b _ apart_b.1 at_b.2),
                  ),
                ));
          elsewhere = λ q o.
              let far = (NotIn-append q zs ((p, u) ∷ (b, w) ∷ ys)).0 (rw append_assoc at o) in
              ground (arith, far.1.0, far.1.1.0);
        },
      )

-- DeteleAt of a node between two others of a list takes exactly that node out of it.
pub delete_at-IsList :
    (m : Memory) (l : LinkedList) (zs ys : Cells) (p a b : Ptr) (u v w : ℤ)
    → IsList m l (zs ++ (p, u) ∷ (a, v) ∷ (b, w) ∷ ys)
    → Returns (λ r. (r.0 ≡ true) × IsList r.1 l (zs ++ (p, u) ∷ (b, w) ∷ ys)) (delete_at a m)
delete_at-IsList m l zs ys p a b u v w is =
    Returns-map (delete_at-between m zs p u a v b w ys is.chain is.distinct) λ r i. (
      i.reported,
      record {
        at_head =
            is.at_head
            ∙ (first-append zs ((p, u) ∷ (a, v) ∷ (b, w) ∷ ys) null
                ∙ sym (first-append zs ((p, u) ∷ (b, w) ∷ ys) null));
        at_tail =
            is.at_tail
            ∙ (last-append null zs ((p, u) ∷ (a, v) ∷ (b, w) ∷ ys)
                ∙ sym (last-append null zs ((p, u) ∷ (b, w) ∷ ys)));
        chain = rw (append_assoc zs ((p, u) ∷ []) ((b, w) ∷ ys)) at i.chain;
        distinct =
            let moved : Distinct ((zs ++ (p, u) ∷ []) ++ (a, v) ∷ (b, w) ∷ ys) =
              rw (append_assoc zs ((p, u) ∷ []) ((a, v) ∷ (b, w) ∷ ys)) is.distinct in
            rw (append_assoc zs ((p, u) ∷ []) ((b, w) ∷ ys)) at
              (Distinct-split (zs ++ (p, u) ∷ []) ((b, w) ∷ ys) a v moved).2;
      },
    )

-- DeteleAt takes back what InsertAfter, at a free address, put behind a node of a list that is not
-- the last.
pub delete_at-insert_after :
    (m : Memory) (l : LinkedList) (xs ys : Cells) (a b : Ptr) (v w : ℤ) (fresh : Ptr) (d : ℤ)
    → fresh ≢ null
    → m fresh ≡ none
    → IsList m l (xs ++ (a, v) ∷ (b, w) ∷ ys)
    → Returns
        (λ r. (r.0 ≡ true) × IsList r.1 l (xs ++ (a, v) ∷ (b, w) ∷ ys))
        (insert_after fresh a d m >>= λ r. delete_at r.0 r.1)
delete_at-insert_after m l xs ys a b v w fresh d live unused is =
    Returns-bind (insert_after-IsList m l xs ys a b v w fresh d live unused is)
      λ r (same, is'). rw same (delete_at-IsList r.1 l xs ys a fresh b v d w is')

-- At the first node of a list DeteleAt leaves `head_` at it: with more rounds than nodes Display
-- still prints all the values.
pub display-delete_at-head :
    (k : ℕ) (m : Memory) (l : LinkedList) (a : Ptr) (v : ℤ) (ys : Cells)
    → IsList m l ((a, v) ∷ ys)
    → length ((a, v) ∷ ys) < k
    → Returns (λ r. (r.0 ≡ true) × (display k l r.1 ≡ ok (values ((a, v) ∷ ys)))) (delete_at a m)
unfolding delete_at display
display-delete_at-head k m l a v [] is f =
    let c = is.chain in
    let live : (a == null) ≡ false = let away = c.0 in ground arith in
    let read = deref-ok m a (node v null null) c.0 c.1 in
    (
      (true, m),
      rw (live, read, read) refl,
      (
        refl,
        rw is.at_head (
            display_loop-Forward k m ((a, v) ∷ []) [] (Chain-Forward m null ((a, v) ∷ []) null c)
              f),
      ),
    )
display-delete_at-head k m l a v ((b, w) ∷ ys) is f =
    let c = is.chain in
    let d = is.distinct in
    let ab : a ≢ b = d.0.0 in
    let live : (a == null) ≡ false = let away = c.0 in ground arith in
    let live_b : (b == null) ≡ false = let away = c.2.0 in ground arith in
    let read = deref-ok m a (node v b null) c.0 c.1 in
    let m1 = write m b (some (node w (first ys null) null)) in
    let back = set_prev-ok m b (node w (first ys null) a) c.2.0 c.2.1 null in
    let again = deref-ok m1 a (node v b null) c.0 (let e = c.1 in ground arith) in
    let rest = Chain-Forward m1 b ys null (Chain-write m b ys null b _ d.1.0 c.2.2) in
    (
      (true, m1),
      rw (live, read, live_b, back, again) refl,
      (
        refl,
        rw is.at_head (
            display_loop-Forward k m1 ((a, v) ∷ (b, w) ∷ ys) []
              (c.0, (null, let e = c.1 in ground arith), (c.2.0, (null, ground arith), rest)) f),
      ),
    )

-- At the last of two or more nodes DeteleAt leaves `tail_` at it: the next PushBack, at an address
-- that was free before, links its node behind the removed one, and Display, with more rounds than
-- the nodes left, does not print the new value.
pub display-push_back-delete_at-lost :
    (k : ℕ) (m : Memory) (l : LinkedList) (zs : Cells) (p a : Ptr) (u v : ℤ) (fresh : Ptr) (w : ℤ)
    → fresh ≢ null
    → m fresh ≡ none
    → IsList m l (zs ++ (p, u) ∷ (a, v) ∷ [])
    → length (zs ++ (p, u) ∷ []) < k
    → Returns
        (λ s. display k s.0 s.1 ≡ ok (values (zs ++ (p, u) ∷ [])))
        (delete_at a m >>= λ r. push_back fresh l w r.1)
unfolding push_back display
display-push_back-delete_at-lost k m l zs p a u v fresh w live unused is f =
    Returns-bind (delete_at-last m zs p u a v is.chain is.distinct) λ r i.
      let left = zs ++ (p, u) ∷ [] in
      let c = rw append-nil at i.chain in
      let out = NotIn-of_none m null (zs ++ (p, u) ∷ (a, v) ∷ []) null fresh unused is.chain in
      let all = rw (← append_assoc zs ((p, u) ∷ []) ((a, v) ∷ [])) at out in
      let apart = (NotIn-append fresh left ((a, v) ∷ [])).0 all in
      let whole =
        Chain-split m null left ((a, v) ∷ []) null
          (rw (append_assoc zs ((p, u) ∷ []) ((a, v) ∷ [])) is.chain) in
      let gone =
        (Distinct-split left [] a v
          (rw (append_assoc zs ((p, u) ∷ []) ((a, v) ∷ [])) is.distinct)).0 in
      let at_a : l.tail ≡ a = is.at_tail ∙ last-append null zs ((p, u) ∷ (a, v) ∷ []) in
      let same : r.1 a ≡ m a = i.elsewhere a (rw append-nil gone) in
      let ne : fresh ≢ a = apart.1.0 in
      let nonempty : (l.head == null) ≡ false =
        let e = is.at_head in
        let alive = first_live m null zs ((a, v) ∷ []) p u null is.chain in ground arith in
      let n = node v null (last null left) in
      let m1 = write r.1 fresh (some (node w null null)) in
      let link = set_next-ok m1 a n whole.1.0 (let e = whole.1.1 in ground arith) fresh in
      let m2 = write m1 a (some (record n { next = fresh })) in
      let back = set_prev-ok m2 fresh (node w null null) live (ground arith) a in
      let m3 = write m2 fresh (some (node w null a)) in
      let kept = Chain-write m2 null left null fresh _ apart.0 (
        Chain-write m1 null left null a _ gone
          (Chain-write r.1 null left null fresh _ apart.0 c)) in
      (
        (record l { tail = fresh }, m3),
        rw (nonempty, at_a, link, back) refl,
        rw
            (
              is.at_head,
              first-append zs ((p, u) ∷ (a, v) ∷ []) null,
              ← first-append zs ((p, u) ∷ []) null,
            )
            (display_loop-Forward k m3 left [] (Chain-Forward m3 null left null kept) f),
      )
