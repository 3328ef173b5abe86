-- ===== src/LinkedList/Union.antt =====
-- LinkedList::Union links the second list behind the first. It updates no member of either object.
use technopark_cpp.LinkedList.{
  deref, set_prev, set_next, Ptr, null, node, Memory, write, LinkedList, union,
}
use technopark_cpp.LinkedList.Chain.{
  set_prev-ok, Chain-join, NotIn-append, set_next-ok, last-append, Chain-split, Distinct-split,
  Chain-write, first-append, Cells, first, last, NotIn, Distinct, IsList,
}
use technopark_cpp.Prelude.{
  Returns, [], ap, append_assoc, arith, inl, inr, refl, some, sym, undefined, ℤ, ◌++◌, ◌>>=◌, ◌∙◌,
  ◌∷◌, ◌≡◌, ◌≢◌, ◌⊎◌,
}

-- The rows share no node.
abbrev pub Apart : Cells → Cells → Type 0
Apart [] ys = Unit {0}
Apart ((a, v) ∷ xs) ys = NotIn a ys × Apart xs ys

Distinct-append : (xs ys : Cells) → Distinct xs → Distinct ys → Apart xs ys → Distinct (xs ++ ys)
Distinct-append [] ys d e o = e
Distinct-append ((a, v) ∷ xs) ys d e o =
    ((NotIn-append a xs ys).1 (d.0, o.0), Distinct-append xs ys d.1 e o.1)

NotIn-of_Apart : (xs ys : Cells) (b : Ptr) (w : ℤ) → Apart xs ((b, w) ∷ ys) → NotIn b xs
NotIn-of_Apart [] ys b w o = tt
NotIn-of_Apart ((a, v) ∷ xs) ys b w o = ((λ e. o.0.0 (sym e)), NotIn-of_Apart xs ys b w o.1)

Apart-append : (xs zs ys : Cells) → Apart (xs ++ zs) ys → Apart xs ys × Apart zs ys
Apart-append [] zs ys o = (tt, o)
Apart-append ((a, v) ∷ xs) zs ys o = let rest = Apart-append xs zs ys o.1 in ((o.0, rest.0), rest.1)

-- Union of two lists that have nodes and share none makes one list of the nodes of both, in order:
-- its head is the first list's and its tail the second's.
pub union-IsList :
    (m : Memory) (l1 l2 : LinkedList) (xs ys : Cells) (a b : Ptr) (v w : ℤ)
    → IsList m l1 (xs ++ (a, v) ∷ [])
    → IsList m l2 ((b, w) ∷ ys)
    → Apart (xs ++ (a, v) ∷ []) ((b, w) ∷ ys)
    → Returns
        (λ r. IsList r (record { head = l1.head; tail = l2.tail }) (xs ++ (a, v) ∷ (b, w) ∷ ys))
        (union (some l1) (some l2) m)
unfolding union
union-IsList m l1 l2 xs ys a b v w is is' o =
    let parts = Chain-split m null xs ((a, v) ∷ []) null is.chain in
    let c = is'.chain in
    let apart = Distinct-split xs [] a v is.distinct in
    let split = Apart-append xs ((a, v) ∷ []) ((b, w) ∷ ys) o in
    let ab : a ≢ b = split.1.0.0 in
    let at_a : l1.tail ≡ a = is.at_tail ∙ last-append null xs ((a, v) ∷ []) in
    let link = set_next-ok m a (node v null (last null xs)) parts.1.0 parts.1.1 b in
    let m1 = write m a (some (node v b (last null xs))) in
    let back = set_prev-ok m1 b (node w (first ys null) null) c.0 (let e = c.1 in ground arith) a in
    let m2 = write m1 b (some (node w (first ys null) a)) in
    (
      m2,
      rw (at_a, is'.at_head, link, back) refl,
      record {
        at_head =
            is.at_head
            ∙ (first-append xs ((a, v) ∷ []) null
                ∙ sym (first-append xs ((a, v) ∷ (b, w) ∷ ys) null));
        at_tail = is'.at_tail ∙ sym (last-append null xs ((a, v) ∷ (b, w) ∷ ys));
        chain =
            Chain-join m2 null xs ((a, v) ∷ (b, w) ∷ ys) null
              (Chain-write m1 null xs a b _ (NotIn-of_Apart xs ys b w split.0)
                (Chain-write m null xs a a _ apart.0 parts.0))
              (
                parts.1.0,
                ground arith,
                (
                  c.0,
                  ground arith,
                  Chain-write m1 b ys null b _ is'.distinct.0
                      (Chain-write m b ys null a _ split.1.0.1 c.2),
                ),
              );
        distinct =
            rw (append_assoc xs ((a, v) ∷ []) ((b, w) ∷ ys)) at
              (Distinct-append (xs ++ (a, v) ∷ []) ((b, w) ∷ ys) is.distinct is'.distinct o);
      },
    )

-- A write through a pointer returns or is undefined.
set_next-then_undefined :
    (p q : Ptr) (m : Memory) → ◌>>=◌ {B = Memory} (set_next p q m) (λ linked. undefined) ≡ undefined
unfolding set_next deref
set_next-then_undefined p q m = ground arith

-- If one of the two lists has no nodes Union writes through a null pointer.
pub union-undefined :
    (m : Memory) (l1 l2 : LinkedList) (xs ys : Cells)
    → IsList m l1 xs
    → IsList m l2 ys
    → (xs ≡ []) ⊎ (ys ≡ [])
    → union (some l1) (some l2) m ≡ undefined
unfolding union set_prev set_next deref
union-undefined m l1 l2 xs ys is is' (inl e) =
    let no_tail : l1.tail ≡ null = is.at_tail ∙ ap (last null) e in rw no_tail refl
union-undefined m l1 l2 xs ys is is' (inr e) =
    let no_head : l2.head ≡ null = is'.at_head ∙ ap (λ zs. first zs null) e in
    rw no_head (set_next-then_undefined l1.tail null m)
