-- ===== src/Heap/Insert.antt =====
-- heap::Add puts one more entry into a heap.
use technopark_cpp.DArray.{DArray, size}
use technopark_cpp.DArray.Inv.{length-contents, IsValid, contents}
use technopark_cpp.Heap.{add}
use technopark_cpp.Heap.Order.{IsRanked, parent, key, IsHeap}
use technopark_cpp.DArray.Growth.{Appended, push_back-Appended}
use technopark_cpp.Heap.Up.{sift_up-Raised, UpInv}
use mathlib.Core.List.Perm
use technopark_cpp.Prelude.{
  Bool, Perm, Returns, Returns-bind, Returns-map, [], ap, arith, get_or, get_or-append, get_or-take,
  snoc-perm, sub_size, sym, ℕ, ◌<◌, ◌∙◌, ◌∷◌, ◌≡◌,
}

module _ {A : Type 0} (gt le : A → A → Bool) (rank : A → ℕ) (ranked : IsRanked gt le rank)
    (z : A) where
  -- What Add returns: a heap of the entries and the new one.
  pub record Added (arr : DArray A) (element : A) (e : DArray A) : Type 0 where
    pub valid : IsValid e
    pub heap : IsHeap z rank e
    pub same : Perm (contents e) (element ∷ contents arr)

  Appended-UpInv :
      (arr e : DArray A) (element : A)
      → IsValid arr
      → IsHeap z rank arr
      → Appended arr element e
      → UpInv gt le rank ranked z e (size arr)
  Appended-UpInv arr e element v h g =
      let old : (c : ℕ) → c < size arr → key z rank e c ≡ key z rank arr c = λ c p. ap rank (
        sym (get_or-take e.actual_size e.buffer c z (omega (arith, g.counted)))
        ∙ ap (λ xs. get_or xs c z) g.appended
        ∙ get_or-append (contents arr) (element ∷ []) c z (omega (arith, length-contents arr v))
        ∙ get_or-take arr.actual_size arr.buffer c z p) in
      record {
        inside = omega (arith, g.counted);
        edges = λ c p q r. ground (arith, g.counted, h c, old c, old (parent c));
        bridged = λ c p q child r. absurd (omega (arith, g.counted));
      }

  -- Add on a well-formed heap with room for one more entry returns a heap of its entries and the
  -- new one, if the comparison is by rank.
  pub add-Added :
      (fresh : ℕ → A) (arr : DArray A) (element : A)
      → IsValid arr
      → IsHeap z rank arr
      → arr.actual_size < arr.buf_size
      → Returns (Added arr element) (add le fresh arr element)
  unfolding add
  add-Added fresh arr element v h room =
      Returns-bind (push_back-Appended fresh arr element v room) λ e g.
        let end : sub_size (size e) 1 ≡ size arr = omega (arith, g.counted, g.valid) in
        rw end (
          Returns-map
            (sift_up-Raised gt le rank ranked z e (size arr) g.valid
              (Appended-UpInv arr e element v h g))
            λ f s. record {
              valid = s.reordered.valid;
              heap = s.heap;
              same = Perm.trans s.reordered.perm (rw g.appended (snoc-perm (contents arr) element));
            })
