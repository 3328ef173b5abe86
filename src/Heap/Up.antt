-- ===== src/Heap/Up.antt =====
-- heap::SiftUp restores the heap order above an entry that may be too large.
use technopark_cpp.DArray.{DArray, size, index}
use technopark_cpp.DArray.Inv.{IsValid}
use technopark_cpp.Heap.{sift_up_loop, sift_up}
use technopark_cpp.Heap.Order.{
  get_or-swapped, swap_at-ok, Reordered-refl, Reordered-trans, swapped-Reordered, IsRanked, parent,
  key, IsHeap, Reordered, swapped,
}
use technopark_cpp.Prelude.{
  Bool, Bool-cases, Returns, arith, get_or, inl, inr, load, load-ok, ltb, ok, refl, Returns-map,
  suc, zero, ℕ, ◌+◌, ◌<◌, ◌≡◌, ◌≢◌, ◌≤◌,
}

module _ {A : Type 0} (gt le : A → A → Bool) (rank : A → ℕ) (ranked : IsRanked gt le rank)
    (z : A) where
  -- Only the edge above `i` may be out of order, and the children of `i` do not exceed the parent
  -- of `i`.
  pub record UpInv (arr : DArray A) (i : ℕ) : Type 0 where
    pub inside : i < size arr
    pub edges :
        (c : ℕ) → 0 < c → c < size arr → c ≢ i → key z rank arr c ≤ key z rank arr (parent c)
    pub bridged :
        (c : ℕ)
        → 0 < c
        → c < size arr
        → parent c ≡ i
        → 0 < i
        → key z rank arr c ≤ key z rank arr (parent i)

  -- What the walk leaves behind.
  pub record Raised (from to : DArray A) : Type 0 where
    pub reordered : Reordered from to
    pub heap : IsHeap z rank to

  up-step :
      (arr : DArray A) (i : ℕ)
      → IsValid arr
      → UpInv arr i
      → 0 < i
      → key z rank arr (parent i) < key z rank arr i
      → UpInv (swapped z arr i (parent i)) (parent i)
  up-step arr i v u nonroot greater =
      let at = get_or-swapped z arr v i (parent i) u.inside (omega (arith, u.inside)) in
      record {
        inside = omega (arith, u.inside);
        edges = λ c p q r. ground (arith, at c, at (parent c), u.edges c, u.bridged c);
        bridged = λ c p q child r.
            ground (arith, at c, at (parent (parent i)), u.edges c, u.edges (parent i));
      }

  sift_up_loop-Raised :
      (k : ℕ) (arr : DArray A) (i : ℕ)
      → i < k
      → IsValid arr
      → UpInv arr i
      → Returns (Raised arr) (sift_up_loop le k arr i)
  unfolding sift_up_loop index
  sift_up_loop-Raised zero arr i f v u = absurd (omega arith)
  sift_up_loop-Raised (suc k) arr i f v u = elim (Bool-cases (ltb 0 i)) [
    | inl below_root ↦
        let x = get_or arr.buffer i z in
        let y = get_or arr.buffer (parent i) z in
        let above : parent i < size arr = omega (arith, u.inside) in
        let reads : (load arr.buffer i ≡ ok x) × (load arr.buffer (parent i) ≡ ok y) = (
          load-ok arr.buffer i z (omega (arith, u.inside)),
          load-ok arr.buffer (parent i) z (omega arith),
        ) in
        rw (below_root, reads.0, reads.1)
          (elim (Bool-cases (le x y)) [
            | inl settled ↦ rw settled (
              arr,
              refl,
              record {
                reordered = Reordered-refl arr v;
                heap = λ c p q. ground (arith, u.edges c, ranked.le_rank x y);
              },
            )
            | inr rises ↦
                let moved = swapped-Reordered z arr v i (parent i) u.inside above in
                rw (rises, swap_at-ok z arr v i (parent i) u.inside above)
                  (Returns-map
                    (sift_up_loop-Raised k (swapped z arr i (parent i)) (parent i) (ground arith)
                      moved.valid
                      (up-step arr i v u (ground arith) (ground (arith, ranked.le_rank x y))))
                    λ e s. record { reordered = Reordered-trans moved s.reordered; heap = s.heap })
          ])
    | inr root ↦ rw root (
      arr,
      refl,
      record { reordered = Reordered-refl arr v; heap = λ c p q. u.edges c p q (ground arith) },
    )
  ]

  -- From a well-formed array where only the edge above `i` may be out of order SiftUp returns a
  -- heap of the same entries, if the comparison is by rank.
  pub sift_up-Raised :
      (arr : DArray A) (i : ℕ) → IsValid arr → UpInv arr i → Returns (Raised arr) (sift_up le arr i)
  unfolding sift_up
  sift_up-Raised arr i v u = sift_up_loop-Raised (i + 1) arr i (omega arith) v u
