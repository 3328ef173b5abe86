-- ===== src/Heap/Down.antt =====
-- heap::SiftDown restores the heap order below an entry that may be too small.
use technopark_cpp.DArray.{DArray, size}
use technopark_cpp.DArray.Inv.{IsValid}
use technopark_cpp.Heap.{sift_down, better, sift_down_loop}
use technopark_cpp.Heap.Order.{
  Reordered-trans, Reordered-refl, swapped-Reordered, swap_at-ok, get_or-swapped, IsRanked, parent,
  key, IsHeapFrom, Reordered, swapped,
}
use native.Mathlib.Decide.{ℕ_discrete}
use technopark_cpp.Prelude.{
  Bool, Bool-cases, Returns, add_size, ap, arith, get_or, inl, inr, load-ok, ltb, mul_size, refl,
  Returns-bind, Returns-map, suc, zero, ℕ, ◌*◌, ◌+◌, ◌<◌, ◌==◌, ◌≡◌, ◌≢◌, ◌≤◌, ◌⊎◌,
}

module _ {A : Type 0} (gt le : A → A → Bool) (rank : A → ℕ) (ranked : IsRanked gt le rank)
    (z : A) where
  -- What one test of SiftDown picks.
  record Best (arr : DArray A) (child best r : ℕ) : Type 0 where
    inside : r < size arr
    picked : (r ≡ best) ⊎ (r ≡ child)
    above_best : key z rank arr best ≤ key z rank arr r
    above_child : child < size arr → key z rank arr child ≤ key z rank arr r

  better-Best :
      (arr : DArray A) (child best : ℕ)
      → IsValid arr
      → best < size arr
      → Returns (Best arr child best) (better gt arr child best)
  unfolding better
  better-Best arr child best v h = elim (Bool-cases (ltb child (size arr))) [
    | inl there ↦ elim (Bool-cases (gt (get_or arr.buffer child z) (get_or arr.buffer best z))) [
      | inl greater ↦ (
        child,
        rw
            (
              there,
              load-ok arr.buffer child z (ground arith),
              load-ok arr.buffer best z (omega arith),
              greater,
            )
            refl,
        ground (arith, ranked.gt_rank (get_or arr.buffer child z) (get_or arr.buffer best z)),
      )
      | inr not_greater ↦ (
        best,
        rw
            (
              there,
              load-ok arr.buffer child z (ground arith),
              load-ok arr.buffer best z (omega arith),
              not_greater,
            )
            refl,
        ground (arith, ranked.gt_rank (get_or arr.buffer child z) (get_or arr.buffer best z)),
      )
    ]
    | inr absent ↦ (best, rw absent refl, ground arith)
  ]

  -- Only the edges below `i` may be out of order, and the children of `i` do not exceed the parent
  -- of `i`.
  pub record DownInv (lo : ℕ) (arr : DArray A) (i : ℕ) : Type 0 where
    pub inside : i < size arr
    pub edges :
        (c : ℕ)
        → 0 < c
        → c < size arr
        → lo ≤ parent c
        → parent c ≢ i
        → key z rank arr c ≤ key z rank arr (parent c)
    pub bridged :
        (c : ℕ)
        → 0 < c
        → c < size arr
        → parent c ≡ i
        → 0 < i
        → lo ≤ parent i
        → key z rank arr c ≤ key z rank arr (parent i)

  -- What a sift leaves behind.
  pub record Sifted (lo : ℕ) (from to : DArray A) : Type 0 where
    pub reordered : Reordered from to
    pub heap : IsHeapFrom z rank lo to

  -- Largest of an entry and its children.
  record Largest (arr : DArray A) (i r : ℕ) : Type 0 where
    inside : r < size arr
    near : (r ≡ i) ⊎ (0 < r) × (parent r ≡ i)
    above : key z rank arr i ≤ key z rank arr r
    above_children :
        (c : ℕ) → 0 < c → c < size arr → parent c ≡ i → key z rank arr c ≤ key z rank arr r

  Largest-Largest :
      (arr : DArray A) (i w r : ℕ)
      → Best arr (2 * i + 1) i w
      → Best arr (2 * i + 2) w r
      → Largest arr i r
  Largest-Largest arr i w r p q = record {
    inside = q.inside;
    near = ground arith;
    above = omega arith;
    above_children = λ c positive inside child. elim (ℕ_discrete c (2 * i + 1)) [
      | yes e ↦ omega (arith, p.above_child (omega arith), ap (key z rank arr) e)
      | no ne ↦
          let e : c ≡ 2 * i + 2 = omega arith in
          omega (arith, q.above_child (omega arith), ap (key z rank arr) e)
    ];
  }

  down-step :
      (lo : ℕ) (arr : DArray A) (i l : ℕ)
      → IsValid arr
      → DownInv lo arr i
      → Largest arr i l
      → l ≢ i
      → DownInv lo (swapped z arr i l) l
  down-step lo arr i l v d m ne =
      let at = get_or-swapped z arr v i l d.inside m.inside in
      record {
        inside = m.inside;
        edges = λ c p q r s.
            ground (arith, at c, at (parent c), d.edges c, d.bridged l, m.above_children c);
        bridged = λ c p q child r s. ground (arith, at c, at i, d.edges c);
      }

  settled-heap :
      (lo : ℕ) (arr : DArray A) (i l : ℕ)
      → DownInv lo arr i
      → Largest arr i l
      → l ≡ i
      → IsHeapFrom z rank lo arr
  settled-heap lo arr i l d m e c p q r = elim (ℕ_discrete (parent c) i) [
    | yes child ↦
        omega
          (arith, m.above_children c p q child, ap (key z rank arr) e, ap (key z rank arr) child)
    | no other ↦ d.edges c p q r other
  ]

  sift_down_loop-Sifted :
      (k lo : ℕ) (arr : DArray A) (i : ℕ)
      → size arr < k + i
      → IsValid arr
      → DownInv lo arr i
      → Returns (Sifted lo arr) (sift_down_loop gt k arr i)
  unfolding sift_down_loop
  sift_down_loop-Sifted zero lo arr i f v d = absurd (omega (arith, d.inside))
  sift_down_loop-Sifted (suc k) lo arr i f v d =
      let left : add_size (mul_size 2 i) 1 ≡ 2 * i + 1 = omega (arith, d.inside) in
      let right : add_size (mul_size 2 i) 2 ≡ 2 * i + 2 = omega (arith, d.inside) in
      rw (left, right)
        (Returns-bind (better-Best arr (2 * i + 1) i v d.inside) λ w p.
          Returns-bind (better-Best arr (2 * i + 2) w v p.inside) λ l q.
            let m = Largest-Largest arr i w l p q in
            elim (Bool-cases (l == i)) [
              | inl settled ↦ rw settled (
                arr,
                refl,
                record {
                  reordered = Reordered-refl arr v;
                  heap = settled-heap lo arr i l d m (ground arith);
                },
              )
              | inr sinks ↦
                  rw (sinks, swap_at-ok z arr v i l d.inside m.inside)
                    (Returns-map
                      (sift_down_loop-Sifted k lo (swapped z arr i l) l (ground arith)
                        (swapped-Reordered z arr v i l d.inside m.inside).valid
                        (down-step lo arr i l v d m (ground arith)))
                      λ e s. record {
                        reordered =
                            Reordered-trans (swapped-Reordered z arr v i l d.inside m.inside)
                              s.reordered;
                        heap = s.heap;
                      })
            ])

  -- From a well-formed array where, from `lo` on, only the edges below `i` may be out of order
  -- SiftDown returns an array of the same entries in heap order from `lo` on, if the comparison is
  -- by rank.
  pub sift_down-Sifted :
      (lo : ℕ) (arr : DArray A) (i : ℕ)
      → IsValid arr
      → DownInv lo arr i
      → Returns (Sifted lo arr) (sift_down gt arr i)
  unfolding sift_down
  sift_down-Sifted lo arr i v d = sift_down_loop-Sifted (size arr + 1) lo arr i (omega arith) v d
