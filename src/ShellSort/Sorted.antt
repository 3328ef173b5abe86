-- ===== src/ShellSort/Sorted.antt =====
-- shell_sort returns its block in order.
use technopark_cpp.ShellSort.{pass_loop, gap_loop, shell_sort}
use technopark_cpp.ShellSort.Gaps.{next, IsGap, first_gap-IsGap, one}
use technopark_cpp.ShellSort.Shift.{OrderedBut, at, place-OrderedTo, OrderedTo, shift_loop-Shifted}
use mathlib.Core.List.Perm
use technopark_cpp.Prelude.{
  List, Perm, Returns, Returns-bind, Returns-map, arith, int_limit, length, length-perm, load-ok,
  lt→ltb, ok, pos, refl, set, set-get_or, store-ok, suc, zero, ℕ, ℤ, ◌*◌, ◌+◌, ◌-◌, ◌/◌, ◌<◌, ◌≡◌,
  ◌≤◌,
}

-- What a pass with the gap `h` over the entries up to `n` makes of a block.
record Passed (h n : ℕ) (a b : List ℤ) : Type 0 where
  perm : Perm b a
  ordered : h ≡ 1 → OrderedTo n b

-- The block is a permutation of `a` and in order.
pub record Sorted (a b : List ℤ) : Type 0 where
  pub perm : Perm b a
  pub ordered : OrderedTo (length b) b

start-OrderedBut : (i : ℕ) (tmp : ℤ) (a : List ℤ) → OrderedTo i a → OrderedBut i i tmp a
start-OrderedBut i tmp a o = record {
  others = λ x y p q ne. o x y p (omega arith);
  above = λ y p q. absurd (omega arith);
}

pass_loop-Passed :
    (k h i n : ℕ) (a : List ℤ)
    → 0 < h
    → n ≡ k + i
    → (0 < k → n ≤ length a)
    → (h ≡ 1 → OrderedTo i a)
    → Returns (Passed h n a) (pass_loop k h i a)
unfolding pass_loop
pass_loop-Passed zero h i n a hh total bound o =
    (a, refl, record { perm = Perm.refl a; ordered = λ first x y p q. o first x y p (omega arith) })
pass_loop-Passed (suc k) h i n a hh total bound o =
    let tmp = at a i in
    let inside : n ≤ length a = bound (omega arith) in
    rw (load-ok a i (pos 0) (omega arith)) (
      Returns-bind (shift_loop-Shifted (i + 1) h i tmp i a hh (omega arith) (omega arith)) λ r s.
        let b = set r.1 r.0 tmp in
        let whole : Perm b a = rw (set-get_or a i (pos 0)) at s.perm in
        rw (store-ok r.1 r.0 tmp s.inside) (
          Returns-map
            (pass_loop-Passed k h (i + 1) n b hh (omega arith)
              (λ _. omega (arith, length-perm whole))
              λ first.
                place-OrderedTo i r.0 tmp r.1 s.inside
                  (s.ordered first (start-OrderedBut i tmp a (o first))) (s.below first))
            λ c q. record { perm = Perm.trans q.perm whole; ordered = q.ordered }))

gap_loop-zero : (k n : ℕ) (a : List ℤ) → 0 < k → gap_loop k n 0 a ≡ ok a
unfolding gap_loop
gap_loop-zero zero n a p = absurd (omega arith)
gap_loop-zero (suc k) n a p = refl

-- From a gap on, with more rounds than its size, the block is sorted.
gap_loop-Sorted :
    (k n : ℕ) {h : ℕ} (a : List ℤ)
    → IsGap h
    → length a ≡ n
    → h < k
    → Returns (Sorted a) (gap_loop k n h a)
unfolding gap_loop
gap_loop-Sorted zero n a g e f = absurd (omega arith)
gap_loop-Sorted (suc k) n a one e f =
    Returns-bind
      (pass_loop-Passed (n - 1) 1 1 (n - 1 + 1) a (omega arith) refl (λ p. omega arith)
        λ _ x y p q. absurd (omega arith))
      λ b q. (
        b,
        gap_loop-zero k n b (omega arith),
        record {
          perm = q.perm;
          ordered = λ x y lt bound. q.ordered refl x y lt (omega (arith, length-perm q.perm));
        },
      )
gap_loop-Sorted (suc k) n a (next {h} g) e f =
    let third : (3 * h + 1) / 3 ≡ h = omega arith in
    rw (lt→ltb 0 (3 * h + 1) (omega arith), third)
      (Returns-bind
        (pass_loop-Passed (n - (3 * h + 1)) (3 * h + 1) (3 * h + 1) (n - (3 * h + 1) + (3 * h + 1))
          a (omega arith) refl (λ p. omega arith) λ small. λ x y p q. absurd (omega arith))
        λ b q.
          Returns-map (gap_loop-Sorted k n b g (omega (arith, length-perm q.perm)) (omega arith))
            λ c s. record { perm = Perm.trans s.perm q.perm; ordered = s.ordered })

-- For a block of fewer than 2 ^ 31 entries shell_sort returns a permutation of it, in order.
pub shell_sort-Sorted :
    (my_array : List ℤ)
    → length my_array < int_limit
    → Returns (Sorted my_array) (shell_sort my_array (length my_array))
unfolding shell_sort
shell_sort-Sorted my_array small =
    Returns-bind
      (first_gap-IsGap (length my_array + 1) (length my_array) 1 one (omega arith) (omega arith)
        (omega arith))
      λ h g. gap_loop-Sorted (h + 1) (length my_array) my_array g refl (omega arith)
