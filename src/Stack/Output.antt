-- ===== src/Stack/Output.antt =====
-- Stack::Display and the reads of an empty stack.
use technopark_cpp.Stack.{Stack, display_from, display, minus_one, size, peek}
use technopark_cpp.Stack.Inv.{IsValid}
use native.Mathlib.Numerals.{add-one}
use technopark_cpp.Prelude.{
  Bool-cases, List, [], arith, inl, inr, leb, length, load-ok, load-undefined, ltb, ok, pos, refl,
  suc, take, take-suc, true, undefined, zero, ℕ, ℤ, ◌+◌, ◌<◌, ◌≡◌, ◌≢◌, ◌≤◌,
}

-- From index `i` the loop prints what is left of the entries in use.
display_from-ok :
    (k : ℕ) (s : Stack) (i : ℕ)
    → IsValid s
    → s.top ≢ minus_one
    → i ≤ size s
    → size s < k + i
    → display_from k s i (take i s.buffer) ≡ ok (take (size s) s.buffer)
unfolding display_from
display_from-ok zero s i v ne h f = absurd (omega arith)
display_from-ok (suc k) s i v ne h f = elim (Bool-cases (leb i s.top)) [
  | inl more ↦
      rw
        (
          more,
          load-ok s.buffer i (pos 0) (ground arith),
          ← take-suc i s.buffer (pos 0) (ground arith),
        )
        (rw add-one (display_from-ok k s (suc i) v ne (ground arith) (omega arith)))
  | inr last ↦ rw last (let e : i ≡ size s = ground arith in rw e refl)
]

-- Display() of a well-formed stack that is not empty prints its entries from the bottom to the top.
pub display-ok :
    (s : Stack) → IsValid s → s.top ≢ minus_one → display s ≡ ok (take (size s) s.buffer)
unfolding display
display-ok s v ne = display_from-ok (s.stack_size + 1) s 0 v ne (omega arith) (omega arith)

-- From any index inside the block the loop over an empty stack runs out of the block.
display_from-undefined :
    (k : ℕ) (s : Stack) (i : ℕ) (out : List ℤ)
    → IsValid s
    → s.top ≡ minus_one
    → i ≤ s.stack_size
    → s.stack_size < k + i
    → display_from k s i out ≡ undefined
unfolding display_from
display_from-undefined zero s i out v e h f = absurd (omega arith)
display_from-undefined (suc k) s i out v e h f =
    let enter : leb i s.top ≡ true = ground arith in
    elim (Bool-cases (ltb i (length s.buffer))) [
      | inl inside ↦
          rw (enter, load-ok s.buffer i (pos 0) (ground arith))
            (display_from-undefined k s (i + 1) _ v e (ground arith) (omega arith))
      | inr outside ↦ rw (enter, load-undefined s.buffer i (ground arith)) refl
    ]

-- On a well-formed empty stack, where `top_` is the largest `size_t`, Display() and Top() read past
-- the block.
pub display-empty :
    (s : Stack) → IsValid s → s.top ≡ minus_one → (display s ≡ undefined) × (peek s ≡ undefined)
unfolding display peek
display-empty s v e = (
  display_from-undefined (s.stack_size + 1) s 0 [] v e (omega arith) (omega arith),
  load-undefined s.buffer s.top (omega arith),
)
