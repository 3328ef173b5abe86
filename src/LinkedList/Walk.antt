-- ===== src/LinkedList/Walk.antt =====
-- LinkedList::Display and Search walk the nodes in order.
use technopark_cpp.LinkedList.{
  Ptr, null, node, Memory, LinkedList, display_loop, display, search_loop, search_val,
}
use technopark_cpp.LinkedList.Chain.{Cells, first, Chain, IsList, deref-ok}
use technopark_cpp.Prelude.{
  Bool-cases, List, [], ap, append-nil, append_assoc, arith, eqb_ℤ, eqb_ℤ_iff, false, inl, inr,
  length, ok, refl, some, suc, zero, ℕ, ℤ, ◌++◌, ◌<◌, ◌==◌, ◌∙◌, ◌∷◌, ◌≡◌, ◌≢◌,
}

-- The nodes of the row stand in memory, linked by `next` up to `after`.
abbrev pub Forward : Memory → Cells → Ptr → Type 0
Forward m [] after = Unit {0}
Forward m ((a, v) ∷ xs) after =
    (a ≢ null) × ((p : Ptr) × (m a ≡ some (node v (first xs after) p))) × Forward m xs after

pub Chain-Forward :
    (m : Memory) (before : Ptr) (xs : Cells) (after : Ptr)
    → Chain m before xs after
    → Forward m xs after
Chain-Forward m before [] after c = tt
Chain-Forward m before ((a, v) ∷ xs) after c = (c.0, (before, c.1), Chain-Forward m a xs after c.2)

abbrev pub values : Cells → List ℤ
values [] = []
values ((a, v) ∷ xs) = v ∷ values xs

pub display_loop-Forward :
    (k : ℕ) (m : Memory) (xs : Cells) (out : List ℤ)
    → Forward m xs null
    → length xs < k
    → display_loop k (first xs null) m out ≡ ok (out ++ values xs)
unfolding display_loop
display_loop-Forward zero m xs out c f = absurd (omega arith)
display_loop-Forward (suc k) m [] out c f = rw append-nil refl
display_loop-Forward (suc k) m ((a, v) ∷ xs) out c f =
    let live : (a == null) ≡ false = let away = c.0 in ground arith in
    rw (live, deref-ok m a (node v (first xs null) c.1.0) c.0 c.1.1)
      (display_loop-Forward k m xs (out ++ v ∷ []) c.2 (omega arith)
        ∙ ap ok (append_assoc out (v ∷ []) (values xs)))

-- With more rounds than nodes Display prints the values of a list in order.
pub display-values :
    (k : ℕ) (m : Memory) (l : LinkedList) (xs : Cells)
    → IsList m l xs
    → length xs < k
    → display k l m ≡ ok (values xs)
unfolding display
display-values k m l xs is f =
    rw is.at_head (display_loop-Forward k m xs [] (Chain-Forward m null xs null is.chain) f)

-- No node of the row has this value.
abbrev pub Absent : ℤ → Cells → Type 0
Absent w [] = Unit {0}
Absent w ((a, v) ∷ xs) = (v ≢ w) × Absent w xs

search_loop-first :
    (k : ℕ) (m : Memory) (xs ys : Cells) (a : Ptr) (v : ℤ)
    → Forward m (xs ++ (a, v) ∷ ys) null
    → Absent v xs
    → length xs < k
    → search_loop k (first (xs ++ (a, v) ∷ ys) null) v m ≡ ok a
unfolding search_loop
search_loop-first zero m xs ys a v c o f = absurd (omega arith)
search_loop-first (suc k) m [] ys a v c o f =
    let live : (a == null) ≡ false = let away = c.0 in ground arith in
    rw (live, deref-ok m a (node v (first ys null) c.1.0) c.0 c.1.1, (eqb_ℤ_iff v v).1 refl) refl
search_loop-first (suc k) m ((b, w) ∷ xs) ys a v c o f =
    let live : (b == null) ≡ false = let away = c.0 in ground arith in
    elim (Bool-cases (eqb_ℤ w v)) [
      | inl same ↦ absurd (o.0 ((eqb_ℤ_iff w v).0 same))
      | inr other ↦
          rw (live, deref-ok m b (node w (first (xs ++ (a, v) ∷ ys) null) c.1.0) c.0 c.1.1, other)
            (search_loop-first k m xs ys a v c.2 o.1 (omega arith))
    ]

search_loop-none :
    (k : ℕ) (m : Memory) (xs : Cells) (v : ℤ)
    → Forward m xs null
    → Absent v xs
    → length xs < k
    → search_loop k (first xs null) v m ≡ ok null
unfolding search_loop
search_loop-none zero m xs v c o f = absurd (omega arith)
search_loop-none (suc k) m [] v c o f = refl
search_loop-none (suc k) m ((b, w) ∷ xs) v c o f =
    let live : (b == null) ≡ false = let away = c.0 in ground arith in
    elim (Bool-cases (eqb_ℤ w v)) [
      | inl same ↦ absurd (o.0 ((eqb_ℤ_iff w v).0 same))
      | inr other ↦
          rw (live, deref-ok m b (node w (first xs null) c.1.0) c.0 c.1.1, other)
            (search_loop-none k m xs v c.2 o.1 (omega arith))
    ]

-- With more rounds than nodes before it Search returns the first node that has the value.
pub search_val-first :
    (k : ℕ) (m : Memory) (l : LinkedList) (xs ys : Cells) (a : Ptr) (v : ℤ)
    → IsList m l (xs ++ (a, v) ∷ ys)
    → Absent v xs
    → length xs < k
    → search_val k l v m ≡ ok a
unfolding search_val
search_val-first k m l xs ys a v is o f =
    rw is.at_head
      (search_loop-first k m xs ys a v (Chain-Forward m null (xs ++ (a, v) ∷ ys) null is.chain) o f)

-- With more rounds than nodes Search returns null if no node has the value.
pub search_val-none :
    (k : ℕ) (m : Memory) (l : LinkedList) (xs : Cells) (v : ℤ)
    → IsList m l xs
    → Absent v xs
    → length xs < k
    → search_val k l v m ≡ ok null
unfolding search_val
search_val-none k m l xs v is o f =
    rw is.at_head (search_loop-none k m xs v (Chain-Forward m null xs null is.chain) o f)
