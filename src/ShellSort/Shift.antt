-- ===== src/ShellSort/Shift.antt =====
-- The innermost loop of shell_sort moves a gap through the block; with `tmp` in the gap the block
-- keeps its entries.
use mathlib.Core.List.Perm
use technopark_cpp.ShellSort.{shift_loop}
use technopark_cpp.Prelude.{
  Bool-cases, List, Perm, Returns, Returns-map, ap, arith, get_or, get_or-set, inl, inr, leb,
  leb→le, length, length-set, load-ok, ltb_ℤ, pos, refl, set, set-perm, store-ok, suc, true, zero,
  ℕ, ℤ, ◌+◌, ◌-◌, ◌<◌, ◌∷◌, ◌≡◌, ◌≢◌, ◌≤ℤ◌, ◌≤◌,
}

-- Out of range, and only there, a read gives this.
abbrev pub at : List ℤ → ℕ → ℤ
at a i = get_or a i (pos 0)

-- No entry below `n` is smaller than one before it.
abbrev pub OrderedTo : ℕ → List ℤ → Type 0
OrderedTo n a = (x y : ℕ) → x < y → y < n → at a x ≤ℤ at a y

-- The entries up to `i` but the one at `j` are in order, and those behind it are not below `tmp`.
pub record OrderedBut (i j : ℕ) (tmp : ℤ) (a : List ℤ) : Type 0 where
  pub others : (x y : ℕ) → x < y → y ≤ i → y ≢ j → at a x ≤ℤ at a y
  pub above : (y : ℕ) → j < y → y ≤ i → tmp ≤ℤ at a y

-- The loop ended at `j` with the block `b`: `tmp` written there makes a permutation of the block,
-- and for the gap 1 the entry before it is not greater.
pub record Shifted (h i : ℕ) (tmp : ℤ) (j : ℕ) (a : List ℤ) (r : ℕ × List ℤ) : Type 0 where
  pub inside : r.0 < length r.1
  pub low : r.0 ≤ j
  pub perm : Perm (set r.1 r.0 tmp) (set a j tmp)
  pub ordered : h ≡ 1 → OrderedBut i j tmp a → OrderedBut i r.0 tmp r.1
  pub below : h ≡ 1 → 0 < r.0 → at r.1 (r.0 - 1) ≤ℤ tmp

-- One round, seen with `tmp` in the gap: it is an exchange.
round-perm :
    (a : List ℤ) (i j : ℕ) (tmp : ℤ)
    → i < length a
    → j < length a
    → i ≢ j
    → Perm (set (set a j (at a i)) i tmp) (set a j tmp)
round-perm a i j tmp hi hj ne =
    let x = at a i in
    let b = set a j x in
    let inside : i < length b = omega (arith, length-set a j x) in
    let same : at b i ≡ x = ground (arith, get_or-set a j i x (pos 0) hj) in
    let first : Perm (x ∷ set b i tmp) (tmp ∷ b) = rw same at (set-perm b i tmp (pos 0) inside) in
    let second = set-perm a j x (pos 0) hj in
    let third = set-perm a j tmp (pos 0) hj in
    Perm.cons_inv {a = x} (
      Perm.cons_inv {a = at a j} (
        Perm.trans (Perm.cons (at a j) first) (
          Perm.trans (Perm.swap tmp (at a j) b) (
            Perm.trans (Perm.cons tmp second) (
              Perm.trans (Perm.swap x tmp a)
                (Perm.trans (Perm.cons x (Perm.symm third)) (Perm.swap (at a j) x _)))))))

-- The gap moves down one place past a greater entry.
shift-OrderedBut :
    (i j g : ℕ) (tmp : ℤ) (a : List ℤ)
    → g + 1 ≡ j
    → j < length a
    → ltb_ℤ tmp (at a g) ≡ true
    → OrderedBut i j tmp a
    → OrderedBut i g tmp (set a j (at a g))
shift-OrderedBut i j g tmp a hj hl less o = record {
  others = λ x y p q ne. ground (
    arith,
    get_or-set a j x (at a g) (pos 0) hl,
    get_or-set a j y (at a g) (pos 0) hl,
    o.others x y p q,
    o.others x g,
    o.others g y,
    ap (at a),
  );
  above = λ y p q. ground (arith, get_or-set a j y (at a g) (pos 0) hl, o.above y);
}

-- With more rounds than `j` the loop ends at a place for `tmp`.
pub shift_loop-Shifted :
    (k h i : ℕ) (tmp : ℤ) (j : ℕ) (a : List ℤ)
    → 0 < h
    → j < k
    → j < length a
    → Returns (Shifted h i tmp j a) (shift_loop k h tmp j a)
unfolding shift_loop
shift_loop-Shifted zero h i tmp j a hh hk hl = absurd (omega arith)
shift_loop-Shifted (suc k) h i tmp j a hh hk hl =
    let x = at a (j - h) in
    elim (Bool-cases (leb h j)) [
      | inl more ↦
          let reach = leb→le h j more in
          elim (Bool-cases (ltb_ℤ tmp x)) [
            | inl less ↦
                let moved = set a j x in
                rw (more, load-ok a (j - h) (pos 0) (omega arith), less, store-ok a j x hl)
                  (Returns-map
                    (shift_loop-Shifted k h i tmp (j - h) moved hh (omega arith)
                      (omega (arith, length-set a j x)))
                    λ r s. record {
                      inside = s.inside;
                      low = omega (arith, s.low);
                      perm =
                          Perm.trans s.perm
                            (round-perm a (j - h) j tmp (omega arith) hl (omega arith));
                      ordered = λ one o.
                          s.ordered one
                            (shift-OrderedBut i j (j - h) tmp a (omega arith) hl less o);
                      below = s.below;
                    })
            | inr stop ↦
                rw (more, load-ok a (j - h) (pos 0) (omega arith), stop)
                  (
                    (j, a),
                    refl,
                    record {
                      inside = hl;
                      low = omega arith;
                      perm = Perm.refl _;
                      ordered = λ _ o. o;
                      below =
                          λ one _. let same : j - 1 ≡ j - h = omega arith in rw same (ground arith);
                    },
                  )
          ]
      | inr done ↦ rw done (
        (j, a),
        refl,
        record {
          inside = hl;
          low = omega arith;
          perm = Perm.refl _;
          ordered = λ _ o. o;
          below = λ one p. absurd (ground arith);
        },
      )
    ]

-- With `tmp` written at the place that the loop found, the entries up to `i` are in order.
pub place-OrderedTo :
    (i p : ℕ) (tmp : ℤ) (b : List ℤ)
    → p < length b
    → OrderedBut i p tmp b
    → (0 < p → at b (p - 1) ≤ℤ tmp)
    → OrderedTo (i + 1) (set b p tmp)
place-OrderedTo i p tmp b hp o below x y lt bound = ground (
  arith,
  get_or-set b p x tmp (pos 0) hp,
  get_or-set b p y tmp (pos 0) hp,
  o.others x y lt,
  o.others x (p - 1),
  o.above y,
  below,
  ap (at b),
)
