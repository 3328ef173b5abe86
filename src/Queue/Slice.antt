-- ===== src/Queue/Slice.antt =====
-- Runs of consecutive entries of a block.
use native.Mathlib.Nat.{add-zero}
use technopark_cpp.Prelude.{
  List, [], ap, ap₂, arith, get_or, get_or-set, inr, length, pos, refl, set, suc, zero, ℕ, ℤ, ◌++◌,
  ◌+◌, ◌-◌, ◌<◌, ◌∷◌, ◌≡◌, ◌≤◌, ◌⊎◌,
}

abbrev pub slice : List ℤ → ℕ → ℕ → List ℤ
slice b i zero = []
slice b i (suc k) = get_or b i (pos 0) ∷ slice b (suc i) k

pub length-slice : (b : List ℤ) (i k : ℕ) → length (slice b i k) ≡ k
length-slice b i zero = refl
length-slice b i (suc k) = ap suc (length-slice b (suc i) k)

-- A write before or after the run does not touch it.
pub slice-set_ne :
    (b : List ℤ) (i k j : ℕ) (v : ℤ)
    → j < length b
    → (j < i) ⊎ (i + k ≤ j)
    → slice (set b j v) i k ≡ slice b i k
slice-set_ne b i zero j v h o = refl
slice-set_ne b i (suc k) j v h o =
    ap₂ ◌∷◌ (ground (arith, get_or-set b j i v (pos 0) h))
      (slice-set_ne b (suc i) k j v h (ground arith))

pub slice-suc :
    (b : List ℤ) (i k : ℕ) → slice b i (suc k) ≡ slice b i k ++ get_or b (i + k) (pos 0) ∷ []
slice-suc b i zero = rw add-zero refl
slice-suc b i (suc k) =
    let e : i + suc k ≡ suc i + k = omega arith in
    rw e (ap (◌∷◌ (get_or b i (pos 0))) (slice-suc b (suc i) k))

-- Writing just past a run extends it.
pub slice-set_end :
    (b : List ℤ) (i k j : ℕ) (v : ℤ)
    → j < length b
    → i ≤ j
    → k + i ≡ j + 1
    → slice (set b j v) i k ≡ slice b i (j - i) ++ v ∷ []
slice-set_end b i zero j v h o e = absurd (omega arith)
slice-set_end b i (suc k) j v h o e =
    let short : j - i ≡ k = omega arith in
    let there : i + k ≡ j = omega arith in
    rw (short, slice-suc (set b j v) i k, there)
      (ap₂ (λ xs x. xs ++ x ∷ []) (slice-set_ne b i k j v h (inr (omega arith)))
        (ground (arith, get_or-set b j j v (pos 0) h)))

-- A run without its first entry.
pub slice-cons :
    (b : List ℤ) (i k : ℕ) → 0 < k → slice b i k ≡ get_or b i (pos 0) ∷ slice b (i + 1) (k - 1)
slice-cons b i zero h = absurd (omega arith)
slice-cons b i (suc k) h =
    let e : i + 1 ≡ suc i = omega arith in let d : suc k - 1 ≡ k = omega arith in rw (e, d) refl

-- A run without its last entry, `j`.
pub slice-snoc :
    (b : List ℤ) (i k j : ℕ)
    → i + k ≡ j + 1
    → 0 < k
    → slice b i k ≡ slice b i (k - 1) ++ get_or b j (pos 0) ∷ []
slice-snoc b i zero j e h = absurd (omega arith)
slice-snoc b i (suc k) j e h =
    let d : suc k - 1 ≡ k = omega arith in
    let there : i + k ≡ j = omega arith in rw (d, slice-suc b i k, there) refl
