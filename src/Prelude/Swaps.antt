-- ===== src/Prelude/Swaps.antt =====
-- Exchanging two entries of a list, and what it keeps.
use Prim.Native.Nat.{ℕ, zero, suc, ◌<◌}
use mathlib.Core.Path.{◌≡◌, refl, ◌∙◌, ap}
use mathlib.Core.Logic.{∥∥₁_elim}
use mathlib.Core.List.{List, [], ◌∷◌, ◌++◌, Perm, Permᴰ, perm_middle, append-nil}
use mathlib.Core.List.Perm
use native.Mathlib.Nat.{ℕ_set}
use native.Mathlib.Omega.{arith}
use technopark_cpp.Prelude.Tests.{◌==◌, if◌then◌else◌}
use technopark_cpp.Prelude.Lists.{
  length, get_or, set, length-set, get_or-set, take, take-set, get_or-take,
}

module _ {ℓ} {A : Type ℓ} where
  Permᴰ-length : {from to : List A} → Permᴰ from to → length from ≡ length to
  Permᴰ-length (Permᴰ.trans first second) = Permᴰ-length first ∙ Permᴰ-length second
  Permᴰ-length (Permᴰ.swap _ _) = refl
  Permᴰ-length (Permᴰ.cons _ tails) = ap suc (Permᴰ-length tails)
  Permᴰ-length Permᴰ.nil = refl

  pub length-perm : {xs ys : List A} → Perm xs ys → length xs ≡ length ys
  length-perm p = ∥∥₁_elim p (ℕ_set _ _) Permᴰ-length

  pub snoc-perm : (xs : List A) (x : A) → Perm (xs ++ x ∷ []) (x ∷ xs)
  snoc-perm xs x = rw (append-nil xs) at (perm_middle {a = x} xs [])

  -- A write trades the entry that was there for the new one.
  pub set-perm :
      (xs : List A) (i : ℕ) (v d : A) → i < length xs → Perm (get_or xs i d ∷ set xs i v) (v ∷ xs)
  set-perm [] i v d h = absurd (omega arith)
  set-perm (x ∷ xs) zero v d h = Perm.swap v x xs
  set-perm (x ∷ xs) (suc i) v d h =
      Perm.trans (Perm.swap x _ _)
        (Perm.trans (Perm.cons x (set-perm xs i v d (omega arith))) (Perm.swap v x xs))

  -- `std::swap(b[i], b[j])`; the default `d` is read only out of range.
  unfoldable pub swap : List A → ℕ → ℕ → A → List A
  swap b i j d = set (set b i (get_or b j d)) j (get_or b i d)

  pub length-swap : (b : List A) (i j : ℕ) (d : A) → length (swap b i j d) ≡ length b
  unfolding swap
  length-swap b i j d = length-set (set b i _) j _ ∙ length-set b i _

  module _ (b : List A) (i j : ℕ) (d : A) (hi : i < length b) (hj : j < length b) where
    pub get_or-swap :
        (c : ℕ)
        → get_or (swap b i j d) c d
          ≡ (if j == c then get_or b i d else if i == c then get_or b j d else get_or b c d)
    unfolding swap
    get_or-swap c = ground (
      arith,
      length-set b i (get_or b j d),
      get_or-set (set b i (get_or b j d)) j c (get_or b i d) d,
      get_or-set b i c (get_or b j d) d hi,
    )

    pub swap-perm : Perm (swap b i j d) b
    unfolding swap
    swap-perm =
        let c = set b i (get_or b j d) in
        let same : get_or c j d ≡ get_or b j d =
          ground (arith, get_or-set b i j (get_or b j d) d hi) in
        let inside : j < length c = omega (arith, length-set b i (get_or b j d)) in
        let trade = rw same at (set-perm c j (get_or b i d) d inside) in
        Perm.cons_inv (Perm.trans trade (set-perm b i (get_or b j d) d hi))

  pub take-swap :
      (n : ℕ) (b : List A) (i j : ℕ) (d : A)
      → i < n
      → j < n
      → take n (swap b i j d) ≡ swap (take n b) i j d
  unfolding swap
  take-swap n b i j d hi hj =
      rw
        (
          take-set n (set b i (get_or b j d)) j (get_or b i d),
          take-set n b i (get_or b j d),
          get_or-take n b i d hi,
          get_or-take n b j d hj,
        )
        refl
