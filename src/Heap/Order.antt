-- ===== src/Heap/Order.antt =====
-- The order of a heap, and what an exchange of two entries does to an array.
use mathlib.Core.List.Perm
use technopark_cpp.DArray.{DArray, size}
use technopark_cpp.DArray.Inv.{length-contents, IsValid, contents}
use technopark_cpp.Heap.{swap_at}
use technopark_cpp.Prelude.{
  Bool, Perm, arith, get_or, get_or-swap, if◌then◌else◌, leb, length-set, length-swap, load-ok, ltb,
  ok, refl, set, store-ok, swap, swap-perm, take-swap, ℕ, ◌-◌, ◌/◌, ◌<◌, ◌==◌, ◌∙◌, ◌≡◌, ◌≤◌,
}

-- What the theorems on order assume of `double`: the doubles that are not NaN are finitely many and
-- `>` and `<=` compare them by their place in one order, where 0.0 and -0.0 share a place. `A`
-- stands for these doubles there.
pub record IsRanked {A : Type 0} (gt le : A → A → Bool) (rank : A → ℕ) : Type 0 where
  pub gt_rank : (x y : A) → gt x y ≡ ltb (rank y) (rank x)
  pub le_rank : (x y : A) → le x y ≡ leb (rank x) (rank y)

abbrev pub parent : ℕ → ℕ
parent c = (c - 1) / 2

module _ {A : Type 0} (z : A) (rank : A → ℕ) where
  -- The rank of the entry at an index; `z` is read only out of range.
  abbrev pub key : DArray A → ℕ → ℕ
  key arr i = rank (get_or arr.buffer i z)

  -- No entry is greater than its parent, where the parent's index is at least `lo`.
  abbrev pub IsHeapFrom : ℕ → DArray A → Type 0
  IsHeapFrom lo arr =
      (c : ℕ) → 0 < c → c < size arr → lo ≤ parent c → key arr c ≤ key arr (parent c)

  abbrev pub IsHeap : DArray A → Type 0
  IsHeap arr = (c : ℕ) → 0 < c → c < size arr → key arr c ≤ key arr (parent c)

-- `to` has the entries of `from`, in some order, and the same size.
pub record Reordered {A : Type 0} (from to : DArray A) : Type 0 where
  pub valid : IsValid to
  pub same_size : to.actual_size ≡ from.actual_size
  pub same_capacity : to.buf_size ≡ from.buf_size
  pub perm : Perm (contents to) (contents from)

pub Reordered-refl : {A : Type 0} (arr : DArray A) → IsValid arr → Reordered arr arr
Reordered-refl arr v = record {
  valid = v;
  same_size = refl;
  same_capacity = refl;
  perm = Perm.refl (contents arr);
}

pub Reordered-trans :
    {A : Type 0} {a b c : DArray A} → Reordered a b → Reordered b c → Reordered a c
Reordered-trans r s = record {
  valid = s.valid;
  same_size = s.same_size ∙ r.same_size;
  same_capacity = s.same_capacity ∙ r.same_capacity;
  perm = Perm.trans s.perm r.perm;
}

module _ {A : Type 0} (z : A) where
  -- The array after the exchange.
  abbrev pub swapped : DArray A → ℕ → ℕ → DArray A
  swapped arr i j = record arr { buffer = swap arr.buffer i j z }

  module _ (arr : DArray A) (valid : IsValid arr) (i j : ℕ) (hi : i < size arr)
      (hj : j < size arr) where
    pub swap_at-ok : swap_at arr i j ≡ ok (swapped arr i j)
    unfolding swap_at swap
    swap_at-ok = ground (
      arith,
      load-ok arr.buffer i z,
      load-ok arr.buffer j z,
      store-ok arr.buffer i (get_or arr.buffer j z),
      store-ok (set arr.buffer i (get_or arr.buffer j z)) j (get_or arr.buffer i z),
      length-set arr.buffer i (get_or arr.buffer j z),
    )

    pub swapped-Reordered : Reordered arr (swapped arr i j)
    swapped-Reordered = record {
      valid = record {
        block = length-swap arr.buffer i j z ∙ valid.block;
        used = valid.used;
        small = valid.small;
      };
      same_size = refl;
      same_capacity = refl;
      perm =
          let size_eq = length-contents arr valid in
          rw (take-swap arr.actual_size arr.buffer i j z hi hj)
            (swap-perm (contents arr) i j z (omega (arith, size_eq)) (omega (arith, size_eq)));
    }

    pub get_or-swapped :
        (c : ℕ)
        → get_or (swapped arr i j).buffer c z ≡ (
            if j == c
            then get_or arr.buffer i z
            else if i == c
            then get_or arr.buffer j z
            else get_or arr.buffer c z)
    get_or-swapped c = get_or-swap arr.buffer i j z (omega arith) (omega arith) c
