-- ===== src/Heap/Extract.antt =====
-- heap::ExtractMax takes a greatest entry out of a heap.
use technopark_cpp.DArray.{is_empty, DArray, size, index, assign}
use technopark_cpp.DArray.Inv.{pop_back-ok, IsValid, contents}
use technopark_cpp.Heap.{extract_max}
use technopark_cpp.Heap.Order.{IsRanked, parent, key, IsHeap}
use technopark_cpp.Heap.Down.{sift_down-Sifted, DownInv}
use mathlib.Core.List.Perm
use technopark_cpp.Heap.Maximum.{root_greatest}
use technopark_cpp.Prelude.{
  Bool, Bool-cases, List, Perm, Returns, [], arith, false, get_or, get_or-set, get_or-take, inl,
  inr, length, length-set, length-take, load-ok, refl, Returns-bind, set, set-perm, snoc-perm,
  store-ok, suc, take, take-set, take-suc, zero, ℕ, ◌-◌, ◌<◌, ◌∙◌, ◌∷◌, ◌≡◌, ◌≤◌,
}

-- The first of `m + 1` entries goes out and the last takes its place.
first_out-perm :
    {A : Type 0} (z : A) (m : ℕ) (b : List A)
    → m < length b
    → Perm (get_or b 0 z ∷ take m (set b 0 (get_or b m z))) (take (suc m) b)
first_out-perm z zero b h = rw (take-suc zero b z h) (Perm.refl (get_or b 0 z ∷ []))
first_out-perm z (suc m) b h =
    let last = get_or b (suc m) z in
    let front = take (suc m) b in
    rw
      (take-suc (suc m) b z h, take-set (suc m) b 0 last, ← get_or-take (suc m) b 0 z (omega arith))
      (Perm.trans (set-perm front 0 last z (omega (arith, length-take (suc m) b (omega arith))))
        (Perm.symm (snoc-perm front last)))

module _ {A : Type 0} (gt le : A → A → Bool) (rank : A → ℕ) (ranked : IsRanked gt le rank)
    (z : A) where
  -- What ExtractMax returns: a greatest entry, and a heap of the others.
  pub record Extracted (arr : DArray A) (r : A × DArray A) : Type 0 where
    pub valid : IsValid r.1
    pub heap : IsHeap z rank r.1
    pub same : Perm (r.0 ∷ contents r.1) (contents arr)
    pub greatest : (i : ℕ) → i < size arr → key z rank arr i ≤ rank r.0

  -- The array that ExtractMax sifts: the last entry has taken the place of the first.
  abbrev moved : DArray A → DArray A
  moved arr = record arr {
    buffer = set arr.buffer 0 (get_or arr.buffer (arr.actual_size - 1) z);
    actual_size = arr.actual_size - 1;
  }

  moved-IsValid : (arr : DArray A) → IsValid arr → IsValid (moved arr)
  moved-IsValid arr v = record {
    block = length-set arr.buffer 0 _ ∙ v.block;
    used = omega arith;
    small = v.small;
  }

  moved-perm :
      (arr : DArray A)
      → IsValid arr
      → 0 < size arr
      → Perm (get_or arr.buffer 0 z ∷ contents (moved arr)) (contents arr)
  moved-perm arr v p =
      let whole : suc (arr.actual_size - 1) ≡ arr.actual_size = omega arith in
      rw whole at (first_out-perm z (arr.actual_size - 1) arr.buffer (omega arith))

  moved-DownInv :
      (arr : DArray A)
      → IsValid arr
      → IsHeap z rank arr
      → 0 < size (moved arr)
      → DownInv gt le rank ranked z 0 (moved arr) 0
  moved-DownInv arr v h p =
      let at = λ (c : ℕ).
        get_or-set arr.buffer 0 c (get_or arr.buffer (arr.actual_size - 1) z) z (omega arith) in
      record {
        inside = p;
        edges = λ c q r s t. ground (arith, at c, at (parent c), h c);
        bridged = λ c q r s t. absurd (omega arith);
      }

  -- From a well-formed heap that is not empty ExtractMax takes a greatest entry and leaves a heap
  -- of exactly the others, if the comparison is by rank.
  pub extract_max-Extracted :
      (arr : DArray A)
      → IsValid arr
      → IsHeap z rank arr
      → 0 < size arr
      → Returns (Extracted arr) (extract_max gt arr)
  unfolding extract_max index assign
  extract_max-Extracted arr v h p =
      let last = get_or arr.buffer (arr.actual_size - 1) z in
      let nonempty : is_empty arr ≡ false = ground arith in
      rw
        (
          nonempty,
          load-ok arr.buffer 0 z (omega arith),
          pop_back-ok arr v z p,
          store-ok arr.buffer 0 last (omega arith),
        )
        (elim (Bool-cases (is_empty (moved arr))) [
          | inl was_last ↦ rw was_last (
            (get_or arr.buffer 0 z, moved arr),
            refl,
            record {
              valid = moved-IsValid arr v;
              heap = λ c q r. absurd (ground arith);
              same = moved-perm arr v p;
              greatest = root_greatest rank z arr h;
            },
          )
          | inr more ↦ rw more (
              Returns-bind
                (sift_down-Sifted gt le rank ranked z 0 (moved arr) 0 (moved-IsValid arr v)
                  (moved-DownInv arr v h (ground arith)))
                λ e s. (
                  (get_or arr.buffer 0 z, e),
                  refl,
                  record {
                    valid = s.reordered.valid;
                    heap = λ c q r. s.heap c q r (omega arith);
                    same = Perm.trans (Perm.cons _ s.reordered.perm) (moved-perm arr v p);
                    greatest = root_greatest rank z arr h;
                  },
                ))
        ])
