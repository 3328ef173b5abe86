-- ===== src/DArray/Access.antt =====
-- DArray::Display, and PushBack followed by PopBack.
use technopark_cpp.DArray.{display_from, DArray, push_back, pop_back, display}
use technopark_cpp.DArray.Inv.{pop_back-ok, IsValid, contents}
use technopark_cpp.DArray.Growth.{push_back-Appended}
use native.Mathlib.Numerals.{add-one}
use technopark_cpp.Prelude.{
  Returns, Returns-bind, [], arith, get_or, load-ok, ok, refl, snoc-injective, suc, sym, take,
  take-suc, zero, ℕ, ◌++◌, ◌+◌, ◌-◌, ◌<◌, ◌>>=◌, ◌∙◌, ◌∷◌, ◌≡◌,
}

module _ {A : Type 0} where
  display_from-ok :
      (z : A) (k : ℕ) (d : DArray A) (i : ℕ)
      → IsValid d
      → i + k ≡ d.actual_size
      → display_from k d i (take i d.buffer) ≡ ok (contents d)
  unfolding display_from
  display_from-ok z zero d i v h = let e : i ≡ d.actual_size = omega arith in rw e refl
  display_from-ok z (suc k) d i v h =
      rw (load-ok d.buffer i z (omega arith), ← take-suc i d.buffer z (omega arith))
        (rw add-one (display_from-ok z k d (suc i) v (omega arith)))

  -- Display prints the entries of a well-formed array in order.
  pub display-contents : (z : A) (d : DArray A) → IsValid d → display d ≡ ok (contents d)
  unfolding display
  display-contents z d v = display_from-ok z d.actual_size d 0 v (omega arith)

  -- On a well-formed array with room PopBack takes
  -- back what PushBack appended and leaves the entries that were there before.
  pub pop_back-push_back :
      (fresh : ℕ → A) (z : A) (d : DArray A) (value : A)
      → IsValid d
      → d.actual_size < d.buf_size
      → Returns
          (λ r. (r.0 ≡ value) × IsValid r.1 × (contents r.1 ≡ contents d))
          (push_back fresh d value >>= pop_back)
  pop_back-push_back fresh z d value v room =
      Returns-bind (push_back-Appended fresh d value v room) λ e g.
        let n = d.actual_size in
        let more : e.actual_size ≡ suc n = omega (arith, g.counted) in
        let back : e.actual_size - 1 ≡ n = omega (arith, g.counted) in
        let whole : take (suc n) e.buffer ≡ contents d ++ value ∷ [] = rw more at g.appended in
        let parts =
          snoc-injective (take n e.buffer) (contents d)
            (sym (take-suc n e.buffer z (omega (arith, g.counted))) ∙ whole) in
        (
          (get_or e.buffer (e.actual_size - 1) z, record e { actual_size = e.actual_size - 1 }),
          pop_back-ok e g.valid z (omega arith),
          (
            rw back parts.1,
            record { block = g.valid.block; used = omega arith; small = g.valid.small },
            rw back parts.0,
          ),
        )
