-- ===== src/ShellSort/Gaps.antt =====
-- The gaps of shell_sort are 1, 4, 13 and so on.
use technopark_cpp.ShellSort.{first_gap}
use technopark_cpp.Prelude.{
  Bool-cases, Returns, arith, inl, inr, leb, leb→le, refl, suc, zero, ℕ, ◌*◌, ◌+◌, ◌/◌, ◌<◌,
}

pub data IsGap : ℕ → Type 0 where
  one : IsGap 1
  next : {h : ℕ} → IsGap h → IsGap (3 * h + 1)

-- A round for each number up to `length` finds the first gap.
pub first_gap-IsGap :
    (k length_ h : ℕ)
    → IsGap h
    → 0 < h
    → 0 < k
    → length_ < k + h
    → Returns IsGap (first_gap k length_ h)
unfolding first_gap
first_gap-IsGap zero length_ h g p q r = absurd (omega arith)
first_gap-IsGap (suc k) length_ h g p q r = elim (Bool-cases (leb h (length_ / 9))) [
  | inl more ↦
      let small = leb→le h (length_ / 9) more in
      rw more
        (first_gap-IsGap k length_ (3 * h + 1) (next g) (omega arith) (omega arith) (omega arith))
  | inr done ↦ rw done (h, refl, g)
]
