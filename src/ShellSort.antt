-- ===== src/ShellSort.antt =====
-- shell_sort of cmake_make_gtest_cppunit/stack_corr.cpp, over the block of `long` that it sorts in
-- place. Every loop has enough rounds as fuel; the indices are never negative, and for a length below
-- the range of `int` none of them overflows.
pub mod Shift
pub mod Sorted
pub mod Gaps
mod Tests
use technopark_cpp.Prelude.{
  List, Run, if◌then◌else◌, leb, load, ltb, ltb_ℤ, ok, out_of_fuel, store, suc, zero, ℕ, ℤ, ◌*◌,
  ◌+◌, ◌-◌, ◌/◌, ◌>>=◌, ◌>>◌,
}

-- `for (h = 1; h <= length / 9; h = 3 * h + 1);`
pub first_gap : ℕ → ℕ → ℕ → Run ℕ
first_gap zero length_ h = out_of_fuel
first_gap (suc k) length_ h =
    let rest = first_gap k length_ (3 * h + 1) in if leb h (length_ / 9) then rest else ok h

-- The innermost loop: entries greater than `tmp` move up by `h` places. It ends at the place for
-- `tmp`.
pub shift_loop : ℕ → ℕ → ℤ → ℕ → List ℤ → Run (ℕ × List ℤ)
shift_loop zero h tmp j a = out_of_fuel
shift_loop (suc k) h tmp j a =
    let move = λ (x : ℤ). store a j x >>= λ b. shift_loop k h tmp (j - h) b in
    let round =
      load a (j - h) >>= λ x. let rest = move x in if ltb_ℤ tmp x then rest else ok (j, a) in
    if leb h j then round else ok (j, a)

-- The loop over `i` with `k` rounds to go.
pub pass_loop : ℕ → ℕ → ℕ → List ℤ → Run (List ℤ)
pass_loop zero h i a = ok a
pass_loop (suc k) h i a = do
  tmp ← load a i
  (j, shifted) ← shift_loop (i + 1) h tmp i a
  placed ← store shifted j tmp
  pass_loop k h (i + 1) placed

-- The loop over the gaps, `for (; h > 0; h /= 3)`.
pub gap_loop : ℕ → ℕ → ℕ → List ℤ → Run (List ℤ)
gap_loop zero length_ h a = out_of_fuel
gap_loop (suc k) length_ h a =
    let pass = pass_loop (length_ - h) h h a >>= λ b. gap_loop k length_ (h / 3) b in
    if ltb 0 h then pass else ok a

pub shell_sort : List ℤ → ℕ → Run (List ℤ)
unfolding first_gap shift_loop pass_loop gap_loop
shell_sort my_array length_ = do
  h ← first_gap (length_ + 1) length_ 1
  gap_loop (h + 1) length_ h my_array
