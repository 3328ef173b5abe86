-- ===== src/Stack.antt =====
-- cmake_make_gtest_cppunit/Stack.h and Stack.cpp: a bounded stack of `int` in a block of memory.
-- A method that changes the object returns the new one beside its result. A method that throws
-- does so before it writes, so the caller keeps the old object.
pub mod Inv
pub mod Refine
pub mod Output
mod Tests
use technopark_cpp.Prelude.{
  Bool, List, Run, [], add_size, if◌then◌else◌, leb, load, ok, out_of_fuel, pos, replicate,
  runtime_error, size_mod, store, sub_size, suc, throw, zero, ℕ, ℤ, ◌++◌, ◌+◌, ◌-◌, ◌==◌, ◌>>=◌,
  ◌>>◌, ◌∷◌,
}

-- The members of class Stack. The block `buffer` holds as many entries as were allocated.
pub record Stack : Type 0 where
  pub buffer : List ℤ
  pub stack_size : ℕ
  pub top : ℕ

-- `size_t(-1)`, the value of `top_` in an empty stack
abbrev pub minus_one : ℕ
minus_one = size_mod - 1

-- Stack::Stack
pub create : ℕ → Stack
create stack_size = record {
  buffer = replicate stack_size (pos 0);
  stack_size = stack_size;
  top = minus_one;
}

-- Stack::Empty
pub is_empty : Stack → Bool
is_empty s = s.top == minus_one

-- Stack::Push
pub push : Stack → ℤ → Run Stack
push s val =
    if leb s.stack_size (add_size s.top 1) then throw (runtime_error "stack overflow") else do
      buffer ← store s.buffer (add_size s.top 1) val
      ok (record s { buffer = buffer; top = add_size s.top 1 })

-- Stack::Size
abbrev pub size : Stack → ℕ
size s = add_size s.top 1

-- Stack::Pop
pub pop : Stack → Run (ℤ × Stack)
pop s =
    if s.top == minus_one
    then throw (runtime_error "stack underflow")
    else do val ← load s.buffer s.top; ok (val, record s { top = sub_size s.top 1 })

-- Stack::Top
pub peek : Stack → Run ℤ
peek s = load s.buffer s.top

-- The loop of Stack::Display from index `i`. The list is what has gone to `std::cout`, each entry
-- with its tab. `i` is converted to `size_t` for the test; the fuel bounds the rounds, and an `i`
-- that would pass the range of `int` lies outside every block that the runs below read.
display_from : ℕ → Stack → ℕ → List ℤ → Run (List ℤ)
display_from zero s i out = out_of_fuel
display_from (suc k) s i out =
    let step = load s.buffer i >>= λ v. display_from k s (i + 1) (out ++ v ∷ []) in
    if leb i s.top then step else ok out

-- Stack::Display. A block of `n` entries is read at most `n + 1` times.
pub display : Stack → Run (List ℤ)
unfolding display_from
display s = display_from (s.stack_size + 1) s 0 []
