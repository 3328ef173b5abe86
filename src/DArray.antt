-- ===== src/DArray.antt =====
-- cmake_make_gtest_cppunit/DArray.h and DArray.cpp: a growing array. Its entries are only moved, so
-- `A` stands for `double`, and `zero_bits` for the double of zero bytes.
-- A method that changes the object returns the new one. Allocations succeed, so `buffer_` is never
-- null in a living object, and the test `!buffer_` of At() fails.
pub mod Inv
pub mod Growth
pub mod Access
mod Tests
use technopark_cpp.Prelude.{
  Bool, List, Run, [], add_size, if◌then◌else◌, load, ltb, memcpy, mul_size, negsuc, ok, pos,
  replicate, runtime_error, store, sub_size, suc, tabulate, throw, to_size, undefined, zero, ℕ, ℤ,
  ◌++◌, ◌+◌, ◌-◌, ◌/◌, ◌==◌, ◌>>=◌, ◌>>◌, ◌∷◌,
}

-- What a block comes from: `malloc`, or `new[]`
pub data Origin : Type 0 where
  by_malloc by_new : Origin

-- The members of class DArray, and where its block comes from. The block `buffer` holds as many entries as were allocated.
pub record DArray (A : Type 0) : Type 0 where
  pub buffer : List A
  pub buf_size : ℕ
  pub actual_size : ℕ
  pub origin : Origin

-- `delete[]` of a block, and what follows: undefined unless the block comes from `new[]`.
abbrev delete_array : {B : Type 0} → Origin → Run B → Run B
delete_array by_malloc next = undefined
delete_array by_new next = next

module _ {A : Type 0} where
  -- DArray::DArray. The size in bytes that `malloc` and `memset` are given wraps.
  pub create : A → ℕ → DArray A
  create zero_bits buffer_size = record {
    buffer = replicate (mul_size buffer_size 8 / 8) zero_bits;
    buf_size = buffer_size;
    actual_size = 0;
    origin = by_malloc;
  }

  -- A read at an `int` index of a block; a negative index lies before the block.
  abbrev load_int : List A → ℤ → Run A
  load_int b (pos i) = load b i
  load_int b (negsuc i) = undefined

  -- DArray::At
  pub at : DArray A → ℤ → Run A
  at d index =
      if ltb (sub_size d.actual_size 1) (to_size index)
      then throw (runtime_error "out of range")
      else load_int d.buffer index

  -- DArray::Reallocate. `fresh` is what the new memory holds.
  pub reallocate : (ℕ → A) → DArray A → Run (DArray A)
  reallocate fresh d =
      let new_buf_size = mul_size d.buf_size 2 in
      memcpy (tabulate fresh 0 new_buf_size) d.buffer (mul_size d.buf_size 8 / 8) >>= λ new_buffer.
      delete_array d.origin
        (ok (record d { buffer = new_buffer; buf_size = new_buf_size; origin = by_new }))

  -- The write that ends DArray::PushBack
  append_value : DArray A → A → Run (DArray A)
  append_value d value = do
    buffer ← store d.buffer d.actual_size value
    ok (record d { buffer = buffer; actual_size = add_size d.actual_size 1 })

  -- DArray::PushBack
  pub push_back : (ℕ → A) → DArray A → A → Run (DArray A)
  unfolding append_value
  push_back fresh d value =
      if d.actual_size == d.buf_size
      then reallocate fresh d >>= (λ grown. append_value grown value)
      else append_value d value

  -- DArray::PopBack
  pub pop_back : DArray A → Run (A × DArray A)
  pop_back d = if d.actual_size == 0 then throw (runtime_error "DArray is empty") else do
    value ← load d.buffer (d.actual_size - 1)
    ok (value, record d { actual_size = d.actual_size - 1 })

  -- DArray::operator[] read, and written through the reference that it returns
  unfoldable pub index : DArray A → ℕ → Run A
  index d i = load d.buffer i

  unfoldable pub assign : DArray A → ℕ → A → Run (DArray A)
  assign d i value = do buffer ← store d.buffer i value; ok (record d { buffer = buffer })

  -- The loop of DArray::Display with `k` entries to go; the list is what has gone to `std::cout`.
  display_from : ℕ → DArray A → ℕ → List A → Run (List A)
  display_from zero d i out = ok out
  display_from (suc k) d i out = do
    value ← load d.buffer i
    display_from k d (i + 1) (out ++ value ∷ [])

  pub display : DArray A → Run (List A)
  unfolding display_from
  display d = display_from d.actual_size d 0 []

  -- DArray::Size, Capacity and IsEmpty
  abbrev pub size : DArray A → ℕ
  size d = d.actual_size

  abbrev pub capacity : DArray A → ℕ
  capacity d = d.buf_size

  abbrev pub is_empty : DArray A → Bool
  is_empty d = d.actual_size == 0
