-- ===== src/Heap.antt =====
-- cmake_make_gtest_cppunit/Heap.h and Heap.cpp: a binary max-heap in a DArray. A function that
-- changes the array returns the new one. `A` stands for `double`: `gt` is its `>` and `le` its `<=`.
pub mod Order
pub mod Down
pub mod Up
pub mod Build
pub mod Maximum
pub mod Extract
pub mod Insert
mod Tests
use technopark_cpp.DArray.{DArray, push_back, pop_back, index, assign, size, is_empty}
use technopark_cpp.Prelude.{
  Bool, Run, add_size, if◌then◌else◌, int_limit, ltb, mul_size, ok, out_of_fuel, runtime_error,
  sub_size, suc, throw, zero, ℕ, ◌%◌, ◌+◌, ◌-◌, ◌/◌, ◌==◌, ◌>>=◌, ◌>>◌, ◌^◌,
}

-- The rounds of `for (int i = v; i >= 0; --i)` for a `size_t` value `v` put into `int`.
pub int_rounds : ℕ → ℕ
int_rounds v = if ltb (v % 2 ^ 32) int_limit then v % 2 ^ 32 + 1 else 0

module _ {A : Type 0} where
  -- `std::swap(arr[i], arr[j])`
  pub swap_at : DArray A → ℕ → ℕ → Run (DArray A)
  unfolding index assign
  swap_at arr i j = do
    x ← index arr i
    y ← index arr j
    written ← assign arr i y
    assign written j x

  module _ (gt : A → A → Bool) where
    -- One of the two tests of SiftDown: the child, if it exists and is greater than the best so far.
    pub better : DArray A → ℕ → ℕ → Run ℕ
    unfolding index
    better arr child best =
        if ltb child (size arr)
        then (do x ← index arr child; y ← index arr best; ok (if gt x y then child else best))
        else ok best

    -- The recursion of SiftDown, with fuel.
    sift_down_loop : ℕ → DArray A → ℕ → Run (DArray A)
    sift_down_loop zero arr i = out_of_fuel
    sift_down_loop (suc k) arr i = do
      let left = add_size (mul_size 2 i) 1
      let right = add_size (mul_size 2 i) 2
      with_left ← better arr left i
      largest ← better arr right with_left
      let sink = swap_at arr i largest >>= λ swapped. sift_down_loop k swapped largest
      if largest == i then ok arr else sink

    -- heap::SiftDown. The index grows with every call, and stays below the size.
    pub sift_down : DArray A → ℕ → Run (DArray A)
    unfolding sift_down_loop
    sift_down arr i = sift_down_loop (size arr + 1) arr i

    -- The loop of MakeHeap with `k` rounds to go, the next at index `k - 1`.
    make_heap_loop : ℕ → DArray A → Run (DArray A)
    make_heap_loop zero arr = ok arr
    make_heap_loop (suc k) arr = sift_down arr k >>= make_heap_loop k

    -- heap::MakeHeap
    pub make_heap : DArray A → Run (DArray A)
    unfolding make_heap_loop
    make_heap arr = make_heap_loop (int_rounds (sub_size (size arr / 2) 1)) arr

    -- heap::ExtractMax. `arr[0]` is written after PopBack has shortened the array.
    pub extract_max : DArray A → Run (A × DArray A)
    extract_max arr = if is_empty arr then throw (runtime_error "head is empty") else do
      res ← index arr 0
      (last, shorter) ← pop_back arr
      moved ← assign shorter 0 last
      sifted ← (if is_empty moved then ok moved else sift_down moved 0)
      ok (res, sifted)

  module _ (le : A → A → Bool) where
    -- The loop of SiftUp, with fuel.
    sift_up_loop : ℕ → DArray A → ℕ → Run (DArray A)
    sift_up_loop zero arr i = out_of_fuel
    sift_up_loop (suc k) arr i =
        let parent = (i - 1) / 2 in
        let rise = swap_at arr i parent >>= λ swapped. sift_up_loop k swapped parent in
        let round : Run (DArray A) = do
          x ← index arr i
          y ← index arr parent
          if le x y then ok arr else rise
        in if ltb 0 i then round else ok arr

    -- heap::SiftUp. The index falls with every round.
    pub sift_up : DArray A → ℕ → Run (DArray A)
    unfolding sift_up_loop
    sift_up arr i = sift_up_loop (i + 1) arr i

    -- heap::Add. `fresh` is what new memory holds.
    pub add : (ℕ → A) → DArray A → A → Run (DArray A)
    add fresh arr element = do
      grown ← push_back fresh arr element
      sift_up grown (sub_size (size grown) 1)

  -- heap::HeapMaximum
  pub heap_maximum : DArray A → Run A
  heap_maximum arr = if is_empty arr then throw (runtime_error "head is empty") else index arr 0
