-- ===== src/Heap/Build.antt =====
-- heap::MakeHeap turns any array into a heap of the same entries.
use technopark_cpp.DArray.{DArray, size}
use technopark_cpp.DArray.Inv.{IsValid}
use technopark_cpp.Heap.{int_rounds, make_heap_loop, make_heap}
use technopark_cpp.Heap.Order.{Reordered-refl, Reordered-trans, IsRanked, IsHeapFrom}
use technopark_cpp.Heap.Down.{DownInv, Sifted, sift_down-Sifted}
use technopark_cpp.Prelude.{
  Bool, Returns, arith, int_limit, ok, refl, Returns-bind, Returns-map, size_mod, sub_size, suc,
  zero, ℕ, ◌%◌, ◌-◌, ◌/◌, ◌<◌, ◌^◌, ◌≡◌, ◌≤◌,
}

-- The loop starts at the last entry with a child.
int_rounds-half : (s : ℕ) → s < 2 ^ 32 → int_rounds (sub_size (s / 2) 1) ≡ s / 2
unfolding int_rounds
int_rounds-half s h = ground arith

module _ {A : Type 0} (gt le : A → A → Bool) (rank : A → ℕ) (ranked : IsRanked gt le rank)
    (z : A) where
  make_heap_loop-Sifted :
      (k : ℕ) (arr : DArray A)
      → IsValid arr
      → k ≤ size arr
      → IsHeapFrom z rank k arr
      → Returns (Sifted gt le rank ranked z 0 arr) (make_heap_loop gt k arr)
  unfolding make_heap_loop
  make_heap_loop-Sifted zero arr v b h =
      (arr, refl, record { reordered = Reordered-refl arr v; heap = h })
  make_heap_loop-Sifted (suc k) arr v b h =
      Returns-bind (sift_down-Sifted gt le rank ranked z k arr k v (start k arr b h)) λ e s.
        Returns-map
          (make_heap_loop-Sifted k e s.reordered.valid (omega (arith, s.reordered.same_size))
            s.heap)
          λ f t. record { reordered = Reordered-trans s.reordered t.reordered; heap = t.heap }
    where
      start :
          (j : ℕ) (a : DArray A)
          → suc j ≤ size a
          → IsHeapFrom z rank (suc j) a
          → DownInv gt le rank ranked z j a j
      start j a c g = record {
        inside = c;
        edges = λ d p q r s. g d p q (omega arith);
        bridged = λ d p q r s t. absurd (omega arith);
      }

  -- For every well-formed array of fewer than 2 ^ 32 entries MakeHeap returns a heap of the same
  -- entries, if the comparison is by rank.
  pub make_heap-Sifted :
      (arr : DArray A)
      → IsValid arr
      → size arr < 2 ^ 32
      → Returns (Sifted gt le rank ranked z 0 arr) (make_heap gt arr)
  unfolding make_heap
  make_heap-Sifted arr v h =
      rw (int_rounds-half (size arr) h)
        (make_heap_loop-Sifted (size arr / 2) arr v (omega arith) (λ c p q r. absurd (omega arith)))

-- MakeHeap starts at the low half of the start index as an `int`: where its sign bit is set, in an
-- array of more than one entry whose size fits `size_t`, the loop makes no round and the array
-- stays as it is.
pub make_heap-truncated :
    {A : Type 0} (gt : A → A → Bool) (arr : DArray A)
    → 1 < size arr
    → int_limit ≤ (size arr / 2 - 1) % 2 ^ 32
    → size arr < size_mod
    → make_heap gt arr ≡ ok arr
unfolding make_heap make_heap_loop int_rounds
make_heap-truncated gt arr p h b =
    let none_left : int_rounds (sub_size (size arr / 2) 1) ≡ 0 = ground arith in rw none_left refl
