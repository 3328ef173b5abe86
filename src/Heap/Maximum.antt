-- ===== src/Heap/Maximum.antt =====
-- heap::HeapMaximum: the first entry of a heap is a greatest one.
use technopark_cpp.DArray.{DArray, size, index}
use technopark_cpp.DArray.Inv.{IsValid}
use technopark_cpp.Heap.{extract_max, heap_maximum}
use technopark_cpp.Heap.Order.{parent, key, IsHeap}
use native.Mathlib.Nat.{le_refl}
use technopark_cpp.Prelude.{
  Bool, Returns, arith, get_or, load-ok, runtime_error, suc, throw, zero, ℕ, ◌<◌, ◌≡◌, ◌≤◌,
}

module _ {A : Type 0} (rank : A → ℕ) (z : A) where
  root_greatest_below :
      (k : ℕ) (arr : DArray A) (i : ℕ)
      → i < k
      → IsHeap z rank arr
      → i < size arr
      → key z rank arr i ≤ key z rank arr 0
  root_greatest_below zero arr i f h p = absurd (omega arith)
  root_greatest_below (suc k) arr zero f h p = le_refl _
  root_greatest_below (suc k) arr (suc i) f h p = omega (
    arith,
    h (suc i) (omega arith) p,
    root_greatest_below k arr (parent (suc i)) (omega arith) h (omega arith),
  )

  -- In a heap no entry is greater than the first.
  pub root_greatest :
      (arr : DArray A)
      → IsHeap z rank arr
      → (i : ℕ) → i < size arr
      → key z rank arr i ≤ key z rank arr 0
  root_greatest arr h i p = root_greatest_below (suc i) arr i (omega arith) h p

  -- HeapMaximum returns a value no less in rank than any entry of a well-formed heap that is not
  -- empty.
  pub heap_maximum-greatest :
      (arr : DArray A)
      → IsValid arr
      → IsHeap z rank arr
      → 0 < size arr
      → Returns (λ m. (i : ℕ) → i < size arr → key z rank arr i ≤ rank m) (heap_maximum arr)
  unfolding heap_maximum index
  heap_maximum-greatest arr v h p = (
    get_or arr.buffer 0 z,
    ground (arith, load-ok arr.buffer 0 z),
    λ i q. root_greatest arr h i q,
  )

-- HeapMaximum and ExtractMax of an empty array throw the same error.
pub heap_maximum-extract_max-empty :
    {A : Type 0} (gt : A → A → Bool) (arr : DArray A)
    → size arr ≡ 0
    → (heap_maximum arr ≡ throw (runtime_error "head is empty"))
      × (extract_max gt arr ≡ throw (runtime_error "head is empty"))
unfolding heap_maximum extract_max
heap_maximum-extract_max-empty gt arr e = (ground arith, ground arith)
