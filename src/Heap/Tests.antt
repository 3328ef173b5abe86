-- ===== src/Heap/Tests.antt =====
-- The heap functions at concrete inputs, with numbers for `double`.
use technopark_cpp.DArray.{by_malloc, DArray}
use technopark_cpp.DArray.Inv.{IsValid}
use technopark_cpp.Heap.{
  swap_at, better, int_rounds, int_rounds, better, sift_down, make_heap, extract_max, add,
}
use technopark_cpp.Heap.Order.{IsRanked, IsHeap}
use technopark_cpp.Heap.Down.{Sifted}
use technopark_cpp.Heap.Build.{make_heap-Sifted}
use technopark_cpp.Heap.Extract.{Extracted, extract_max-Extracted}
use technopark_cpp.Heap.Insert.{Added, add-Added}
use technopark_cpp.Prelude.{Bool, Returns, [], arith, leb, load, ltb, ok, refl, store, ℕ, ◌∷◌, ◌≡◌}

abbrev gt : ℕ → ℕ → Bool
gt x y = ltb y x

abbrev le : ℕ → ℕ → Bool
le x y = leb x y

abbrev rank : ℕ → ℕ
rank x = x

ranked : IsRanked gt le rank
ranked = record { gt_rank = λ x y. refl; le_rank = λ x y. refl }

-- The array of UseHeap in main.cpp, with a smaller block.
abbrev unordered : DArray ℕ
unordered = record {
  buffer = 3 ∷ 1 ∷ 4 ∷ 1 ∷ 5 ∷ 9 ∷ 0 ∷ 0 ∷ [];
  buf_size = 8;
  actual_size = 6;
  origin = by_malloc;
}

abbrev ordered : DArray ℕ
ordered = record {
  buffer = 9 ∷ 5 ∷ 4 ∷ 1 ∷ 1 ∷ 3 ∷ 0 ∷ 0 ∷ [];
  buf_size = 8;
  actual_size = 6;
  origin = by_malloc;
}

abbrev pair : DArray ℕ
pair = record { buffer = 1 ∷ 4 ∷ []; buf_size = 2; actual_size = 2; origin = by_malloc }

unordered-IsValid : IsValid unordered
unordered-IsValid = omega arith

ordered-IsValid : IsValid ordered
ordered-IsValid = omega arith

pair-IsValid : IsValid pair
pair-IsValid = omega arith

ordered-IsHeap : IsHeap 0 rank ordered
ordered-IsHeap = grind arith

use_heap : make_heap gt unordered ≡ ok ordered
unfolding make_heap sift_down better load store int_rounds swap_at
use_heap = refl

make_heap-Sifted_example : Returns (Sifted gt le rank ranked 0 0 unordered) (make_heap gt unordered)
make_heap-Sifted_example =
    make_heap-Sifted gt le rank ranked 0 unordered unordered-IsValid (omega arith)

extract_max-Extracted_example :
    Returns (Extracted gt le rank ranked 0 ordered) (extract_max gt ordered)
extract_max-Extracted_example =
    extract_max-Extracted gt le rank ranked 0 ordered ordered-IsValid ordered-IsHeap (omega arith)

add-Added_example : Returns (Added gt le rank ranked 0 ordered 20) (add le (λ i. i) ordered 20)
add-Added_example =
    add-Added gt le rank ranked 0 (λ i. i) ordered 20 ordered-IsValid ordered-IsHeap (omega arith)
