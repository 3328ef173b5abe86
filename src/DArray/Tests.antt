-- ===== src/DArray/Tests.antt =====
-- Class DArray at concrete inputs, with numbers for `double`.
use technopark_cpp.DArray.{by_malloc, by_new, reallocate, DArray, create, push_back}
use technopark_cpp.DArray.Inv.{IsValid}
use technopark_cpp.DArray.Growth.{Pushing, push_all, push_all-create}
use technopark_cpp.Prelude.{[], arith, memcpy, ok, refl, store, undefined, ℕ, ◌+◌, ◌∷◌, ◌≡◌}

-- What new memory holds.
abbrev garbage : ℕ → ℕ
garbage i = i + 70

abbrev full_array : DArray ℕ
full_array = record { buffer = 12 ∷ 8 ∷ []; buf_size = 2; actual_size = 2; origin = by_malloc }

full_array-IsValid : IsValid full_array
full_array-IsValid = omega arith

abbrev no_room : DArray ℕ
no_room = record { buffer = []; buf_size = 0; actual_size = 0; origin = by_malloc }

abbrev drained : DArray ℕ
drained = record { buffer = 12 ∷ 8 ∷ []; buf_size = 2; actual_size = 0; origin = by_malloc }

push_all-create_example :
    Pushing (create 0 2) (4 ∷ 7 ∷ 9 ∷ []) (push_all garbage (create 0 2) (4 ∷ 7 ∷ 9 ∷ []))
push_all-create_example = push_all-create garbage 0 2 (4 ∷ 7 ∷ 9 ∷ []) (omega arith)

-- The third push goes to `delete[]` of a block of `malloc`.
growth : push_back garbage full_array 5 ≡ undefined
unfolding push_back reallocate memcpy
growth = refl

-- A block of `new[]` would grow: the entries move to a block of four.
regrowth :
    push_back garbage (record full_array { origin = by_new }) 5
    ≡ ok (record { buffer = 12 ∷ 8 ∷ 5 ∷ 73 ∷ []; buf_size = 4; actual_size = 3; origin = by_new })
unfolding push_back reallocate store memcpy
regrowth = refl
