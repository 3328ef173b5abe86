-- ===== src/ShellSort/Tests.antt =====
-- shell_sort at a concrete block.
use technopark_cpp.ShellSort.{pass_loop, shift_loop, gap_loop, first_gap, shell_sort}
use technopark_cpp.ShellSort.Sorted.{Sorted, shell_sort-Sorted}
use technopark_cpp.Prelude.{
  List, Returns, [], arith, length, load, negsuc, ok, pos, refl, store, ℤ, ◌∷◌, ◌≡◌,
}

-- Ten entries, sorted by the gaps 4 and 1.
abbrev my_array : List ℤ
my_array = pos 5 ∷ negsuc 2 ∷ pos 9 ∷ pos 0 ∷ pos 5 ∷ pos 7 ∷ negsuc 0 ∷ pos 1 ∷ pos 30 ∷ pos 2 ∷ []

sorted :
    shell_sort my_array 10
    ≡ ok (negsuc 2 ∷ negsuc 0 ∷ pos 0 ∷ pos 1 ∷ pos 2 ∷ pos 5 ∷ pos 5 ∷ pos 7 ∷ pos 9 ∷ pos 30 ∷ [])
unfolding shell_sort first_gap gap_loop pass_loop shift_loop load store
sorted = refl

shell_sort-Sorted_example : Returns (Sorted my_array) (shell_sort my_array (length my_array))
shell_sort-Sorted_example = shell_sort-Sorted my_array (omega arith)
