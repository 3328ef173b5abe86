-- ===== src/Stack/Tests.antt =====
-- Class Stack at concrete inputs.
use technopark_cpp.Container.Calls.{run, Call, push_call, pop_call, look_call}
use technopark_cpp.Stack.{Stack, create, push, display}
use technopark_cpp.Stack.Inv.{IsValid}
use technopark_cpp.Stack.Refine.{Look, top_look, concrete, bounded_stack, run-bounded_stack}
use technopark_cpp.Prelude.{List, [], arith, load, ok, pos, refl, store, ◌>>=◌, ◌∷◌, ◌≡◌}

abbrev two_items : Stack
two_items = record { buffer = pos 5 ∷ pos 10 ∷ pos 0 ∷ []; stack_size = 3; top = 1 }

two_items-IsValid : IsValid two_items
two_items-IsValid = omega arith

abbrev script : List (Call Look)
script =
    push_call (pos 5) ∷ push_call (pos 7) ∷ push_call (pos 9) ∷ pop_call ∷ look_call top_look ∷ []

run-bounded_stack_example : run concrete (create 2) script ≡ run (bounded_stack 2) [] script
run-bounded_stack_example = run-bounded_stack 2 script (omega arith)

-- UseStack of main.cpp, with a smaller block
use_stack :
    ((push (create 4) (pos 5) >>= λ s. push s (pos 10)) >>= display) ≡ ok (pos 5 ∷ pos 10 ∷ [])
unfolding create push store display load
use_stack = refl
