-- ===== src/Queue/Tests.antt =====
-- Class Queue at concrete inputs.
use technopark_cpp.Container.Calls.{
  run, Call, push_call, pop_call, look_call, threw, done, returned, int,
}
use technopark_cpp.Queue.{create, push, pop, front, back}
use technopark_cpp.Queue.Refine.{
  Look, front_look, back_look, concrete, bounded_fifo, run-bounded_fifo, look,
}
use technopark_cpp.Prelude.{
  List, [], arith, load, pos, refl, runtime_error, store, undefined, ◌∷◌, ◌≡◌,
}

-- Queue(3) holds two numbers; the third push is refused, and the indices go round the block.
abbrev script : List (Call Look)
script =
    push_call (pos 5)
    ∷ push_call (pos 7)
    ∷ push_call (pos 9)
    ∷ pop_call
    ∷ push_call (pos 11)
    ∷ look_call front_look
    ∷ look_call back_look
    ∷ []

run-bounded_fifo_example : run concrete (create 3) script ≡ run (bounded_fifo 2) [] script
run-bounded_fifo_example = run-bounded_fifo 2 script (omega arith)

replies_of_script :
    run concrete (create 3) script
    ≡ done
      ∷ done
      ∷ threw (runtime_error "queue is full")
      ∷ returned (int (pos 5))
      ∷ done
      ∷ returned (int (pos 7))
      ∷ returned (int (pos 11))
      ∷ []
unfolding run create push pop look front back store load
replies_of_script = refl

-- With no block at all Push() divides by zero.
push_without_block : push (create 0) (pos 1) ≡ undefined
unfolding create push
push_without_block = refl
