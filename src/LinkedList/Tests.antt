-- ===== src/LinkedList/Tests.antt =====
-- Class LinkedList at concrete inputs.
use technopark_cpp.LinkedList.{
  deref, destroy_loop, node, Memory, write, LinkedList, create, push_back, insert_after, delete_at,
  union, destroy,
}
use technopark_cpp.LinkedList.Chain.{Cells, IsList}
use technopark_cpp.LinkedList.Push.{push_back-IsList}
use technopark_cpp.LinkedList.Insert.{insert_after-IsList}
use technopark_cpp.LinkedList.Remove.{delete_at-IsList}
use technopark_cpp.LinkedList.Union.{union-IsList}
use technopark_cpp.Prelude.{
  Returns, [], arith, none, pos, refl, some, true, undefined, ◌++◌, ◌∷◌, ◌≡◌,
}

abbrev empty_memory : Memory
empty_memory a = none

-- The list of UseLinkedList in main.cpp: 5, 10, 15 at the addresses 1, 2, 3.
abbrev three : Memory
three =
    write (write (write empty_memory 1 (some (node (pos 5) 2 0))) 2 (some (node (pos 10) 3 1))) 3
      (some (node (pos 15) 0 2))

abbrev cells : Cells
cells = (1, pos 5) ∷ (2, pos 10) ∷ (3, pos 15) ∷ []

abbrev list : LinkedList
list = record { head = 1; tail = 3 }

-- One more list, at address 7, in the same memory.
abbrev four : Memory
four = write three 7 (some (node (pos 20) 0 0))

abbrev other : LinkedList
other = record { head = 7; tail = 7 }

list-IsList : IsList three list cells
list-IsList = record {
  at_head = refl;
  at_tail = refl;
  chain = ground arith;
  distinct = ground arith;
}

list-IsList-four : IsList four list cells
list-IsList-four = record {
  at_head = refl;
  at_tail = refl;
  chain = ground arith;
  distinct = ground arith;
}

other-IsList : IsList four other ((7, pos 20) ∷ [])
other-IsList = record {
  at_head = refl;
  at_tail = refl;
  chain = ground arith;
  distinct = ground arith;
}

create-IsList : IsList four create []
unfolding create
create-IsList = record { at_head = refl; at_tail = refl; chain = tt; distinct = tt }

push_back-IsList_example :
    Returns (λ r. IsList r.1 r.0 (cells ++ (4, pos 30) ∷ [])) (push_back 4 list (pos 30) three)
push_back-IsList_example =
    push_back-IsList three list 4 (pos 30) (omega arith) refl cells list-IsList

insert_after-IsList_example :
    Returns
      (λ r.
        (r.0 ≡ 4) × IsList r.1 list ((1, pos 5) ∷ (2, pos 10) ∷ (4, pos 100) ∷ (3, pos 15) ∷ []))
      (insert_after 4 2 (pos 100) three)
insert_after-IsList_example =
    insert_after-IsList three list ((1, pos 5) ∷ []) [] 2 3 (pos 10) (pos 15) 4 (pos 100)
      (omega arith) refl list-IsList

delete_at-IsList_example :
    Returns
      (λ r. (r.0 ≡ true) × IsList r.1 list ((1, pos 5) ∷ (3, pos 15) ∷ []))
      (delete_at 2 three)
delete_at-IsList_example =
    delete_at-IsList three list [] [] 1 2 3 (pos 5) (pos 10) (pos 15) list-IsList

union-IsList_example :
    Returns
      (λ r. IsList r (record { head = 1; tail = 7 }) (cells ++ (7, pos 20) ∷ []))
      (union (some list) (some other) four)
union-IsList_example =
    union-IsList four list other ((1, pos 5) ∷ (2, pos 10) ∷ []) [] 3 7 (pos 15) (pos 20)
      list-IsList-four other-IsList (ground arith)

-- The destructor gives the first node to `delete []`.
destroyed : destroy 4 list three ≡ undefined
unfolding destroy destroy_loop deref
destroyed = refl
