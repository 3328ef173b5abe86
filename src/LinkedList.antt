-- ===== src/LinkedList.antt =====
-- cmake_make_gtest_cppunit/LinkedList.h and LinkedList.cpp: a doubly linked list of `int`.
-- The nodes live in a memory that maps addresses to nodes; address 0 is `nullptr`. A function that
-- writes returns the new memory. `fresh` is the address that `new Node()` returns. The loops take
-- fuel, since a list does not keep its length.
pub mod Chain
pub mod Walk
pub mod Push
pub mod Insert
pub mod Remove
pub mod Union
mod Tests
use technopark_cpp.Prelude.{
  Bool, List, Option, Run, [], eqb_ℤ, false, if◌then◌else◌, none, ok, out_of_fuel, some, suc, true,
  undefined, zero, ℕ, ℤ, ◌++◌, ◌==◌, ◌>>=◌, ◌>>◌, ◌∷◌,
}

abbrev pub Ptr : Type 0
Ptr = ℕ

abbrev pub null : Ptr
null = 0

-- struct Node; `value` is its member `data`.
pub record Node : Type 0 where
  pub value : ℤ
  pub next : Ptr
  pub prev : Ptr

abbrev pub node : ℤ → Ptr → Ptr → Node
node v n p = record { value = v; next = n; prev = p }

-- `none` at an address that holds no living node
abbrev pub Memory : Type 0
Memory = Ptr → Option Node

abbrev pub write : Memory → Ptr → Option Node → Memory
write m p c a = if a == p then c else m a

-- `*p`
pub deref : Ptr → Memory → Run Node
deref p m = if p == null then undefined else elim (m p) [ none ↦ undefined | some n ↦ ok n ]

-- `p->next = q`
pub set_next : Ptr → Ptr → Memory → Run Memory
set_next p q m = do n ← deref p m; ok (write m p (some (record n { next = q })))

-- `p->prev = q`
pub set_prev : Ptr → Ptr → Memory → Run Memory
set_prev p q m = do n ← deref p m; ok (write m p (some (record n { prev = q })))

-- The members of class LinkedList; Front() and Back() return them.
pub record LinkedList : Type 0 where
  pub head : Ptr
  pub tail : Ptr

-- LinkedList::LinkedList
pub create : LinkedList
create = record { head = null; tail = null }

-- `delete [] p` of a node. Every node comes from `new Node()`.
abbrev delete_nodes : Ptr → Memory → Run Memory
delete_nodes p m = undefined

-- The loop of LinkedList::~LinkedList from `current` on.
unfoldable pub destroy_loop : ℕ → Ptr → Memory → Run Memory
destroy_loop zero current m = out_of_fuel
destroy_loop (suc k) current m =
    let step =
      deref current m >>= λ n. delete_nodes current m >>= λ left. destroy_loop k n.next left in
    if current == null then ok m else step

-- LinkedList::~LinkedList
pub destroy : ℕ → LinkedList → Memory → Run Memory
unfolding destroy_loop
destroy k l m = destroy_loop k l.head m

-- LinkedList::PushBack
pub push_back : Ptr → LinkedList → ℤ → Memory → Run (LinkedList × Memory)
push_back fresh l val m =
    let made = write m fresh (some (node val null null)) in
    if l.head == null then ok (record { head = fresh; tail = fresh }, made) else do
      linked ← set_next l.tail fresh made
      both ← set_prev fresh l.tail linked
      ok (record l { tail = fresh }, both)

-- The loop of LinkedList::Display; the list is what has gone to `std::cout`.
pub display_loop : ℕ → Ptr → Memory → List ℤ → Run (List ℤ)
display_loop zero current m out = out_of_fuel
display_loop (suc k) current m out =
    let step = deref current m >>= λ n. display_loop k n.next m (out ++ n.value ∷ []) in
    if current == null then ok out else step

-- LinkedList::Display
pub display : ℕ → LinkedList → Memory → Run (List ℤ)
unfolding display_loop
display k l m = display_loop k l.head m []

-- The loop of LinkedList::Search from `current` on.
search_loop : ℕ → Ptr → ℤ → Memory → Run Ptr
search_loop zero current val m = out_of_fuel
search_loop (suc k) current val m =
    let step = deref current m >>= λ n.
    let rest = search_loop k n.next val m in if eqb_ℤ n.value val then ok current else rest in
    if current == null then ok null else step

-- LinkedList::Search
pub search_val : ℕ → LinkedList → ℤ → Memory → Run Ptr
unfolding search_loop
search_val k l val m = search_loop k l.head val m

-- LinkedList::InsertAfter; the object itself is not touched.
pub insert_after : Ptr → Ptr → ℤ → Memory → Run (Ptr × Memory)
insert_after fresh at value m = if at == null then ok (null, m) else do
  n ← deref at m
  let made = write m fresh (some (node value n.next at))
  back ← (if n.next == null then ok made else set_prev n.next fresh made)
  linked ← set_next at fresh back
  ok (fresh, linked)

-- LinkedList::DeteleAt; the object itself is not touched, and no node is freed.
pub delete_at : Ptr → Memory → Run (Bool × Memory)
delete_at at m = if at == null then ok (false, m) else do
  n ← deref at m
  back ← (if n.next == null then ok m else set_prev n.next n.prev m)
  kept ← deref at back
  linked ← (if kept.prev == null then ok back else set_next kept.prev kept.next back)
  ok (true, linked)

-- LinkedList::Union; `none` is a null pointer to a list.
pub union : Option LinkedList → Option LinkedList → Memory → Run Memory
union none list2 m = ok m
union (some list1) none m = ok m
union (some list1) (some list2) m = do
  linked ← set_next list1.tail list2.head m
  set_prev list2.head list1.tail linked
