-- ===== src/Queue/Refine.antt =====
-- A valid queue behaves as a list of at most `queue_size - 1` numbers, the oldest first.
use technopark_cpp.Queue.Contents.{
  contents, IsFull-iff, empty_iff, contents-push, contents-pop, contents-back, back-ok,
}
use technopark_cpp.Container.Calls.{Container, Value, int, bool}
use technopark_cpp.Queue.{create, Queue, push, pop, back, front, is_empty, wrap}
use technopark_cpp.Container.{Alike, both_ok, both_throw, Implements, Popped, run-eq_of_implements}
use technopark_cpp.Container.Calls.{Call, run}
use technopark_cpp.Queue.Inv.{
  IsFull, create-IsValid, push-full, push-room, pop-empty, pop-some, push-IsValid, pop-IsValid,
  IsValid, IsFull,
}
use technopark_cpp.Prelude.{
  Bool-cases, List, Run, [], ap, arith, false, get_or, if◌then◌else◌, inl, inr, int_limit, leb,
  length, load-ok, ok, pos, refl, runtime_error, sym, throw, true, ℕ, ℤ, ◌++◌, ◌+◌, ◌<◌, ◌>>=◌, ◌∙◌,
  ◌∷◌, ◌≡◌, ◌≢◌,
}

pub data Look : Type 0 where
  front_look back_look empty_look : Look

unfoldable pub look : Look → Queue → Run Value
unfolding is_empty
look front_look q = front q >>= λ v. ok (int v)
look back_look q = back q >>= λ v. ok (int v)
look empty_look q = ok (bool (is_empty q))

-- Class Queue as a container.
abbrev pub concrete : Container Look Queue
concrete = record { push = push; pop = pop; look = look }

-- The specification: at most `cap` numbers, the oldest first.
unfoldable pub spec_push : ℕ → List ℤ → ℤ → Run (List ℤ)
spec_push cap xs v =
    if leb cap (length xs) then throw (runtime_error "queue is full") else ok (xs ++ v ∷ [])

unfoldable pub spec_pop : List ℤ → Run (ℤ × List ℤ)
spec_pop [] = throw (runtime_error "queue is empty")
spec_pop (x ∷ xs) = ok (x, xs)

abbrev pub last_of : ℤ → List ℤ → ℤ
last_of x [] = x
last_of x (y ∷ ys) = last_of y ys

unfoldable pub spec_look : Look → List ℤ → Run Value
spec_look front_look [] = throw (runtime_error "queue is empty")
spec_look front_look (x ∷ xs) = ok (int x)
spec_look back_look [] = throw (runtime_error "queue is empty")
spec_look back_look (x ∷ xs) = ok (int (last_of x xs))
spec_look empty_look [] = ok (bool true)
spec_look empty_look (x ∷ xs) = ok (bool false)

abbrev pub bounded_fifo : ℕ → Container Look (List ℤ)
bounded_fifo cap = record { push = spec_push cap; pop = spec_pop; look = spec_look }

last_of-append : (x : ℤ) (xs : List ℤ) (v : ℤ) → last_of x (xs ++ v ∷ []) ≡ v
last_of-append x [] v = refl
last_of-append x (y ∷ ys) v = last_of-append y ys v

spec_look-back : (zs xs : List ℤ) (v : ℤ) → zs ≡ xs ++ v ∷ [] → spec_look back_look zs ≡ ok (int v)
unfolding spec_look
spec_look-back zs [] v e = rw e refl
spec_look-back zs (x ∷ xs) v e = rw (e, last_of-append x xs v) refl

module _ (cap : ℕ) where
  -- What a valid queue with room for `cap` numbers stands for.
  pub record Holds (q : Queue) (xs : List ℤ) : Type 0 where
    pub valid : IsValid q
    pub capacity : q.queue_size ≡ cap + 1
    pub view : contents q ≡ xs

  nonempty : (q : Queue) (x : ℤ) (xs : List ℤ) → Holds q (x ∷ xs) → q.head ≢ q.tail
  nonempty q x xs h e = omega (arith, (empty_iff q h.valid).0 e, ap length h.view)

  push-Alike :
      (q : Queue) (xs : List ℤ) (v : ℤ) → Holds q xs → Alike Holds (push q v) (spec_push cap xs v)
  unfolding spec_push
  push-Alike q xs v h =
      let same : length xs ≡ length (contents q) = ap length (sym h.view) in
      elim (Bool-cases (leb cap (length xs))) [
        | inl full ↦
            rw (full, push-full q h.valid v ((IsFull-iff q h.valid).1 (ground (arith, h.capacity))))
              both_throw
        | inr room ↦
            let fits : ¬ IsFull q = λ f. ground (arith, (IsFull-iff q h.valid).0 f, h.capacity) in
            let e = push-room q h.valid v fits in
            rw (room, e)
              (both_ok {b = xs ++ v ∷ []} (record {
                valid = push-IsValid q h.valid v e;
                capacity = h.capacity;
                view = contents-push q h.valid v fits ∙ ap (λ ys. ys ++ v ∷ []) h.view;
              }))
      ]

  pop-Alike : (q : Queue) (xs : List ℤ) → Holds q xs → Alike (Popped Holds) (pop q) (spec_pop xs)
  unfolding spec_pop
  pop-Alike q [] h =
      rw (pop-empty q h.valid ((empty_iff q h.valid).1 (ap length h.view))) both_throw
  pop-Alike q (x ∷ xs) h =
      let some_left : q.head ≢ q.tail =
        λ e. absurd (omega (arith, (empty_iff q h.valid).0 e, ap length h.view)) in
      let e = pop-some q h.valid some_left in
      let parts : get_or q.buffer q.head (pos 0)
            ∷ contents (record q { head = wrap q (q.head + 1) })
          ≡ x ∷ xs =
        sym (contents-pop q h.valid some_left) ∙ h.view in
      rw e (
        both_ok {b = (x, xs)}
          (cc, record { valid = pop-IsValid q h.valid _ e; capacity = h.capacity; view = cc }))

  look_same : (l : Look) (q : Queue) (xs : List ℤ) → Holds q xs → look l q ≡ spec_look l xs
  unfolding look spec_look front back
  look_same front_look q [] h = let e = (empty_iff q h.valid).1 (ap length h.view) in ground arith
  look_same back_look q [] h = let e = (empty_iff q h.valid).1 (ap length h.view) in ground arith
  look_same empty_look q [] h = let e = (empty_iff q h.valid).1 (ap length h.view) in ground arith
  look_same front_look q (x ∷ xs) h =
      let some_left = nonempty q x xs h in
      ground (arith, h.view, contents-pop q h.valid some_left, load-ok q.buffer q.head (pos 0))
  look_same back_look q (x ∷ xs) h =
      let some_left = nonempty q x xs h in
      rw (back-ok q h.valid some_left)
        (sym (spec_look-back (x ∷ xs) _ _ (sym h.view ∙ contents-back q h.valid some_left)))
  look_same empty_look q (x ∷ xs) h = let some_left = nonempty q x xs h in ground arith

  -- A queue made by Queue(cap + 1), with cap + 1 below 2 ^ 31, answers every script of Push, Pop,
  -- Front, Back and Empty as the first-in first-out list bounded by cap does, exceptions included.
  pub run-bounded_fifo :
      (calls : List (Call Look))
      → cap + 1 < int_limit
      → run concrete (create (cap + 1)) calls ≡ run (bounded_fifo cap) [] calls
  unfolding create
  run-bounded_fifo calls h =
      run-eq_of_implements concrete (bounded_fifo cap) Holds implements calls (create (cap + 1)) []
        (record { valid = create-IsValid (cap + 1) (omega arith) h; capacity = refl; view = refl })
    where
      implements : Implements concrete (bounded_fifo cap) Holds
      implements = record { push_alike = push-Alike; pop_alike = pop-Alike; look_same = look_same }
