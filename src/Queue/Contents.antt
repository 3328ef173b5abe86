-- ===== src/Queue/Contents.antt =====
-- The numbers that a valid queue holds, the oldest first, and how each call changes them.
use technopark_cpp.Queue.{Queue, back, wrap}
use technopark_cpp.Queue.Inv.{IsFull, IsValid, IsFull}
use technopark_cpp.Queue.Slice.{
  slice-snoc, slice-set_ne, slice-set_end, slice, slice-cons, slice-snoc, length-slice,
}
use technopark_cpp.Prelude.{
  List, [], append-nil, append_assoc, arith, get_or, if◌then◌else◌, leb, length, length-append,
  load-ok, ok, pos, set, ℕ, ℤ, ◌++◌, ◌+◌, ◌-◌, ◌==◌, ◌↔◌, ◌∷◌, ◌≡◌, ◌≢◌, ◌≤◌,
}

abbrev pub contents : Queue → List ℤ
contents q =
    if leb q.head q.tail
    then slice q.buffer q.head (q.tail - q.head)
    else slice q.buffer q.head (q.queue_size - q.head) ++ slice q.buffer 0 q.tail

module _ (q : Queue) (valid : IsValid q) where
  pub length-contents :
      length (contents q)
      ≡ (if leb q.head q.tail then q.tail - q.head else q.queue_size - q.head + q.tail)
  length-contents = ground (
    arith,
    length-slice q.buffer q.head (q.tail - q.head),
    length-slice q.buffer q.head (q.queue_size - q.head),
    length-slice q.buffer 0 q.tail,
    length-append (slice q.buffer q.head (q.queue_size - q.head)) (slice q.buffer 0 q.tail),
  )

  pub IsFull-iff : IsFull q ↔ (q.queue_size - 1 ≤ length (contents q))
  IsFull-iff = (λ f. ground (arith, length-contents), λ f. ground (arith, length-contents))

  pub empty_iff : (q.head ≡ q.tail) ↔ (length (contents q) ≡ 0)
  empty_iff = (λ f. ground (arith, length-contents), λ f. ground (arith, length-contents))

  pub contents-push :
      (v : ℤ)
      → ¬ IsFull q
      → contents (record q { buffer = set q.buffer q.tail v; tail = wrap q (q.tail + 1) })
        ≡ contents q ++ v ∷ []
  contents-push v room = ground (
    arith,
    slice-set_end buffer head (tail + 1 - head) tail v,
    slice-set_end buffer head (queue_size - head) tail v,
    slice-set_end buffer 0 (tail + 1) tail v,
    slice-set_ne buffer head (queue_size - head) tail v,
    append-nil (slice (set buffer tail v) head (queue_size - head)),
    append_assoc (slice buffer head (queue_size - head)) (slice buffer 0 tail) (v ∷ []),
  )
    where
      open q use {buffer, queue_size, head, tail}

  pub contents-pop :
      q.head ≢ q.tail
      → contents q
        ≡ get_or q.buffer q.head (pos 0) ∷ contents (record q { head = wrap q (q.head + 1) })
  contents-pop h =
      ground
        (arith, slice-cons buffer head (tail - head), slice-cons buffer head (queue_size - head))
    where
      open q use {buffer, queue_size, head, tail}

-- The contents without their last entry, and the index of that entry.
abbrev pub before_back : Queue → List ℤ
before_back q =
    if leb q.head q.tail
    then slice q.buffer q.head (q.tail - q.head - 1)
    else if q.tail == 0
    then slice q.buffer q.head (q.queue_size - q.head - 1)
    else slice q.buffer q.head (q.queue_size - q.head) ++ slice q.buffer 0 (q.tail - 1)

abbrev pub back_index : Queue → ℕ
back_index q = if q.tail == 0 then q.queue_size - 1 else q.tail - 1

pub contents-back :
    (q : Queue)
    → IsValid q
    → q.head ≢ q.tail
    → contents q ≡ before_back q ++ get_or q.buffer (back_index q) (pos 0) ∷ []
contents-back q valid h = ground (
  arith,
  slice-snoc buffer head (tail - head) (tail - 1),
  slice-snoc buffer head (queue_size - head) (queue_size - 1),
  slice-snoc buffer 0 tail (tail - 1),
  append-nil (slice buffer head (queue_size - head)),
  append_assoc (slice buffer head (queue_size - head)) (slice buffer 0 (tail - 1))
      (get_or buffer (tail - 1) (pos 0) ∷ []),
)
  where
    open q use {buffer, queue_size, head, tail}

pub back-ok :
    (q : Queue) → IsValid q → q.head ≢ q.tail → back q ≡ ok (get_or q.buffer (back_index q) (pos 0))
unfolding back
back-ok q valid h =
    ground
      (arith, load-ok q.buffer (q.tail - 1) (pos 0), load-ok q.buffer (q.queue_size - 1) (pos 0))
