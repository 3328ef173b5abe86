-- ===== src/Queue.antt =====
-- cmake_make_gtest_cppunit/Queue.h and Queue.cpp: a queue of `int` in a ring of memory.
-- A method that changes the object returns the new one beside its result; one that throws does so
-- before it writes, so the caller keeps the old object. `head_` and `tail_` are `int`, and never
-- negative, so they are natural numbers here.
pub mod Inv
pub mod Slice
pub mod Contents
pub mod Refine
mod Tests
use technopark_cpp.Prelude.{
  Bool, List, Run, if◌then◌else◌, load, mul_size, ok, pos, replicate, runtime_error, store,
  sub_size, throw, undefined, ℕ, ℤ, ◌%◌, ◌+◌, ◌-◌, ◌/◌, ◌==◌, ◌>>=◌, ◌>>◌,
}

-- The members of class Queue. The block `buffer` holds as many entries as were allocated.
pub record Queue : Type 0 where
  pub buffer : List ℤ
  pub queue_size : ℕ
  pub head : ℕ
  pub tail : ℕ

-- Queue::Queue. The size in bytes that `malloc` and `memset` are given wraps; `malloc` succeeds.
pub create : ℕ → Queue
create queue_size = record {
  buffer = replicate (mul_size queue_size 4 / 4) (pos 0);
  queue_size = queue_size;
  head = 0;
  tail = 0;
}

-- Queue::Empty
pub is_empty : Queue → Bool
is_empty q = q.head == q.tail

-- An index that was advanced starts again at the end of the block.
abbrev pub wrap : Queue → ℕ → ℕ
wrap q i = if i == q.queue_size then 0 else i

-- Queue::Push. With `queue_size_` 0 the remainder is a division by zero.
pub push : Queue → ℤ → Run Queue
push q val =
    if q.queue_size == 0
    then undefined
    else if (q.tail + 1) % q.queue_size == q.head
    then throw (runtime_error "queue is full")
    else do
      buffer ← store q.buffer q.tail val
      ok (record q { buffer = buffer; tail = wrap q (q.tail + 1) })

-- Queue::Pop
pub pop : Queue → Run (ℤ × Queue)
unfolding is_empty
pop q =
    if is_empty q
    then throw (runtime_error "queue is empty")
    else do out ← load q.buffer q.head; ok (out, record q { head = wrap q (q.head + 1) })

-- Queue::Back
pub back : Queue → Run ℤ
unfolding is_empty
back q =
    if is_empty q
    then throw (runtime_error "queue is empty")
    else if q.tail == 0
    then load q.buffer (sub_size q.queue_size 1)
    else load q.buffer (q.tail - 1)

-- Queue::Front
pub front : Queue → Run ℤ
unfolding is_empty
front q = if is_empty q then throw (runtime_error "queue is empty") else load q.buffer q.head
