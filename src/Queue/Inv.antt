-- ===== src/Queue/Inv.antt =====
-- The representation invariant of class Queue, and what each call does to a valid queue.
use technopark_cpp.Queue.{Queue, create, push, pop, wrap}
use native.Mathlib.Nat.{mod_self, mod-eq_of_lt}
use technopark_cpp.Prelude.{
  Bool-cases, arith, get_or, inl, inr, int_limit, length, length-replicate, length-set, load-ok,
  mul_size, ok, pos, runtime_error, set, store-ok, throw, ℕ, ℤ, ◌%◌, ◌+◌, ◌/◌, ◌<◌, ◌==◌, ◌∙◌, ◌≡◌,
  ◌≢◌,
}

-- The block has `queue_size` entries, both indices lie in it, and they fit an `int`.
pub record IsValid (q : Queue) : Type 0 where
  pub block : length q.buffer ≡ q.queue_size
  pub small : q.queue_size < int_limit
  pub head_in : q.head < q.queue_size
  pub tail_in : q.tail < q.queue_size

pub create-IsValid : (n : ℕ) → 0 < n → n < int_limit → IsValid (create n)
unfolding create
create-IsValid n p h = record {
  block = length-replicate (mul_size n 4 / 4) (pos 0) ∙ (omega arith);
  small = h;
  head_in = p;
  tail_in = p;
}

-- The ring is full when one more entry would bring `tail_` to `head_`.
abbrev pub IsFull : Queue → Type 0
IsFull q = wrap q (q.tail + 1) ≡ q.head

pub mod-eq-wrap : (q : Queue) → IsValid q → (q.tail + 1) % q.queue_size ≡ wrap q (q.tail + 1)
mod-eq-wrap q v = elim (Bool-cases (q.tail + 1 == q.queue_size)) [
  | inl e ↦
      rw e (let same : q.tail + 1 ≡ q.queue_size = ground arith in rw same (mod_self q.queue_size))
  | inr ne ↦ rw ne (mod-eq_of_lt (ground arith))
]

module _ (q : Queue) (valid : IsValid q) where
  pub push-full : (v : ℤ) → IsFull q → push q v ≡ throw (runtime_error "queue is full")
  unfolding push
  push-full v h = ground (arith, mod-eq-wrap q valid)

  pub push-room :
      (v : ℤ)
      → ¬ IsFull q
      → push q v ≡ ok (record q { buffer = set q.buffer q.tail v; tail = wrap q (q.tail + 1) })
  unfolding push
  push-room v h = ground (arith, mod-eq-wrap q valid, store-ok q.buffer q.tail v)

  pub pop-empty : q.head ≡ q.tail → pop q ≡ throw (runtime_error "queue is empty")
  unfolding pop
  pop-empty h = ground arith

  pub pop-some :
      q.head ≢ q.tail
      → pop q ≡ ok (get_or q.buffer q.head (pos 0), record q { head = wrap q (q.head + 1) })
  unfolding pop
  pop-some h = ground (arith, load-ok q.buffer q.head (pos 0))

  pub push-IsValid : (v : ℤ) {r : Queue} → push q v ≡ ok r → IsValid r
  unfolding push
  push-IsValid v e = ground (arith, store-ok q.buffer q.tail v, length-set q.buffer q.tail v)

  pub pop-IsValid : (v : ℤ) {r : Queue} → pop q ≡ ok (v, r) → IsValid r
  unfolding pop
  pop-IsValid v e = ground (arith, load-ok q.buffer q.head (pos 0))
