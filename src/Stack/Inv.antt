-- ===== src/Stack/Inv.antt =====
-- The representation invariant of class Stack.
use technopark_cpp.Stack.{minus_one, Stack, create, push, pop, size}
use technopark_cpp.Prelude.{
  arith, get_or, int_limit, length, length-replicate, length-set, load-ok, ok, pos, runtime_error,
  set, store-ok, sub_size, throw, ℕ, ℤ, ◌<◌, ◌^◌, ◌≡◌, ◌≢◌, ◌≤◌,
}

-- The block has `stack_size` entries, `top_ + 1` of them are in use, and an index fits an `int`.
pub record IsValid (s : Stack) : Type 0 where
  pub block : length s.buffer ≡ s.stack_size
  pub small : s.stack_size < int_limit
  pub used : size s ≤ s.stack_size
  pub word : s.top < 2 ^ 64

pub create-IsValid : (n : ℕ) → n < int_limit → IsValid (create n)
unfolding create
create-IsValid n h = record {
  block = length-replicate n (pos 0);
  small = h;
  used = omega arith;
  word = omega arith;
}

pub push-IsValid : (s : Stack) (v : ℤ) {t : Stack} → IsValid s → push s v ≡ ok t → IsValid t
unfolding push
push-IsValid s v h e = ground (arith, store-ok s.buffer (size s) v, length-set s.buffer (size s) v)

pub pop-IsValid : (s : Stack) (v : ℤ) {t : Stack} → IsValid s → pop s ≡ ok (v, t) → IsValid t
unfolding pop
pop-IsValid s v h e = ground (arith, load-ok s.buffer s.top (pos 0))

-- The outcome of each call on each branch, with the object that it leaves.
pub push-full :
    (s : Stack) (v : ℤ) → s.stack_size ≤ size s → push s v ≡ throw (runtime_error "stack overflow")
unfolding push
push-full s v h = ground arith

pub push-room :
    (s : Stack) (v : ℤ)
    → IsValid s
    → size s < s.stack_size
    → push s v ≡ ok (record s { buffer = set s.buffer (size s) v; top = size s })
unfolding push
push-room s v h k = ground (arith, store-ok s.buffer (size s) v)

pub pop-empty : (s : Stack) → s.top ≡ minus_one → pop s ≡ throw (runtime_error "stack underflow")
unfolding pop
pop-empty s h = ground arith

pub pop-some :
    (s : Stack)
    → IsValid s
    → s.top ≢ minus_one
    → pop s ≡ ok (get_or s.buffer s.top (pos 0), record s { top = sub_size s.top 1 })
unfolding pop
pop-some s h k = ground (arith, load-ok s.buffer s.top (pos 0))
