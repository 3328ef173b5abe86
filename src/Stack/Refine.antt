-- ===== src/Stack/Refine.antt =====
-- A valid stack behaves as a list of at most `stack_size` numbers, the top first.
use technopark_cpp.Container.{run-eq_of_implements, Implements, Alike, Popped}
use technopark_cpp.Stack.Inv.{
  pop-IsValid, IsValid, create-IsValid, push-full, push-room, pop-empty, pop-some, push-IsValid,
}
use technopark_cpp.Container.Calls.{run, Call, Container, Value, int, bool, count, Container}
use technopark_cpp.Stack.{create, minus_one, is_empty, Stack, push, pop, size, peek, is_empty}
use technopark_cpp.Container.{both_ok, both_throw}
use native.Mathlib.Nat.{le_refl}
use technopark_cpp.Prelude.{
  Bool-cases, List, Run, [], add_size, ap, ap₂, arith, false, get_or, get_or-set, if◌then◌else◌,
  inl, inr, int_limit, leb, length, load-ok, load-undefined, ok, pos, refl, runtime_error, set,
  sub_size, suc, sym, throw, true, undefined, zero, ℕ, ℤ, ◌<◌, ◌>>=◌, ◌∙◌, ◌∷◌, ◌≡◌, ◌≢◌, ◌≤◌,
}

-- The first `n` entries of a block, the last of them first.
abbrev pub down_from : List ℤ → ℕ → List ℤ
down_from b zero = []
down_from b (suc n) = get_or b n (pos 0) ∷ down_from b n

abbrev pub contents : Stack → List ℤ
contents s = down_from s.buffer (size s)

pub data Look : Type 0 where
  top_look size_look empty_look : Look

unfoldable pub look : Look → Stack → Run Value
unfolding peek is_empty
look top_look s = peek s >>= λ v. ok (int v)
look size_look s = ok (count (size s))
look empty_look s = ok (bool (is_empty s))

-- Class Stack as a container.
abbrev pub concrete : Container Look Stack
concrete = record { push = push; pop = pop; look = look }

-- The specification: at most `cap` numbers, the top first.
module _ (cap : ℕ) where
  unfoldable pub spec_push : List ℤ → ℤ → Run (List ℤ)
  spec_push xs v =
      if leb cap (length xs) then throw (runtime_error "stack overflow") else ok (v ∷ xs)

unfoldable pub spec_pop : List ℤ → Run (ℤ × List ℤ)
spec_pop [] = throw (runtime_error "stack underflow")
spec_pop (x ∷ xs) = ok (x, xs)

-- Top() of an empty stack reads outside the block.
unfoldable pub spec_look : Look → List ℤ → Run Value
spec_look top_look [] = undefined
spec_look top_look (x ∷ xs) = ok (int x)
spec_look size_look xs = ok (count (length xs))
spec_look empty_look [] = ok (bool true)
spec_look empty_look (x ∷ xs) = ok (bool false)

abbrev pub bounded_stack : ℕ → Container Look (List ℤ)
bounded_stack cap = record { push = spec_push cap; pop = spec_pop; look = spec_look }

length-down_from : (b : List ℤ) (n : ℕ) → length (down_from b n) ≡ n
length-down_from b zero = refl
length-down_from b (suc n) = ap suc (length-down_from b n)

down_from-set_ge :
    (b : List ℤ) (n i : ℕ) (v : ℤ) → n ≤ i → i < length b → down_from (set b i v) n ≡ down_from b n
down_from-set_ge b zero i v h k = refl
down_from-set_ge b (suc n) i v h k =
    ground (arith, get_or-set b i n v (pos 0) k, down_from-set_ge b n i v)

contents-push :
    (s : Stack) (v : ℤ)
    → IsValid s
    → size s < s.stack_size
    → contents (record s { buffer = set s.buffer (size s) v; top = size s }) ≡ v ∷ contents s
contents-push s v h room =
    let grown : add_size (size s) 1 ≡ suc (size s) = omega arith in
    rw grown (
      ap₂ ◌∷◌ (ground (arith, get_or-set s.buffer (size s) (size s) v (pos 0)))
        (down_from-set_ge s.buffer (size s) (size s) v (le_refl _) (omega arith)))

contents-pop :
    (s : Stack)
    → IsValid s
    → s.top ≢ minus_one
    → contents s ≡ get_or s.buffer s.top (pos 0) ∷ contents (record s { top = sub_size s.top 1 })
contents-pop s h k =
    let now : size s ≡ suc s.top = omega arith in
    let left : add_size (sub_size s.top 1) 1 ≡ s.top = omega arith in rw (now, left) refl

module _ (cap : ℕ) where
  -- What a valid stack of capacity `cap` stands for.
  pub record Holds (s : Stack) (xs : List ℤ) : Type 0 where
    pub valid : IsValid s
    pub capacity : s.stack_size ≡ cap
    pub view : contents s ≡ xs

  length-view : (s : Stack) (xs : List ℤ) → Holds s xs → length xs ≡ size s
  length-view s xs h = ap length (sym h.view) ∙ length-down_from s.buffer (size s)

  push-Alike :
      (s : Stack) (xs : List ℤ) (v : ℤ) → Holds s xs → Alike Holds (push s v) (spec_push cap xs v)
  unfolding spec_push
  push-Alike s xs v h =
      let same = length-view s xs h in
      elim (Bool-cases (leb cap (length xs))) [
        | inl full ↦ rw (full, push-full s v (ground (arith, h.capacity))) both_throw
        | inr room ↦
            let e = push-room s v h.valid (ground (arith, h.capacity)) in
            rw (room, e)
              (both_ok {b = v ∷ xs} (record {
                valid = push-IsValid s v h.valid e;
                capacity = h.capacity;
                view = contents-push s v h.valid (ground (arith, h.capacity)) ∙ ap (◌∷◌ v) h.view;
              }))
      ]

  pop-Alike : (s : Stack) (xs : List ℤ) → Holds s xs → Alike (Popped Holds) (pop s) (spec_pop xs)
  unfolding spec_pop
  pop-Alike s [] h = rw (pop-empty s (omega (arith, length-view s [] h))) both_throw
  pop-Alike s (x ∷ xs) h =
      let some_left : s.top ≢ minus_one = omega (arith, length-view s (x ∷ xs) h) in
      let e = pop-some s h.valid some_left in
      let parts : get_or s.buffer s.top (pos 0) ∷ contents (record s { top = sub_size s.top 1 })
          ≡ x ∷ xs =
        sym (contents-pop s h.valid some_left) ∙ h.view in
      rw e (
        both_ok {b = (x, xs)}
          (cc, record { valid = pop-IsValid s _ h.valid e; capacity = h.capacity; view = cc }))

  look_same : (l : Look) (s : Stack) (xs : List ℤ) → Holds s xs → look l s ≡ spec_look l xs
  unfolding look spec_look
  look_same top_look s [] h =
      rw (load-undefined s.buffer s.top (omega (arith, length-view s [] h))) refl
  look_same top_look s (x ∷ xs) h =
      let some_left : s.top ≢ minus_one = omega (arith, length-view s (x ∷ xs) h) in
      ground (
        arith,
        load-ok s.buffer s.top (pos 0),
        length-view s (x ∷ xs) h,
        contents-pop s h.valid some_left,
      )
  look_same size_look s xs h = rw (length-view s xs h) refl
  look_same empty_look s [] h = ground (arith, length-view s [] h)
  look_same empty_look s (x ∷ xs) h = ground (arith, length-view s (x ∷ xs) h)

  -- A stack made by Stack(cap), with cap below 2 ^ 31, answers every script of Push, Pop, Top, Size
  -- and Empty as the list bounded by cap does, exceptions and the undefined Top() of an empty stack
  -- included.
  pub run-bounded_stack :
      (calls : List (Call Look))
      → cap < int_limit
      → run concrete (create cap) calls ≡ run (bounded_stack cap) [] calls
  unfolding create
  run-bounded_stack calls h =
      run-eq_of_implements concrete (bounded_stack cap) Holds implements calls (create cap) []
        (record { valid = create-IsValid cap h; capacity = refl; view = refl })
    where
      implements : Implements concrete (bounded_stack cap) Holds
      implements = record { push_alike = push-Alike; pop_alike = pop-Alike; look_same = look_same }
