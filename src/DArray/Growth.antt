-- ===== src/DArray/Growth.antt =====
-- DArray::PushBack and Reallocate: the contents grow by the value, whatever new memory holds.
use technopark_cpp.DArray.{append_value, by_malloc, create, DArray, reallocate, push_back}
use technopark_cpp.DArray.Inv.{create-IsValid, IsValid, contents, size_limit}
use native.Mathlib.Decide.{dec_lt}
use technopark_cpp.Prelude.{
  List, Returns, Run, [], add_size, append-nil, append_assoc, arith, false, length, length-set,
  length-tabulate, memcpy-ok, mul_size, ok, refl, set, store-ok, suc, sym, tabulate, take-set_end,
  true, undefined, ℕ, ◌*◌, ◌++◌, ◌+◌, ◌/◌, ◌<◌, ◌==◌, ◌>>=◌, ◌∙◌, ◌∷◌, ◌≡◌, ◌≤◌,
}

module _ {A : Type 0} where
  -- What the write at the end leaves behind, where there is room.
  pub record Appended (d : DArray A) (value : A) (e : DArray A) : Type 0 where
    pub valid : IsValid e
    pub appended : contents e ≡ contents d ++ value ∷ []
    pub counted : e.actual_size ≡ d.actual_size + 1
    pub kept : e.buf_size ≡ d.buf_size
    pub same_origin : e.origin ≡ d.origin

  append_value-Appended :
      (d : DArray A) (value : A)
      → IsValid d
      → d.actual_size < d.buf_size
      → Returns (Appended d value) (append_value d value)
  unfolding append_value
  append_value-Appended d value v room = (
    record d { buffer = set d.buffer d.actual_size value; actual_size = add_size d.actual_size 1 },
    rw (store-ok d.buffer d.actual_size value (omega arith)) refl,
    record {
      valid = record {
        block = length-set d.buffer d.actual_size value ∙ v.block;
        used = omega arith;
        small = v.small;
      };
      appended =
          let next : add_size d.actual_size 1 ≡ suc d.actual_size = omega arith in
          rw next (take-set_end d.actual_size d.buffer value (omega arith));
      counted = omega arith;
      kept = refl;
      same_origin = refl;
    },
  )

  -- Where the array is full, PushBack gives the block of `malloc` to `delete[]`.
  pub push_back-full :
      (fresh : ℕ → A) (d : DArray A) (value : A)
      → IsValid d
      → d.origin ≡ by_malloc
      → d.actual_size ≡ d.buf_size
      → push_back fresh d value ≡ undefined
  unfolding push_back reallocate
  push_back-full fresh d value v made full =
      let new : List A = tabulate fresh 0 (mul_size d.buf_size 2) in
      let n = mul_size d.buf_size 8 / 8 in
      let long : length new ≡ d.buf_size * 2 =
        length-tabulate fresh 0 (mul_size d.buf_size 2) ∙ (omega arith) in
      let is_full : (d.actual_size == d.buf_size) ≡ true = ground (arith, full) in
      rw (is_full, memcpy-ok new d.buffer n (omega arith) (omega arith), made) refl

  -- PushBack with room appends the value.
  pub push_back-Appended :
      (fresh : ℕ → A) (d : DArray A) (value : A)
      → IsValid d
      → d.actual_size < d.buf_size
      → Returns (Appended d value) (push_back fresh d value)
  unfolding push_back
  push_back-Appended fresh d value v room =
      let free : (d.actual_size == d.buf_size) ≡ false = ground (arith, room) in
      rw free (append_value-Appended d value v room)

  -- A row of calls of PushBack.
  pub push_all : (ℕ → A) → DArray A → List A → Run (DArray A)
  push_all fresh d [] = ok d
  push_all fresh d (x ∷ xs) = push_back fresh d x >>= λ e. push_all fresh e xs

  -- What a row of calls leaves behind: the entries before, and the values, in the same room
  pub record Filled (d : DArray A) (xs : List A) (e : DArray A) : Type 0 where
    pub valid : IsValid e
    pub all : contents e ≡ contents d ++ xs
    pub same_room : e.buf_size ≡ d.buf_size

  -- How a row of calls ends: there is room for all values, or one of them makes it undefined.
  pub data Pushing (d : DArray A) (xs : List A) (r : Run (DArray A)) : Type 0 where
    fills : d.actual_size + length xs ≤ d.buf_size → Returns (Filled d xs) r → Pushing d xs r
    overfills : d.buf_size < d.actual_size + length xs → r ≡ undefined → Pushing d xs r

  -- After the first value.
  Pushing-cons :
      (d e : DArray A) (x : A) (xs : List A) (r : Run (DArray A))
      → Appended d x e
      → Pushing e xs r
      → Pushing d (x ∷ xs) r
  Pushing-cons d e x xs r a (fills room (f, same, filled)) =
      let regroup : contents e ++ xs ≡ contents d ++ x ∷ xs =
        rw a.appended (append_assoc (contents d) (x ∷ []) xs) in
      fills (omega (arith, a.counted, a.kept)) (
        f,
        same,
        record {
          valid = filled.valid;
          all = filled.all ∙ regroup;
          same_room = filled.same_room ∙ a.kept;
        },
      )
  Pushing-cons d e x xs r a (overfills small lost) =
      overfills (omega (arith, a.counted, a.kept)) lost

  push_all-Pushing :
      (fresh : ℕ → A) (xs : List A) (d : DArray A)
      → IsValid d
      → d.origin ≡ by_malloc
      → Pushing d xs (push_all fresh d xs)
  unfolding push_all
  push_all-Pushing fresh [] d v made =
      fills (omega arith)
        (d, refl, record { valid = v; all = sym (append-nil (contents d)); same_room = refl })
  push_all-Pushing fresh (x ∷ xs) d v made = elim (dec_lt d.actual_size d.buf_size) [
    | yes room ↦
        let (e, same, a) = push_back-Appended fresh d x v room in
        rw same
          (Pushing-cons d e x xs _ a (push_all-Pushing fresh xs e a.valid (a.same_origin ∙ made)))
    | no full ↦ overfills (omega arith) (rw (push_back-full fresh d x v made (omega arith)) refl)
  ]

  -- Pushing `xs` to a new array of capacity `n`, below 2 ^ 60: if there is room for all of them,
  -- this returns an array of exactly `xs`, in order, with the same capacity; if there are more than
  -- `n`, it is undefined, whatever new memory holds.
  pub push_all-create :
      (fresh : ℕ → A) (z : A) (n : ℕ) (xs : List A)
      → n < size_limit
      → Pushing (create z n) xs (push_all fresh (create z n) xs)
  unfolding create
  push_all-create fresh z n xs small =
      push_all-Pushing fresh xs (create z n) (create-IsValid z n small).0 refl
