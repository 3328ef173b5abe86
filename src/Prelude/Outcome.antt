-- ===== src/Prelude/Outcome.antt =====
-- How a C++ call ends: by a value, by an exception, or by undefined behaviour.
use Prim.Native.Nat.{ℕ, ◌<◌, ◌≤◌}
use Prim.Native.String.{String}
use mathlib.Core.Path.{◌≡◌}
use mathlib.Core.Bool.{◌&&◌}
use mathlib.Core.Option.{none, some}
use mathlib.Core.List.{List, ◌++◌}
use native.Mathlib.Omega.{arith}
use technopark_cpp.Prelude.Tests.{ltb, leb, if◌then◌else◌}
use technopark_cpp.Prelude.Lists.{
  length, take, drop, get_elem?, get_or, set, get_elem?-eq-get_or, get_elem?-ge-length,
}

-- The standard exceptions that the code throws, with their messages.
pub data Exception : Type 0 where
  runtime_error : String → Exception
  logic_error : String → Exception

-- `undefined` is an access outside an allocated block, a null dereference or a division by zero;
-- `out_of_fuel` is the model's own.
pub data Run {ℓ} (A : Type ℓ) : Type ℓ where
  ok : A → Run A
  throw : Exception → Run A
  undefined out_of_fuel : Run A

infixl 5 ◌>>=◌ ◌>>◌
abbrev pub ◌>>=◌ {ℓ κ} : {A : Type ℓ} {B : Type κ} → Run A → (A → Run B) → Run B
ok a >>= f = f a
throw e >>= f = throw e
undefined >>= f = undefined
out_of_fuel >>= f = out_of_fuel

abbrev pub ◌>>◌ {ℓ} : {B : Type ℓ} → Run (Unit {0}) → Run B → Run B
m >> k = m >>= λ _. k

-- The run ends normally, with a value that satisfies `P`.
abbrev pub Returns {ℓ κ} : {A : Type ℓ} → (A → Type κ) → Run A → Type (ℓ ⊔ κ)
Returns {A} P r = (a : A) × (r ≡ ok a) × P a

module _ {ℓ κ κ'} {A : Type ℓ} {P : A → Type κ} {first : Run A} where
  pub Returns-bind {ℓ'} :
      {B : Type ℓ'} {next : A → Run B} {Q : B → Type κ'}
      → Returns P first
      → ((a : A) → P a → Returns Q (next a))
      → Returns Q (first >>= next)
  Returns-bind {next} {Q} (a, e, p) k = rw e (k a p)

  pub Returns-map : {Q : A → Type κ'} → Returns P first → ((x : A) → P x → Q x) → Returns Q first
  Returns-map (a, e, p) k = (a, e, k a p)

module _ {ℓ} {A : Type ℓ} where
  -- `b[i]` read from the block `b`
  unfoldable pub load : List A → ℕ → Run A
  load b i = elim (get_elem? b i) [ none ↦ undefined | some v ↦ ok v ]

  -- `b[i] = v`
  unfoldable pub store : List A → ℕ → A → Run (List A)
  store b i v = if ltb i (length b) then ok (set b i v) else undefined

  pub load-ok : (b : List A) (i : ℕ) (d : A) → i < length b → load b i ≡ ok (get_or b i d)
  unfolding load
  load-ok b i d h = rw (get_elem?-eq-get_or b i d h, load)

  pub load-undefined : (b : List A) (i : ℕ) → length b ≤ i → load b i ≡ undefined
  unfolding load
  load-undefined b i h = rw (get_elem?-ge-length b i h, load)

  pub store-ok : (b : List A) (i : ℕ) (v : A) → i < length b → store b i v ≡ ok (set b i v)
  unfolding store
  store-ok b i v h = ground arith

  pub store-undefined : (b : List A) (i : ℕ) (v : A) → length b ≤ i → store b i v ≡ undefined
  unfolding store
  store-undefined b i v h = ground arith

  -- `memcpy` of `n` entries from the start of `src` to the start of `dst`
  unfoldable pub memcpy : List A → List A → ℕ → Run (List A)
  memcpy dst src n =
      if leb n (length dst) && leb n (length src) then ok (take n src ++ drop n dst) else undefined

  pub memcpy-ok :
      (dst src : List A) (n : ℕ)
      → n ≤ length dst
      → n ≤ length src
      → memcpy dst src n ≡ ok (take n src ++ drop n dst)
  unfolding memcpy
  memcpy-ok dst src n h k = ground arith
