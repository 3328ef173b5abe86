-- ===== src/Container/Calls.antt =====
-- The interface of a container of `int`, and the run of a script against it.
use technopark_cpp.Prelude.{
  Bool, Exception, List, Run, [], ok, out_of_fuel, throw, undefined, ℕ, ℤ, ◌∷◌,
}

-- What an observer such as Front() or Empty() returns.
pub data Value : Type 0 where
  int : ℤ → Value
  bool : Bool → Value
  count : ℕ → Value

-- The operations of a container with states `S`; `L` names its observers.
pub record Container (L S : Type 0) : Type 0 where
  pub push : S → ℤ → Run S
  pub pop : S → Run (ℤ × S)
  pub look : L → S → Run Value

pub data Call (L : Type 0) : Type 0 where
  push_call : ℤ → Call L
  pop_call : Call L
  look_call : L → Call L

pub data Reply : Type 0 where
  done : Reply
  returned : Value → Reply
  threw : Exception → Reply
  crashed stuck : Reply

-- The replies after a call that ended as `r`: those of `next` if it returned, and those of `same`,
-- where the object is as before, if it threw.
abbrev pub resume : {A : Type 0} → Run A → (A → List Reply) → (Exception → List Reply) → List Reply
resume (ok a) next same = next a
resume (throw e) next same = threw e ∷ same e
resume undefined next same = crashed ∷ []
resume out_of_fuel next same = stuck ∷ []

module _ {L S : Type 0} (c : Container L S) where
  unfoldable pub run : S → List (Call L) → List Reply
  run s [] = []
  run s (push_call v ∷ calls) = resume (c.push s v) (λ t. done ∷ run t calls) (λ _. run s calls)
  run s (pop_call ∷ calls) =
      resume (c.pop s) (λ (v, t). returned (int v) ∷ run t calls) (λ _. run s calls)
  run s (look_call l ∷ calls) =
      resume (c.look l s) (λ v. returned v ∷ run s calls) (λ _. run s calls)
