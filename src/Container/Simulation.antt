-- ===== src/Container/Simulation.antt =====
-- A container implements another if a relation between their states is kept by every call.
use technopark_cpp.Container.Calls.{
  int, Container, Call, push_call, pop_call, look_call, Reply, done, returned, threw, resume, run,
}
use technopark_cpp.Prelude.{
  Exception, List, Run, [], ap, ap₂, ok, refl, throw, undefined, ℤ, ◌∷◌, ◌≡◌,
}

-- Two calls that end alike, with related values.
pub data Alike {A B : Type 0} (R : A → B → Type 0) : Run A → Run B → Type 0 where
  both_ok : {a : A} {b : B} → R a b → Alike R (ok a) (ok b)
  both_throw : {e : Exception} → Alike R (throw e) (throw e)
  both_undefined : Alike R undefined undefined

module _ {A B : Type 0} {R : A → B → Type 0} where
  resume-Alike :
      {x : Run A} {y : Run B} {next : A → List Reply} {next' : B → List Reply}
      {same same' : Exception → List Reply}
      → Alike R x y
      → ((a : A) (b : B) → R a b → next a ≡ next' b)
      → ((e : Exception) → same e ≡ same' e)
      → resume x next same ≡ resume y next' same'
  resume-Alike (both_ok r) f g = f _ _ r
  resume-Alike (both_throw {e}) f g = ap (◌∷◌ (threw e)) (g e)
  resume-Alike both_undefined f g = refl

module _ {S T : Type 0} (R : S → T → Type 0) where
  abbrev pub Popped : ℤ × S → ℤ × T → Type 0
  Popped p q = (p.0 ≡ q.0) × R p.1 q.1

module _ {L S T : Type 0} where
  pub record Implements (c : Container L S) (d : Container L T) (R : S → T → Type 0) : Type 0 where
    pub push_alike : (s : S) (t : T) (v : ℤ) → R s t → Alike R (c.push s v) (d.push t v)
    pub pop_alike : (s : S) (t : T) → R s t → Alike (Popped R) (c.pop s) (d.pop t)
    pub look_same : (l : L) (s : S) (t : T) → R s t → c.look l s ≡ d.look l t

  module _ (c : Container L S) (d : Container L T) (R : S → T → Type 0)
      (imp : Implements c d R) where
    -- From related states every script gets the same replies.
    pub run-eq_of_implements :
        (calls : List (Call L)) (s : S) (t : T) → R s t → run c s calls ≡ run d t calls
    unfolding run
    run-eq_of_implements [] s t r = refl
    run-eq_of_implements (push_call v ∷ calls) s t r =
        resume-Alike (imp.push_alike s t v r)
          (λ s' t' r'. ap (◌∷◌ done) (run-eq_of_implements calls s' t' r'))
          (λ _. run-eq_of_implements calls s t r)
    run-eq_of_implements (pop_call ∷ calls) s t r =
        resume-Alike (imp.pop_alike s t r)
          (λ p q (same, r').
            ap₂ (λ v rest. returned (int v) ∷ rest) same (run-eq_of_implements calls p.1 q.1 r'))
          (λ _. run-eq_of_implements calls s t r)
    run-eq_of_implements (look_call l ∷ calls) s t r =
        rw (imp.look_same l s t r, run-eq_of_implements calls s t r)
