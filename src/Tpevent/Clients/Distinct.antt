-- ===== src/Tpevent/Clients/Distinct.antt =====
-- Where no two elements share a descriptor, the loop over the disconnected ones leaves the others.
use technopark_cpp.Tpevent.Clients.{erase_sd, erase_sds}
use technopark_cpp.Descriptor.Balance.{NotOpen}
use technopark_cpp.Prelude.{
  Bool, Bool-cases, List, [], arith, eqb_ℤ, eqb_ℤ_iff, if◌then◌else◌, inl, inr, map, ok,
  out_of_fuel, refl, throw, true, undefined, ℤ, ◌>>=◌, ◌∷◌, ◌≡◌,
}

abbrev pub Distinct : List ℤ → Type 0
Distinct [] = Unit {0}
Distinct (x ∷ xs) = NotOpen x xs × Distinct xs

pub eqb_ℤ-swap : (a b : ℤ) → eqb_ℤ a b ≡ eqb_ℤ b a
eqb_ℤ-swap a b = ground arith

pub eqb_ℤ-refl : (a : ℤ) → eqb_ℤ a a ≡ true
eqb_ℤ-refl a = (eqb_ℤ_iff a a).1 refl

module _ {A : Type 0} where
  -- Of elements with the mark of whether they are disconnected: all of them
  unfoldable pub elements : List (A × Bool) → List A
  elements [] = []
  elements (w ∷ ws) = w.0 ∷ elements ws

  -- those that stay
  unfoldable pub survivors : List (A × Bool) → List A
  survivors [] = []
  survivors (w ∷ ws) = let rest = survivors ws in if w.1 then rest else w.0 ∷ rest

module _ {A : Type 0} (sd_of : A → ℤ) where
  unfoldable pub gone_sds : List (A × Bool) → List ℤ
  gone_sds [] = []
  gone_sds (w ∷ ws) = let rest = gone_sds ws in if w.1 then sd_of w.0 ∷ rest else rest

  erase_sds-skip :
      (x : A) (sds : List ℤ) (xs : List A)
      → NotOpen (sd_of x) sds
      → erase_sds sd_of sds (x ∷ xs) ≡ (erase_sds sd_of sds xs >>= λ left. ok (x ∷ left))
  unfolding erase_sds erase_sd
  erase_sds-skip x [] xs h = refl
  erase_sds-skip x (sd ∷ sds) xs h =
      rw (eqb_ℤ-swap (sd_of x) sd, h.0)
        (elim (erase_sd sd_of sd xs)
          as (λ r.
            ((r >>= λ left. ok (x ∷ left)) >>= λ left. erase_sds sd_of sds left)
            ≡ ((r >>= λ left. erase_sds sd_of sds left) >>= λ left. ok (x ∷ left))) [
              | ok left ↦ erase_sds-skip x sds left h.1
              | throw e ↦ refl
              | undefined ↦ refl
              | out_of_fuel ↦ refl
            ])

  NotOpen-gone_sds :
      (sd : ℤ) (ws : List (A × Bool))
      → NotOpen sd (map sd_of (elements ws))
      → NotOpen sd (gone_sds ws)
  unfolding gone_sds elements
  NotOpen-gone_sds sd [] h = tt
  NotOpen-gone_sds sd (w ∷ ws) h = elim (Bool-cases w.1) [
    | inl e ↦ rw e (h.0, NotOpen-gone_sds sd ws h.1)
    | inr e ↦ rw e (NotOpen-gone_sds sd ws h.1)
  ]

  pub erase_sds-gone_sds :
      (ws : List (A × Bool))
      → Distinct (map sd_of (elements ws))
      → erase_sds sd_of (gone_sds ws) (elements ws) ≡ ok (survivors ws)
  unfolding gone_sds elements survivors erase_sds erase_sd
  erase_sds-gone_sds [] h = refl
  erase_sds-gone_sds (w ∷ ws) h = elim (Bool-cases w.1) [
    | inl e ↦ rw (e, eqb_ℤ-refl (sd_of w.0)) (erase_sds-gone_sds ws h.1)
    | inr e ↦
        rw
          (
            e,
            erase_sds-skip w.0 (gone_sds ws) (elements ws) (NotOpen-gone_sds (sd_of w.0) ws h.0),
            erase_sds-gone_sds ws h.1,
          )
          refl
  ]
