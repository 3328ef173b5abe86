-- ===== src/Tpevent/Select/Watched.antt =====
-- The bound that SelectEngine hands to `select` covers every client.
use technopark_cpp.Tpevent.Select.{largest, watched}
use technopark_cpp.Tpevent.Engine.{Client}
use technopark_cpp.Prelude.{
  Bool, List, [], arith, false, if◌then◌else◌, ltb_ℤ, refl, ℤ, ◌∷◌, ◌≡◌, ◌≤ℤ◌,
}

ltb_ℤ-false : (a b : ℤ) → b ≤ℤ a → ltb_ℤ a b ≡ false
ltb_ℤ-false a b h = ground arith

largest-start : (fdmax : ℤ) (cs : List Client) → fdmax ≤ℤ largest fdmax cs
unfolding largest
largest-start fdmax [] = ground arith
largest-start fdmax (c ∷ cs) =
    ground (arith, largest-start (if ltb_ℤ fdmax c.sd then c.sd else fdmax) cs)

-- Every client is below the bound.
abbrev pub AllWatched : ℤ → List Client → Type 0
AllWatched fdmax [] = Unit {0}
AllWatched fdmax (c ∷ cs) = (c.sd ≤ℤ fdmax) × AllWatched fdmax cs

pub largest-AllWatched : (fdmax : ℤ) (cs : List Client) → AllWatched (largest fdmax cs) cs
unfolding largest
largest-AllWatched fdmax [] = tt
largest-AllWatched fdmax (c ∷ cs) = (
  ground (arith, largest-start (if ltb_ℤ fdmax c.sd then c.sd else fdmax) cs),
  largest-AllWatched (if ltb_ℤ fdmax c.sd then c.sd else fdmax) cs,
)

pub watched-ready :
    (fdmax sd : ℤ) (is_ready : ℤ → Bool) → sd ≤ℤ fdmax → watched fdmax is_ready sd ≡ is_ready sd
watched-ready fdmax sd is_ready h = rw (ltb_ℤ-false fdmax sd h) refl

pub listener-watched :
    (listener : ℤ) (cs : List Client) (is_ready : ℤ → Bool)
    → watched (largest listener cs) is_ready listener ≡ is_ready listener
listener-watched listener cs is_ready =
    watched-ready (largest listener cs) listener is_ready (largest-start listener cs)
