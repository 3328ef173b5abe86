-- ===== src/GenCache/Bounded.antt =====
-- LastUsedCache never holds more than its limit, and an insert of a present key changes no item.
use technopark_cpp.GenCache.{
  insert_old, find_data, insert_data, find_entry, GenCache, insert_new, set_gen, next_gen, GenEntry,
  erase_gen, least_gen,
}
use mathlib.Core.List.{Permᴰ}
use mathlib.Core.Logic.{∥∥₁_elim}
use native.Mathlib.Decide.{dec_lt}
use technopark_cpp.Prelude.{
  Bool, Bool-cases, List, Option, Option-cases, Perm, [], ap, arith, inl, inr, length, length-perm,
  ltb, min, none, refl, some, suc, sym, true, ℕ, ◌+◌, ◌<◌, ◌==◌, ◌∙◌, ◌∷◌, ◌≡◌, ◌≤◌, ◌⊎◌,
}
use native.Mathlib.Bridge.{le_prop}

module _ {K V : Type 0} where
  abbrev HasGen : ℕ → List (GenEntry K V) → Type 0
  HasGen g [] = ⊥
  HasGen g (e ∷ es) = ((e.gen == g) ≡ true) ⊎ HasGen g es

  length-erase_gen :
      (g : ℕ) (es : List (GenEntry K V)) → HasGen g es → length (erase_gen g es) + 1 ≡ length es
  unfolding erase_gen
  length-erase_gen g [] h = elim h [ ]
  length-erase_gen g (e ∷ es) (inl h) = rw h (omega arith)
  length-erase_gen g (e ∷ es) (inr h) = elim (Bool-cases (e.gen == g)) [
    | inl here ↦ rw here (omega arith)
    | inr there ↦ rw there (omega (arith, length-erase_gen g es h))
  ]

  -- The least generation is that of an entry, or the start where no entry is below it.
  least_gen-found :
      (g : ℕ) (es : List (GenEntry K V)) → HasGen (least_gen g es) es ⊎ (least_gen g es ≡ g)
  unfolding least_gen
  least_gen-found g [] = inr refl
  least_gen-found g (e ∷ es) = elim (least_gen-found (min g e.gen) es) [
    | inl h ↦ inl (inr h)
    | inr h ↦ elim (dec_lt e.gen g) [
      | yes p ↦
          let least : min g e.gen ≡ e.gen = omega arith in inl (inl (ground (arith, h, least)))
      | no p ↦ let least : min g e.gen ≡ g = omega arith in inr (h ∙ least)
    ]
  ]

  least_gen-le : (g : ℕ) (es : List (GenEntry K V)) → least_gen g es ≤ g
  unfolding least_gen
  least_gen-le g [] = omega arith
  least_gen-le g (e ∷ es) = omega (arith, least_gen-le (min g e.gen) es)

  -- Numbers of calls have 64 bits.
  abbrev pub AllSmall : List (GenEntry K V) → Type 0
  AllSmall [] = Unit {0}
  AllSmall (e ∷ es) = (e.gen < 18446744073709551616) × AllSmall es

  least_gen-HasGen :
      (es : List (GenEntry K V))
      → 0 < length es
      → AllSmall es
      → HasGen (least_gen 18446744073709551615 es) es
  unfolding least_gen
  least_gen-HasGen [] some_entry small = absurd (omega arith)
  least_gen-HasGen (e ∷ es) some_entry small =
      elim (least_gen-found 18446744073709551615 (e ∷ es)) [
        | inl h ↦ h
        | inr h ↦
            let below = least_gen-le (min 18446744073709551615 e.gen) es in
            let h' : least_gen (min 18446744073709551615 e.gen) es ≡ 18446744073709551615 = h in
            let here : least_gen (min 18446744073709551615 e.gen) es ≡ e.gen =
              omega (arith, h', below, small.0) in
            inl (ground (arith, here))
      ]

  AllSmall-IsProp : (es : List (GenEntry K V)) → IsProp (AllSmall es)
  AllSmall-IsProp [] = hlevel
  AllSmall-IsProp (e ∷ es) = let rest = AllSmall-IsProp es in hlevel (le_prop)

  AllSmall-Permᴰ : {xs ys : List (GenEntry K V)} → Permᴰ xs ys → AllSmall xs → AllSmall ys
  AllSmall-Permᴰ (Permᴰ.trans first second) a = AllSmall-Permᴰ second (AllSmall-Permᴰ first a)
  AllSmall-Permᴰ (Permᴰ.swap p q) a = rw (sym p, sym q) (a.1.0, (a.0, a.1.1))
  AllSmall-Permᴰ (Permᴰ.cons p tails) a = rw (sym p) (a.0, AllSmall-Permᴰ tails a.1)
  AllSmall-Permᴰ Permᴰ.nil a = a

  AllSmall-Perm : {xs ys : List (GenEntry K V)} → Perm xs ys → AllSmall xs → AllSmall ys
  AllSmall-Perm {ys = ys} p a = ∥∥₁_elim p (AllSmall-IsProp ys) (λ d. AllSmall-Permᴰ d a)

  AllSmall-erase_gen : (g : ℕ) (es : List (GenEntry K V)) → AllSmall es → AllSmall (erase_gen g es)
  unfolding erase_gen
  AllSmall-erase_gen g [] a = tt
  AllSmall-erase_gen g (e ∷ es) a = elim (Bool-cases (e.gen == g)) [
    | inl h ↦ rw h a.1
    | inr h ↦ rw h (a.0, AllSmall-erase_gen g es a.1)
  ]

  pub record Valid (c : GenCache K V) : Type 0 where
    pub small_gens : AllSmall c.stored
    pub bounded : length c.stored ≤ c.limit

-- The map takes in a new entry and keeps the others, in any order.
abbrev pub Arranges :
    {K V : Type 0} → (GenEntry K V → List (GenEntry K V) → List (GenEntry K V)) → Type 0
Arranges {K = K} {V = V} arrange =
    (e : GenEntry K V) (es : List (GenEntry K V)) → Perm (e ∷ es) (arrange e es)

next_gen-small : (g : ℕ) → next_gen g < 18446744073709551616
next_gen-small g = omega arith

module _ {K V : Type 0} (same : K → K → Bool) where
  insert_new-Valid :
      (arrange : GenEntry K V → List (GenEntry K V) → List (GenEntry K V)) (key : K) (item : V)
      (c : GenCache K V)
      → Arranges arrange
      → Valid c
      → Valid (insert_new same arrange key item c)
  unfolding insert_new
  insert_new-Valid arrange key item c arranges v =
      let e : GenEntry K V = record { key_of = key; payload = item; gen = next_gen c.generation } in
      let more = arrange e c.stored in
      let small : AllSmall more =
        AllSmall-Perm (arranges e c.stored) (next_gen-small c.generation, v.small_gens) in
      let one_more : length (e ∷ c.stored) ≡ length more = length-perm (arranges e c.stored) in
      let least = least_gen 18446744073709551615 more in
      elim (Bool-cases (ltb c.limit (length more))) [
        | inl full ↦ rw full (record {
          small_gens = AllSmall-erase_gen least more small;
          bounded = omega (
            arith,
            one_more,
            length-erase_gen least more (least_gen-HasGen more (omega (arith, one_more)) small),
            v.bounded,
          );
        })
        | inr room ↦ rw room (record { small_gens = small; bounded = ground (arith, room) })
      ]

  set_gen-length :
      (key : K) (g : ℕ) (es : List (GenEntry K V)) → length (set_gen same key g es) ≡ length es
  unfolding set_gen
  set_gen-length key g [] = refl
  set_gen-length key g (e ∷ es) = elim (Bool-cases (same e.key_of key)) [
    | inl h ↦ rw h refl
    | inr h ↦ rw h (ap suc (set_gen-length key g es))
  ]

  set_gen-AllSmall :
      (key : K) (g : ℕ) (es : List (GenEntry K V))
      → g < 18446744073709551616
      → AllSmall es
      → AllSmall (set_gen same key g es)
  unfolding set_gen
  set_gen-AllSmall key g [] small a = tt
  set_gen-AllSmall key g (e ∷ es) small a = elim (Bool-cases (same e.key_of key)) [
    | inl h ↦ rw h (small, a.1)
    | inr h ↦ rw h (a.0, set_gen-AllSmall key g es small a.1)
  ]

  data_of : Option (GenEntry K V) → Option V
  data_of none = none
  data_of (some e) = some e.payload

  -- A change of the number changes no item.
  set_gen-find :
      (key q : K) (g : ℕ) (es : List (GenEntry K V))
      → data_of (find_entry same q (set_gen same key g es)) ≡ data_of (find_entry same q es)
  unfolding set_gen find_entry data_of
  set_gen-find key q g [] = refl
  set_gen-find key q g (e ∷ es) = elim (Bool-cases (same e.key_of key)) [
    | inl h ↦ elim (Bool-cases (same e.key_of q)) [
      | inl k ↦ rw (h, k) refl
      | inr k ↦ rw (h, k) refl
    ]
    | inr h ↦ elim (Bool-cases (same e.key_of q)) [
      | inl k ↦ rw (h, k) refl
      | inr k ↦ rw (h, k) (set_gen-find key q g es)
    ]
  ]

  find_data-data_of :
      (c : GenCache K V) (q : K) → find_data same c q ≡ data_of (find_entry same q c.stored)
  unfolding find_data data_of
  find_data-data_of c q =
      elim (find_entry same q c.stored)
        as (λ o.
          (elim o as (λ x. Option V) [ none ↦ none | some e ↦ some e.payload ]) ≡ data_of o) [
            | none ↦ refl
            | some e ↦ refl
          ]

  insert_old-Valid : (key : K) (c : GenCache K V) → Valid c → Valid (insert_old same key c)
  unfolding insert_old
  insert_old-Valid key c v =
      let g = next_gen (next_gen c.generation) in
      record {
        small_gens =
            set_gen-AllSmall key g c.stored (next_gen-small (next_gen c.generation)) v.small_gens;
        bounded = omega (arith, set_gen-length key g c.stored, v.bounded);
      }

  insert_data-Valid :
      (arrange : GenEntry K V → List (GenEntry K V) → List (GenEntry K V)) (key : K) (item : V)
      (c : GenCache K V)
      → Arranges arrange
      → Valid c
      → Valid (insert_data same arrange key item c)
  unfolding insert_data
  insert_data-Valid arrange key item c arranges v = elim (Bool-cases (c.limit == 0)) [
    | inl off ↦ rw off v
    | inr on ↦ rw on (elim (Option-cases (find_entry same key c.stored)) [
      | inl e ↦ rw e (insert_new-Valid arrange key item c arranges v)
      | inr (x, e) ↦ rw e (insert_old-Valid key c v)
    ])
  ]

  insert_data-present :
      (arrange : GenEntry K V → List (GenEntry K V) → List (GenEntry K V)) (key q : K) (item : V)
      (c : GenCache K V) (e : GenEntry K V)
      → find_entry same key c.stored ≡ some e
      → find_data same (insert_data same arrange key item c) q ≡ find_data same c q
  unfolding insert_data insert_old
  insert_data-present arrange key q item c e h = elim (Bool-cases (c.limit == 0)) [
    | inl off ↦ rw off refl
    | inr on ↦
        let g = next_gen (next_gen c.generation) in
        let after = record c { stored = set_gen same key g c.stored; generation = g } in
        rw (on, h)
          (find_data-data_of after q ∙ set_gen-find key q g c.stored ∙ sym (find_data-data_of c q))
  ]

  -- If a cache holds no more entries than its limit, with numbers of 64 bits, so it does after an
  -- insert, in whatever order the map keeps its entries. An insert of a key that is present leaves
  -- the answer of find for every key, that key included, as it was.
  pub insert_data-Kept :
      (arrange : GenEntry K V → List (GenEntry K V) → List (GenEntry K V)) (key : K) (item : V)
      (c : GenCache K V)
      → Arranges arrange
      → Valid c
      → Valid (insert_data same arrange key item c)
        × ((e : GenEntry K V) (q : K)
            → find_entry same key c.stored ≡ some e
            → find_data same (insert_data same arrange key item c) q ≡ find_data same c q)
  insert_data-Kept arrange key item c arranges v = (
    insert_data-Valid arrange key item c arranges v,
    λ e q h. insert_data-present arrange key q item c e h,
  )
