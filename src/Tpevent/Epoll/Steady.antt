-- ===== src/Tpevent/Epoll/Steady.antt =====
-- What the operations on the heap of EpollEngine leave as it is.
use technopark_cpp.Tpevent.Clients.Distinct.{Distinct}
use technopark_cpp.Prelude.{
  Bool-cases, List, [], ap, arith, false, inl, inr, map, ok, refl, ℕ, ℤ, ◌++◌, ◌==◌, ◌∷◌, ◌≡◌,
}
use technopark_cpp.Descriptor.Balance.{NotOpen}
use technopark_cpp.Tpevent.Epoll.Cells.{
  Absent, Live, cell_sds, DistinctAddresses, addresses, watch_of,
}
use technopark_cpp.Tpevent.Epoll.{deref, set_state, Cell, free}
use technopark_cpp.Tpevent.Engine.{ClientState}

pub addresses-set_state :
    (a : ℕ) (s : ClientState) (heap : List Cell) → addresses (set_state a s heap) ≡ addresses heap
unfolding set_state
addresses-set_state a s [] = refl
addresses-set_state a s (c ∷ heap) = elim (Bool-cases (c.address == a)) [
  | inl e ↦ rw (e, addresses-set_state a s heap) refl
  | inr e ↦ rw (e, addresses-set_state a s heap) refl
]

pub cell_sds-set_state :
    (a : ℕ) (s : ClientState) (heap : List Cell) → cell_sds (set_state a s heap) ≡ cell_sds heap
unfolding set_state
cell_sds-set_state a s [] = refl
cell_sds-set_state a s (c ∷ heap) = elim (Bool-cases (c.address == a)) [
  | inl e ↦ rw (e, cell_sds-set_state a s heap) refl
  | inr e ↦ rw (e, cell_sds-set_state a s heap) refl
]

pub Live-set_state :
    (b a : ℕ) (s : ClientState) (heap : List Cell) → Live b heap → Live b (set_state a s heap)
unfolding set_state deref
Live-set_state b a s [] l = l
Live-set_state b a s (c ∷ heap) (d, e) =
    let state : ClientState = s in
    elim (Bool-cases (c.address == b)) [
      | inl here ↦ elim (Bool-cases (c.address == a)) [
        | inl e' ↦ rw (e', here) (_, refl)
        | inr e' ↦ rw (e', here) (_, refl)
      ]
      | inr there ↦
          let later : deref b heap ≡ ok d = ground (arith, e, there) in
          elim (Bool-cases (c.address == a)) [
            | inl e' ↦ rw (e', there) (Live-set_state b a state heap (d, later))
            | inr e' ↦ rw (e', there) (Live-set_state b a state heap (d, later))
          ]
    ]

pub Live-free : (b a : ℕ) (heap : List Cell) → (a == b) ≡ false → Live b heap → Live b (free a heap)
unfolding free deref
Live-free b a [] n l = l
Live-free b a (c ∷ heap) n (d, e) = elim (Bool-cases (c.address == a)) [
  | inl here ↦
      let other : (c.address == b) ≡ false = ground (arith, here, n) in
      let later : deref b heap ≡ ok d = ground (arith, e, other) in
      rw here (Live-free b a heap n (d, later))
  | inr there ↦ elim (Bool-cases (c.address == b)) [
    | inl e' ↦ rw (there, e') (_, refl)
    | inr e' ↦
        let later : deref b heap ≡ ok d = ground (arith, e, e') in
        rw (there, e') (Live-free b a heap n (d, later))
  ]
]

pub Absent-free :
    (b a : ℕ) (heap : List Cell) → Absent b (addresses heap) → Absent b (addresses (free a heap))
unfolding free
Absent-free b a [] n = tt
Absent-free b a (c ∷ heap) n = elim (Bool-cases (c.address == a)) [
  | inl e ↦ rw e (Absent-free b a heap n.1)
  | inr e ↦ rw e (n.0, Absent-free b a heap n.1)
]

pub DistinctAddresses-free :
    (a : ℕ) (heap : List Cell)
    → DistinctAddresses (addresses heap)
    → DistinctAddresses (addresses (free a heap))
unfolding free
DistinctAddresses-free a [] d = tt
DistinctAddresses-free a (c ∷ heap) d = elim (Bool-cases (c.address == a)) [
  | inl e ↦ rw e (DistinctAddresses-free a heap d.1)
  | inr e ↦ rw e (Absent-free c.address a heap d.0, DistinctAddresses-free a heap d.1)
]

pub NotOpen-free :
    (x : ℤ) (a : ℕ) (heap : List Cell)
    → NotOpen x (cell_sds heap)
    → NotOpen x (cell_sds (free a heap))
unfolding free
NotOpen-free x a [] n = tt
NotOpen-free x a (c ∷ heap) n = elim (Bool-cases (c.address == a)) [
  | inl e ↦ rw e (NotOpen-free x a heap n.1)
  | inr e ↦ rw e (n.0, NotOpen-free x a heap n.1)
]

pub Distinct-free :
    (a : ℕ) (heap : List Cell) → Distinct (cell_sds heap) → Distinct (cell_sds (free a heap))
unfolding free
Distinct-free a [] d = tt
Distinct-free a (c ∷ heap) d = elim (Bool-cases (c.address == a)) [
  | inl e ↦ rw e (Distinct-free a heap d.1)
  | inr e ↦ rw e (NotOpen-free c.client.sd a heap d.0, Distinct-free a heap d.1)
]

pub Live-append : (b : ℕ) (heap more : List Cell) → Live b heap → Live b (heap ++ more)
unfolding deref
Live-append b [] more (d, e) = absurd (ground (arith, e))
Live-append b (c ∷ heap) more (d, e) = elim (Bool-cases (c.address == b)) [
  | inl here ↦ rw here (_, refl)
  | inr there ↦
      let later : deref b heap ≡ ok d = ground (arith, e, there) in
      rw there (Live-append b heap more (d, later))
]

Absent-last : (x y : ℕ) (xs : List ℕ) → Absent x xs → (y == x) ≡ false → Absent x (xs ++ y ∷ [])
Absent-last x y [] n e = (e, tt)
Absent-last x y (z ∷ xs) n e = (n.0, Absent-last x y xs n.1 e)

pub DistinctAddresses-last :
    (a : ℕ) (xs : List ℕ) → DistinctAddresses xs → Absent a xs → DistinctAddresses (xs ++ a ∷ [])
DistinctAddresses-last a [] d n = (tt, tt)
DistinctAddresses-last a (x ∷ xs) d n =
    let swapped : (a == x) ≡ false = ground (arith, n.0) in
    (Absent-last x a xs d.0 swapped, DistinctAddresses-last a xs d.1 n.1)

pub addresses-last :
    (heap : List Cell) (c : Cell) → addresses (heap ++ c ∷ []) ≡ addresses heap ++ c.address ∷ []
addresses-last [] c = refl
addresses-last (x ∷ heap) c = ap (◌∷◌ x.address) (addresses-last heap c)

pub cell_sds-last :
    (heap : List Cell) (c : Cell) → cell_sds (heap ++ c ∷ []) ≡ cell_sds heap ++ c.client.sd ∷ []
cell_sds-last [] c = refl
cell_sds-last (x ∷ heap) c = ap (◌∷◌ x.client.sd) (cell_sds-last heap c)

pub watches-last :
    (heap : List Cell) (c : Cell)
    → map watch_of (heap ++ c ∷ []) ≡ map watch_of heap ++ watch_of c ∷ []
watches-last [] c = refl
watches-last (x ∷ heap) c = ap (◌∷◌ (watch_of x)) (watches-last heap c)
