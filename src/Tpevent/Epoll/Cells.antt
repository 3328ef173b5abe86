-- ===== src/Tpevent/Epoll/Cells.antt =====
-- The heap of EpollEngine beside what the kernel watches.
use technopark_cpp.Tpevent.Clients.Distinct.{eqb_ℤ-swap, eqb_ℤ-refl, Distinct}
use technopark_cpp.Tpevent.Epoll.{modify, deref, Cell, Interest, set_state, free, unwatch}
use technopark_cpp.Descriptor.Balance.{NotOpen}
use technopark_cpp.Tpevent.Engine.{ClientState, Client}
use technopark_cpp.Prelude.{
  ==_iff, Bool-cases, List, [], ap, arith, eqb_ℤ, false, inl, inr, map, ok, refl, subst, ℕ, ℤ, ◌==◌,
  ◌∙◌, ◌∷◌, ◌≡◌,
}

abbrev pub Absent : ℕ → List ℕ → Type 0
Absent a [] = Unit {0}
Absent a (x ∷ xs) = ((x == a) ≡ false) × Absent a xs

abbrev pub DistinctAddresses : List ℕ → Type 0
DistinctAddresses [] = Unit {0}
DistinctAddresses (x ∷ xs) = Absent x xs × DistinctAddresses xs

abbrev pub addresses : List Cell → List ℕ
addresses = map (λ c. c.address)

abbrev pub cell_sds : List Cell → List ℤ
cell_sds = map (λ c. c.client.sd)

-- What the kernel watches for a cell
abbrev pub watch_of : Cell → Interest
watch_of c = record { watched_sd = c.client.sd; asks = c.client.state; user_data = c.address }

-- A client is alive at the address.
abbrev pub Live : ℕ → List Cell → Type 0
Live a heap = (c : Client) × (deref a heap ≡ ok c)

pub deref-sd :
    (a : ℕ) (x : ℤ) (heap : List Cell) (c : Client)
    → deref a heap ≡ ok c
    → NotOpen x (cell_sds heap)
    → eqb_ℤ c.sd x ≡ false
unfolding deref
deref-sd a x [] c e n = absurd (ground (arith, e))
deref-sd a x (cell ∷ heap) c e n = elim (Bool-cases (cell.address == a)) [
  | inl here ↦
      let same : cell.client ≡ c = ground (arith, e, here) in
      subst (λ (d : Client). eqb_ℤ d.sd x ≡ false) same n.0
  | inr there ↦
      let later : deref a heap ≡ ok c = ground (arith, e, there) in deref-sd a x heap c later n.1
]

set_state-missing :
    (a : ℕ) (s : ClientState) (heap : List Cell)
    → Absent a (addresses heap)
    → set_state a s heap ≡ heap
unfolding set_state
set_state-missing a s [] n = refl
set_state-missing a s (c ∷ heap) n = rw (n.0, set_state-missing a s heap n.1) refl

modify-missing :
    (sd : ℤ) (s : ClientState) (a : ℕ) (heap : List Cell)
    → NotOpen sd (cell_sds heap)
    → modify sd s a (map watch_of heap) ≡ map watch_of heap
unfolding modify
modify-missing sd s a [] n = refl
modify-missing sd s a (c ∷ heap) n = rw (n.0, modify-missing sd s a heap n.1) refl

free-missing : (a : ℕ) (heap : List Cell) → Absent a (addresses heap) → free a heap ≡ heap
unfolding free
free-missing a [] n = refl
free-missing a (c ∷ heap) n = rw (n.0, free-missing a heap n.1) refl

unwatch-missing :
    (sd : ℤ) (heap : List Cell)
    → NotOpen sd (cell_sds heap)
    → unwatch sd (map watch_of heap) ≡ map watch_of heap
unfolding unwatch
unwatch-missing sd [] n = refl
unwatch-missing sd (c ∷ heap) n = rw (n.0, unwatch-missing sd heap n.1) refl

-- The kernel is told of the same change that is made on the heap.
pub modify-set_state :
    (a : ℕ) (s : ClientState) (heap : List Cell) (c : Client)
    → deref a heap ≡ ok c
    → DistinctAddresses (addresses heap)
    → Distinct (cell_sds heap)
    → modify c.sd s a (map watch_of heap) ≡ map watch_of (set_state a s heap)
unfolding modify set_state deref
modify-set_state a s [] c e da d = refl
modify-set_state a s (cell ∷ heap) c e da d = elim (Bool-cases (cell.address == a)) [
  | inl here ↦
      let same : cell.client ≡ c = ground (arith, e, here) in
      let same_sd : cell.client.sd ≡ c.sd = ap (λ (d : Client). d.sd) same in
      let apart = subst (λ x. NotOpen x (cell_sds heap)) same_sd d.0 in
      let at_a : cell.address ≡ a = (==_iff cell.address a).0 here in
      let absent = subst (λ k. Absent k (addresses heap)) at_a da.0 in
      rw
        (
          here,
          same_sd,
          eqb_ℤ-refl c.sd,
          modify-missing c.sd s a heap apart,
          set_state-missing a s heap absent,
          at_a,
        )
        refl
  | inr there ↦
      let later : deref a heap ≡ ok c = ground (arith, e, there) in
      let apart = eqb_ℤ-swap cell.client.sd c.sd ∙ deref-sd a cell.client.sd heap c later d.0 in
      rw (there, apart, modify-set_state a s heap c later da.1 d.1) refl
]

pub unwatch-free :
    (a : ℕ) (heap : List Cell) (c : Client)
    → deref a heap ≡ ok c
    → DistinctAddresses (addresses heap)
    → Distinct (cell_sds heap)
    → unwatch c.sd (map watch_of heap) ≡ map watch_of (free a heap)
unfolding unwatch free deref
unwatch-free a [] c e da d = refl
unwatch-free a (cell ∷ heap) c e da d = elim (Bool-cases (cell.address == a)) [
  | inl here ↦
      let same : cell.client ≡ c = ground (arith, e, here) in
      let same_sd : cell.client.sd ≡ c.sd = ap (λ (d : Client). d.sd) same in
      let apart = subst (λ x. NotOpen x (cell_sds heap)) same_sd d.0 in
      let at_a : cell.address ≡ a = (==_iff cell.address a).0 here in
      let absent = subst (λ k. Absent k (addresses heap)) at_a da.0 in
      rw
        (
          here,
          same_sd,
          eqb_ℤ-refl c.sd,
          unwatch-missing c.sd heap apart,
          free-missing a heap absent,
        )
        refl
  | inr there ↦
      let later : deref a heap ≡ ok c = ground (arith, e, there) in
      let apart = eqb_ℤ-swap cell.client.sd c.sd ∙ deref-sd a cell.client.sd heap c later d.0 in
      rw (there, apart, unwatch-free a heap c later da.1 d.1) refl
]
