-- ===== src/Tpevent/Epoll/Memory.antt =====
-- EpollEngine never uses a client that it has deleted, and what the kernel watches is what its clients
-- wait for.
use technopark_cpp.Tpevent.Clients.Distinct.{eqb_ℤ-swap, Distinct}
use technopark_cpp.Tpevent.Engine.{ClientState, Client, new_client, want_read}
use technopark_cpp.Tpevent.Epoll.{
  modify, deref, EpollState, free, unwatch, Cell, Accepting, is_listener, collect, set_state,
  Interest, accept_action,
}
use technopark_cpp.Tpevent.Epoll.Cells.{
  modify-set_state, Absent, unwatch-free, watch_of, DistinctAddresses, cell_sds, Live, deref-sd,
  addresses,
}
use technopark_cpp.Tpevent.Epoll.Steady.{
  DistinctAddresses-last, DistinctAddresses-free, Live-free, NotOpen-free, watches-last,
  Distinct-free, cell_sds-set_state, cell_sds-last, addresses-set_state, addresses-last,
}
use technopark_cpp.Descriptor.Balance.{NotOpen}
use technopark_cpp.Tpevent.Clients.Open.{Distinct-last}
use technopark_cpp.Prelude.{
  Bool-cases, List, Returns, [], arith, eqb_ℤ, false, inl, inr, map, ok, pos, refl, true, ℕ, ◌++◌,
  ◌==◌, ◌∙◌, ◌∷◌, ◌≡◌,
}

abbrev pub listener_watch : ℕ → Interest
listener_watch listener = record {
  watched_sd = pos listener;
  asks = want_read;
  user_data = listener;
}

-- No client's address reads as the listener.
abbrev pub NoAlias : ℕ → List ℕ → Type 0
NoAlias listener [] = Unit {0}
NoAlias listener (a ∷ xs) = (is_listener listener a ≡ false) × NoAlias listener xs

-- The kernel watches the listener and each client, for what the client waits for.
pub record Sound (listener : ℕ) (s : EpollState) : Type 0 where
  pub watches : s.interest ≡ listener_watch listener ∷ map watch_of s.heap
  pub own_address : DistinctAddresses (addresses s.heap)
  pub own_sd : Distinct (pos listener ∷ cell_sds s.heap)
  pub no_alias : NoAlias listener (addresses s.heap)

-- What `accept`, `new` and `epoll_ctl` promise together: they succeed, with a new descriptor and a
-- new address.
pub record Fresh (listener : ℕ) (a : Accepting) (s : EpollState) : Type 0 where
  pub is_added : a.added ≡ true
  pub fresh_sd : NotOpen a.new_sd (pos listener ∷ cell_sds s.heap)
  pub fresh_address : Absent a.new_address (addresses s.heap)
  pub fresh_alias : is_listener listener a.new_address ≡ false

NoAlias-last :
    (listener a : ℕ) (xs : List ℕ)
    → NoAlias listener xs
    → is_listener listener a ≡ false
    → NoAlias listener (xs ++ a ∷ [])
NoAlias-last listener a [] n e = (e, tt)
NoAlias-last listener a (x ∷ xs) n e = (n.0, NoAlias-last listener a xs n.1 e)

NoAlias-free :
    (listener a : ℕ) (heap : List Cell)
    → NoAlias listener (addresses heap)
    → NoAlias listener (addresses (free a heap))
unfolding free
NoAlias-free listener a [] n = tt
NoAlias-free listener a (c ∷ heap) n = elim (Bool-cases (c.address == a)) [
  | inl e ↦ rw e (NoAlias-free listener a heap n.1)
  | inr e ↦ rw e (n.0, NoAlias-free listener a heap n.1)
]

pub accept_action-Sound :
    (listener : ℕ) (a : Accepting) (s : EpollState)
    → Fresh listener a s
    → Sound listener s
    → Sound listener (accept_action a s)
unfolding accept_action
accept_action-Sound listener a s f m =
    let cell : Cell = record { address = a.new_address; client = new_client a.new_sd } in
    let sds = cell_sds-last s.heap cell in
    let own = Distinct-last a.new_sd (pos listener ∷ cell_sds s.heap) m.own_sd f.fresh_sd in
    record {
      watches = rw (f.is_added, m.watches, watches-last s.heap cell) refl;
      own_address =
          rw (addresses-last s.heap cell)
            (DistinctAddresses-last a.new_address (addresses s.heap) m.own_address f.fresh_address);
      own_sd = rw sds own;
      no_alias =
          rw (addresses-last s.heap cell)
            (NoAlias-last listener a.new_address (addresses s.heap) m.no_alias f.fresh_alias);
    }

-- A client turns, and the kernel is told.
unfoldable pub told : ℕ → ClientState → Client → EpollState → EpollState
told a t c s = record { heap = set_state a t s.heap; interest = modify c.sd t a s.interest }

pub told-Sound :
    (listener a : ℕ) (t : ClientState) (c : Client) (s : EpollState)
    → deref a s.heap ≡ ok c
    → Sound listener s
    → Sound listener (told a t c s)
unfolding told modify
told-Sound listener a t c s e m =
    let other : eqb_ℤ (pos listener) c.sd ≡ false =
      eqb_ℤ-swap (pos listener) c.sd ∙ deref-sd a (pos listener) s.heap c e m.own_sd.0 in
    let sds = cell_sds-set_state a t s.heap in
    let same = addresses-set_state a t s.heap in
    record {
      watches =
          rw (m.watches, other, modify-set_state a t s.heap c e m.own_address m.own_sd.1) refl;
      own_address = rw same m.own_address;
      own_sd = rw sds m.own_sd;
      no_alias = rw same m.no_alias;
    }

-- A client's descriptor is closed, and the client deleted.
collected : ℕ → Client → EpollState → EpollState
collected a c s = record { heap = free a s.heap; interest = unwatch c.sd s.interest }

collected-Sound :
    (listener a : ℕ) (c : Client) (s : EpollState)
    → deref a s.heap ≡ ok c
    → Sound listener s
    → Sound listener (collected a c s)
unfolding collected unwatch
collected-Sound listener a c s e m =
    let other : eqb_ℤ (pos listener) c.sd ≡ false =
      eqb_ℤ-swap (pos listener) c.sd ∙ deref-sd a (pos listener) s.heap c e m.own_sd.0 in
    record {
      watches = rw (m.watches, other, unwatch-free a s.heap c e m.own_address m.own_sd.1) refl;
      own_address = DistinctAddresses-free a s.heap m.own_address;
      own_sd = (NotOpen-free (pos listener) a s.heap m.own_sd.0, Distinct-free a s.heap m.own_sd.1);
      no_alias = NoAlias-free listener a s.heap m.no_alias;
    }

abbrev pub AllLive : List ℕ → List Cell → Type 0
AllLive [] heap = Unit {0}
AllLive (a ∷ xs) heap = Live a heap × AllLive xs heap

AllLive-free :
    (xs : List ℕ) (a : ℕ) (heap : List Cell)
    → Absent a xs
    → AllLive xs heap
    → AllLive xs (free a heap)
AllLive-free [] a heap n l = tt
AllLive-free (x ∷ xs) a heap n l =
    let swapped : (a == x) ≡ false = ground (arith, n.0) in
    (Live-free x a heap swapped l.0, AllLive-free xs a heap n.1 l.1)

-- Each client is closed and deleted once.
pub collect-Sound :
    (listener : ℕ) (xs : List ℕ) (s : EpollState)
    → Sound listener s
    → AllLive xs s.heap
    → DistinctAddresses xs
    → Returns (λ r. Sound listener r.0) (collect xs s)
unfolding collect collected
collect-Sound listener [] s m l d = (_, refl, m)
collect-Sound listener (a ∷ xs) s m ((c, e), l) d =
    let next = collected-Sound listener a c s e m in
    let (r, e', m') =
      collect-Sound listener xs (collected a c s) next (AllLive-free xs a s.heap d.0 l) d.1 in
    rw (e, e') (_, refl, m')
