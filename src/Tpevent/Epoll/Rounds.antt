-- ===== src/Tpevent/Epoll/Rounds.antt =====
-- The loop over the events of one `epoll_wait`, and the round.
use technopark_cpp.Tpevent.Epoll.{
  epoll_turns, is_listener, epoll_round, EpollTurn, Cell, EpollState, no_change, accept_action,
  epoll_turn, happened, Happening, Accepting,
}
use technopark_cpp.Tpevent.Epoll.Turns.{Kept, Promised, epoll_turn-Kept}
use technopark_cpp.Tpevent.Epoll.Memory.{Fresh, Sound, accept_action-Sound, AllLive, collect-Sound}
use technopark_cpp.Tpevent.Engine.{new_client, Action}
use technopark_cpp.Tpevent.Epoll.Cells.{Absent, addresses, Live, DistinctAddresses, cell_sds}
use technopark_cpp.Tpevent.Epoll.Steady.{Live-append}
use technopark_cpp.Prelude.{
  Bool-cases, List, Returns, String, [], arith, false, inl, inr, map, ok, refl, subst, true, ℕ,
  ◌++◌, ◌==◌, ◌∷◌, ◌≡◌, ◌⊎◌,
}

-- Each event is the listener's, or that of a client that is alive.
abbrev pub Known : ℕ → List Cell → List Happening → Type 0
Known listener heap [] = Unit {0}
Known listener heap (h ∷ hs) =
    ((is_listener listener h.event_data ≡ true) ⊎ Live h.event_data heap) × Known listener heap hs

abbrev pub AllPromised : List Happening → Type 0
AllPromised [] = Unit {0}
AllPromised (h ∷ hs) = Promised h × AllPromised hs

abbrev pub NoAccept : ℕ → List Happening → Type 0
NoAccept listener [] = Unit {0}
NoAccept listener (h ∷ hs) = (is_listener listener h.event_data ≡ false) × NoAccept listener hs

-- At most one event is the listener's.
abbrev pub OneAccept : ℕ → List Happening → Type 0
OneAccept listener [] = Unit {0}
OneAccept listener (h ∷ hs) =
    (is_listener listener h.event_data ≡ true → NoAccept listener hs) × OneAccept listener hs

abbrev pub event_addresses : List Happening → List ℕ
event_addresses = map (λ h. h.event_data)

Known-alive :
    (listener : ℕ) (before after : List Cell) (hs : List Happening)
    → ((b : ℕ) → Live b before → Live b after)
    → Known listener before hs
    → Known listener after hs
Known-alive listener before after [] more k = tt
Known-alive listener before after (h ∷ hs) more (inl e, k) =
    (inl e, Known-alive listener before after hs more k)
Known-alive listener before after (h ∷ hs) more (inr l, k) =
    (inr (more h.event_data l), Known-alive listener before after hs more k)

-- What the whole loop leaves
record AllKept (listener : ℕ) (hs : List Happening) (s : EpollState) (t : EpollTurn) : Type 0 where
  all_sound : Sound listener t.after
  all_alive : (b : ℕ) → Live b s.heap → Live b t.after.heap
  gone_alive : AllLive t.gone t.after.heap
  gone_distinct : DistinctAddresses t.gone
  gone_events : (x : ℕ) → Absent x (event_addresses hs) → Absent x t.gone

accept-alive :
    (a : Accepting) (s : EpollState) (b : ℕ) → Live b s.heap → Live b (accept_action a s).heap
unfolding accept_action
accept-alive a s b =
    Live-append b s.heap (record { address = a.new_address; client = new_client a.new_sd } ∷ [])

and_then :
    (listener d : ℕ) (hs : List Happening) (h : Happening) (s : EpollState) (t later : EpollTurn)
    → h.event_data ≡ d
    → Absent d (event_addresses hs)
    → Live d s.heap
    → Kept listener d s t
    → AllKept listener hs t.after later
    → AllKept listener
        (h ∷ hs)
        s
        (record { after = later.after; gone = t.gone ++ later.gone; acts = t.acts ++ later.acts })
and_then listener d hs h s t later e absent l k r = elim k.gone_few [
  | inl none_gone ↦ rw none_gone (record {
    all_sound = r.all_sound;
    all_alive = λ b x. r.all_alive b (k.alive b x);
    gone_alive = r.gone_alive;
    gone_distinct = r.gone_distinct;
    gone_events = λ x n. r.gone_events x n.1;
  })
  | inr one_gone ↦ rw one_gone (record {
    all_sound = r.all_sound;
    all_alive = λ b x. r.all_alive b (k.alive b x);
    gone_alive = (r.all_alive d (k.alive d l), r.gone_alive);
    gone_distinct = (r.gone_events d absent, r.gone_distinct);
    gone_events = λ x n. (subst (λ (y : ℕ). (y == x) ≡ false) e n.0, r.gone_events x n.1);
  })
]

Fresh-moved :
    (listener : ℕ) (a : Accepting) (s t : EpollState)
    → addresses t.heap ≡ addresses s.heap
    → cell_sds t.heap ≡ cell_sds s.heap
    → Fresh listener a s
    → Fresh listener a t
Fresh-moved listener a s t same_addresses same_sds f = record {
  is_added = f.is_added;
  fresh_sd = rw same_sds f.fresh_sd;
  fresh_address = rw same_addresses f.fresh_address;
  fresh_alias = f.fresh_alias;
}

still_fresh :
    (listener d : ℕ) (a : Accepting) (h : Happening) (hs : List Happening) (s : EpollState)
    (t : EpollTurn)
    → Kept listener d s t
    → (NoAccept listener (h ∷ hs)) ⊎ (Fresh listener a s)
    → (NoAccept listener hs) ⊎ (Fresh listener a t.after)
still_fresh listener d a h hs s t k (inl n) = inl n.1
still_fresh listener d a h hs s t k (inr f) =
    inr (Fresh-moved listener a s t.after k.same_addresses k.same_sds f)

-- The accept adds a client, and the others stay alive.
after_accept :
    (listener : ℕ) (a : Accepting) (h : Happening) (hs : List Happening) (s : EpollState)
    (later : EpollTurn)
    → AllKept listener hs (accept_action a s) later
    → AllKept listener (h ∷ hs) s later
after_accept listener a h hs s later r = record {
  all_sound = r.all_sound;
  all_alive = λ b l. r.all_alive b (accept-alive a s b l);
  gone_alive = r.gone_alive;
  gone_distinct = r.gone_distinct;
  gone_events = λ x n. r.gone_events x n.1;
}

get_fresh :
    (listener : ℕ) (a : Accepting) (h : Happening) (hs : List Happening) (s : EpollState)
    → is_listener listener h.event_data ≡ true
    → (NoAccept listener (h ∷ hs)) ⊎ (Fresh listener a s)
    → Fresh listener a s
get_fresh listener a h hs s e (inl n) = absurd (ground (arith, e, n.0))
get_fresh listener a h hs s e (inr f) = f

get_alive :
    (listener d : ℕ) (heap : List Cell)
    → is_listener listener d ≡ false
    → (is_listener listener d ≡ true) ⊎ Live d heap
    → Live d heap
get_alive listener d heap e (inl y) = absurd (ground (arith, e, y))
get_alive listener d heap e (inr l) = l

epoll_turn-accept :
    (listener : ℕ) (text : String) (a : Accepting) (h : Happening) (s : EpollState)
    → is_listener listener h.event_data ≡ true
    → epoll_turn text listener a h s ≡ ok (no_change (accept_action a s))
unfolding epoll_turn
epoll_turn-accept listener text a h s e = rw e refl

module _ (listener : ℕ) (text : String) (a : Accepting) where
  epoll_turns-AllKept :
      (hs : List Happening) (s : EpollState)
      → AllPromised hs
      → Known listener s.heap hs
      → OneAccept listener hs
      → DistinctAddresses (event_addresses hs)
      → (NoAccept listener hs) ⊎ (Fresh listener a s)
      → Sound listener s
      → Returns (AllKept listener hs s) (epoll_turns text listener a hs s)
  unfolding epoll_turns
  epoll_turns-AllKept [] s p k one d f m = (
    _,
    refl,
    record {
      all_sound = m;
      all_alive = λ b l. l;
      gone_alive = tt;
      gone_distinct = tt;
      gone_events = λ x n. tt;
    },
  )
  epoll_turns-AllKept (h ∷ hs) s p k one d f m =
      elim (Bool-cases (is_listener listener h.event_data)) [
        | inl e ↦
            let new = accept_action a s in
            let known = Known-alive listener s.heap new.heap hs (accept-alive a s) k.1 in
            let sound = accept_action-Sound listener a s (get_fresh listener a h hs s e f) m in
            let (later, e', r) =
              epoll_turns-AllKept hs new p.1 known one.1 d.1 (inl (one.0 e)) sound in
            rw (epoll_turn-accept listener text a h s e, e')
              (_, refl, after_accept listener a h hs s later r)
        | inr e ↦
            let l = get_alive listener h.event_data s.heap e k.0 in
            let (t, e', kept) = epoll_turn-Kept listener text a h s e p.0 l m in
            let known = Known-alive listener s.heap t.after.heap hs kept.alive k.1 in
            let (later, e'', r) =
              epoll_turns-AllKept hs t.after p.1 known one.1 d.1
                (still_fresh listener h.event_data a h hs s t kept f) kept.sound in
            rw (e', e'') (_, refl, and_then listener h.event_data hs h s t later refl d.0 l kept r)
      ]

  -- Let the kernel watch the listener and each client for what the client waits for, with distinct
  -- descriptors and addresses, none of which reads as the listener's. If each event is the
  -- listener's or a live client's, at most one is the listener's, none comes twice, an accept gives
  -- a new descriptor and a new address, epoll_ctl succeeds, and each read fails, or has less than
  -- 256 bytes and leaves some text before the first zero when line ends are taken off its end, then
  -- a round returns (so it uses no deleted client and deletes none twice) and the same holds after
  -- it.
  pub epoll_round-Sound :
      (hs : List Happening) (s : EpollState)
      → AllPromised hs
      → Known listener s.heap hs
      → OneAccept listener hs
      → DistinctAddresses (event_addresses hs)
      → (NoAccept listener hs) ⊎ (Fresh listener a s)
      → Sound listener s
      → Returns
          (λ (r : EpollState × List Action). Sound listener r.0)
          (epoll_round text listener a (happened hs) s)
  unfolding epoll_round
  epoll_round-Sound hs s p k one d f m =
      let (t, e, kept) = epoll_turns-AllKept hs s p k one d f m in
      let (r, e', sound) =
        collect-Sound listener t.gone t.after kept.all_sound kept.gone_alive kept.gone_distinct in
      rw (e, e') (_, refl, sound)
