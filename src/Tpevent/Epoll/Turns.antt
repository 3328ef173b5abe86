-- ===== src/Tpevent/Epoll/Turns.antt =====
-- One turn of the loop over the events.
use technopark_cpp.Tpevent.Engine.{
  received, ClientState, Action, want_read, Client, wants_read, Reading, read_error, want_write,
  writes,
}
use technopark_cpp.Tpevent.Poll.Calls.{text-bytes, Fits}
use technopark_cpp.Tpevent.Epoll.Memory.{told, told-Sound, Sound}
use technopark_cpp.Tpevent.Epoll.Steady.{cell_sds-set_state, Live-set_state, addresses-set_state}
use technopark_cpp.Tpevent.Message.Strip.{message-text_of}
use technopark_cpp.Tpevent.Epoll.Cells.{addresses, cell_sds, Live}
use technopark_cpp.Tpevent.Epoll.{
  deref, turn_to, EpollTurn, is_listener, EpollState, set_desire_events, Happening, epoll_read,
  Accepting, epoll_turn,
}
use technopark_cpp.Tpevent.Poll.{hello}
use technopark_cpp.Prelude.{
  Bool, Bool-cases, List, Returns, String, [], false, inl, inr, ok, refl, true, ℕ, ◌∷◌, ◌≡◌, ◌⊎◌,
}

-- What a turn for a client leaves
pub record Kept (listener d : ℕ) (s : EpollState) (t : EpollTurn) : Type 0 where
  pub sound : Sound listener t.after
  pub alive : (b : ℕ) → Live b s.heap → Live b t.after.heap
  pub same_addresses : addresses t.after.heap ≡ addresses s.heap
  pub same_sds : cell_sds t.after.heap ≡ cell_sds s.heap
  pub gone_few : (t.gone ≡ []) ⊎ (t.gone ≡ d ∷ [])

-- What is promised of an event: its read fits, and `epoll_ctl` succeeds.
pub record Promised (h : Happening) : Type 0 where
  pub fit : Fits h.reading
  pub modified : h.modifies ≡ true

unchanged :
    (listener d : ℕ) (s : EpollState) (gone : List ℕ) (acts : List Action)
    → (gone ≡ []) ⊎ (gone ≡ d ∷ [])
    → Sound listener s
    → Kept listener d s (record { after = s; gone = gone; acts = acts })
unchanged listener d s gone acts few m = record {
  sound = m;
  alive = λ b l. l;
  same_addresses = refl;
  same_sds = refl;
  gone_few = few;
}

turn_to-Kept :
    (listener : ℕ) (text : String) (works : Bool) (d : ℕ) (t : ClientState) (c : Client)
    (acts : List Action) (s : EpollState)
    → works ≡ true
    → deref d s.heap ≡ ok c
    → Sound listener s
    → Returns (Kept listener d s) (turn_to text works d t c acts s)
unfolding turn_to set_desire_events told
turn_to-Kept listener text works d t c acts s p e m = rw p (
  _,
  refl,
  record {
    sound = told-Sound listener d t c s e m;
    alive = λ b. Live-set_state b d t s.heap;
    same_addresses = addresses-set_state d t s.heap;
    same_sds = cell_sds-set_state d t s.heap;
    gone_few = inl refl;
  },
)

epoll_read-Kept :
    (listener : ℕ) (text : String) (r : Reading) (works : Bool) (d : ℕ) (c : Client)
    (s : EpollState)
    → Fits r
    → works ≡ true
    → deref d s.heap ≡ ok c
    → Sound listener s
    → Returns (Kept listener d s) (epoll_read text r works d c s)
unfolding epoll_read
epoll_read-Kept listener text read_error works d c s fits p e m =
    (_, refl, unchanged listener d s (d ∷ []) [] (inr refl) m)
epoll_read-Kept listener text (received bytes) works d c s fits p e m =
    rw (message-text_of bytes fits.0 fits.1, text-bytes bytes fits.1)
      (turn_to-Kept listener text works d want_write c [] s p e m)

pub epoll_turn-Kept :
    (listener : ℕ) (text : String) (a : Accepting) (h : Happening) (s : EpollState)
    → is_listener listener h.event_data ≡ false
    → Promised h
    → Live h.event_data s.heap
    → Sound listener s
    → Returns (Kept listener h.event_data s) (epoll_turn text listener a h s)
unfolding epoll_turn
epoll_turn-Kept listener text a h s other p (c, e) m =
    let stays = unchanged listener h.event_data s [] [] (inl refl) m in
    elim (Bool-cases h.flags.hup) [
      | inl up ↦
          rw (other, up)
            (_, refl, unchanged listener h.event_data s (h.event_data ∷ []) [] (inr refl) m)
      | inr not_up ↦
          rw (other, not_up, e)
            (elim (Bool-cases h.flags.readable) [
              | inl hit ↦ elim (Bool-cases (wants_read c.state)) [
                | inl wants ↦
                    rw (hit, wants)
                      (epoll_read-Kept listener text h.reading h.modifies h.event_data c s p.fit
                        p.modified e m)
                | inr busy ↦ rw (hit, busy) (_, refl, stays)
              ]
              | inr no_input ↦ elim (Bool-cases h.flags.writable) [
                | inr no_output ↦ rw (no_input, no_output) (_, refl, stays)
                | inl room ↦ elim (Bool-cases (wants_read c.state)) [
                  | inl wants ↦ rw (no_input, room, wants) (_, refl, stays)
                  | inr busy ↦
                      rw (no_input, room, busy)
                        (turn_to-Kept listener text h.modifies h.event_data want_read c
                          (writes c.sd hello ∷ []) s p.modified e m)
                ]
              ]
            ])
    ]
