-- ===== src/Tpevent/Poll/Mute.antt =====
-- net/libtpevent/src/poll.cpp:110: a read that leaves no text, as the one at the end of a stream.
use native.Mathlib.Decide.{dec_lt}
use technopark_cpp.Tpevent.Poll.{
  answered, PollFd, scan, Revents, read_turn, ready, turn, is_quiet, manage,
}
use technopark_cpp.Tpevent.Poll.Rounds.{fill-map, fill-undefined, request}
use technopark_cpp.Tpevent.Message.{until_zero, message}
use technopark_cpp.Tpevent.Message.Strip.{
  is_nil, message-undefined, strip-stripped, stripped, text_of, unless_nil,
}
use technopark_cpp.Prelude.{
  Bool, List, Run, [], append-nil, arith, drop, false, if◌then◌else◌, inl, inr, length, ltb, map,
  ok, out_of_fuel, refl, suc, throw, true, undefined, ℕ, ℤ, ◌++◌, ◌>>=◌, ◌∷◌, ◌≡◌, ◌⊎◌,
}
use technopark_cpp.Tpevent.Engine.{
  ClientState, Reading, wants_read, want_read, read_error, Client, received,
}

-- A result that is neither an exception nor out of fuel
abbrev Settled : {A : Type 0} → Run A → Type 0
Settled (ok x) = Unit {0}
Settled undefined = Unit {0}
Settled (throw e) = ⊥
Settled out_of_fuel = ⊥

Settled-if :
    {A : Type 0} (b : Bool) (x y : Run A) → Settled x → Settled y → Settled (if b then x else y)
Settled-if true x y p q = p
Settled-if false x y p q = q

Settled-then : {A B : Type 0} (r : Run A) (k : A → B) → Settled r → Settled (r >>= λ x. ok (k x))
Settled-then (ok x) k s = tt
Settled-then undefined k s = tt
Settled-then (throw e) k s = s
Settled-then out_of_fuel k s = s

-- Nothing follows what is undefined, and what follows a result may be.
undefined-after :
    {A B : Type 0} (r : Run A) (k : A → Run B)
    → Settled r
    → ((x : A) → k x ≡ undefined)
    → (r >>= k) ≡ undefined
undefined-after (ok x) k s h = h x
undefined-after undefined k s h = refl
undefined-after (throw e) k s h = elim s [ ]
undefined-after out_of_fuel k s h = elim s [ ]

message-Settled : (bytes : List ℕ) → Settled (message bytes)
unfolding message
message-Settled bytes =
    let text = stripped (until_zero bytes) in
    rw (strip-stripped (until_zero bytes)) (
      Settled-if (ltb (length bytes) 256) (unless_nil text) undefined
        (Settled-if (is_nil text) undefined (ok text) tt tt) tt)

read_turn-Settled : (c : Client) (sd : ℤ) (r : Reading) → Settled (read_turn c sd r)
unfolding read_turn
read_turn-Settled c sd read_error = tt
read_turn-Settled c sd (received bytes) = Settled-then (message bytes) _ (message-Settled bytes)

turn-Settled : (c : Client) (f : PollFd) (r : Reading) → Settled (turn c f r)
unfolding turn
turn-Settled c f r = Settled-if (is_quiet f.revents) _ _ tt (
    Settled-if f.revents.hup _ _ tt (
      Settled-if f.revents.readable _ _
        (Settled-if (wants_read c.state) _ _ (read_turn-Settled c f.fd r) tt)
        (Settled-if f.revents.writable _ _ (Settled-if (wants_read c.state) _ _ tt tt)
          (Settled-if f.revents.invalid _ _ tt tt))))

-- The client waits for a request, and the read that POLLIN leads to leaves no text.
pub record MuteAt (c : Client) (v : Revents) (r : Reading) : Type 0 where
  pub reads_now : c.state ≡ want_read
  pub no_hup : v.hup ≡ false
  pub has_input : v.readable ≡ true
  pub bytes : List ℕ
  pub was_read : r ≡ received bytes
  pub no_text : is_nil (text_of bytes) ≡ true

-- One of the clients is such a client.
abbrev pub Mute : (ℕ → Reading) → ℕ → List Client → List Revents → Type 0
Mute reads i [] vs = ⊥
Mute reads i (c ∷ cs) [] = ⊥
Mute reads i (c ∷ cs) (v ∷ vs) = MuteAt c v (reads i) ⊎ Mute reads (suc i) cs vs

turn-MuteAt :
    (c : Client) (w : ClientState) (v : Revents) (r : Reading)
    → MuteAt c v r
    → turn c (record { fd = c.sd; wants = w; revents = v }) r ≡ undefined
unfolding turn read_turn
turn-MuteAt c w v r m =
    rw (m.no_hup, m.has_input, m.reads_now, m.was_read, message-undefined m.bytes m.no_text) refl

scan-Mute :
    (reads : ℕ → Reading) (i : ℕ) (cs : List Client) (vs : List Revents) (rest : List PollFd)
    → Mute reads i cs vs
    → scan reads i cs (answered vs (map request cs ++ rest)) ≡ undefined
unfolding scan answered
scan-Mute reads i [] vs rest m = elim m [ ]
scan-Mute reads i (c ∷ cs) [] rest m = elim m [ ]
scan-Mute reads i (c ∷ cs) (v ∷ vs) rest (inl m) = rw (turn-MuteAt c c.state v (reads i) m) refl
scan-Mute reads i (c ∷ cs) (v ∷ vs) rest (inr m) = rw (scan-Mute reads (suc i) cs vs rest m) (
    undefined-after (turn c (record (request c) { revents = v }) (reads i)) _
      (turn-Settled c (record (request c) { revents = v }) (reads i)) (λ t. refl))

-- Where no client joins, and one of the clients, at any place, waits to read, gets POLLIN without
-- POLLHUP, and its read leaves no text before the first zero when line ends are taken off its end,
-- as at the end of a stream, the round is undefined, whatever the others get.
pub manage-Mute :
    (reads : ℕ → Reading) (cs : List Client) (fds : List PollFd) (vs : List Revents)
    → Mute reads 0 cs vs
    → manage reads (ready vs) [] cs fds ≡ undefined
unfolding manage
manage-Mute reads [] fds vs m = elim m [ ]
manage-Mute reads (c ∷ cs) fds vs m = elim (dec_lt (length fds) (length (c ∷ cs))) [
  | yes small ↦ rw (fill-undefined (c ∷ cs) fds small) refl
  | no big ↦
      rw
        (
          fill-map (c ∷ cs) fds (omega arith),
          append-nil (c ∷ cs),
          scan-Mute reads 0 (c ∷ cs) vs (drop (length (c ∷ cs)) fds) m,
        )
        refl
]
