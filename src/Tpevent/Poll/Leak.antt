-- ===== src/Tpevent/Poll/Leak.antt =====
-- PollEngine removes a client whose peer hung up and never closes its descriptor.
use technopark_cpp.Tpevent.Engine.{Reading, client_sds, new_client, Client}
use technopark_cpp.Tpevent.Poll.Server.{
  after_round, serves, step, PollServer, at_start, joins, Answers, Reach,
}
use technopark_cpp.Tpevent.Poll.Calls.{fate_of, leaves_open, leaves, fate}
use technopark_cpp.Tpevent.Clients.Distinct.{Distinct, survivors, eqb_ℤ-swap}
use technopark_cpp.Tpevent.Clients.Open.{IsOpen, NotOpen-append, IsOpen-close_all, IsOpen-apart}
use technopark_cpp.Tpevent.Poll.{Round, ready, Revents, accepted, manage, accept_round}
use technopark_cpp.Tpevent.Poll.Ownership.{
  NotOpen-closed_of, NotOpen-survivors, closed_of, closed_in, closed_in-cons, NotOpen-closed_in,
}
use technopark_cpp.Tpevent.Poll.Reachable.{
  map-snoc, serves-Owned, round-RoundOf, later-Owned, Owned,
}
use technopark_cpp.Tpevent.Poll.Rounds.{marked, becomes-sd, marked-sds}
use technopark_cpp.Descriptor.Balance.{NotOpen}
use technopark_cpp.Prelude.{
  Bool-cases, List, [], eqb_ℤ, false, inl, inr, ok, refl, suc, sym, true, ℕ, ℤ, ◌++◌, ◌∙◌, ◌∷◌, ◌≡◌,
  ◌⊎◌,
}

-- The client that holds `sd` got POLLHUP.
abbrev pub HungUp : ℤ → List Client → List Revents → Type 0
HungUp sd [] vs = ⊥
HungUp sd (c ∷ cs) [] = ⊥
HungUp sd (c ∷ cs) (v ∷ vs) = ((c.sd ≡ sd) × (v.hup ≡ true)) ⊎ HungUp sd cs vs

-- A descriptor that is open and that no client holds
abbrev pub Orphan : ℤ → PollServer → Type 0
Orphan sd s = IsOpen sd s.open_sds × NotOpen sd (client_sds s.clients)

HungUp-differs :
    (x sd : ℤ) (cs : List Client) (vs : List Revents)
    → HungUp sd cs vs
    → NotOpen x (client_sds cs)
    → eqb_ℤ x sd ≡ false
HungUp-differs x sd [] vs h n = elim h [ ]
HungUp-differs x sd (c ∷ cs) [] h n = elim h [ ]
HungUp-differs x sd (c ∷ cs) (v ∷ vs) (inl h) n = rw (sym h.0) (eqb_ℤ-swap x c.sd ∙ n.0)
HungUp-differs x sd (c ∷ cs) (v ∷ vs) (inr h) n = HungUp-differs x sd cs vs h n.1

module _ (reads : ℕ → Reading) where
  fate-hung :
      (i : ℕ) (c : Client) (v : Revents) → v.hup ≡ true → fate_of c v (reads i) ≡ leaves_open
  unfolding fate_of fate
  fate-hung i c v h = rw h refl

  hung-gone :
      (sd : ℤ) (i : ℕ) (cs : List Client) (vs : List Revents)
      → HungUp sd cs vs
      → Distinct (client_sds cs)
      → NotOpen sd (client_sds (survivors (marked reads i cs vs)))
  unfolding marked survivors
  hung-gone sd i [] vs h d = elim h [ ]
  hung-gone sd i (c ∷ cs) [] h d = elim h [ ]
  hung-gone sd i (c ∷ cs) (v ∷ vs) (inl h) d =
      let later = marked reads (suc i) cs vs in
      rw (fate-hung i c v h.1)
        (NotOpen-survivors sd later (rw (marked-sds reads (suc i) cs vs, sym h.0) d.0))
  hung-gone sd i (c ∷ cs) (v ∷ vs) (inr h) d =
      let rest = hung-gone sd (suc i) cs vs h d.1 in
      let k = fate_of c v (reads i) in
      elim (Bool-cases (leaves k)) [
        | inl e ↦ rw e rest
        | inr e ↦ rw (e, becomes-sd k c) (HungUp-differs c.sd sd cs vs h d.0, rest)
      ]

  hung-open :
      (sd : ℤ) (i : ℕ) (cs : List Client) (vs : List Revents)
      → HungUp sd cs vs
      → Distinct (client_sds cs)
      → NotOpen sd (closed_in reads i cs vs)
  hung-open sd i [] vs h d = elim h [ ]
  hung-open sd i (c ∷ cs) [] h d = elim h [ ]
  hung-open sd i (c ∷ cs) (v ∷ vs) (inl h) d =
      rw (closed_in-cons reads i c cs v vs, fate-hung i c v h.1, sym h.0)
        (NotOpen-closed_in reads c.sd (suc i) cs vs d.0)
  hung-open sd i (c ∷ cs) (v ∷ vs) (inr h) d =
      let k = fate_of c v (reads i) in
      rw (closed_in-cons reads i c cs v vs) (
        NotOpen-append sd (closed_of k c.sd) (closed_in reads (suc i) cs vs)
          (NotOpen-closed_of sd c.sd k (HungUp-differs c.sd sd cs vs h d.0))
          (hung-open sd (suc i) cs vs h d.1))

-- An orphan stays one.
serves-Orphan :
    (sd : ℤ) (s : PollServer) (reads : ℕ → Reading) (vs : List Revents) (r : Round)
    → Answers reads vs s
    → manage reads (ready vs) [] s.clients s.fds ≡ ok r
    → Owned s
    → Orphan sd s
    → Orphan sd (after_round s r)
unfolding closed_in
serves-Orphan sd s reads vs r a e w (o, n) =
    let (left, done, kept) = round-RoundOf s reads vs r a e w.distinct in
    rw (left, done)
      (
        IsOpen-close_all sd (closed_in reads 0 s.clients vs) s.open_sds o
            (NotOpen-closed_in reads sd 0 s.clients vs n),
        NotOpen-survivors sd (marked reads 0 s.clients vs) (rw (marked-sds reads 0 s.clients vs) n),
      )

joins-Orphan :
    (sd new : ℤ) (s : PollServer) (clients : List Client)
    → NotOpen new s.open_sds
    → accept_round (accepted new) s.clients ≡ ok clients
    → Orphan sd s
    → Orphan sd (record s { clients = clients; open_sds = new ∷ s.open_sds })
unfolding accept_round
joins-Orphan sd new s clients n e (o, apart) =
    let same : s.clients ++ new_client new ∷ [] ≡ clients = cc in
    let differs = eqb_ℤ-swap new sd ∙ IsOpen-apart sd new s.open_sds o n in
    rw (sym same) (
      inr o,
      rw (map-snoc s.clients (new_client new))
          (NotOpen-append sd (client_sds s.clients) (new ∷ []) apart (differs, tt)),
    )

later-Orphan :
    (sd : ℤ) (start s : PollServer) → Owned start → Orphan sd start → Reach start s → Orphan sd s
later-Orphan sd start s w o at_start = o
later-Orphan sd start s w o (step {s = before} past (joins new clients n e)) =
    joins-Orphan sd new before clients n e (later-Orphan sd start before w o past)
later-Orphan sd start s w o (step {s = before} past (serves reads vs r a e)) =
    serves-Orphan sd before reads vs r a e (later-Owned start before w past)
      (later-Orphan sd start before w o past)

-- Let the clients hold distinct open descriptors, and let a round with one answer for each client
-- return. The open descriptor of a client with POLLHUP is then, in every state reached from there
-- by accepts of new descriptors and rounds, still open and held by no client. In every round each
-- read fails, or has less than 256 bytes and leaves some text before the first zero when line ends
-- are taken off its end.
pub manage-Orphan :
    (sd : ℤ) (s later : PollServer) (reads : ℕ → Reading) (vs : List Revents) (r : Round)
    → Owned s
    → Answers reads vs s
    → HungUp sd s.clients vs
    → IsOpen sd s.open_sds
    → manage reads (ready vs) [] s.clients s.fds ≡ ok r
    → Reach (after_round s r) later
    → Orphan sd later
unfolding closed_in
manage-Orphan sd s later reads vs r w a h o e past =
    let (left, done, kept) = round-RoundOf s reads vs r a e w.distinct in
    later-Orphan sd (after_round s r) later (serves-Owned s reads vs r a e w)
      (rw (left, done)
        (
          IsOpen-close_all sd (closed_in reads 0 s.clients vs) s.open_sds o
              (hung-open reads sd 0 s.clients vs h w.distinct),
          hung-gone reads sd 0 s.clients vs h w.distinct,
        ))
      past
