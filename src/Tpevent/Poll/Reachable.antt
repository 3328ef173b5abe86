-- ===== src/Tpevent/Poll/Reachable.antt =====
-- What holds in every state that PollEngine comes to.
use technopark_cpp.Tpevent.Poll.{PollFd, manage, Round, accepted, Revents, ready, accept_round}
use technopark_cpp.Tpevent.Poll.Rounds.{marked, RoundOf, marked-sds, fill-undefined, manage-RoundOf}
use technopark_cpp.Tpevent.Clients.Open.{
  AllOpen-close_all, AllOpen, AllOpen-more, AllOpen-NotOpen, AllOpen-last, Distinct-last,
}
use technopark_cpp.Tpevent.Engine.{Reading, client_sds, new_client, Client}
use technopark_cpp.Descriptor.Balance.{NotOpen}
use technopark_cpp.Tpevent.Clients.Distinct.{survivors, Distinct, eqb_ℤ-refl}
use technopark_cpp.Tpevent.Poll.Server.{
  Reach, step, at_start, joins, serves, PollServer, after_round, Answers,
}
use technopark_cpp.Tpevent.Poll.Ownership.{
  Apart-closed_in, AllOpen-survivors, Distinct-survivors, closed_in,
}
use native.Mathlib.Decide.{dec_lt}
use technopark_cpp.Prelude.{
  List, Returns, [], ap, arith, inl, length, ok, refl, subst, sym, ℕ, ℤ, ◌++◌, ◌∷◌, ◌≡◌, ◌≤◌,
}

-- The clients hold different descriptors, all of them open.
pub record Owned (s : PollServer) : Type 0 where
  pub distinct : Distinct (client_sds s.clients)
  pub all_open : AllOpen (client_sds s.clients) s.open_sds

pub map-snoc :
    (cs : List Client) (c : Client) → client_sds (cs ++ c ∷ []) ≡ client_sds cs ++ c.sd ∷ []
map-snoc [] c = refl
map-snoc (x ∷ xs) c = ap (◌∷◌ x.sd) (map-snoc xs c)

joins-Owned :
    (s : PollServer) (sd : ℤ) (clients : List Client)
    → NotOpen sd s.open_sds
    → accept_round (accepted sd) s.clients ≡ ok clients
    → Owned s
    → Owned (record s { clients = clients; open_sds = sd ∷ s.open_sds })
unfolding accept_round
joins-Owned s sd clients n e w =
    let apart = AllOpen-NotOpen sd (client_sds s.clients) s.open_sds w.all_open n in
    let same : s.clients ++ new_client sd ∷ [] ≡ clients = cc in
    let more = map-snoc s.clients (new_client sd) in
    let still = AllOpen-more sd (client_sds s.clients) s.open_sds w.all_open in
    rw (sym same) (record {
      distinct = rw more (Distinct-last sd (client_sds s.clients) w.distinct apart);
      all_open =
          rw more
            (AllOpen-last sd (client_sds s.clients) (sd ∷ s.open_sds) still (inl (eqb_ℤ-refl sd)));
    })

-- A round that ends normally had room for all clients.
manage-room :
    (reads : ℕ → Reading) (vs : List Revents) (cs : List Client) (fds : List PollFd) (r : Round)
    → manage reads (ready vs) [] cs fds ≡ ok r
    → length cs ≤ length fds
unfolding manage
manage-room reads vs [] fds r e = omega arith
manage-room reads vs (c ∷ cs) fds r e = elim (dec_lt (length fds) (length (c ∷ cs))) [
  | yes small ↦ absurd (ground (arith, e, fill-undefined (c ∷ cs) fds small))
  | no big ↦ omega arith
]

-- A round that ends normally did to each client what the table says.
pub round-RoundOf :
    (s : PollServer) (reads : ℕ → Reading) (vs : List Revents) (r : Round)
    → Answers reads vs s
    → manage reads (ready vs) [] s.clients s.fds ≡ ok r
    → Distinct (client_sds s.clients)
    → RoundOf reads s.clients s.fds vs r
round-RoundOf s reads vs r a e d =
    let room = manage-room reads vs s.clients s.fds r e in
    let (r', e', about) = manage-RoundOf reads s.clients s.fds vs a.fit a.one_each room d in
    let same : r' ≡ r = cc in subst (RoundOf reads s.clients s.fds vs) same about

pub serves-Owned :
    (s : PollServer) (reads : ℕ → Reading) (vs : List Revents) (r : Round)
    → Answers reads vs s
    → manage reads (ready vs) [] s.clients s.fds ≡ ok r
    → Owned s
    → Owned (after_round s r)
unfolding closed_in
serves-Owned s reads vs r a e w =
    let (left, done, kept) = round-RoundOf s reads vs r a e w.distinct in
    let ms = marked reads 0 s.clients vs in
    let same = marked-sds reads 0 s.clients vs in
    rw (left, done)
      (record {
        distinct = Distinct-survivors ms (rw same w.distinct);
        all_open =
            AllOpen-close_all (client_sds (survivors ms)) (closed_in reads 0 s.clients vs)
              s.open_sds (AllOpen-survivors ms s.open_sds (rw same w.all_open))
              (Apart-closed_in reads 0 s.clients vs w.distinct);
      })

-- In every state that the server comes to, the clients hold different open descriptors.
pub later-Owned : (start s : PollServer) → Owned start → Reach start s → Owned s
later-Owned start s w at_start = w
later-Owned start s w (step {s = before} past (joins sd clients n e)) =
    joins-Owned before sd clients n e (later-Owned start before w past)
later-Owned start s w (step {s = before} past (serves reads vs r a e)) =
    serves-Owned before reads vs r a e (later-Owned start before w past)

-- From a state where the clients hold distinct open descriptors, after any sequence of accepts of
-- new descriptors and of rounds in which no client joins, the next round with room in the array and
-- one answer for each client returns, and again the clients hold distinct open descriptors. In
-- every round each read fails, or has less than 256 bytes and leaves some text before the first
-- zero when line ends are taken off its end.
pub manage-Owned :
    (start s : PollServer) (reads : ℕ → Reading) (vs : List Revents)
    → Owned start
    → Reach start s
    → Answers reads vs s
    → length s.clients ≤ length s.fds
    → Returns (λ r. Owned (after_round s r)) (manage reads (ready vs) [] s.clients s.fds)
manage-Owned start s reads vs w past a room =
    let now = later-Owned start s w past in
    let (r, e, about) =
      manage-RoundOf reads s.clients s.fds vs a.fit a.one_each room now.distinct in
    (r, e, serves-Owned s reads vs r a e now)
