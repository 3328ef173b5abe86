-- ===== src/Tpevent/Poll/Rounds.antt =====
-- One round of manageConnections as a whole, where no client joins in the middle.
use technopark_cpp.Tpevent.Poll.{
  after_turn, Round, manage, ready, answered, Pass, scan, Revents, fill, no_events, PollFd,
}
use technopark_cpp.Tpevent.Poll.Calls.{
  Fate, turns, waits, leaves_open, leaves_closed, turn_of, becomes, turn-fate, Fits, deeds, fate_of,
  leaves,
}
use technopark_cpp.Tpevent.Engine.{Reading, Action, client_sds, Client}
use technopark_cpp.Tpevent.Clients.Distinct.{
  erase_sds-gone_sds, Distinct, survivors, elements, gone_sds,
}
use technopark_cpp.Prelude.{
  Bool, List, Returns, [], ap, append-nil, arith, drop, false, length, map, ok, refl, subst, suc,
  sym, undefined, ℕ, ◌++◌, ◌<◌, ◌∙◌, ◌∷◌, ◌≡◌, ◌≤◌,
}

-- The clients after a round, with the mark of whether they leave; what a read gives is asked at the
-- client's place in the vector.
unfoldable pub marked : (ℕ → Reading) → ℕ → List Client → List Revents → List (Client × Bool)
marked reads i [] vs = []
marked reads i (c ∷ cs) [] = (c, false) ∷ marked reads (suc i) cs []
marked reads i (c ∷ cs) (v ∷ vs) =
    let k = fate_of c v (reads i) in (becomes k c, leaves k) ∷ marked reads (suc i) cs vs

unfoldable pub all_deeds : (ℕ → Reading) → ℕ → List Client → List Revents → List Action
all_deeds reads i [] vs = []
all_deeds reads i (c ∷ cs) [] = []
all_deeds reads i (c ∷ cs) (v ∷ vs) =
    deeds (fate_of c v (reads i)) c ++ all_deeds reads (suc i) cs vs

abbrev pub request : Client → PollFd
request c = record { fd = c.sd; wants = c.state; revents = no_events }

pub fill-map :
    (cs : List Client) (fds : List PollFd)
    → length cs ≤ length fds
    → fill cs fds ≡ ok (map request cs ++ drop (length cs) fds)
unfolding fill
fill-map [] fds h = refl
fill-map (c ∷ cs) [] h = absurd (omega arith)
fill-map (c ∷ cs) (f ∷ fds) h = rw (fill-map cs fds (omega arith)) refl

-- A client beyond the array of `fds` makes the round undefined.
pub fill-undefined :
    (cs : List Client) (fds : List PollFd) → length fds < length cs → fill cs fds ≡ undefined
unfolding fill
fill-undefined [] fds h = absurd (omega arith)
fill-undefined (c ∷ cs) [] h = refl
fill-undefined (c ∷ cs) (f ∷ fds) h = rw (fill-undefined cs fds (omega arith)) refl

abbrev pass_from : List (Client × Bool) → List Action → Pass
pass_from ms actions = record {
  clients = elements ms;
  disconnected = gone_sds (λ c. c.sd) ms;
  actions = actions;
}

after_turn-pass_from :
    (k : Fate) (c : Client) (ms : List (Client × Bool)) (actions : List Action)
    → after_turn (turn_of k c) (pass_from ms actions)
      ≡ pass_from ((becomes k c, leaves k) ∷ ms) (deeds k c ++ actions)
unfolding elements gone_sds
after_turn-pass_from waits c ms actions = refl
after_turn-pass_from turns c ms actions = refl
after_turn-pass_from leaves_closed c ms actions = refl
after_turn-pass_from leaves_open c ms actions = refl

module _ (reads : ℕ → Reading) (fits : (i : ℕ) → Fits (reads i)) where
  scan-marked :
      (i : ℕ) (cs : List Client) (vs : List Revents) (rest : List PollFd)
      → length vs ≡ length cs
      → scan reads i cs (answered vs (map request cs ++ rest))
        ≡ ok (pass_from (marked reads i cs vs) (all_deeds reads i cs vs))
  unfolding scan answered marked all_deeds elements gone_sds
  scan-marked i [] vs rest e = refl
  scan-marked i (c ∷ cs) [] rest e = absurd (omega arith)
  scan-marked i (c ∷ cs) (v ∷ vs) rest e =
      rw
        (
          turn-fate c c.state v (reads i) (fits i),
          scan-marked (suc i) cs vs rest (omega (arith, e)),
        )
        (ap ok (
          after_turn-pass_from (fate_of c v (reads i)) c (marked reads (suc i) cs vs)
            (all_deeds reads (suc i) cs vs)))

-- No turn changes a client's descriptor.
pub becomes-sd : (k : Fate) (c : Client) → (becomes k c).sd ≡ c.sd
becomes-sd waits c = refl
becomes-sd turns c = refl
becomes-sd leaves_closed c = refl
becomes-sd leaves_open c = refl

pub marked-sds :
    (reads : ℕ → Reading) (i : ℕ) (cs : List Client) (vs : List Revents)
    → client_sds (elements (marked reads i cs vs)) ≡ client_sds cs
unfolding marked elements
marked-sds reads i [] vs = refl
marked-sds reads i (c ∷ cs) [] = ap (◌∷◌ c.sd) (marked-sds reads (suc i) cs [])
marked-sds reads i (c ∷ cs) (v ∷ vs) =
    rw (becomes-sd (fate_of c v (reads i)) c) (ap (◌∷◌ c.sd) (marked-sds reads (suc i) cs vs))

-- What a round leaves and does, where nobody joins
abbrev pub RoundOf : (ℕ → Reading) → List Client → List PollFd → List Revents → Round → Type 0
RoundOf reads cs fds vs r =
    (r.clients_left ≡ survivors (marked reads 0 cs vs))
    × (r.done ≡ all_deeds reads 0 cs vs)
    × (length r.fds_left ≡ length fds)

length-answered : (vs : List Revents) (fds : List PollFd) → length (answered vs fds) ≡ length fds
unfolding answered
length-answered [] fds = refl
length-answered (v ∷ vs) [] = refl
length-answered (v ∷ vs) (f ∷ fds) = ap suc (length-answered vs fds)

length-filled :
    (cs : List Client) (fds : List PollFd)
    → length cs ≤ length fds
    → length (map request cs ++ drop (length cs) fds) ≡ length fds
length-filled [] fds h = refl
length-filled (c ∷ cs) [] h = absurd (omega arith)
length-filled (c ∷ cs) (f ∷ fds) h = ap suc (length-filled cs fds (omega arith))

-- Let the clients hold distinct descriptors, fit into the array, get one answer each, and let every
-- read fail, or have less than 256 bytes and leave some text before the first zero when line ends
-- are taken off its end. Then a round in which no client joins returns; it leaves the clients that
-- stay, in order and in the states that a table of state, event and read gives, and writes and
-- closes what the table says.
pub manage-RoundOf :
    (reads : ℕ → Reading) (cs : List Client) (fds : List PollFd) (vs : List Revents)
    → ((i : ℕ) → Fits (reads i))
    → length vs ≡ length cs
    → length cs ≤ length fds
    → Distinct (client_sds cs)
    → Returns (RoundOf reads cs fds vs) (manage reads (ready vs) [] cs fds)
unfolding manage marked all_deeds survivors
manage-RoundOf reads [] fds vs fits e room one = (_, refl, (refl, refl, refl))
manage-RoundOf reads (c ∷ cs) fds vs fits e room one =
    let filled = map request (c ∷ cs) ++ drop (length (c ∷ cs)) fds in
    let ms = marked reads 0 (c ∷ cs) vs in
    let all = append-nil (c ∷ cs) in
    let same_sds = marked-sds reads 0 (c ∷ cs) vs in
    rw
      (
        fill-map (c ∷ cs) fds room,
        all,
        scan-marked reads fits 0 (c ∷ cs) vs (drop (length (c ∷ cs)) fds) e,
        erase_sds-gone_sds (λ (c : Client). c.sd) ms (subst Distinct (sym same_sds) one),
      )
      (_, refl, (refl, refl, length-answered vs filled ∙ length-filled (c ∷ cs) fds room))
