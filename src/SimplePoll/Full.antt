-- ===== src/SimplePoll/Full.antt =====
-- net/simplest_client_server/server_poll.cpp:115: the entries over the life of the server.
use technopark_cpp.Tpevent.Clients.Distinct.{eqb_ℤ-refl}
use technopark_cpp.SimplePoll.{
  simple_turn, SimpleAnswers, comes_to, poll_size, new_entry, SimplePass, accept_turn, simple_pass,
  simple_round,
}
use technopark_cpp.SimplePoll.Entries.{entry_sds, Passed, simple_round-Passed}
use technopark_cpp.Prelude.{
  List, [], ap, append-nil, append_assoc, arith, false, length, length-append, le→ltb, ltb, ltb_ℤ,
  ok, pos, refl, subst, suc, sym, undefined, ℤ, ◌++◌, ◌+◌, ◌∙◌, ◌∷◌, ◌≡◌,
}
use technopark_cpp.Tpevent.Poll.{is_quiet, PollFd}

-- The entries in use after some rounds; before each one the poll writes the `revents`.
pub data Rounds (listener : ℤ) (start : List PollFd) : List PollFd → Type 0 where
  at_first : Rounds listener start start
  then_round :
      {fds : List PollFd} (seen : List PollFd) (a : SimpleAnswers) (p : SimplePass)
      → Rounds listener start fds
      → entry_sds seen ≡ entry_sds fds
      → simple_round listener a seen ≡ ok (comes_to p)
      → Rounds listener start (p.passed ++ p.joined_in)

entry_sds-append : (xs ys : List PollFd) → entry_sds (xs ++ ys) ≡ entry_sds xs ++ entry_sds ys
entry_sds-append [] ys = refl
entry_sds-append (x ∷ xs) ys = ap (◌∷◌ x.fd) (entry_sds-append xs ys)

length-entry_sds : (xs : List PollFd) → length (entry_sds xs) ≡ length xs
length-entry_sds [] = refl
length-entry_sds (x ∷ xs) = ap suc (length-entry_sds xs)

-- The entries that were in use stay in their places with their descriptors.
Rounds-kept :
    (listener : ℤ) (start now : List PollFd)
    → Rounds listener start now
    → (more : List ℤ) × (entry_sds now ≡ entry_sds start ++ more)
Rounds-kept listener start now at_first = ([], sym (append-nil (entry_sds start)))
Rounds-kept listener start now (then_round {fds = fds} seen a p past polled e) =
    let (more, kept) = Rounds-kept listener start fds past in
    let passed : entry_sds p.passed ≡ entry_sds seen =
      subst (Passed (entry_sds seen)) e (simple_round-Passed listener a seen) in
    let before : entry_sds p.passed ≡ entry_sds start ++ more = passed ∙ polled ∙ kept in
    (
      more ++ entry_sds p.joined_in,
      entry_sds-append p.passed p.joined_in
          ∙ ap (λ l. l ++ entry_sds p.joined_in) before
          ∙ append_assoc (entry_sds start) more (entry_sds p.joined_in),
    )

cons-head : (x y : ℤ) (xs ys : List ℤ) → x ∷ xs ≡ y ∷ ys → x ≡ y
cons-head x y xs ys e = cc

-- Once 32 entries are in use, the first one the listener's, then after any rounds that come to an
-- end, also those that close clients, the round in which the listener is ready and accept returns a
-- descriptor is undefined.
pub simple_round-full :
    (listener : ℤ) (rest now : List PollFd) (f : PollFd) (fs : List PollFd) (a : SimpleAnswers)
    → length rest + 1 ≡ poll_size
    → Rounds listener (new_entry listener ∷ rest) now
    → entry_sds (f ∷ fs) ≡ entry_sds now
    → is_quiet f.revents ≡ false
    → ltb_ℤ (a.socks 0) (pos 0) ≡ false
    → simple_round listener a (f ∷ fs) ≡ undefined
unfolding simple_round simple_pass simple_turn accept_turn
simple_round-full listener rest now f fs a full past polled active some_sock =
    let (more, kept) = Rounds-kept listener (new_entry listener ∷ rest) now past in
    let same : f.fd ∷ entry_sds fs ≡ listener ∷ (entry_sds rest ++ more) = polled ∙ kept in
    let here : f.fd ≡ listener = cons-head f.fd listener _ _ same in
    let long : length (f.fd ∷ entry_sds fs) ≡ length (listener ∷ (entry_sds rest ++ more)) =
      ap length same in
    let no_room : ltb (suc (length fs)) 32 ≡ false = le→ltb (suc (length fs)) 32 (
      omega (
        arith,
        full,
        long,
        length-entry_sds fs,
        length-entry_sds rest,
        length-append (entry_sds rest) more,
      )) in
    rw (active, here, eqb_ℤ-refl listener, some_sock, no_room) refl
