-- ===== src/Tpevent/Async/Lost.antt =====
-- net/libtpevent/src/poll_async.cpp:158-175: two clients with answers in one round.
use technopark_cpp.Tpevent.Async.{
  async_scan, delete_all, keeps_on, manage_events, Event, Connection, Loop, release, async_turn,
  move_event, is_held, delete_client, first_event,
}
use technopark_cpp.Tpevent.Clients.{erase_sd}
use technopark_cpp.Tpevent.Engine.{closes}
use technopark_cpp.Tpevent.Async.Scan.{
  fill-entries, delete_client-queued, event_sds, async_turn-fires, async_scan-rest, loop_of, fires,
  entry_of,
}
use technopark_cpp.Tpevent.Poll.{answered, PollFd, ready, Revents}
use technopark_cpp.Tpevent.Clients.Distinct.{Distinct, eqb_ℤ-refl}
use technopark_cpp.Prelude.{
  List, [], arith, drop, false, length, load, ltb, lt→ltb, map, ok, refl, true, ◌++◌, ◌==◌, ◌∙◌,
  ◌∷◌, ◌≡◌, ◌≤◌,
}

module _ (a b c : Event) (rest have : List Event) (connections : List Connection) where
  abbrev want : List Event
  want = a ∷ b ∷ c ∷ rest

  -- After the first client's turn
  abbrev first_moved : Loop
  first_moved = loop_of (b ∷ c ∷ rest) (have ++ a ∷ []) connections

  -- After the second one's: the event of `c` was queued, and that of `b` deleted.
  abbrev pub second_lost : Loop
  second_lost = loop_of (c ∷ rest) ((have ++ a ∷ []) ++ c ∷ []) connections

  second_turn :
      (v : Revents) (con : Connection)
      → fires c.client.state v ≡ true
      → is_held b.owner (c ∷ rest) ≡ false
      → is_held b.owner ((have ++ a ∷ []) ++ c ∷ []) ≡ false
      → load connections b.owner ≡ ok con
      → async_turn 1 (record (entry_of b) { revents = v }) first_moved
        ≡ ok (record { loop = second_lost; lost = []; did = closes con.m_sd ∷ [] })
  unfolding delete_client release erase_sd first_event move_event load
  second_turn v con f free_want free_have at_b =
      let entry = record (entry_of b) { revents = v } in
      async_turn-fires 1 c entry first_moved refl f
      ∙ rw (eqb_ℤ-refl b.client.sd, free_want, free_have, at_b) refl

  -- Let three or more clients with distinct descriptors wait, fit into the array, and only the
  -- first two get an answer. Where the first is ready, the third waits for what the second one's
  -- answer offers, and no other event holds the second one's connection: the first and the third
  -- event are queued, the third also stays, the second is in neither queue, and its connection is
  -- closed.
  pub manage_events-lost :
      (v w : Revents) (con : Connection) (fds : List PollFd)
      → Distinct (event_sds want)
      → fires a.client.state v ≡ true
      → fires c.client.state w ≡ true
      → is_held b.owner (c ∷ rest) ≡ false
      → is_held b.owner ((have ++ a ∷ []) ++ c ∷ []) ≡ false
      → load connections b.owner ≡ ok con
      → length want ≤ length fds
      → (left : List PollFd) × (manage_events
            (ready (v ∷ w ∷ []))
            fds
            (loop_of want have connections)
          ≡ ok (keeps_on second_lost left (closes con.m_sd ∷ [])))
  unfolding manage_events answered async_scan delete_all move_event load
  manage_events-lost v w con fds d fires_a fires_c free_want free_have at_b room =
      let l = loop_of want have connections in
      let tail = map entry_of (c ∷ rest) ++ drop (length want) fds in
      let first = async_turn-fires 0 a (record (entry_of a) { revents = v }) l refl fires_a in
      let deleted = delete_client-queued [] a (b ∷ c ∷ rest) l refl d in
      let second = second_turn w con fires_c free_want free_have at_b in
      let later = async_scan-rest 2 (c ∷ rest) (drop (length want) fds) second_lost (omega arith) in
      let some_want : (length want == 0) ≡ false = ground arith in
      let two_left : ltb 1 (length (b ∷ c ∷ rest)) ≡ true = ground arith in
      rw (some_want, fill-entries want fds room)
        (rw (lt→ltb 0 (length want) (omega arith), first, deleted, two_left, second, later)
          (_, refl))
