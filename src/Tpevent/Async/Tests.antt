-- ===== src/Tpevent/Async/Tests.antt =====
-- The event loop of poll_async.cpp at concrete connections.
use technopark_cpp.Tpevent.Clients.Distinct.{Distinct}
use technopark_cpp.Tpevent.Async.{
  Loop, Event, reply, Connection, is_held, manage_events, keeps_on, work,
}
use technopark_cpp.Tpevent.Engine.{
  Action, read_error, received, closes, want_write, writes, want_read,
}
use technopark_cpp.Tpevent.Async.Scan.{
  loop_of, manage_events-one, event_sds, fires, only_after, LeavesLoop,
}
use technopark_cpp.Tpevent.Message.Strip.{stripped}
use technopark_cpp.Tpevent.Async.Worker.{asked, request-reply, event_of_connection, loop_with}
use technopark_cpp.Tpevent.Async.Lost.{second_lost, manage_events-lost}
use technopark_cpp.Tpevent.Poll.{Revents, PollFd, ready, no_events}
use technopark_cpp.Tpevent.Async.Matches.{Matches, work-Matches}
use technopark_cpp.Prelude.{List, Returns, [], arith, load, ok, pos, refl, true, ℤ, ◌∷◌, ◌≡◌}

abbrev new_connection : ℤ → Connection
new_connection sd = record { m_sd = sd; read_buf = []; write_buf = [] }

abbrev three : List Connection
three = new_connection (pos 5) ∷ new_connection (pos 6) ∷ new_connection (pos 7) ∷ []

abbrev ev_a : Event
ev_a = event_of_connection want_read (pos 5) 0

abbrev ev_b : Event
ev_b = event_of_connection want_read (pos 6) 1

abbrev ev_c : Event
ev_c = event_of_connection want_read (pos 7) 2

abbrev some_input : Revents
some_input = record no_events { readable = true }

abbrev old_entry : PollFd
old_entry = record { fd = pos 0; wants = want_read; revents = no_events }

abbrev entries : List PollFd
entries = old_entry ∷ old_entry ∷ old_entry ∷ []

separate_sds : Distinct (event_sds (ev_a ∷ ev_b ∷ ev_c ∷ []))
separate_sds = ((refl, (refl, tt)), ((refl, tt), (tt, tt)))

manage_events-one_example : Returns (LeavesLoop (loop_of (ev_a ∷ ev_c ∷ []) (ev_b ∷ []) three)) (
    manage_events
      (ready (only_after (ev_a ∷ []) some_input))
      entries
      (loop_of (ev_a ∷ ev_b ∷ ev_c ∷ []) [] three))
unfolding fires
manage_events-one_example =
    manage_events-one (ev_a ∷ []) ev_b (ev_c ∷ []) [] three some_input entries separate_sds refl
      (omega arith)

manage_events-lost_example :
    (left : List PollFd) × (manage_events
        (ready (some_input ∷ some_input ∷ []))
        entries
        (loop_of (ev_a ∷ ev_b ∷ ev_c ∷ []) [] three)
      ≡ ok (keeps_on (second_lost ev_a ev_b ev_c [] [] three) left (closes (pos 6) ∷ [])))
unfolding fires is_held load
manage_events-lost_example =
    manage_events-lost ev_a ev_b ev_c [] [] three some_input some_input (new_connection (pos 6))
      entries separate_sds refl refl refl refl refl (omega arith)

abbrev one_connection : List Connection
one_connection = new_connection (pos 5) ∷ []

request-reply_example :
    (work (received (104 ∷ 105 ∷ 10 ∷ [])) (loop_with ev_a [] [] one_connection)
      ≡ ok
          (asked [] [] one_connection (pos 5) 0 (104 ∷ 105 ∷ 10 ∷ []) (reply (104 ∷ 105 ∷ [])), []))
    × (work read_error (
          loop_with
            (event_of_connection want_write (pos 5) 0)
            []
            []
            (asked [] [] one_connection
              (pos 5)
              0
              (104 ∷ 105 ∷ 10 ∷ [])
              (reply (104 ∷ 105 ∷ []))).connections)
        ≡ ok (
          record {
            want = ev_a ∷ [];
            have = [];
            connections =
                (asked [] [] one_connection
                  (pos 5)
                  0
                  (104 ∷ 105 ∷ 10 ∷ [])
                  (reply (104 ∷ 105 ∷ []))).connections;
          },
          writes (pos 5) (reply (104 ∷ 105 ∷ [])) ∷ [],
        ))
unfolding load stripped
request-reply_example =
    request-reply [] [] one_connection (pos 5) 0 (new_connection (pos 5)) refl refl 104
      (105 ∷ 10 ∷ []) read_error [] [] (omega arith) refl

both_match : Matches (loop_with ev_a [] [] one_connection)
unfolding load
both_match = record { want_hold = tt; have_hold = ((_, refl, refl), tt) }

work-Matches_example :
    Returns
      (λ (done : Loop × List Action). Matches done.0)
      (work (received (104 ∷ 105 ∷ 10 ∷ [])) (loop_with ev_a [] [] one_connection))
unfolding stripped
work-Matches_example =
    work-Matches (received (104 ∷ 105 ∷ 10 ∷ [])) (loop_with ev_a [] [] one_connection)
      (omega arith, λ e. refl) both_match
