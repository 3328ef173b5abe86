-- ===== src/Tpevent/Poll/Tests.antt =====
-- PollEngine at concrete clients and answers.
use technopark_cpp.Tpevent.Clients.Distinct.{Distinct}
use technopark_cpp.Tpevent.Poll.Server.{at_start, after_round, PollServer, Answers}
use technopark_cpp.Tpevent.Poll.Rounds.{RoundOf, manage-RoundOf}
use technopark_cpp.Tpevent.Message.{message, strip_loop, until_zero, strip}
use technopark_cpp.Tpevent.Poll.Calls.{Fits}
use technopark_cpp.Tpevent.Poll.{
  answered, ready, turn, no_events, PollFd, Round, hello, manage, scan, fill, Revents, read_turn,
}
use technopark_cpp.Tpevent.Poll.Leak.{Orphan, manage-Orphan}
use technopark_cpp.Tpevent.Engine.{
  Reading, writes, received, client_sds, new_client, Client, want_write, want_read,
}
use technopark_cpp.Tpevent.Clients.{erase_sds, erase_sd}
use technopark_cpp.Tpevent.Poll.Race.{race-undefined, only_last}
use technopark_cpp.Tpevent.Poll.Reachable.{Owned, manage-Owned}
use technopark_cpp.Tpevent.Message.Strip.{stripped, text_of}
use technopark_cpp.Tpevent.Poll.Mute.{MuteAt, manage-Mute}
use technopark_cpp.Prelude.{
  List, Returns, [], arith, inl, inr, ok, pos, refl, true, undefined, ℕ, ◌∷◌, ◌≡◌,
}

abbrev hup_events : Revents
hup_events = record no_events { hup = true }

abbrev input_events : Revents
input_events = record no_events { readable = true }

abbrev output_events : Revents
output_events = record no_events { writable = true }

abbrev reader : Client
reader = new_client (pos 5)

abbrev writer : Client
writer = record { sd = pos 6; state = want_write }

-- An array `fds` whose entries an earlier round has filled
abbrev stale_entry : PollFd
stale_entry = record { fd = pos 9; wants = want_read; revents = no_events }

abbrev room_for_four : List PollFd
room_for_four = stale_entry ∷ stale_entry ∷ stale_entry ∷ stale_entry ∷ []

abbrev server : PollServer
server = record {
  clients = reader ∷ writer ∷ new_client (pos 7) ∷ [];
  fds = room_for_four;
  open_sds = pos 7 ∷ pos 6 ∷ pos 5 ∷ pos 3 ∷ [];
}

abbrev reads : ℕ → Reading
reads i = received (104 ∷ 105 ∷ 10 ∷ [])

reads-Fits : (i : ℕ) → Fits (reads i)
unfolding text_of stripped until_zero
reads-Fits i = (omega arith, refl)

abbrev events : List Revents
events = input_events ∷ output_events ∷ hup_events ∷ []

abbrev round_result : Round
round_result = record {
  clients_left = record { sd = pos 5; state = want_write } ∷ new_client (pos 6) ∷ [];
  fds_left =
      record { fd = pos 5; wants = want_read; revents = input_events }
      ∷ record { fd = pos 6; wants = want_write; revents = output_events }
      ∷ record { fd = pos 7; wants = want_read; revents = hup_events }
      ∷ stale_entry
      ∷ [];
  done = writes (pos 6) hello ∷ [];
}

round_run : manage reads (ready events) [] server.clients server.fds ≡ ok round_result
unfolding manage fill scan turn read_turn answered erase_sds erase_sd message strip strip_loop
    until_zero
round_run = refl

distinct : Distinct (client_sds server.clients)
distinct = ((refl, (refl, tt)), ((refl, tt), (tt, tt)))

manage-RoundOf_example :
    Returns
      (RoundOf reads server.clients server.fds events)
      (manage reads (ready events) [] server.clients server.fds)
manage-RoundOf_example =
    manage-RoundOf reads server.clients server.fds events reads-Fits refl (omega arith) distinct

owned : Owned server
owned = record {
  distinct = distinct;
  all_open = (inr (inr (inl refl)), (inr (inl refl), (inl refl, tt)));
}

answers : Answers reads events server
answers = record { one_each = refl; fit = reads-Fits }

manage-Owned_example :
    Returns
      (λ r. Owned (after_round server r))
      (manage reads (ready events) [] server.clients server.fds)
manage-Owned_example = manage-Owned server server reads events owned at_start answers (omega arith)

manage-Orphan_example : Orphan (pos 7) (after_round server round_result)
manage-Orphan_example =
    manage-Orphan (pos 7) server (after_round server round_result) reads events round_result owned
      answers (inr (inr (inl (refl, refl)))) (inl refl) round_run at_start

abbrev bad_events : Revents
bad_events = record no_events { invalid = true }

race-undefined_example :
    manage reads
      (ready (only_last (reader ∷ []) bad_events))
      (writer ∷ [])
      (reader ∷ [])
      room_for_four
    ≡ undefined
race-undefined_example =
    race-undefined reads writer bad_events refl refl refl refl reader [] room_for_four stale_entry
      (stale_entry ∷ stale_entry ∷ []) (omega arith) refl (refl, (refl, tt))

-- The client of the first entry has closed its end.
abbrev at_end : ℕ → Reading
at_end i = received []

at_end-MuteAt : MuteAt reader input_events (at_end 0)
unfolding text_of stripped until_zero
at_end-MuteAt = record {
  reads_now = refl;
  no_hup = refl;
  has_input = refl;
  bytes = [];
  was_read = refl;
  no_text = refl;
}

manage-Mute_example : manage at_end (ready events) [] server.clients server.fds ≡ undefined
manage-Mute_example = manage-Mute at_end server.clients server.fds events (inl at_end-MuteAt)
