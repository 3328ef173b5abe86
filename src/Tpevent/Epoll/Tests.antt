-- ===== src/Tpevent/Epoll/Tests.antt =====
-- EpollEngine at a concrete heap.
use technopark_cpp.Tpevent.Epoll.{
  modify, deref, set_state, epoll_turns, epoll_round, turn_to, EpollState, set_desire_events,
  epoll_read, accept_action, epoll_turn, happened, Happening, unwatch, collect, Accepting, free,
}
use technopark_cpp.Tpevent.Epoll.Rounds.{OneAccept, Known, AllPromised, epoll_round-Sound}
use technopark_cpp.Tpevent.Epoll.Memory.{Fresh, Sound}
use technopark_cpp.Tpevent.Message.{strip, strip_loop, message, until_zero}
use technopark_cpp.Tpevent.Poll.{hello, no_events}
use technopark_cpp.Tpevent.Engine.{
  read_error, writes, want_write, closes, new_client, Action, want_read,
}
use technopark_cpp.Prelude.{List, Returns, [], arith, inl, inr, ok, pos, refl, true, ◌∷◌, ◌≡◌}

abbrev two_cells : EpollState
two_cells = record {
  heap =
      record { address = 4096; client = new_client (pos 5) }
      ∷ record { address = 8192; client = record { sd = pos 6; state = want_write } }
      ∷ [];
  interest =
      record { watched_sd = pos 3; asks = want_read; user_data = 3 }
      ∷ record { watched_sd = pos 5; asks = want_read; user_data = 4096 }
      ∷ record { watched_sd = pos 6; asks = want_write; user_data = 8192 }
      ∷ [];
}

abbrev read_fails : Happening
read_fails = record {
  flags = record no_events { readable = true };
  event_data = 4096;
  reading = read_error;
  modifies = true;
}

abbrev can_write : Happening
can_write = record {
  flags = record no_events { writable = true };
  event_data = 8192;
  reading = read_error;
  modifies = true;
}

abbrev connects : Happening
connects = record {
  flags = record no_events { readable = true };
  event_data = 3;
  reading = read_error;
  modifies = true;
}

abbrev accepts : Accepting
accepts = record { new_sd = pos 7; new_address = 12288; added = true }

abbrev all_events : List Happening
all_events = read_fails ∷ connects ∷ can_write ∷ []

epoll_run :
    epoll_round "" 3 accepts (happened all_events) two_cells
    ≡ ok (
      record {
        heap =
            record { address = 8192; client = new_client (pos 6) }
            ∷ record { address = 12288; client = new_client (pos 7) }
            ∷ [];
        interest =
            record { watched_sd = pos 3; asks = want_read; user_data = 3 }
            ∷ record { watched_sd = pos 6; asks = want_read; user_data = 8192 }
            ∷ record { watched_sd = pos 7; asks = want_read; user_data = 12288 }
            ∷ [];
      },
      writes (pos 6) hello ∷ closes (pos 5) ∷ [],
    )
unfolding epoll_round epoll_turns epoll_turn epoll_read turn_to set_desire_events accept_action
    collect deref set_state free modify unwatch message strip strip_loop until_zero
epoll_run = refl

promised : AllPromised all_events
promised = (
  record { fit = tt; modified = refl },
  (record { fit = tt; modified = refl }, (record { fit = tt; modified = refl }, tt)),
)

known : Known 3 two_cells.heap all_events
unfolding deref
known = (inr (_, refl), (inl refl, (inr (_, refl), tt)))

one_accept : OneAccept 3 all_events
one_accept = ((λ e. absurd (ground (arith, e))), ((λ e. (refl, tt)), ((λ e. tt), tt)))

sound : Sound 3 two_cells
sound = record {
  watches = refl;
  own_address = ((refl, tt), (tt, tt));
  own_sd = ((refl, (refl, tt)), ((refl, tt), (tt, tt)));
  no_alias = (refl, (refl, tt));
}

fresh : Fresh 3 accepts two_cells
fresh = record {
  is_added = refl;
  fresh_sd = (refl, (refl, (refl, tt)));
  fresh_address = (refl, (refl, tt));
  fresh_alias = refl;
}

epoll_round-Sound_example :
    Returns
      (λ (r : EpollState × List Action). Sound 3 r.0)
      (epoll_round "" 3 accepts (happened all_events) two_cells)
epoll_round-Sound_example =
    epoll_round-Sound 3 "" accepts all_events two_cells promised known one_accept
      ((refl, (refl, tt)), ((refl, tt), (tt, tt))) (inr fresh) sound
