-- ===== src/SimplePoll/Tests.antt =====
-- The server over poll at concrete entries.
use technopark_cpp.Tpevent.Poll.{Revents, no_events, PollFd}
use technopark_cpp.SimplePoll.Full.{simple_round-full, then_round, at_first}
use technopark_cpp.SimplePoll.{
  SimplePass, comes_to, accept_turn, simple_turn, simple_round, simple_pass, new_entry, input_turn,
  SimpleAnswers,
}
use technopark_cpp.Tpevent.Engine.{want_read, received, closes}
use technopark_cpp.Prelude.{
  List, [], arith, ok, pos, refl, suc, true, undefined, zero, ℕ, ◌++◌, ◌∷◌, ◌≡◌,
}

abbrev all_answers : SimpleAnswers
all_answers = record {
  socks = λ i. pos 9;
  unblocks = λ i. true;
  why = "";
  readings = λ i. received [];
}

abbrev input_seen : Revents
input_seen = record no_events { readable = true }

abbrev gone_client : PollFd
gone_client = record { fd = pos 5; wants = want_read; revents = input_seen }

-- The listener is ready, and a client has left: its descriptor is closed, and its entry stays.
left_run :
    simple_round
      (pos 3)
      all_answers
      (record (new_entry (pos 3)) { revents = input_seen } ∷ gone_client ∷ [])
    ≡ ok (
        comes_to (record {
          passed = record (new_entry (pos 3)) { revents = input_seen } ∷ new_entry (pos 5) ∷ [];
          joined_in = new_entry (pos 9) ∷ [];
          acts_done = closes (pos 5) ∷ [];
        }))
unfolding simple_round simple_pass simple_turn accept_turn input_turn
left_run = refl

abbrev many : ℕ → List PollFd
many zero = []
many (suc n) = new_entry (pos 5) ∷ many n

-- 32 entries are in use, and one client leaves.
abbrev one_left : SimplePass
one_left = record {
  passed = new_entry (pos 3) ∷ new_entry (pos 5) ∷ many 30;
  joined_in = [];
  acts_done = closes (pos 5) ∷ [];
}

left_early :
    simple_round (pos 3) all_answers (new_entry (pos 3) ∷ gone_client ∷ many 30)
    ≡ ok (comes_to one_left)
unfolding simple_round simple_pass simple_turn accept_turn input_turn
left_early = refl

simple_round-full_example :
    simple_round (pos 3) all_answers (record (new_entry (pos 3)) { revents = input_seen } ∷ many 31)
    ≡ undefined
simple_round-full_example =
    simple_round-full (pos 3) (many 31) (one_left.passed ++ one_left.joined_in)
      (record (new_entry (pos 3)) { revents = input_seen }) (many 31) all_answers (omega arith)
      (then_round (new_entry (pos 3) ∷ gone_client ∷ many 30) all_answers one_left at_first refl
        left_early)
      refl refl refl
