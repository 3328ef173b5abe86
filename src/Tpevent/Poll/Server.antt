-- ===== src/Tpevent/Poll/Server.antt =====
-- net/libtpevent/src/poll.cpp: the two threads of PollEngine::run together, one round after another.
-- The threads share `m_Clients` without a lock; here no client joins in the middle of a round.
use technopark_cpp.Tpevent.Poll.{accepted, ready, PollFd, manage, accept_round, Round, Revents}
use technopark_cpp.Tpevent.Engine.{Reading, closed_by, Client}
use technopark_cpp.Tpevent.Poll.Calls.{Fits}
use technopark_cpp.Descriptor.Balance.{NotOpen}
use technopark_cpp.Tpevent.Clients.Open.{close_all}
use technopark_cpp.Prelude.{List, [], length, ok, ℕ, ℤ, ◌∷◌, ◌≡◌}

-- `m_Clients`, the array `fds`, and the descriptors that are open in the process
pub record PollServer : Type 0 where
  pub clients : List Client
  pub fds : List PollFd
  pub open_sds : List ℤ

abbrev pub after_round : PollServer → Round → PollServer
after_round s r = record {
  clients = r.clients_left;
  fds = r.fds_left;
  open_sds = close_all (closed_by r.done) s.open_sds;
}

-- What the system promises of a poll and the reads after it: an answer for each entry, and reads that
-- leave a place in the buffer.
pub record Answers (reads : ℕ → Reading) (vs : List Revents) (s : PollServer) : Type 0 where
  pub one_each : length vs ≡ length s.clients
  pub fit : (i : ℕ) → Fits (reads i)

-- A round of one of the threads. `accept` returns a descriptor that is not open.
pub data Step : PollServer → PollServer → Type 0 where
  joins :
      {s : PollServer} (sd : ℤ) (clients : List Client)
      → NotOpen sd s.open_sds
      → accept_round (accepted sd) s.clients ≡ ok clients
      → Step s (record s { clients = clients; open_sds = sd ∷ s.open_sds })
  serves :
      {s : PollServer} (reads : ℕ → Reading) (vs : List Revents) (r : Round)
      → Answers reads vs s
      → manage reads (ready vs) [] s.clients s.fds ≡ ok r
      → Step s (after_round s r)

-- The states that the server comes to
pub data Reach (start : PollServer) : PollServer → Type 0 where
  at_start : Reach start start
  step : {s t : PollServer} → Reach start s → Step s t → Reach start t
