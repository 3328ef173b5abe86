-- ===== src/Tpevent/Poll.antt =====
-- net/libtpevent/src/poll.cpp: PollEngine, whose thread of acceptNewConnections appends to `m_Clients`
-- while the thread of manageConnections polls, serves and removes them. The answers of the system
-- calls are arguments.
pub mod Calls
pub mod Rounds
pub mod Server
pub mod Ownership
pub mod Leak
mod Mute
mod Race
mod Tests
pub mod Reachable
use Prim.Native.String.{◌++◌ as ◌^◌}
use technopark_cpp.Tpevent.Engine.{
  writes, Action, closes, Reading, received, read_error, want_write, new_client, ClientState,
  want_read, Client, wants_read,
}
use technopark_cpp.Tpevent.Message.{message}
use technopark_cpp.Tpevent.Clients.{erase_sds}
use technopark_cpp.Prelude.{
  Bool, List, Run, String, [], false, if◌then◌else◌, length, not, ok, runtime_error, suc, throw,
  undefined, ℕ, ℤ, ◌++◌, ◌==◌, ◌>>=◌, ◌||◌, ◌∷◌,
}

-- The bits of `revents` that the code tests; `other_event` stands for all the rest.
pub record Revents : Type 0 where
  pub hup : Bool
  pub readable : Bool
  pub writable : Bool
  pub invalid : Bool
  pub failed : Bool
  pub other_event : Bool

abbrev pub no_events : Revents
no_events = record {
  hup = false;
  readable = false;
  writable = false;
  invalid = false;
  failed = false;
  other_event = false;
}

-- `revents == 0`
abbrev pub is_quiet : Revents → Bool
is_quiet v =
    not (v.hup || (v.readable || (v.writable || (v.invalid || (v.failed || v.other_event)))))

-- struct pollfd; `wants` is what `events` asks for.
pub record PollFd : Type 0 where
  pub fd : ℤ
  pub wants : ClientState
  pub revents : Revents

-- `char buf[] = "hello from server!\n"`, whose closing zero is sent too
abbrev pub hello : List ℕ
hello =
    104 ∷ 101 ∷ 108 ∷ 108 ∷ 111 ∷ 32 ∷ 102 ∷ 114 ∷ 111 ∷ 109 ∷ 32 ∷ 115 ∷ 101 ∷ 114 ∷ 118 ∷ 101
    ∷ 114 ∷ 33 ∷ 10 ∷ 0 ∷ []

-- The pass over `fds` before the poll. A client beyond the array is undefined.
unfoldable pub fill : List Client → List PollFd → Run (List PollFd)
fill [] fds = ok fds
fill (c ∷ cs) [] = undefined
fill (c ∷ cs) (f ∷ fds) =
    fill cs fds >>= λ rest. ok (record { fd = c.sd; wants = c.state; revents = no_events } ∷ rest)

-- The `revents` that `poll` writes
unfoldable pub answered : List Revents → List PollFd → List PollFd
answered [] fds = fds
answered (v ∷ vs) [] = []
answered (v ∷ vs) (f ∷ fds) = record f { revents = v } ∷ answered vs fds

-- What one turn of the pass over the answers leaves of the client, appends to
-- `disconnected_clients` and does
pub record Turn : Type 0 where
  pub left : Client
  pub lost : List ℤ
  pub did : List Action

abbrev nothing_done : Client → Turn
nothing_done c = record { left = c; lost = []; did = [] }

-- The branch of POLLIN. `` is the byte before the text, as in `message`.
unfoldable pub read_turn : Client → ℤ → Reading → Run Turn
unfolding message
read_turn c fd read_error = ok (record { left = c; lost = fd ∷ []; did = closes fd ∷ [] })
read_turn c fd (received bytes) = message bytes >>= λ text. ok (
    if length bytes == 0
    then record { left = c; lost = fd ∷ []; did = closes fd ∷ [] }
    else record { left = record c { state = want_write }; lost = []; did = [] })

unfoldable pub turn : Client → PollFd → Reading → Run Turn
turn c f reading =
    if is_quiet f.revents
    then ok (nothing_done c)
    else if f.revents.hup
    then ok (record { left = c; lost = f.fd ∷ []; did = [] })
    else if f.revents.readable
    then (if wants_read c.state then read_turn c f.fd reading else ok (nothing_done c))
    else if f.revents.writable
    then (if wants_read c.state
        then ok (nothing_done c)
        else ok (record {
          left = record c { state = want_read };
          lost = [];
          did = writes f.fd hello ∷ [];
        }))
    else if f.revents.invalid
    then ok (record { left = c; lost = f.fd ∷ []; did = [] })
    else ok (nothing_done c)

-- What the whole pass leaves in `m_Clients` and in `disconnected_clients`, and does
pub record Pass : Type 0 where
  pub clients : List Client
  pub disconnected : List ℤ
  pub actions : List Action

abbrev pub after_turn : Turn → Pass → Pass
after_turn t p = record {
  clients = t.left ∷ p.clients;
  disconnected = t.lost ++ p.disconnected;
  actions = t.did ++ p.actions;
}

-- The pass from index `i` on; `reads i` is what a `read` at index `i` gives.
unfoldable pub scan : (ℕ → Reading) → ℕ → List Client → List PollFd → Run Pass
scan reads i [] fds = ok (record { clients = []; disconnected = []; actions = [] })
scan reads i (c ∷ cs) [] = undefined
scan reads i (c ∷ cs) (f ∷ fds) =
    turn c f (reads i) >>= λ t. scan reads (suc i) cs fds >>= λ p. ok (after_turn t p)

-- How `poll` ends
pub data PollAnswer : Type 0 where
  timeout : PollAnswer
  poll_error : String → PollAnswer
  ready : List Revents → PollAnswer

-- What a round leaves in `m_Clients` and `fds`, and does
pub record Round : Type 0 where
  pub clients_left : List Client
  pub fds_left : List PollFd
  pub done : List Action

-- One round of manageConnections; `joined` are the clients that the other thread appends after the
-- pass over `fds`, before the answers are read.
unfoldable pub manage :
    (ℕ → Reading) → PollAnswer → List Client → List Client → List PollFd → Run Round
unfolding fill scan
manage reads answer joined [] fds = ok (record { clients_left = joined; fds_left = fds; done = [] })
manage reads answer joined (c ∷ cs) fds =
    let now = (c ∷ cs) ++ joined in
    fill (c ∷ cs) fds >>= λ filled. elim answer [
      | timeout ↦ ok (record { clients_left = now; fds_left = filled; done = [] })
      | poll_error text ↦ throw (runtime_error ("poll: " ^ text))
      | ready vs ↦
          let seen = answered vs filled in
          scan reads 0 now seen >>= λ p. erase_sds (λ c. c.sd) p.disconnected p.clients >>= λ left.
          ok (record { clients_left = left; fds_left = seen; done = p.actions })
    ]

-- How the `poll` and the `accept` of the other thread end
pub data AcceptAnswer : Type 0 where
  nobody : AcceptAnswer
  accept_poll_error : String → AcceptAnswer
  accepted : ℤ → AcceptAnswer

-- One round of acceptNewConnections
unfoldable pub accept_round : AcceptAnswer → List Client → Run (List Client)
accept_round nobody clients = ok clients
accept_round (accept_poll_error text) clients = throw (runtime_error ("poll: " ^ text))
accept_round (accepted sd) clients = ok (clients ++ new_client sd ∷ [])
