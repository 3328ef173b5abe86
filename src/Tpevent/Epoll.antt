-- ===== src/Tpevent/Epoll.antt =====
-- net/libtpevent/src/epoll.cpp: EpollEngine, whose clients live on the heap and are known to the kernel
-- by their addresses. The answers of the system calls and the addresses of `new` are arguments.
pub mod Cells
pub mod Steady
pub mod Memory
pub mod Turns
pub mod Rounds
mod Tests
use Prim.Native.String.{◌++◌ as ◌^◌}
use technopark_cpp.Tpevent.Poll.{hello, Revents}
use technopark_cpp.Tpevent.Engine.{
  ClientState, received, read_error, want_read, Reading, writes, closes, new_client, Client,
  want_write, Action, wants_read,
}
use technopark_cpp.Tpevent.Message.{message}
use technopark_cpp.Prelude.{
  Bool, List, Run, String, [], eqb_ℤ, if◌then◌else◌, length, ok, pos, runtime_error, throw,
  undefined, ℕ, ℤ, ◌%◌, ◌++◌, ◌==◌, ◌>>=◌, ◌∷◌,
}

-- A live client on the heap
pub record Cell : Type 0 where
  pub address : ℕ
  pub client : Client

-- What the kernel watches: a descriptor, EPOLLIN or EPOLLOUT, and the 64 bits of `data`
pub record Interest : Type 0 where
  pub watched_sd : ℤ
  pub asks : ClientState
  pub user_data : ℕ

pub record EpollState : Type 0 where
  pub heap : List Cell
  pub interest : List Interest

-- `cs->...`: undefined unless a client is alive at the address
unfoldable pub deref : ℕ → List Cell → Run Client
deref a [] = undefined
deref a (c ∷ cs) = let rest = deref a cs in if c.address == a then ok c.client else rest

-- `cs->state = s`
unfoldable pub set_state : ℕ → ClientState → List Cell → List Cell
set_state a s [] = []
set_state a s (c ∷ cs) =
    (if c.address == a then record c { client = record { sd = c.client.sd; state = s } } else c)
    ∷ set_state a s cs

-- `delete` of a client that is alive
unfoldable pub free : ℕ → List Cell → List Cell
free a [] = []
free a (c ∷ cs) = let rest = free a cs in if c.address == a then rest else c ∷ rest

-- EPOLL_CTL_MOD
unfoldable pub modify : ℤ → ClientState → ℕ → List Interest → List Interest
modify sd s a [] = []
modify sd s a (w ∷ ws) =
    (if eqb_ℤ w.watched_sd sd then record { watched_sd = sd; asks = s; user_data = a } else w)
    ∷ modify sd s a ws

-- `close` takes the descriptor out of what the kernel watches.
unfoldable pub unwatch : ℤ → List Interest → List Interest
unwatch sd [] = []
unwatch sd (w ∷ ws) = let rest = unwatch sd ws in if eqb_ℤ w.watched_sd sd then rest else w ∷ rest

-- set_desire_events, where `epoll_ctl` succeeds or not
unfoldable pub set_desire_events : Bool → ℤ → ClientState → ℕ → List Interest → Bool × List Interest
set_desire_events works sd s a ws = (works, if works then modify sd s a ws else ws)

-- What one `accept` with its `new` and `epoll_ctl` answers
pub record Accepting : Type 0 where
  pub new_sd : ℤ
  pub new_address : ℕ
  pub added : Bool

-- accept_action: the answer of `epoll_ctl` is not read.
unfoldable pub accept_action : Accepting → EpollState → EpollState
accept_action a s =
    let watch : Interest = record {
      watched_sd = a.new_sd;
      asks = want_read;
      user_data = a.new_address;
    } in
    record {
      heap = s.heap ++ record { address = a.new_address; client = new_client a.new_sd } ∷ [];
      interest = if a.added then s.interest ++ watch ∷ [] else s.interest;
    }

-- One of the events that `epoll_wait` fills in, with what a read for it would give and whether
-- `epoll_ctl` would succeed
pub record Happening : Type 0 where
  pub flags : Revents
  pub event_data : ℕ
  pub reading : Reading
  pub modifies : Bool

-- `events[i].data.fd == listener()`: the low 32 bits of the data
abbrev pub is_listener : ℕ → ℕ → Bool
is_listener listener d = d % 4294967296 == listener

-- What one event leaves, appends to `disconnected_clients`, and does
pub record EpollTurn : Type 0 where
  pub after : EpollState
  pub gone : List ℕ
  pub acts : List Action

abbrev pub no_change : EpollState → EpollTurn
no_change s = record { after = s; gone = []; acts = [] }

-- The client with the data `d` turns to the state `s`, and the kernel is told; `works` is whether
-- `epoll_ctl` succeeds.
unfoldable pub turn_to :
    String → Bool → ℕ → ClientState → Client → List Action → EpollState → Run EpollTurn
turn_to text works d s c acts st =
    let told = set_desire_events works c.sd s d st.interest in
    if told.0
    then ok (record {
      after = record { heap = set_state d s st.heap; interest = told.1 };
      gone = [];
      acts = acts;
    })
    else throw (runtime_error ("epoll_ctl error: " ^ text))

-- The branch of EPOLLIN, for the client with the data `d`
unfoldable pub epoll_read : String → Reading → Bool → ℕ → Client → EpollState → Run EpollTurn
epoll_read text read_error works d c s = ok (record { after = s; gone = d ∷ []; acts = [] })
epoll_read text (received bytes) works d c s = message bytes >>= λ tmp.
    if length bytes == 0
    then ok (record { after = s; gone = d ∷ []; acts = [] })
    else turn_to text works d want_write c [] s

-- One turn of the loop over the events
unfoldable pub epoll_turn : String → ℕ → Accepting → Happening → EpollState → Run EpollTurn
epoll_turn text listener a h s =
    let with_client = deref h.event_data s.heap in
    if is_listener listener h.event_data
    then ok (no_change (accept_action a s))
    else if h.flags.hup
    then ok (record { after = s; gone = h.event_data ∷ []; acts = [] })
    else with_client >>= λ c.
        if h.flags.readable
        then (if wants_read c.state
            then epoll_read text h.reading h.modifies h.event_data c s
            else ok (no_change s))
        else if h.flags.writable
        then (if wants_read c.state
            then ok (no_change s)
            else turn_to text h.modifies h.event_data want_read c (writes c.sd hello ∷ []) s)
        else ok (no_change s)

unfoldable pub epoll_turns : String → ℕ → Accepting → List Happening → EpollState → Run EpollTurn
epoll_turns text listener a [] s = ok (no_change s)
epoll_turns text listener a (h ∷ hs) s = epoll_turn text listener a h s >>= λ t.
    epoll_turns text listener a hs t.after >>= λ later.
    ok (record { after = later.after; gone = t.gone ++ later.gone; acts = t.acts ++ later.acts })

-- The loop over `disconnected_clients`: close, then delete
unfoldable pub collect : List ℕ → EpollState → Run (EpollState × List Action)
collect [] s = ok (s, [])
collect (a ∷ addresses) s = deref a s.heap >>= λ c.
    collect addresses (record { heap = free a s.heap; interest = unwatch c.sd s.interest })
    >>= λ rest. ok (rest.0, closes c.sd ∷ rest.1)

-- How `epoll_wait` ends: 0 is not told from no events.
pub data EpollAnswer : Type 0 where
  wait_error : EpollAnswer
  happened : List Happening → EpollAnswer

-- One round of EpollEngine::eventLoop; at most one event is the listener's, and `a` answers it.
unfoldable pub epoll_round :
    String → ℕ → Accepting → EpollAnswer → EpollState → Run (EpollState × List Action)
epoll_round text listener a wait_error s = throw (runtime_error ("epoll: " ^ text))
epoll_round text listener a (happened hs) s = epoll_turns text listener a hs s >>= λ t.
    collect t.gone t.after >>= λ r. ok (r.0, t.acts ++ r.1)

-- What the kernel watches before the loop
abbrev pub epoll_start : ℕ → EpollState
epoll_start listener = record {
  heap = [];
  interest = record { watched_sd = pos listener; asks = want_read; user_data = listener } ∷ [];
}
