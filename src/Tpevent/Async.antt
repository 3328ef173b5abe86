-- ===== src/Tpevent/Async.antt =====
-- net/libtpevent/src/poll_async.hpp and poll_async.cpp: the event loop, its queues, and the connections
-- that its callbacks keep alive. The answers of the system calls are arguments.
pub mod Scan
pub mod Lost
pub mod Worker
pub mod Matches
mod Tests
use technopark_cpp.Tpevent.Poll.{
  answered, ready, is_quiet, fill, timeout, poll_error, PollAnswer, PollFd,
}
use technopark_cpp.Tpevent.Engine.{
  want_write, want_read, received, wants_read, closes, Reading, ClientState, writes, Action,
  read_error, Client,
}
use technopark_cpp.Tpevent.Clients.{erase_sd}
use technopark_cpp.Tpevent.Message.{strip}
use technopark_cpp.Prelude.{
  Bool, List, Option, Run, [], eqb_ℤ, false, if◌then◌else◌, length, load, ltb, map, none, ok, some,
  store, suc, undefined, ℕ, ℤ, ◌++◌, ◌==◌, ◌>>=◌, ◌||◌, ◌∷◌,
}

-- class Connection
pub record Connection : Type 0 where
  pub m_sd : ℤ
  pub read_buf : List ℕ
  pub write_buf : List ℕ

-- EventLoop::Event. Its callback holds the connection `owner` and calls its readHandler or its
-- writeHandler, and its buffer is that connection's `m_ReadBuf` or `m_WriteBuf`, as the state says.
pub record Event : Type 0 where
  pub client : Client
  pub owner : ℕ

abbrev pub event_sd : Event → ℤ
event_sd e = e.client.sd

-- `m_ClientsWantWork`, `m_ClientsHaveWork`, and all connections that were made, by number
pub record Loop : Type 0 where
  pub want : List Event
  pub have : List Event
  pub connections : List Connection

unfoldable pub is_held : ℕ → List Event → Bool
is_held owner [] = false
is_held owner (e ∷ es) = e.owner == owner || is_held owner es

-- An event was destroyed. The last one that holds a connection destroys it, and ~Connection closes
-- its descriptor.
unfoldable pub release : ℕ → Loop → Run (List Action)
release owner l =
    let gone = load l.connections owner >>= λ c. ok (closes c.m_sd ∷ []) in
    if is_held owner l.want || is_held owner l.have then ok [] else gone

-- EventLoop::asyncRead and asyncWrite
unfoldable pub async_request : ClientState → ℤ → ℕ → Loop → Loop
async_request s sd owner l = record l {
  want = l.want ++ record { client = record { sd = sd; state = s }; owner = owner } ∷ [];
}

-- Connection::read, and Connection::writeHandler, which only calls it
unfoldable pub read_again : ℕ → Loop → Run Loop
read_again owner l = load l.connections owner >>= λ c. ok (async_request want_read c.m_sd owner l)

-- Connection::write
unfoldable pub write_reply : ℕ → List ℕ → Loop → Run Loop
write_reply owner s l = load l.connections owner >>= λ c.
    store l.connections owner (record c { write_buf = s }) >>= λ cs.
    ok (async_request want_write c.m_sd owner (record l { connections = cs }))

-- `"server: " + tmp + "\n"`
abbrev pub reply : List ℕ → List ℕ
reply tmp = (115 ∷ 101 ∷ 114 ∷ 118 ∷ 101 ∷ 114 ∷ 58 ∷ 32 ∷ []) ++ (tmp ++ 10 ∷ [])

-- Connection::readHandler
unfoldable pub read_handler : ℕ → Loop → Run Loop
read_handler owner l = load l.connections owner >>= λ c.
    if length c.read_buf == 0
    then ok l
    else strip c.read_buf >>= λ tmp. write_reply owner (reply tmp) l

-- The first event with a descriptor
unfoldable pub first_event : ℤ → List Event → Option Event
first_event sd [] = none
first_event sd (e ∷ es) =
    let rest = first_event sd es in if eqb_ℤ e.client.sd sd then some e else rest

-- EventLoop::deleteClient
unfoldable pub delete_client : ℤ → Loop → Run (Loop × List Action)
delete_client sd l = erase_sd event_sd sd l.want >>= λ left.
    let after = record l { want = left } in
    elim (first_event sd l.want) [
      | none ↦ undefined
      | some e ↦ release e.owner after >>= λ did. ok (after, did)
    ]

-- What a turn of the pass over the answers leaves, appends to `disconnected_clients` and does
pub record AsyncTurn : Type 0 where
  pub loop : Loop
  pub lost : List ℤ
  pub did : List Action

abbrev nothing : Loop → AsyncTurn
nothing l = record { loop = l; lost = []; did = [] }

-- The event at the index goes to the other queue, and the one with the descriptor is deleted.
unfoldable pub move_event : Event → ℤ → Loop → Run AsyncTurn
move_event e fd l = delete_client fd (record l { have = l.have ++ e ∷ [] }) >>= λ after.
    ok (record { loop = after.0; lost = []; did = after.1 })

unfoldable pub async_turn : ℕ → PollFd → Loop → Run AsyncTurn
async_turn i f l =
    let at_index = load l.want i in
    if is_quiet f.revents
    then ok (nothing l)
    else if f.revents.hup
    then ok (record { loop = l; lost = f.fd ∷ []; did = [] })
    else if f.revents.readable
    then (at_index >>= λ e.
        if wants_read e.client.state then move_event e f.fd l else ok (nothing l))
    else if f.revents.writable
    then (at_index >>= λ e.
        if wants_read e.client.state then ok (nothing l) else move_event e f.fd l)
    else if f.revents.invalid
    then ok (record { loop = l; lost = f.fd ∷ []; did = [] })
    else ok (nothing l)

-- The pass from index `i` on, over the entries of `fds` from there: the bound is read again in
-- each turn.
unfoldable pub async_scan : ℕ → List PollFd → Loop → Run AsyncTurn
async_scan i [] l = if ltb i (length l.want) then undefined else ok (nothing l)
async_scan i (f ∷ fds) l =
    let turned = async_turn i f l >>= λ t. async_scan (suc i) fds t.loop >>= λ later.
    ok (record { loop = later.loop; lost = t.lost ++ later.lost; did = t.did ++ later.did }) in
    if ltb i (length l.want) then turned else ok (nothing l)

-- The loop over `disconnected_clients`
unfoldable pub delete_all : List ℤ → Loop → Run (Loop × List Action)
delete_all [] l = ok (l, [])
delete_all (sd ∷ sds) l =
    delete_client sd l >>= λ a. delete_all sds a.0 >>= λ b. ok (b.0, a.1 ++ b.1)

-- How a round of EventLoop::manageConnections ends: its thread returns -1, or goes on.
pub data Managed : Type 0 where
  gives_up : Managed
  keeps_on : Loop → List PollFd → List Action → Managed

unfoldable pub manage_events : PollAnswer → List PollFd → Loop → Run Managed
manage_events answer fds l =
    let polled = fill (map (λ e. e.client) l.want) fds >>= λ filled. elim answer [
      | timeout ↦ ok (keeps_on l filled [])
      | poll_error text ↦ ok gives_up
      | ready vs ↦
          let seen = answered vs filled in
          async_scan 0 seen l >>= λ t.
          delete_all t.lost t.loop >>= λ a. ok (keeps_on a.0 seen (t.did ++ a.1))
    ] in
    if length l.want == 0 then ok (keeps_on l fds []) else polled

-- The worker of EventLoop::run with the event `e`, which it took from the queue
unfoldable pub serve_read : Event → Reading → Loop → Run (Loop × List Action)
serve_read e read_error l = release e.owner l >>= λ did. ok (l, closes e.client.sd ∷ did)
serve_read e (received bytes) l =
    let filled = load l.connections e.owner >>= λ c.
    store l.connections e.owner (record c { read_buf = bytes }) >>= λ cs.
    read_handler e.owner (record l { connections = cs }) >>= λ after.
    release e.owner after >>= λ did. ok (after, did) in
    if ltb (length bytes) 256 then filled else undefined

unfoldable pub serve_write : Event → Loop → Run (Loop × List Action)
serve_write e l = load l.connections e.owner >>= λ c. read_again e.owner l >>= λ after.
    release e.owner after >>= λ did. ok (after, writes e.client.sd c.write_buf ∷ did)

-- One round of the worker; `reading` is what the read gives, if it comes to one.
unfoldable pub work : Reading → Loop → Run (Loop × List Action)
work reading l = elim l.have [
  | [] ↦ ok (l, [])
  | e ∷ rest ↦
      let taken = record l { have = rest } in
      if wants_read e.client.state then serve_read e reading taken else serve_write e taken
]

-- accept_work with `conn->read()` in AsyncPollEngine::run, where `accept` returned `sd`
unfoldable pub accept_work : ℤ → Loop → Loop
accept_work sd l = async_request want_read sd (length l.connections) (record l {
  connections = l.connections ++ record { m_sd = sd; read_buf = []; write_buf = [] } ∷ [];
})
