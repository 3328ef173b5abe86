-- ===== src/Tpevent/Async/Scan.antt =====
-- One round of EventLoop::manageConnections: the pass goes on over `m_ClientsWantWork` after it has
-- erased from it, and its answers stay where they were.
use technopark_cpp.Tpevent.Clients.Distinct.{eqb_ℤ-swap, eqb_ℤ-refl, Distinct}
use technopark_cpp.Tpevent.Poll.Rounds.{fill-map, request}
use technopark_cpp.Tpevent.Async.{
  nothing, delete_all, Connection, keeps_on, manage_events, Managed, move_event, async_turn,
  AsyncTurn, async_scan, Event, is_held, Loop, delete_client, event_sd, first_event, release,
}
use technopark_cpp.Tpevent.Clients.{erase_sd}
use technopark_cpp.Tpevent.Poll.{answered, fill, no_events, ready, Revents, PollFd}
use technopark_cpp.Descriptor.Balance.{NotOpen}
use technopark_cpp.Tpevent.Engine.{want_write, ClientState, want_read}
use technopark_cpp.Prelude.{
  Bool, Bool-cases, List, Returns, [], ap, append_assoc, arith, drop, eqb_ℤ, false, inl, inr,
  length, le→ltb, load, ltb, lt→ltb, map, not, ok, refl, some, subst, suc, true, ℕ, ℤ, ◌&&◌, ◌++◌,
  ◌+◌, ◌==◌, ◌∙◌, ◌∷◌, ◌≡◌, ◌≤◌,
}

abbrev pub event_sds : List Event → List ℤ
event_sds = map event_sd

abbrev pub entry_of : Event → PollFd
entry_of e = request e.client

abbrev queued : Event → Loop → Loop
queued e l = record l { have = l.have ++ e ∷ [] }

NotOpen-middle :
    (x : ℤ) (pre : List Event) (e : Event) (post : List Event)
    → NotOpen x (event_sds (pre ++ e ∷ post))
    → eqb_ℤ x e.client.sd ≡ false
NotOpen-middle x [] e post n = eqb_ℤ-swap x e.client.sd ∙ n.0
NotOpen-middle x (y ∷ pre) e post n = NotOpen-middle x pre e post n.1

erase_sd-middle :
    (pre : List Event) (e : Event) (post : List Event)
    → Distinct (event_sds (pre ++ e ∷ post))
    → erase_sd event_sd e.client.sd (pre ++ e ∷ post) ≡ ok (pre ++ post)
unfolding erase_sd
erase_sd-middle [] e post d = rw (eqb_ℤ-refl e.client.sd) refl
erase_sd-middle (x ∷ pre) e post d =
    rw (NotOpen-middle x.client.sd pre e post d.0, erase_sd-middle pre e post d.1) refl

first_event-middle :
    (pre : List Event) (e : Event) (post : List Event)
    → Distinct (event_sds (pre ++ e ∷ post))
    → first_event e.client.sd (pre ++ e ∷ post) ≡ some e
unfolding first_event
first_event-middle [] e post d = rw (eqb_ℤ-refl e.client.sd) refl
first_event-middle (x ∷ pre) e post d =
    rw (NotOpen-middle x.client.sd pre e post d.0, first_event-middle pre e post d.1) refl

is_held-last : (es : List Event) (e : Event) → is_held e.owner (es ++ e ∷ []) ≡ true
unfolding is_held
is_held-last [] e = ground arith
is_held-last (x ∷ es) e = rw (is_held-last es e) (ground arith)

-- An event that has just been queued keeps its connection.
pub delete_client-queued :
    (pre : List Event) (e : Event) (post : List Event) (l : Loop)
    → l.want ≡ pre ++ e ∷ post
    → Distinct (event_sds (pre ++ e ∷ post))
    → delete_client e.client.sd (queued e l) ≡ ok (record (queued e l) { want = pre ++ post }, [])
unfolding delete_client release
delete_client-queued pre e post l same d =
    rw (same, erase_sd-middle pre e post d, first_event-middle pre e post d, is_held-last l.have e)
      (ground arith)

load-middle :
    (pre : List Event) (e : Event) (post : List Event) → load (pre ++ e ∷ post) (length pre) ≡ ok e
unfolding load
load-middle [] e post = refl
load-middle (x ∷ pre) e post = load-middle pre e post

-- The pass ends where the queue has become shorter than the index.
async_scan-end :
    (i : ℕ) (fds : List PollFd) (l : Loop) → length l.want ≤ i → async_scan i fds l ≡ ok (nothing l)
unfolding async_scan
async_scan-end i [] l h = rw (le→ltb i (length l.want) h) refl
async_scan-end i (f ∷ fds) l h = rw (le→ltb i (length l.want) h) refl

-- It goes past the entries with no answer.
async_scan-quiet :
    (i : ℕ) (es : List Event) (fds : List PollFd) (l : Loop) (t : AsyncTurn)
    → i + length es ≤ length l.want
    → async_scan (i + length es) fds l ≡ ok t
    → async_scan i (map entry_of es ++ fds) l ≡ ok t
unfolding async_scan async_turn
async_scan-quiet i [] fds l t h e =
    let same : i + 0 ≡ i = omega arith in subst (λ k. async_scan k fds l ≡ ok t) same e
async_scan-quiet i (x ∷ es) fds l t h e =
    let same : i + length (x ∷ es) ≡ suc i + length es = omega arith in
    let later =
      async_scan-quiet (suc i) es fds l t (omega arith)
        (subst (λ k. async_scan k fds l ≡ ok t) same e) in
    rw (lt→ltb i (length l.want) (omega arith), later) refl

pub async_scan-rest :
    (i : ℕ) (es : List Event) (fds : List PollFd) (l : Loop)
    → length l.want ≤ i + length es
    → async_scan i (map entry_of es ++ fds) l ≡ ok (nothing l)
unfolding async_scan async_turn
async_scan-rest i [] fds l h = async_scan-end i fds l (omega arith)
async_scan-rest i (x ∷ es) fds l h = elim (Bool-cases (ltb i (length l.want))) [
  | inr short ↦ rw short refl
  | inl more ↦ rw (more, async_scan-rest (suc i) es fds l (omega arith)) refl
]

-- The answer that lets a client in the state `s` go on
unfoldable pub fires : ClientState → Revents → Bool
fires want_read v = not v.hup && v.readable
fires want_write v = not v.hup && (not v.readable && v.writable)

abbrev event : ℤ → ClientState → ℕ → Event
event sd s owner = record { client = record { sd = sd; state = s }; owner = owner }

turn-fires :
    (i : ℕ) (sd : ℤ) (s : ClientState) (owner : ℕ) (f : PollFd) (l : Loop)
    → load l.want i ≡ ok (event sd s owner)
    → fires s f.revents ≡ true
    → async_turn i f l ≡ move_event (event sd s owner) f.fd l
unfolding async_turn fires
turn-fires i sd want_read owner f l at_i h = rw at_i (ground arith)
turn-fires i sd want_write owner f l at_i h = rw at_i (ground arith)

-- The event at the index is queued, and the one with the entry's descriptor is deleted.
pub async_turn-fires :
    (i : ℕ) (e : Event) (f : PollFd) (l : Loop)
    → load l.want i ≡ ok e
    → fires e.client.state f.revents ≡ true
    → async_turn i f l ≡ move_event e f.fd l
async_turn-fires i e f l at_i h = turn-fires i e.client.sd e.client.state e.owner f l at_i h

map-middle :
    (pre : List Event) (e : Event) (post : List Event)
    → map entry_of (pre ++ e ∷ post) ≡ map entry_of pre ++ entry_of e ∷ map entry_of post
map-middle [] e post = refl
map-middle (x ∷ pre) e post = ap (◌∷◌ (entry_of x)) (map-middle pre e post)

requests-entries : (es : List Event) → map request (map (λ e. e.client) es) ≡ map entry_of es
requests-entries [] = refl
requests-entries (e ∷ es) = ap (◌∷◌ (entry_of e)) (requests-entries es)

length-clients : (es : List Event) → length (map (λ e. e.client) es) ≡ length es
length-clients [] = refl
length-clients (e ∷ es) = ap suc (length-clients es)

pub length-middle :
    (pre : List Event) (e : Event) (post : List Event)
    → length (pre ++ e ∷ post) ≡ length pre + suc (length post)
length-middle [] e post = omega arith
length-middle (x ∷ pre) e post = omega (arith, length-middle pre e post)

pub length-both : (pre post : List Event) → length (pre ++ post) ≡ length pre + length post
length-both [] post = omega arith
length-both (x ∷ pre) post = omega (arith, length-both pre post)

-- A loop with the queues `want` and `have`
abbrev pub loop_of : List Event → List Event → List Connection → Loop
loop_of want have connections = record { want = want; have = have; connections = connections }

pub fill-entries :
    (es : List Event) (fds : List PollFd)
    → length es ≤ length fds
    → fill (map (λ e. e.client) es) fds ≡ ok (map entry_of es ++ drop (length es) fds)
fill-entries es fds h =
    fill-map (map (λ e. e.client) es) fds (omega (arith, length-clients es))
    ∙ rw (requests-entries es, length-clients es) refl

-- The answers to a poll of the events `pre` and one more, where only that one got an answer
abbrev pub only_after : List Event → Revents → List Revents
only_after pre v = map (λ e. no_events) pre ++ v ∷ []

answered-only_after :
    (pre : List Event) (v : Revents) (f : PollFd) (rest : List PollFd)
    → answered (only_after pre v) (map entry_of pre ++ f ∷ rest)
      ≡ map entry_of pre ++ record f { revents = v } ∷ rest
unfolding answered
answered-only_after [] v f rest = refl
answered-only_after (e ∷ pre) v f rest = ap (◌∷◌ (entry_of e)) (answered-only_after pre v f rest)

abbrev pub moved : Loop → AsyncTurn
moved l = record { loop = l; lost = []; did = [] }

scan_one :
    (pre : List Event) (e : Event) (post have : List Event) (connections : List Connection)
    (v : Revents) (rest : List PollFd)
    → Distinct (event_sds (pre ++ e ∷ post))
    → fires e.client.state v ≡ true
    → async_scan 0
        (answered (only_after pre v) (map entry_of (pre ++ e ∷ post) ++ rest))
        (loop_of (pre ++ e ∷ post) have connections)
      ≡ ok (moved (loop_of (pre ++ post) (have ++ e ∷ []) connections))
unfolding async_scan move_event
scan_one pre e post have connections v rest d f =
    let want = pre ++ e ∷ post in
    let l = loop_of want have connections in
    let size = length-middle pre e post in
    let fewer = length-both pre post in
    let after = loop_of (pre ++ post) (have ++ e ∷ []) connections in
    let entries = map entry_of post ++ rest in
    let later = async_scan-rest (suc (length pre)) post rest after (omega (arith, fewer)) in
    let turned =
      async_turn-fires (length pre) e (record (entry_of e) { revents = v }) l
        (load-middle pre e post) f in
    let deleted = delete_client-queued pre e post l refl d in
    let here : async_scan (length pre) (record (entry_of e) { revents = v } ∷ entries) l
        ≡ ok (moved after) =
      rw (lt→ltb (length pre) (length want) (omega (arith, size)), turned, deleted, later) refl in
    let zero_first : 0 + length pre ≡ length pre = omega arith in
    rw (map-middle pre e post, append_assoc, answered-only_after pre v (entry_of e) entries)
      (async_scan-quiet 0 pre (record (entry_of e) { revents = v } ∷ entries) l (moved after)
        (omega (arith, size)) (rw zero_first here))

-- What a round leaves: the loop, and that nothing was done
abbrev pub LeavesLoop : Loop → Managed → Type 0
LeavesLoop l m = (fds : List PollFd) × (m ≡ keeps_on l fds [])

-- Where only one of the waiting clients, at any place, has an answer, and it is one that lets the
-- client go on, a round of the manager moves its event to the end of the other queue, leaves all
-- other events in order, and closes nothing. The descriptors are distinct and fit into the array.
pub manage_events-one :
    (pre : List Event) (e : Event) (post have : List Event) (connections : List Connection)
    (v : Revents) (fds : List PollFd)
    → Distinct (event_sds (pre ++ e ∷ post))
    → fires e.client.state v ≡ true
    → length (pre ++ e ∷ post) ≤ length fds
    → Returns
        (LeavesLoop (loop_of (pre ++ post) (have ++ e ∷ []) connections))
        (manage_events (ready (only_after pre v)) fds (loop_of (pre ++ e ∷ post) have connections))
unfolding manage_events delete_all
manage_events-one pre e post have connections v fds d f room =
    let want = pre ++ e ∷ post in
    let size = length-middle pre e post in
    let some_want : (length want == 0) ≡ false = ground (arith, size) in
    let l = loop_of want have connections in
    let scanned = scan_one pre e post have connections v (drop (length want) fds) d f in
    rw (some_want, fill-entries want fds room) (rw scanned (_, refl, (_, refl)))
