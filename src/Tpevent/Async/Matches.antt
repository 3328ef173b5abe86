-- ===== src/Tpevent/Async/Matches.antt =====
-- Every event holds a connection that exists and has the event's descriptor.
use technopark_cpp.Tpevent.Async.{
  accept_work, serve_read, read_handler, write_reply, reply, work, async_request, release,
  read_again, is_held, serve_write, Event, Connection, Loop,
}
use technopark_cpp.Tpevent.Engine.{
  wants_read, want_write, received, Reading, read_error, want_read, ClientState, Action,
}
use technopark_cpp.Tpevent.Async.Worker.{connection, load-set, load-bound, event_of_connection}
use technopark_cpp.Tpevent.Message.Strip.{strip-ok, is_nil, stripped}
use technopark_cpp.Tpevent.Async.Scan.{loop_of}
use technopark_cpp.Prelude.{
  Bool-cases, List, Returns, Returns-bind, [], ap, arith, false, inl, inr, length, load, lt→ltb, ok,
  refl, set, store-ok, suc, zero, ℕ, ℤ, ◌++◌, ◌<◌, ◌==◌, ◌>>=◌, ◌||◌, ◌∙◌, ◌∷◌, ◌≡◌,
}

abbrev pub Holds : List Connection → Event → Type 0
Holds cs e = (c : Connection) × (load cs e.owner ≡ ok c) × (c.m_sd ≡ e.client.sd)

abbrev pub AllHold : List Connection → List Event → Type 0
AllHold cs [] = Unit {0}
AllHold cs (e ∷ es) = Holds cs e × AllHold cs es

pub record Matches (l : Loop) : Type 0 where
  pub want_hold : AllHold l.connections l.want
  pub have_hold : AllHold l.connections l.have

-- Connections are only added, and none changes its descriptor.
abbrev Extends : List Connection → List Connection → Type 0
Extends cs ds =
    (i : ℕ) (c : Connection)
    → load cs i ≡ ok c
    → (d : Connection) × (load ds i ≡ ok d) × (d.m_sd ≡ c.m_sd)

AllHold-Extends :
    (cs ds : List Connection) (es : List Event) → Extends cs ds → AllHold cs es → AllHold ds es
AllHold-Extends cs ds [] more h = tt
AllHold-Extends cs ds (e ∷ es) more ((c, at_owner, same), rest) =
    let (d, at_owner', same') = more e.owner c at_owner in
    ((d, at_owner', same' ∙ same), AllHold-Extends cs ds es more rest)

AllHold-last :
    (cs : List Connection) (es : List Event) (e : Event)
    → AllHold cs es
    → Holds cs e
    → AllHold cs (es ++ e ∷ [])
AllHold-last cs [] e h one = (one, tt)
AllHold-last cs (x ∷ es) e h one = (h.0, AllHold-last cs es e h.1 one)

Extends-set :
    (cs : List Connection) (i : ℕ) (c d : Connection)
    → load cs i ≡ ok c
    → d.m_sd ≡ c.m_sd
    → Extends cs (set cs i d)
unfolding load
Extends-set [] i c d at_i same j x at_j = absurd (ground (arith, at_i))
Extends-set (y ∷ cs) zero c d at_i same zero x at_j =
    let both : c ≡ x = cc in (d, refl, same ∙ ap (λ (z : Connection). z.m_sd) both)
Extends-set (y ∷ cs) zero c d at_i same (suc j) x at_j = (x, at_j, refl)
Extends-set (y ∷ cs) (suc i) c d at_i same zero x at_j = (x, at_j, refl)
Extends-set (y ∷ cs) (suc i) c d at_i same (suc j) x at_j = Extends-set cs i c d at_i same j x at_j

Extends-append : (cs ds : List Connection) → Extends cs (cs ++ ds)
unfolding load
Extends-append [] ds i c e = absurd (ground (arith, e))
Extends-append (x ∷ cs) ds zero c e = (c, e, refl)
Extends-append (x ∷ cs) ds (suc i) c e = Extends-append cs ds i c e

load-end : (cs : List Connection) (c : Connection) → load (cs ++ c ∷ []) (length cs) ≡ ok c
unfolding load
load-end [] c = refl
load-end (x ∷ cs) c = load-end cs c

release-Returns :
    (owner : ℕ) (l : Loop) (c : Connection)
    → load l.connections owner ≡ ok c
    → (did : List Action) × (release owner l ≡ ok did)
unfolding release
release-Returns owner l c e = elim (Bool-cases (is_held owner l.want || is_held owner l.have)) [
  | inl h ↦ rw h (_, refl)
  | inr h ↦ rw (h, e) (_, refl)
]

set-Matches :
    (l : Loop) (owner : ℕ) (c d : Connection)
    → load l.connections owner ≡ ok c
    → d.m_sd ≡ c.m_sd
    → Matches l
    → Matches (record l { connections = set l.connections owner d })
set-Matches l owner c d at_owner same m =
    let more = Extends-set l.connections owner c d at_owner same in
    let cs = set l.connections owner d in
    record {
      want_hold = AllHold-Extends l.connections cs l.want more m.want_hold;
      have_hold = AllHold-Extends l.connections cs l.have more m.have_hold;
    }

request-Matches :
    (s : ClientState) (l : Loop) (owner : ℕ) (c : Connection)
    → load l.connections owner ≡ ok c
    → Matches l
    → Matches (async_request s c.m_sd owner l)
unfolding async_request
request-Matches s l owner c e m =
    let next = event_of_connection s c.m_sd owner in
    record {
      want_hold = AllHold-last l.connections l.want next m.want_hold (c, e, refl);
      have_hold = m.have_hold;
    }

abbrev Kept : Loop × List Action → Type 0
Kept r = Matches r.0

-- What follows a handler: the worker lets go of its event.
then_release :
    (owner : ℕ) (l : Loop) (c : Connection)
    → load l.connections owner ≡ ok c
    → Matches l
    → Returns Kept (release owner l >>= λ did. ok (l, did))
then_release owner l c e m = let (did, r) = release-Returns owner l c e in rw r (_, refl, m)

serve_write-Matches :
    (e : Event) (l : Loop) → Holds l.connections e → Matches l → Returns Kept (serve_write e l)
unfolding serve_write read_again async_request
serve_write-Matches e l (c, at_owner, same) m =
    let after = async_request want_read c.m_sd e.owner l in
    let (did, r) = release-Returns e.owner after c at_owner in
    rw (at_owner, r) (_, refl, request-Matches want_read l e.owner c at_owner m)

-- write_reply after the handler has stored the request
-- A text that the handler can strip: it is empty, or something is left of it.
abbrev pub HasReply : List ℕ → Type 0
HasReply bytes = (length bytes == 0) ≡ false → is_nil (stripped bytes) ≡ false

-- A read that the worker can serve
abbrev pub Takes : Reading → Type 0
Takes read_error = Unit {0}
Takes (received bytes) = (length bytes < 256) × HasReply bytes

handler-Matches :
    (owner : ℕ) (l : Loop) (c : Connection)
    → load l.connections owner ≡ ok c
    → HasReply c.read_buf
    → Matches l
    → Returns
        (λ after. Matches after × ((d : Connection) × (load after.connections owner ≡ ok d)))
        (read_handler owner l)
unfolding read_handler write_reply async_request
handler-Matches owner l c at_owner has m = elim (Bool-cases (length c.read_buf == 0)) [
  | inl e ↦ rw (at_owner, e) (_, refl, (m, (c, at_owner)))
  | inr e ↦
      let there = load-bound l.connections owner c at_owner in
      let answer = reply (stripped c.read_buf) in
      let d = record c { write_buf = answer } in
      let kept = set-Matches l owner c d at_owner refl m in
      let l' = record l { connections = set l.connections owner d } in
      let at_owner' = load-set l.connections owner d there in
      rw (at_owner, e, strip-ok c.read_buf (has e), store-ok l.connections owner d there)
        (_, refl, (request-Matches want_write l' owner d at_owner' kept, (d, at_owner')))
]

serve_read-Matches :
    (e : Event) (r : Reading) (l : Loop)
    → Takes r
    → Holds l.connections e
    → Matches l
    → Returns Kept (serve_read e r l)
unfolding serve_read
serve_read-Matches e read_error l fits (c, at_owner, same) m =
    let (did, r) = release-Returns e.owner l c at_owner in rw r (_, refl, m)
serve_read-Matches e (received bytes) l fits (c, at_owner, same) m =
    let there = load-bound l.connections e.owner c at_owner in
    let d = record c { read_buf = bytes } in
    let l' = record l { connections = set l.connections e.owner d } in
    let kept = set-Matches l e.owner c d at_owner refl m in
    let at_owner' = load-set l.connections e.owner d there in
    rw (lt→ltb (length bytes) 256 fits.0, at_owner, store-ok l.connections e.owner d there)
      (Returns-bind (handler-Matches e.owner l' d at_owner' fits.1 kept)
        (λ after p. then_release e.owner after p.1.0 p.1.1 p.0))

work-lists :
    (r : Reading) (want have : List Event) (cs : List Connection)
    → Takes r
    → Matches (loop_of want have cs)
    → Returns Kept (work r (loop_of want have cs))
unfolding work
work-lists r want [] cs fits m = (_, refl, m)
work-lists r want (e ∷ have) cs fits m =
    let taken = loop_of want have cs in
    let kept : Matches taken = record { want_hold = m.want_hold; have_hold = m.have_hold.1 } in
    elim (Bool-cases (wants_read e.client.state)) [
      | inl reads ↦ rw reads (serve_read-Matches e r taken fits m.have_hold.0 kept)
      | inr no_read ↦ rw no_read (serve_write-Matches e taken m.have_hold.0 kept)
    ]

-- Let every event in the two queues hold a connection that exists and has the event's descriptor.
-- Then a worker's round, with a read error, the end of the stream, or less than 256 bytes that are
-- not all line ends, returns, and the same holds after it.
pub work-Matches :
    (r : Reading) (l : Loop)
    → Takes r
    → Matches l
    → Returns (λ (done : Loop × List Action). Matches done.0) (work r l)
work-Matches r l fits m = work-lists r l.want l.have l.connections fits m

-- So does the thread that accepts.
pub accept_work-Matches : (sd : ℤ) (l : Loop) → Matches l → Matches (accept_work sd l)
unfolding accept_work async_request
accept_work-Matches sd l m =
    let fresh = connection sd [] [] in
    let cs = l.connections ++ fresh ∷ [] in
    let more = Extends-append l.connections (fresh ∷ []) in
    let next = event_of_connection want_read sd (length l.connections) in
    record {
      want_hold =
          AllHold-last cs l.want next (AllHold-Extends l.connections cs l.want more m.want_hold)
            (fresh, load-end l.connections fresh, refl);
      have_hold = AllHold-Extends l.connections cs l.have more m.have_hold;
    }
