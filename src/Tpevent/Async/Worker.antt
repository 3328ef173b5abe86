-- ===== src/Tpevent/Async/Worker.antt =====
-- The worker of EventLoop::run with the connection of one client: a request, its reply, and the ends.
use technopark_cpp.Tpevent.Engine.{
  closes, Reading, want_write, want_read, writes, received, ClientState,
}
use technopark_cpp.Tpevent.Async.{
  write_reply, serve_read, read_handler, serve_write, reply, work, read_again, release,
  async_request, Loop, Event, Connection, is_held,
}
use native.Mathlib.Decide.{dec_lt}
use technopark_cpp.Tpevent.Poll.Rounds.{request}
use technopark_cpp.Tpevent.Message.Strip.{strip-ok, is_nil, stripped}
use technopark_cpp.Prelude.{
  List, [], ap, arith, false, get_or-set, length, length-set, load, load-ok, load-undefined, lt→ltb,
  ok, refl, set, store-ok, suc, true, zero, ℕ, ℤ, ◌++◌, ◌<◌, ◌==◌, ◌∙◌, ◌∷◌, ◌≡◌,
}

-- The event of the client that the connection `owner` serves
abbrev pub event_of_connection : ClientState → ℤ → ℕ → Event
event_of_connection s sd owner = record { client = record { sd = sd; state = s }; owner = owner }

abbrev pub connection : ℤ → List ℕ → List ℕ → Connection
connection sd r w = record { m_sd = sd; read_buf = r; write_buf = w }

is_held-here : (want : List Event) (e : Event) → is_held e.owner (want ++ e ∷ []) ≡ true
unfolding is_held
is_held-here [] e = ground arith
is_held-here (x ∷ want) e = rw (is_held-here want e) (ground arith)

pub load-bound : (cs : List Connection) (i : ℕ) (c : Connection) → load cs i ≡ ok c → i < length cs
load-bound cs i c e = elim (dec_lt i (length cs)) [
  | yes p ↦ p
  | no big ↦ absurd (ground (arith, e, load-undefined cs i (omega arith)))
]

pub load-set :
    (cs : List Connection) (i : ℕ) (c : Connection) → i < length cs → load (set cs i c) i ≡ ok c
load-set cs i c h =
    load-ok (set cs i c) i c (omega (arith, length-set cs i c))
    ∙ ap ok (get_or-set cs i i c c h ∙ ground arith)

set-set : (cs : List Connection) (i : ℕ) (a b : Connection) → set (set cs i a) i b ≡ set cs i b
set-set [] i a b = refl
set-set (c ∷ cs) zero a b = refl
set-set (c ∷ cs) (suc i) a b = ap (◌∷◌ c) (set-set cs i a b)

-- A loop whose next event is `e`
abbrev pub loop_with : Event → List Event → List Event → List Connection → Loop
loop_with e have want connections = record {
  want = want;
  have = e ∷ have;
  connections = connections;
}

-- After a request: the connection holds it and the reply, and waits to write.
abbrev pub asked : List Event → List Event → List Connection → ℤ → ℕ → List ℕ → List ℕ → Loop
asked want have connections sd owner request answer = record {
  want = want ++ event_of_connection want_write sd owner ∷ [];
  have = have;
  connections = set connections owner (connection sd request answer);
}

module _ (want have : List Event) (connections : List Connection) (sd : ℤ) (owner : ℕ)
    (con : Connection) (owned : load connections owner ≡ ok con) (same_sd : con.m_sd ≡ sd) where
  request-asked :
      (x : ℕ) (xs : List ℕ)
      → length (x ∷ xs) < 256
      → is_nil (stripped (x ∷ xs)) ≡ false
      → work
          (received (x ∷ xs))
          (loop_with (event_of_connection want_read sd owner) have want connections)
        ≡ ok (asked want have connections sd owner (x ∷ xs) (reply (stripped (x ∷ xs))), [])
  unfolding work serve_read read_handler write_reply async_request release
  request-asked x xs small some_text =
      let there = load-bound connections owner con owned in
      let one = connection con.m_sd (x ∷ xs) con.write_buf in
      let there_still : owner < length (set connections owner one) =
        omega (arith, length-set connections owner one, there) in
      let some_read : (length (x ∷ xs) == 0) ≡ false = ground arith in
      let two = λ (d : ℤ). connection d (x ∷ xs) (reply (stripped (x ∷ xs))) in
      let next = event_of_connection want_write sd owner in
      rw
        (
          lt→ltb (length (x ∷ xs)) 256 small,
          owned,
          store-ok connections owner one there,
          load-set connections owner one there,
          some_read,
          strip-ok (x ∷ xs) some_text,
        )
        (rw (store-ok (set connections owner one) owner (two con.m_sd) there_still) (
          rw
            (
              same_sd,
              set-set connections owner (connection sd (x ∷ xs) con.write_buf) (two sd),
              is_held-here want next,
            )
            refl))

  reply-written :
      (r : Reading)
      → work r (loop_with (event_of_connection want_write sd owner) have want connections)
        ≡ ok (
          record {
            want = want ++ event_of_connection want_read sd owner ∷ [];
            have = have;
            connections = connections;
          },
          writes sd con.write_buf ∷ [],
        )
  unfolding work serve_write read_again async_request release
  reply-written r =
      rw (owned, same_sd, is_held-here want (event_of_connection want_read sd owner)) refl

  module _ (free_want : is_held owner want ≡ false) (free_have : is_held owner have ≡ false) where
    -- At the end of the stream the last holder goes, and the descriptor is closed once.
    pub ended-once :
        work
          (received [])
          (loop_with (event_of_connection want_read sd owner) have want connections)
        ≡ ok (
          record {
            want = want;
            have = have;
            connections = set connections owner (connection sd [] con.write_buf);
          },
          closes sd ∷ [],
        )
    unfolding work serve_read read_handler release
    ended-once =
        let there = load-bound connections owner con owned in
        let one = connection con.m_sd [] con.write_buf in
        rw
          (
            owned,
            store-ok connections owner one there,
            load-set connections owner one there,
            free_want,
            free_have,
            load-set connections owner one there,
          )
          (rw same_sd refl)

-- A worker that takes a read event and reads between 1 and 255 bytes, not all of them line ends,
-- makes a write event; a worker that takes that event, whatever the queues are then, writes to the
-- same client "server: ", the bytes without the line ends at their end, and a line end, and makes a
-- read event again. The event's connection has its descriptor.
pub request-reply :
    (want have : List Event) (connections : List Connection) (sd : ℤ) (owner : ℕ) (con : Connection)
    (owned : load connections owner ≡ ok con) (same_sd : con.m_sd ≡ sd) (x : ℕ) (xs : List ℕ)
    (r : Reading) (later_have later_want : List Event)
    → length (x ∷ xs) < 256
    → is_nil (stripped (x ∷ xs)) ≡ false
    → (work
          (received (x ∷ xs))
          (loop_with (event_of_connection want_read sd owner) have want connections)
        ≡ ok (asked want have connections sd owner (x ∷ xs) (reply (stripped (x ∷ xs))), []))
      × (work r (
            loop_with
              (event_of_connection want_write sd owner)
              later_have
              later_want
              (asked want have connections sd owner
                (x ∷ xs)
                (reply (stripped (x ∷ xs)))).connections)
          ≡ ok (
            record {
              want = later_want ++ event_of_connection want_read sd owner ∷ [];
              have = later_have;
              connections =
                  (asked want have connections sd owner
                    (x ∷ xs)
                    (reply (stripped (x ∷ xs)))).connections;
            },
            writes sd (reply (stripped (x ∷ xs))) ∷ [],
          ))
request-reply want have connections sd owner con owned same_sd x xs r later_have later_want small
      some_text =
    let there = load-bound connections owner con owned in
    let after = connection sd (x ∷ xs) (reply (stripped (x ∷ xs))) in
    (
      request-asked want have connections sd owner con owned same_sd x xs small some_text,
      reply-written later_want later_have (set connections owner after) sd owner after
          (load-set connections owner after there) refl r,
    )
