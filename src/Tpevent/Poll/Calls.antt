-- ===== src/Tpevent/Poll/Calls.antt =====
-- What one round of manageConnections makes of each client, by a table of its state and its event.
use technopark_cpp.Tpevent.Poll.{hello, turn, Turn, Revents, read_turn}
use technopark_cpp.Tpevent.Engine.{
  Reading, writes, closes, Action, read_error, received, new_client, want_write, want_read,
  ClientState, Client,
}
use technopark_cpp.Tpevent.Message.Strip.{text_of, is_nil, stripped, message-text_of}
use technopark_cpp.Prelude.{
  Bool, List, [], arith, false, if◌then◌else◌, length, ok, refl, true, ℕ, ℤ, ◌<◌, ◌==◌, ◌∷◌, ◌≡◌,
}
use technopark_cpp.Tpevent.Message.{until_zero}

pub data Event : Type 0 where
  quiet hang_up input output bad_descriptor : Event

-- What `revents` says first, in the order of the branches
abbrev pub event_of : Revents → Event
event_of v =
    if v.hup
    then hang_up
    else if v.readable
    then input
    else if v.writable
    then output
    else if v.invalid
    then bad_descriptor
    else quiet

-- What becomes of a client: it waits on, it turns to the other state, it leaves and is closed, or it
-- leaves and stays open.
pub data Fate : Type 0 where
  waits turns leaves_closed leaves_open : Fate

unfoldable pub fate : ClientState → Event → Reading → Fate
fate s quiet r = waits
fate s hang_up r = leaves_open
fate s bad_descriptor r = leaves_open
fate want_read input read_error = leaves_closed
fate want_read input (received bytes) = turns
fate want_write input r = waits
fate want_read output r = waits
fate want_write output r = turns

abbrev other_state : ClientState → ClientState
other_state want_read = want_write
other_state want_write = want_read

abbrev pub becomes : Fate → Client → Client
becomes turns c = record c { state = other_state c.state }
becomes waits c = c
becomes leaves_closed c = c
becomes leaves_open c = c

abbrev pub leaves : Fate → Bool
leaves waits = false
leaves turns = false
leaves leaves_closed = true
leaves leaves_open = true

unfoldable pub greets : ClientState → ℤ → List Action
greets want_read sd = []
greets want_write sd = writes sd hello ∷ []

-- What the server does to a client besides reading: it greets one that turns back to reading.
unfoldable pub deeds : Fate → Client → List Action
unfolding greets
deeds waits c = []
deeds turns c = greets c.state c.sd
deeds leaves_closed c = closes c.sd ∷ []
deeds leaves_open c = []

abbrev pub turn_of : Fate → Client → Turn
turn_of k c = record {
  left = becomes k c;
  lost = if leaves k then c.sd ∷ [] else [];
  did = deeds k c;
}

-- A read that the code can strip: it leaves a place for the zero, and something is left of it. The
-- empty read at the end of a stream is not one.
abbrev pub Fits : Reading → Type 0
Fits read_error = Unit {0}
Fits (received bytes) = (length bytes < 256) × (is_nil (text_of bytes) ≡ false)

-- Some text makes some bytes.
pub text-bytes : (bytes : List ℕ) → is_nil (text_of bytes) ≡ false → (length bytes == 0) ≡ false
unfolding text_of stripped until_zero
text-bytes [] h = absurd (ground (arith, h))
text-bytes (x ∷ xs) h = ground arith

read_turn-fate :
    (sd : ℤ) (r : Reading)
    → Fits r
    → read_turn (new_client sd) sd r ≡ ok (turn_of (fate want_read input r) (new_client sd))
unfolding read_turn fate deeds greets
read_turn-fate sd read_error fits = refl
read_turn-fate sd (received bytes) (small, some_left) =
    rw (message-text_of bytes small some_left, text-bytes bytes some_left) refl

turn_parts :
    (sd : ℤ) (s w : ClientState) (v : Revents) (r : Reading)
    → Fits r
    → turn (record { sd = sd; state = s }) (record { fd = sd; wants = w; revents = v }) r
      ≡ ok (turn_of (fate s (event_of v) r) (record { sd = sd; state = s }))
unfolding turn fate deeds greets
turn_parts sd want_read w v r fits = ground (arith, read_turn-fate sd r fits)
turn_parts sd want_write w v r fits = ground arith

unfoldable pub fate_of : Client → Revents → Reading → Fate
fate_of c v r = fate c.state (event_of v) r

pub turn-fate :
    (c : Client) (w : ClientState) (v : Revents) (r : Reading)
    → Fits r
    → turn c (record { fd = c.sd; wants = w; revents = v }) r ≡ ok (turn_of (fate_of c v r) c)
unfolding fate_of
turn-fate c w v r fits = turn_parts c.sd c.state w v r fits
