-- ===== src/SimplePoll.antt =====
-- net/simplest_client_server/server_poll.cpp: a server over poll in one function. The answers of the
-- system calls are arguments. Of the array `fds` the entries in use are a list.
pub mod Entries
pub mod Full
mod Tests
use Prim.Native.String.{◌++◌ as ◌^◌}
use technopark_cpp.Descriptor.{close_sd}
use technopark_cpp.Tpevent.Poll.{is_quiet, no_events, PollFd}
use technopark_cpp.Tpevent.Message.{message}
use technopark_cpp.Tpevent.Engine.{
  want_write, writes, Reading, Action, closes, read_error, received, want_read,
}
use technopark_cpp.Tpevent.Select.Serve.{heard}
use technopark_cpp.Tpevent.Epoll.Memory.{told}
use technopark_cpp.Prelude.{
  Bool, List, Run, String, [], eqb_ℤ, if◌then◌else◌, length, ltb, ltb_ℤ, not, ok, pos,
  runtime_error, set, suc, throw, undefined, ℕ, ℤ, ◌++◌, ◌+◌, ◌==◌, ◌>>=◌, ◌∷◌,
}

-- POLL_SIZE
abbrev pub poll_size : ℕ
poll_size = 32

-- How a function of the program ends: by `exit`, or with a value
pub data Ending (A : Type 0) : Type 0 where
  exit_with : ℕ → Ending A
  comes_to : A → Ending A

-- make_socket with set_reuse_addr, which closes the socket where it fails and goes on: the listener,
-- and what is open. `set`, `bound` and `heard` are whether setsockopt, bind and listen succeed.
unfoldable pub make_socket : ℤ → Bool → Bool → Bool → List ℤ → Ending ℤ × List ℤ
make_socket sock set bound heard open_sds =
    let made = sock ∷ open_sds in
    let after = if set then made else close_sd sock made in
    if ltb_ℤ sock (pos 0)
    then (exit_with 1, open_sds)
    else if not bound
    then (exit_with 1, after)
    else if not heard
    then (exit_with 1, after)
    else (comes_to sock, after)

-- `fds[0]` before the loop, and the entry of a new client
abbrev pub new_entry : ℤ → PollFd
new_entry sd = record { fd = sd; wants = want_read; revents = no_events }

-- What a turn of the pass leaves in the entry, appends and does
pub record SimpleTurn : Type 0 where
  pub entry : PollFd
  pub joins_in : List PollFd
  pub acted : List Action

abbrev pub only_entry : PollFd → List Action → Run (Ending SimpleTurn)
only_entry f acts = ok (comes_to (record { entry = f; joins_in = []; acted = acts }))

-- The branch of the listener, with `numfds` entries in use: `accept` returns `sock`, and
-- `unblocked` is whether set_non_blocked_impl succeeds.
unfoldable pub accept_turn : ℕ → ℤ → Bool → String → PollFd → Run (Ending SimpleTurn)
accept_turn numfds sock unblocked text f =
    let joined : SimpleTurn = record { entry = f; joins_in = new_entry sock ∷ []; acted = [] } in
    if ltb_ℤ sock (pos 0)
    then ok (exit_with 3)
    else if not (ltb numfds poll_size)
    then undefined
    else if unblocked
    then ok (comes_to joined)
    else throw (runtime_error ("make nonblocked: " ^ text))

-- The branch of POLLIN
unfoldable pub input_turn : Reading → PollFd → Run (Ending SimpleTurn)
input_turn read_error f = only_entry (record f { revents = no_events }) (closes f.fd ∷ [])
input_turn (received bytes) f =
    let told = message bytes >>= λ text.
    only_entry (record f { wants = want_write; revents = no_events }) [] in
    if length bytes == 0
    then only_entry (record f { revents = no_events }) (closes f.fd ∷ [])
    else told

-- The six bytes of "hello\n"
abbrev pub short_hello : List ℕ
short_hello = 104 ∷ 101 ∷ 108 ∷ 108 ∷ 111 ∷ 10 ∷ []

unfoldable pub simple_turn : ℤ → ℕ → ℤ → Bool → String → Reading → PollFd → Run (Ending SimpleTurn)
simple_turn listener numfds sock unblocked text reading f =
    if is_quiet f.revents
    then only_entry f []
    else if eqb_ℤ f.fd listener
    then accept_turn numfds sock unblocked text f
    else if f.revents.hup
    then only_entry f []
    else if f.revents.readable
    then input_turn reading f
    else if f.revents.writable
    then only_entry (record f { wants = want_read }) (writes f.fd short_hello ∷ [])
    else only_entry f []

-- What the pass leaves: the entries it was over, those that joined, and what it did
pub record SimplePass : Type 0 where
  pub passed : List PollFd
  pub joined_in : List PollFd
  pub acts_done : List Action

abbrev pub pass_end : Ending SimplePass
pass_end = comes_to (record { passed = []; joined_in = []; acts_done = [] })

abbrev pub after_simple : SimpleTurn → Ending SimplePass → Ending SimplePass
after_simple t (exit_with code) = exit_with code
after_simple t (comes_to p) = comes_to (record {
  passed = t.entry ∷ p.passed;
  joined_in = t.joins_in ++ p.joined_in;
  acts_done = t.acted ++ p.acts_done;
})

-- After a turn the pass goes on with `k`, unless the program has ended.
abbrev pub carry_on :
    (SimpleTurn → Run (Ending SimplePass)) → Ending SimpleTurn → Run (Ending SimplePass)
carry_on k (exit_with code) = ok (exit_with code)
carry_on k (comes_to t) = k t >>= λ p. ok (after_simple t p)

-- What `accept`, set_non_blocked_impl and `read` would answer at each entry
pub record SimpleAnswers : Type 0 where
  pub socks : ℕ → ℤ
  pub unblocks : ℕ → Bool
  pub why : String
  pub readings : ℕ → Reading

-- The pass from index `i` on, with `numfds` entries in use; an entry that joins has no `revents`
-- and is passed over.
unfoldable pub simple_pass : ℤ → SimpleAnswers → ℕ → ℕ → List PollFd → Run (Ending SimplePass)
simple_pass listener a i numfds [] = ok pass_end
simple_pass listener a i numfds (f ∷ fds) =
    simple_turn listener numfds (a.socks i) (a.unblocks i) a.why (a.readings i) f
    >>= carry_on (λ t. simple_pass listener a (suc i) (numfds + length t.joins_in) fds)

-- One round of the loop, after a poll that gave the entries their `revents`
unfoldable pub simple_round : ℤ → SimpleAnswers → List PollFd → Run (Ending SimplePass)
simple_round listener a fds = simple_pass listener a 0 (length fds) fds
