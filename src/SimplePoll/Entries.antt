-- ===== src/SimplePoll/Entries.antt =====
-- The entries that the server keeps.
use technopark_cpp.Tpevent.Poll.{no_events, is_quiet, PollFd}
use technopark_cpp.SimplePoll.{
  carry_on, exit_with, input_turn, only_entry, SimplePass, after_simple, accept_turn, poll_size,
  simple_pass, SimpleAnswers, simple_round, Ending, simple_turn, SimpleTurn, comes_to,
}
use technopark_cpp.Tpevent.Engine.{Action, want_write, received, read_error, Reading}
use technopark_cpp.Tpevent.Message.{message}
use technopark_cpp.Prelude.{
  Bool, List, Run, String, [], eqb_ℤ, false, if◌then◌else◌, length, ltb, ltb_ℤ, map, not, ok,
  out_of_fuel, pos, refl, suc, throw, true, undefined, ℕ, ℤ, ◌+◌, ◌==◌, ◌>>=◌, ◌∷◌, ◌≡◌,
}

abbrev pub entry_sds : List PollFd → List ℤ
entry_sds = map (λ f. f.fd)

-- A turn that ends normally keeps its entry's descriptor.
abbrev Turned : ℤ → Run (Ending SimpleTurn) → Type 0
Turned sd (ok (comes_to t)) = t.entry.fd ≡ sd
Turned sd (ok (exit_with code)) = Unit {0}
Turned sd (throw e) = Unit {0}
Turned sd undefined = Unit {0}
Turned sd out_of_fuel = Unit {0}

abbrev pub Passed : List ℤ → Run (Ending SimplePass) → Type 0
Passed sds (ok (comes_to p)) = entry_sds p.passed ≡ sds
Passed sds (ok (exit_with code)) = Unit {0}
Passed sds (throw e) = Unit {0}
Passed sds undefined = Unit {0}
Passed sds out_of_fuel = Unit {0}

Turned-if :
    (sd : ℤ) (b : Bool) (x y : Run (Ending SimpleTurn))
    → Turned sd x
    → Turned sd y
    → Turned sd (if b then x else y)
Turned-if sd true x y p q = p
Turned-if sd false x y p q = q

Turned-told :
    (m : Run (List ℕ)) (f : PollFd) (acts : List Action)
    → Turned f.fd (m >>= λ text. only_entry f acts)
Turned-told (ok text) f acts = refl
Turned-told (throw e) f acts = tt
Turned-told undefined f acts = tt
Turned-told out_of_fuel f acts = tt

input_turn-Turned : (r : Reading) (f : PollFd) → Turned f.fd (input_turn r f)
unfolding input_turn
input_turn-Turned read_error f = refl
input_turn-Turned (received bytes) f =
    Turned-if f.fd (length bytes == 0) _ _ refl
      (Turned-told (message bytes) (record f { wants = want_write; revents = no_events }) [])

accept_turn-Turned :
    (numfds : ℕ) (sock : ℤ) (unblocked : Bool) (text : String) (f : PollFd)
    → Turned f.fd (accept_turn numfds sock unblocked text f)
unfolding accept_turn
accept_turn-Turned numfds sock unblocked text f =
    Turned-if f.fd (ltb_ℤ sock (pos 0)) _ _ tt
      (Turned-if f.fd (not (ltb numfds poll_size)) _ _ tt (Turned-if f.fd unblocked _ _ refl tt))

simple_turn-Turned :
    (listener : ℤ) (numfds : ℕ) (sock : ℤ) (unblocked : Bool) (text : String) (r : Reading)
    (f : PollFd)
    → Turned f.fd (simple_turn listener numfds sock unblocked text r f)
unfolding simple_turn
simple_turn-Turned listener numfds sock unblocked text r f =
    Turned-if f.fd (is_quiet f.revents) _ _ refl (
      Turned-if f.fd (eqb_ℤ f.fd listener) _ _ (accept_turn-Turned numfds sock unblocked text f) (
        Turned-if f.fd f.revents.hup _ _ refl (
          Turned-if f.fd f.revents.readable _ _ (input_turn-Turned r f)
            (Turned-if f.fd f.revents.writable _ _ refl refl))))

Passed-after :
    (sd : ℤ) (sds : List ℤ) (t : SimpleTurn) (r : Run (Ending SimplePass))
    → t.entry.fd ≡ sd
    → Passed sds r
    → Passed (sd ∷ sds) (r >>= λ p. ok (after_simple t p))
Passed-after sd sds t (ok (comes_to p)) e q = rw (e, q) refl
Passed-after sd sds t (ok (exit_with code)) e q = tt
Passed-after sd sds t (throw x) e q = tt
Passed-after sd sds t undefined e q = tt
Passed-after sd sds t out_of_fuel e q = tt

Passed-bind :
    (sd : ℤ) (sds : List ℤ) (r : Run (Ending SimpleTurn)) (k : SimpleTurn → Run (Ending SimplePass))
    → Turned sd r
    → ((t : SimpleTurn) → Passed sds (k t))
    → Passed (sd ∷ sds) (r >>= carry_on k)
Passed-bind sd sds (ok (comes_to t)) k e q = Passed-after sd sds t (k t) e (q t)
Passed-bind sd sds (ok (exit_with code)) k e q = tt
Passed-bind sd sds (throw x) k e q = tt
Passed-bind sd sds undefined k e q = tt
Passed-bind sd sds out_of_fuel k e q = tt

simple_pass-Passed :
    (listener : ℤ) (a : SimpleAnswers) (i numfds : ℕ) (fds : List PollFd)
    → Passed (entry_sds fds) (simple_pass listener a i numfds fds)
unfolding simple_pass
simple_pass-Passed listener a i numfds [] = refl
simple_pass-Passed listener a i numfds (f ∷ fds) =
    let k = λ (t : SimpleTurn). simple_pass listener a (suc i) (numfds + length t.joins_in) fds in
    Passed-bind f.fd (entry_sds fds)
      (simple_turn listener numfds (a.socks i) (a.unblocks i) a.why (a.readings i) f) k
      (simple_turn-Turned listener numfds (a.socks i) (a.unblocks i) a.why (a.readings i) f)
      (λ t. simple_pass-Passed listener a (suc i) (numfds + length t.joins_in) fds)

-- A round that comes to an end leaves every entry that was in use in its place with its descriptor,
-- also where it closes the descriptor.
pub simple_round-Passed :
    (listener : ℤ) (a : SimpleAnswers) (fds : List PollFd)
    → Passed (entry_sds fds) (simple_round listener a fds)
unfolding simple_round
simple_round-Passed listener a fds = simple_pass-Passed listener a 0 (length fds) fds
