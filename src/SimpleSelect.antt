-- ===== src/SimpleSelect.antt =====
-- net/simplest_client_server/server_select.cpp: a server over select in one function. The set of
-- clients is a list in ascending order. The answers of the system calls are arguments.
pub mod Replies
mod Tests
use Prim.Native.String.{◌++◌ as ◌^◌}
use technopark_cpp.Descriptor.{fits_set}
use technopark_cpp.Socket.{trim}
use technopark_cpp.Socket.Stream.{Answer, would_block, broken, gives}
use technopark_cpp.Tpevent.Engine.{Action, writes, closes}
use technopark_cpp.Tpevent.Poll.{accepted}
use technopark_cpp.Prelude.{
  Bool, List, Option, Run, String, [], eqb_ℤ, false, if◌then◌else◌, length, ltb_ℤ, none, not, ok,
  pos, runtime_error, some, suc, throw, true, undefined, ℕ, ℤ, ◌&&◌, ◌++◌, ◌==◌, ◌>>=◌, ◌∷◌,
}

-- `clients.insert(sock)`
unfoldable pub set_insert : ℤ → List ℤ → List ℤ
set_insert sock [] = sock ∷ []
set_insert sock (x ∷ xs) =
    let later = x ∷ set_insert sock xs in
    let first = if ltb_ℤ sock x then sock ∷ (x ∷ xs) else later in
    if eqb_ℤ sock x then x ∷ xs else first

-- FD_SET for every client
unfoldable pub sets_fit : List ℤ → Bool
sets_fit [] = true
sets_fit (x ∷ xs) = fits_set x && sets_fit xs

-- What a round leaves: the clients, and what was sent and closed; or the program has ended.
pub data SetRound : Type 0 where
  ends_with : ℕ → SetRound
  leaves_set : List ℤ → List Action → SetRound

-- `ret += " from server\n"`
abbrev pub from_server : List ℕ → List ℕ
from_server ret =
    ret ++ (32 ∷ 102 ∷ 114 ∷ 111 ∷ 109 ∷ 32 ∷ 115 ∷ 101 ∷ 114 ∷ 118 ∷ 101 ∷ 114 ∷ 10 ∷ [])

-- `bytes_read <= 0`
abbrev pub has_ended : Answer → Bool
has_ended would_block = true
has_ended (broken text) = true
has_ended (gives []) = true
has_ended (gives (x ∷ xs)) = false

abbrev pub given : Answer → List ℕ
given would_block = []
given (broken text) = []
given (gives bytes) = bytes

-- The pass over the clients from index `i` on, where the set is `clients`. An erase of the current
-- client ends the loop if it was the only one; else the loop increments an iterator to an element
-- that is gone.
unfoldable pub set_pass :
    (ℤ → Bool) → (ℕ → Answer) → List ℤ → ℕ → List ℤ → List Action → Run SetRound
set_pass is_ready recvs clients i [] acts = ok (leaves_set clients acts)
set_pass is_ready recvs clients i (x ∷ xs) acts =
    let goes_past = set_pass is_ready recvs clients (suc i) xs acts in
    let answers_it = trim (given (recvs i)) >>= λ ret.
    set_pass is_ready recvs clients (suc i) xs (acts ++ writes x (from_server ret) ∷ []) in
    let erases =
      if length clients == 1 then ok (leaves_set [] (acts ++ closes x ∷ [])) else undefined in
    if not (is_ready x) then goes_past else if has_ended (recvs i) then erases else answers_it

-- The branch of the listener: the clients, or the exit
unfoldable pub set_accept : ℤ → Bool → String → List ℤ → Run (Option (List ℤ))
set_accept sock unblocked text clients =
    if ltb_ℤ sock (pos 0)
    then ok none
    else if unblocked
    then ok (some (set_insert sock clients))
    else throw (runtime_error ("make nonblocked: " ^ text))

-- One round of the loop. `selected` is what `select` returns, `is_ready` the set it leaves; a client
-- that has just been accepted is not in that set, and the test of it is undefined from FD_SETSIZE on.
unfoldable pub set_round :
    ℤ → ℤ → (ℤ → Bool) → ℤ → Bool → String → (ℕ → Answer) → List ℤ → Run SetRound
set_round listener selected is_ready sock unblocked text recvs clients =
    let accepted = set_accept sock unblocked text clients >>= λ o. elim o [
      | none ↦ ok (ends_with 3)
      | some more ↦
          let pass = set_pass (λ sd. is_ready sd && not (eqb_ℤ sd sock)) recvs more 0 more [] in
          if fits_set sock then pass else undefined
    ] in
    let only_clients = set_pass is_ready recvs clients 0 clients [] in
    let polled = if is_ready listener then accepted else only_clients in
    if not (fits_set listener && sets_fit clients)
    then undefined
    else if ltb_ℤ (pos 0) selected
    then polled
    else ok (ends_with 3)
