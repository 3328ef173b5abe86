-- ===== src/Tpevent/Select.antt =====
-- net/libtpevent/src/select.cpp: SelectEngine, one thread that also accepts: the listener stands first
-- among the clients. The answers of the system calls are arguments.
pub mod Watched
pub mod Serve
mod Tests
use technopark_cpp.Descriptor.{fits_set}
use technopark_cpp.Tpevent.Engine.{
  writes, Action, Client, closes, Reading, received, read_error, new_client,
}
use technopark_cpp.Tpevent.Message.{message}
use technopark_cpp.Tpevent.Clients.{erase_sds}
use technopark_cpp.Prelude.{
  Bool, List, Run, [], eqb_ℤ, if◌then◌else◌, length, ltb_ℤ, not, ok, suc, true, undefined, ℕ, ℤ,
  ◌&&◌, ◌++◌, ◌==◌, ◌>>=◌, ◌∷◌,
}

-- `m_Clients.push_back(Client(listener()))` before the loop
abbrev pub start_clients : ℤ → List Client → List Client
start_clients listener clients = clients ++ new_client listener ∷ []

unfoldable pub all_fit : List Client → Bool
all_fit [] = true
all_fit (c ∷ cs) = fits_set c.sd && all_fit cs

-- The pass that fills the set and finds the largest descriptor
unfoldable pub largest : ℤ → List Client → ℤ
largest fdmax [] = fdmax
largest fdmax (c ∷ cs) = largest (if ltb_ℤ fdmax c.sd then c.sd else fdmax) cs

-- `select(fdmax + 1, ...)` looks at the descriptors up to `fdmax`.
abbrev pub watched : ℤ → (ℤ → Bool) → ℤ → Bool
watched fdmax is_ready sd = not (ltb_ℤ fdmax sd) && is_ready sd

-- How it ends: -1, 0, or the set of the descriptors that are ready
pub data SelectAnswer : Type 0 where
  select_error : SelectAnswer
  none_ready : SelectAnswer
  some_ready : (ℤ → Bool) → SelectAnswer

-- What the pass over the clients appends to `m_Clients` and to `disconnected_clients`, and does
pub record SelectPass : Type 0 where
  pub joined : List Client
  pub disconnected : List ℤ
  pub actions : List Action

abbrev pub no_pass : SelectPass
no_pass = record { joined = []; disconnected = []; actions = [] }

-- `"echo: " + tmp + "\n"`
abbrev pub echo : List ℕ → List ℕ
echo tmp = (101 ∷ 99 ∷ 104 ∷ 111 ∷ 58 ∷ 32 ∷ []) ++ (tmp ++ 10 ∷ [])

-- What the pass adds for one client that is read
abbrev pub and_lost : ℤ → SelectPass → SelectPass
and_lost sd p = record p { disconnected = sd ∷ p.disconnected }

abbrev pub and_echo : ℤ → List ℕ → SelectPass → SelectPass
and_echo sd tmp p = record p { actions = writes sd (echo tmp) ∷ p.actions }

unfoldable pub after_read : ℤ → Reading → SelectPass → Run SelectPass
after_read sd read_error p = ok (and_lost sd p)
after_read sd (received bytes) p =
    message bytes >>= λ tmp. ok (if length bytes == 0 then and_lost sd p else and_echo sd tmp p)

-- The pass from index `i` on; `reads i` is what a read at index `i` gives, and `new_sd` what `accept`
-- returns. After an accept the loop breaks.
unfoldable pub select_pass : ℤ → (ℤ → Bool) → ℤ → (ℕ → Reading) → ℕ → List Client → Run SelectPass
select_pass listener is_set new_sd reads i [] = ok no_pass
select_pass listener is_set new_sd reads i (c ∷ cs) =
    let later = select_pass listener is_set new_sd reads (suc i) cs in
    if not (is_set c.sd)
    then later
    else if eqb_ℤ c.sd listener
    then ok (record no_pass { joined = new_client new_sd ∷ [] })
    else later >>= λ p. after_read c.sd (reads i) p

-- The loop over `disconnected_clients` closes and erases each.
unfoldable pub close_lost : List ℤ → List Action
close_lost [] = []
close_lost (sd ∷ sds) = closes sd ∷ close_lost sds

-- How a round ends: by `exit(1)`, or with the clients that are left and what was done
pub data SelectRound : Type 0 where
  exits : ℕ → SelectRound
  goes_on : List Client → List Action → SelectRound

unfoldable pub select_round : ℤ → SelectAnswer → ℤ → (ℕ → Reading) → List Client → Run SelectRound
select_round listener answer new_sd reads clients =
    let ended : Run SelectRound = elim answer [
      | select_error ↦ ok (exits 1)
      | none_ready ↦ ok (goes_on clients [])
      | some_ready is_ready ↦
          let is_set = watched (largest listener clients) is_ready in
          select_pass listener is_set new_sd reads 0 clients >>= λ p.
          erase_sds (λ c. c.sd) p.disconnected (clients ++ p.joined) >>= λ left.
          ok (goes_on left (p.actions ++ close_lost p.disconnected))
    ] in
    if fits_set listener && all_fit clients then ended else undefined
