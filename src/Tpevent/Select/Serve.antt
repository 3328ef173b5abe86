-- ===== src/Tpevent/Select/Serve.antt =====
-- One round of SelectEngine.
use technopark_cpp.Tpevent.Select.{
  SelectAnswer, largest, goes_on, select_round, all_fit, close_lost, some_ready, echo, select_pass,
  watched, SelectPass, after_read,
}
use technopark_cpp.Tpevent.Clients.Distinct.{
  erase_sds-gone_sds, Distinct, survivors, elements, eqb_ℤ-refl, gone_sds,
}
use technopark_cpp.Descriptor.Balance.{NotOpen}
use technopark_cpp.Tpevent.Engine.{
  new_client, Action, received, writes, Reading, read_error, Client, client_sds,
}
use technopark_cpp.Tpevent.Message.Strip.{text_of, message-text_of}
use technopark_cpp.Tpevent.Select.Watched.{
  largest-AllWatched, listener-watched, watched-ready, AllWatched,
}
use technopark_cpp.Tpevent.Poll.Calls.{text-bytes, Fits}
use technopark_cpp.Tpevent.Clients.{erase_sds}
use technopark_cpp.Descriptor.{fits_set}
use technopark_cpp.Prelude.{
  Bool, Bool-cases, List, [], ap, append-nil, arith, false, if◌then◌else◌, inl, inr, ok, refl,
  subst, suc, true, undefined, ℕ, ℤ, ◌&&◌, ◌++◌, ◌∷◌, ◌≡◌,
}

-- A read that makes the client leave, and what is written after one that does not
abbrev pub ends : Reading → Bool
ends read_error = true
ends (received bytes) = false

abbrev pub echoed : ℤ → Reading → List Action
echoed sd read_error = []
echoed sd (received bytes) = writes sd (echo (text_of bytes)) ∷ []

module _ (is_ready : ℤ → Bool) (reads : ℕ → Reading) where
  -- The clients of a round, with the mark of whether they leave
  unfoldable pub heard : ℕ → List Client → List (Client × Bool)
  heard i [] = []
  heard i (c ∷ cs) = (c, is_ready c.sd && ends (reads i)) ∷ heard (suc i) cs

  unfoldable pub echoes : ℕ → List Client → List Action
  echoes i [] = []
  echoes i (c ∷ cs) = (if is_ready c.sd then echoed c.sd (reads i) else []) ++ echoes (suc i) cs

abbrev pass_from : List ℤ → List Action → SelectPass
pass_from gone actions = record { joined = []; disconnected = gone; actions = actions }

after_read-ends :
    (sd : ℤ) (r : Reading) (gone : List ℤ) (actions : List Action)
    → Fits r
    → after_read sd r (pass_from gone actions)
      ≡ ok (pass_from (if ends r then sd ∷ gone else gone) (echoed sd r ++ actions))
unfolding after_read
after_read-ends sd read_error gone actions fits = refl
after_read-ends sd (received bytes) gone actions (small, some_left) =
    rw (message-text_of bytes small some_left, text-bytes bytes some_left) refl

module _ (listener : ℤ) (is_ready : ℤ → Bool) (fdmax new_sd : ℤ) (reads : ℕ → Reading)
    (fits : (i : ℕ) → Fits (reads i)) where
  select_pass-heard :
      (i : ℕ) (cs : List Client)
      → AllWatched fdmax cs
      → NotOpen listener (client_sds cs)
      → select_pass listener (watched fdmax is_ready) new_sd reads i cs
        ≡ ok (
            pass_from
              (gone_sds (λ c. c.sd) (heard is_ready reads i cs))
              (echoes is_ready reads i cs))
  unfolding select_pass heard echoes gone_sds
  select_pass-heard i [] w n = refl
  select_pass-heard i (c ∷ cs) w n =
      let later = select_pass-heard (suc i) cs w.1 n.1 in
      let gone = gone_sds (λ (c : Client). c.sd) (heard is_ready reads (suc i) cs) in
      let said = echoes is_ready reads (suc i) cs in
      rw (watched-ready fdmax c.sd is_ready w.0) (elim (Bool-cases (is_ready c.sd)) [
        | inr e ↦ rw (e, later) refl
        | inl e ↦ rw (e, n.0, later) (after_read-ends c.sd (reads i) gone said (fits i))
      ])

heard-elements :
    (is_ready : ℤ → Bool) (reads : ℕ → Reading) (i : ℕ) (cs : List Client)
    → elements (heard is_ready reads i cs) ≡ cs
unfolding heard elements
heard-elements is_ready reads i [] = refl
heard-elements is_ready reads i (c ∷ cs) = ap (◌∷◌ c) (heard-elements is_ready reads (suc i) cs)

module _ (listener : ℤ) (is_ready : ℤ → Bool) (new_sd : ℤ) (reads : ℕ → Reading) (cs : List Client)
    (fit : (fits_set listener && all_fit (new_client listener ∷ cs)) ≡ true) where
  -- A round in which the listener is ready accepts one client and reads none.
  pub select_round-accepts :
      is_ready listener ≡ true
      → select_round listener (some_ready is_ready) new_sd reads (new_client listener ∷ cs)
        ≡ ok (goes_on (new_client listener ∷ (cs ++ new_client new_sd ∷ [])) [])
  unfolding select_round select_pass close_lost erase_sds
  select_round-accepts e =
      rw
        (fit, listener-watched listener (new_client listener ∷ cs) is_ready, e, eqb_ℤ-refl listener)
        refl

  -- Let the listener be the first client and not ready, all descriptors be distinct and below 1024,
  -- and each read fail, or have less than 256 bytes and leave some text before the first zero when
  -- line ends are taken off its end. Then the round keeps the listener and the clients that are not
  -- ready or sent bytes, in order, echoes to the latter that text, and then closes the descriptors
  -- of the ready clients whose read failed.
  pub select_round-serves :
      is_ready listener ≡ false
      → ((i : ℕ) → Fits (reads i))
      → Distinct (listener ∷ client_sds cs)
      → select_round listener (some_ready is_ready) new_sd reads (new_client listener ∷ cs)
        ≡ ok (
            goes_on (new_client listener ∷ survivors (heard is_ready reads 1 cs)) (
              echoes is_ready reads 1 cs
              ++ close_lost (gone_sds (λ c. c.sd) (heard is_ready reads 1 cs))))
  unfolding select_round select_pass gone_sds survivors elements
  select_round-serves e fits d =
      let all = new_client listener ∷ cs in
      let below = (largest-AllWatched listener all).1 in
      let same = heard-elements is_ready reads 1 cs in
      let ws : List (Client × Bool) = (new_client listener, false) ∷ heard is_ready reads 1 cs in
      let distinct : Distinct (client_sds (elements ws)) = rw same d in
      let sds_left = gone_sds (λ (c : Client). c.sd) (heard is_ready reads 1 cs) in
      let erased_all : erase_sds (λ (c : Client). c.sd) sds_left all
          ≡ ok (new_client listener ∷ survivors (heard is_ready reads 1 cs)) =
        subst
          (λ l.
            erase_sds (λ (c : Client). c.sd) sds_left (new_client listener ∷ l)
            ≡ ok (new_client listener ∷ survivors (heard is_ready reads 1 cs)))
          same (erase_sds-gone_sds (λ (c : Client). c.sd) ws distinct) in
      rw
        (
          fit,
          listener-watched listener all is_ready,
          e,
          select_pass-heard listener is_ready (largest listener all) new_sd reads fits 1 cs below
              d.0,
          append-nil cs,
        )
        (rw erased_all refl)

all_fit-last :
    (cs : List Client) (sd : ℤ) → fits_set sd ≡ false → all_fit (cs ++ new_client sd ∷ []) ≡ false
unfolding all_fit
all_fit-last [] sd e = rw e refl
all_fit-last (c ∷ cs) sd e = rw (all_fit-last cs sd e) (ground arith)

-- Let the listener be the first client and ready, and all descriptors be below 1024. If accept
-- returns -1 or a descriptor that is not, the round returns, and the next one is undefined whatever
-- select answers.
pub accept-overflow :
    (listener : ℤ) (is_ready : ℤ → Bool) (new_sd : ℤ) (reads : ℕ → Reading) (cs : List Client)
    → (fits_set listener && all_fit (new_client listener ∷ cs)) ≡ true
    → is_ready listener ≡ true
    → fits_set new_sd ≡ false
    → (after : List Client) × (select_round listener
          (some_ready is_ready)
          new_sd
          reads
          (new_client listener ∷ cs)
        ≡ ok (goes_on after []))
      × ((answer : SelectAnswer) (later_sd : ℤ) (later_reads : ℕ → Reading)
          → select_round listener answer later_sd later_reads after ≡ undefined)
unfolding select_round
accept-overflow listener is_ready new_sd reads cs fit e bad =
    let after = new_client listener ∷ (cs ++ new_client new_sd ∷ []) in
    let full : (fits_set listener && all_fit after) ≡ false =
      rw (all_fit-last (new_client listener ∷ cs) new_sd bad) (ground arith) in
    (
      after,
      select_round-accepts listener is_ready new_sd reads cs fit e,
      λ answer later_sd later_reads. rw full refl,
    )
