-- ===== src/Tpevent/Poll/Ownership.antt =====
-- PollEngine's clients hold distinct descriptors that are open, and no descriptor is closed that is
-- not open.
use technopark_cpp.Tpevent.Poll.Calls.{
  leaves, fate_of, waits, turns, leaves_open, leaves_closed, greets, Fate, deeds,
}
use technopark_cpp.Tpevent.Poll.{Revents}
use technopark_cpp.Tpevent.Engine.{
  closes, closed_by, Reading, writes, Action, client_sds, want_write, want_read, ClientState,
  Client,
}
use technopark_cpp.Tpevent.Poll.Rounds.{marked-sds, becomes-sd, all_deeds, marked}
use technopark_cpp.Tpevent.Clients.Distinct.{Distinct, elements, survivors}
use technopark_cpp.Tpevent.Clients.Open.{
  Apart, NotOpen-append, Apart-append, Apart-nil, Apart-one, AllOpen,
}
use technopark_cpp.Descriptor.Balance.{NotOpen}
use technopark_cpp.Prelude.{
  Bool, Bool-cases, List, [], ap, arith, eqb_ℤ, false, inl, inr, refl, suc, ℕ, ℤ, ◌++◌, ◌∙◌, ◌∷◌,
  ◌≡◌,
}

abbrev sd_of : Client → ℤ
sd_of c = c.sd

pub NotOpen-survivors :
    (x : ℤ) (ms : List (Client × Bool))
    → NotOpen x (client_sds (elements ms))
    → NotOpen x (client_sds (survivors ms))
unfolding elements survivors
NotOpen-survivors x [] n = tt
NotOpen-survivors x (m ∷ ms) n = elim (Bool-cases m.1) [
  | inl e ↦ rw e (NotOpen-survivors x ms n.1)
  | inr e ↦ rw e (n.0, NotOpen-survivors x ms n.1)
]

pub Distinct-survivors :
    (ms : List (Client × Bool))
    → Distinct (client_sds (elements ms))
    → Distinct (client_sds (survivors ms))
unfolding elements survivors
Distinct-survivors [] d = tt
Distinct-survivors (m ∷ ms) d = elim (Bool-cases m.1) [
  | inl e ↦ rw e (Distinct-survivors ms d.1)
  | inr e ↦ rw e (NotOpen-survivors m.0.sd ms d.0, Distinct-survivors ms d.1)
]

pub AllOpen-survivors :
    (ms : List (Client × Bool)) (open_sds : List ℤ)
    → AllOpen (client_sds (elements ms)) open_sds
    → AllOpen (client_sds (survivors ms)) open_sds
unfolding elements survivors
AllOpen-survivors [] open_sds a = tt
AllOpen-survivors (m ∷ ms) open_sds a = elim (Bool-cases m.1) [
  | inl e ↦ rw e (AllOpen-survivors ms open_sds a.1)
  | inr e ↦ rw e (a.0, AllOpen-survivors ms open_sds a.1)
]

closed_by-append : (a b : List Action) → closed_by (a ++ b) ≡ closed_by a ++ closed_by b
unfolding closed_by
closed_by-append [] b = refl
closed_by-append (writes sd text ∷ a) b = closed_by-append a b
closed_by-append (closes sd ∷ a) b = ap (◌∷◌ sd) (closed_by-append a b)

-- What a turn closes is the client's descriptor, and then the client leaves.
abbrev pub closed_of : Fate → ℤ → List ℤ
closed_of waits sd = []
closed_of turns sd = []
closed_of leaves_closed sd = sd ∷ []
closed_of leaves_open sd = []

closed_by-greets : (s : ClientState) (sd : ℤ) → closed_by (greets s sd) ≡ []
unfolding closed_by greets
closed_by-greets want_read sd = refl
closed_by-greets want_write sd = refl

closed_by-deeds : (k : Fate) (c : Client) → closed_by (deeds k c) ≡ closed_of k c.sd
unfolding closed_by deeds
closed_by-deeds waits c = refl
closed_by-deeds turns c = closed_by-greets c.state c.sd
closed_by-deeds leaves_closed c = refl
closed_by-deeds leaves_open c = refl

pub NotOpen-closed_of : (x sd : ℤ) (k : Fate) → eqb_ℤ sd x ≡ false → NotOpen x (closed_of k sd)
NotOpen-closed_of x sd waits n = tt
NotOpen-closed_of x sd turns n = tt
NotOpen-closed_of x sd leaves_closed n = (n, tt)
NotOpen-closed_of x sd leaves_open n = tt

Apart-closed_of : (xs : List ℤ) (sd : ℤ) (k : Fate) → NotOpen sd xs → Apart xs (closed_of k sd)
Apart-closed_of xs sd waits n = Apart-nil xs
Apart-closed_of xs sd turns n = Apart-nil xs
Apart-closed_of xs sd leaves_closed n = Apart-one sd xs n
Apart-closed_of xs sd leaves_open n = Apart-nil xs

NotOpen-stays : (x sd : ℤ) (k : Fate) → leaves k ≡ false → NotOpen x (closed_of k sd)
NotOpen-stays x sd waits h = tt
NotOpen-stays x sd turns h = tt
NotOpen-stays x sd leaves_closed h = absurd (ground arith)
NotOpen-stays x sd leaves_open h = tt

module _ (reads : ℕ → Reading) where
  -- The descriptors that a round closes
  unfoldable pub closed_in : ℕ → List Client → List Revents → List ℤ
  closed_in i cs vs = closed_by (all_deeds reads i cs vs)

  pub closed_in-cons :
      (i : ℕ) (c : Client) (cs : List Client) (v : Revents) (vs : List Revents)
      → closed_in i (c ∷ cs) (v ∷ vs)
        ≡ closed_of (fate_of c v (reads i)) c.sd ++ closed_in (suc i) cs vs
  unfolding closed_in all_deeds
  closed_in-cons i c cs v vs =
      closed_by-append (deeds (fate_of c v (reads i)) c) (all_deeds reads (suc i) cs vs)
      ∙ ap (λ l. l ++ closed_by (all_deeds reads (suc i) cs vs))
          (closed_by-deeds (fate_of c v (reads i)) c)

  pub NotOpen-closed_in :
      (x : ℤ) (i : ℕ) (cs : List Client) (vs : List Revents)
      → NotOpen x (client_sds cs)
      → NotOpen x (closed_in i cs vs)
  unfolding closed_in all_deeds closed_by
  NotOpen-closed_in x i [] vs n = tt
  NotOpen-closed_in x i (c ∷ cs) [] n = tt
  NotOpen-closed_in x i (c ∷ cs) (v ∷ vs) n =
      let k = fate_of c v (reads i) in
      rw (closed_in-cons i c cs v vs) (
        NotOpen-append x (closed_of k c.sd) (closed_in (suc i) cs vs)
          (NotOpen-closed_of x c.sd k n.0) (NotOpen-closed_in x (suc i) cs vs n.1))

  -- The clients that stay are none of those that are closed.
  pub Apart-closed_in :
      (i : ℕ) (cs : List Client) (vs : List Revents)
      → Distinct (client_sds cs)
      → Apart (client_sds (survivors (marked reads i cs vs))) (closed_in i cs vs)
  unfolding closed_in all_deeds closed_by marked survivors
  Apart-closed_in i [] vs d = tt
  Apart-closed_in i (c ∷ cs) [] d = Apart-nil (client_sds (survivors (marked reads i (c ∷ cs) [])))
  Apart-closed_in i (c ∷ cs) (v ∷ vs) d =
      let k = fate_of c v (reads i) in
      let later = marked reads (suc i) cs vs in
      let left = NotOpen-survivors c.sd later (rw (marked-sds reads (suc i) cs vs) d.0) in
      let tail =
        Apart-append (client_sds (survivors later)) (closed_of k c.sd) (closed_in (suc i) cs vs)
          (Apart-closed_of (client_sds (survivors later)) c.sd k left)
          (Apart-closed_in (suc i) cs vs d.1) in
      rw (closed_in-cons i c cs v vs) (elim (Bool-cases (leaves k)) [
        | inl e ↦ rw e tail
        | inr e ↦
            rw (e, becomes-sd k c)
              (
                NotOpen-append c.sd (closed_of k c.sd) (closed_in (suc i) cs vs)
                    (NotOpen-stays c.sd c.sd k e) (NotOpen-closed_in c.sd (suc i) cs vs d.0),
                tail,
              )
      ])
