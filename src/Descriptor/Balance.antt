-- ===== src/Descriptor/Balance.antt =====
-- Which descriptors the methods leave open.
use technopark_cpp.Descriptor.{
  opened, fits_set, after_call, wait_ready, fail, failure, success, connect_timeout, Status,
  ServerAnswers, Process, closed_again, Effect, ConnectAnswers, close_sd, connect,
  create_server_socket,
}
use technopark_cpp.Prelude.{
  Bool-cases, Exception, List, String, [], ap, arith, eqb_ℤ, eqb_ℤ_iff, false, inl, inr, ltb_ℤ,
  negsuc, ok, pos, refl, suc, throw, true, zero, ℤ, ◌∷◌, ◌≡◌, ◌≢◌, ◌⊎◌,
}

-- A descriptor that is not among the open ones
abbrev pub NotOpen : ℤ → List ℤ → Type 0
NotOpen sd [] = Unit {0}
NotOpen sd (x ∷ xs) = (eqb_ℤ x sd ≡ false) × NotOpen sd xs

-- The method threw and left the process as it was, or it returned and the object owns `sd`, which is
-- open besides those from before.
abbrev pub Balanced : ℤ → Process → Effect → Type 0
Balanced sd p e =
    ((error : Exception) × (e.0 ≡ throw error) × (e.1 ≡ p))
    ⊎ ((e.0 ≡ ok tt) × (e.1 ≡ record { m_sd = sd; open_sds = sd ∷ p.open_sds }))

close_sd-NotOpen : (sd : ℤ) (xs : List ℤ) → NotOpen sd xs → close_sd sd xs ≡ xs
unfolding close_sd
close_sd-NotOpen sd [] h = refl
close_sd-NotOpen sd (x ∷ xs) h = rw h.0 (ap (◌∷◌ x) (close_sd-NotOpen sd xs h.1))

-- Opening and closing again changes nothing.
closed_again-opened :
    (sd : ℤ) (p : Process) → NotOpen sd p.open_sds → closed_again sd (opened sd p) ≡ p
unfolding close_sd
closed_again-opened sd p h = rw ((eqb_ℤ_iff sd sd).1 refl, close_sd-NotOpen sd p.open_sds h) refl

-- A call of `socket` that did not return a positive number opened nothing, if it did not return 0.
after_call-refused :
    (sd : ℤ) (p : Process) → ltb_ℤ (pos 0) sd ≡ false → sd ≢ pos 0 → after_call sd p ≡ p
after_call-refused (pos zero) p h ne = absurd (ne refl)
after_call-refused (pos (suc n)) p h ne = absurd (ground arith)
after_call-refused (negsuc n) p h ne = refl

pub Status-cases : (s : Status) → (s ≡ success) ⊎ ((text : String) × (s ≡ failure text))
Status-cases success = inl refl
Status-cases (failure text) = inr (text, refl)

-- If `socket` returns neither 0 nor a descriptor that was open, connect(host, port) either throws
-- and leaves the object and the open descriptors as they were, or returns with the object holding
-- the new one, which is open besides those from before.
pub connect-Balanced :
    (a : ConnectAnswers) (p : Process)
    → NotOpen a.sd p.open_sds
    → a.sd ≢ pos 0
    → Balanced a.sd p (connect a p)
unfolding connect
connect-Balanced a p h ne = elim (Status-cases a.resolved) [
  | inr f ↦ rw f.1 (inl (_, refl, refl))
  | inl r ↦ elim (Bool-cases (ltb_ℤ (pos 0) a.sd)) [
    | inr bad ↦ rw (r, bad) (inl (_, refl, after_call-refused a.sd p bad ne))
    | inl good ↦ elim (Status-cases a.connected) [
      | inr f ↦ rw (r, good, f.1) (inl (_, refl, closed_again-opened a.sd p h))
      | inl c ↦ rw (r, good, c) (inr (refl, refl))
    ]
  ]
]

wait_ready-Balanced :
    (sd ready : ℤ) (p : Process)
    → fits_set sd ≡ true
    → NotOpen sd p.open_sds
    → Balanced sd p (wait_ready sd ready (opened sd p))
unfolding wait_ready
wait_ready-Balanced sd ready p fit h = elim (Bool-cases (eqb_ℤ ready (pos 1))) [
  | inl one_ready ↦ rw (fit, one_ready) (inr (refl, refl))
  | inr late ↦ rw (fit, late) (inl (_, refl, closed_again-opened sd p h))
]

-- If `socket` returns a descriptor below FD_SETSIZE that is neither 0 nor open, connect(host, port,
-- timeout) either throws and leaves the object and the open descriptors as they were, or returns
-- with the object holding the new one, which is open besides those from before; or the socket
-- cannot be made non-blocking, and then it throws and leaves the new descriptor open with no owner.
pub connect_timeout-Balanced :
    (a : ConnectAnswers) (p : Process)
    → fits_set a.sd ≡ true
    → NotOpen a.sd p.open_sds
    → a.sd ≢ pos 0
    → Balanced a.sd p (connect_timeout a p)
      ⊎ ((text : String) × (a.non_blocked ≡ failure text)
          × (connect_timeout a p ≡ fail "make nonblocked: " text (opened a.sd p)))
unfolding connect_timeout
connect_timeout-Balanced a p fit h ne = elim (Status-cases a.resolved) [
  | inr f ↦ rw f.1 (inl (inl (_, refl, refl)))
  | inl r ↦ elim (Bool-cases (ltb_ℤ (pos 0) a.sd)) [
    | inr bad ↦ rw (r, bad) (inl (inl (_, refl, after_call-refused a.sd p bad ne)))
    | inl good ↦ elim (Status-cases a.non_blocked) [
      | inr f ↦ rw (r, good, f.1) (inr (f.0, refl, refl))
      | inl n ↦
          rw (r, good, n)
            (inl (elim (Status-cases a.connected) [
              | inl c ↦ rw c (wait_ready-Balanced a.sd a.ready p fit h)
              | inr f ↦ elim (Bool-cases a.pending) [
                | inl soon ↦ rw (f.1, soon) (wait_ready-Balanced a.sd a.ready p fit h)
                | inr never ↦ rw (f.1, never) (inl (_, refl, closed_again-opened a.sd p h))
              ]
            ]))
    ]
  ]
]

-- If `socket` returns neither 0 nor a descriptor that was open, createServerSocket either throws
-- and leaves the object and the open descriptors as they were, or returns with the object holding
-- the new one, which is open besides those from before.
pub create_server_socket-Balanced :
    (a : ServerAnswers) (p : Process)
    → NotOpen a.server_sd p.open_sds
    → a.server_sd ≢ pos 0
    → Balanced a.server_sd p (create_server_socket a p)
unfolding create_server_socket
create_server_socket-Balanced a p h ne = elim (Bool-cases (ltb_ℤ (pos 0) a.server_sd)) [
  | inr bad ↦ rw bad (inl (_, refl, after_call-refused a.server_sd p bad ne))
  | inl good ↦ elim (Status-cases a.reuse) [
    | inr f ↦ rw (good, f.1) (inl (_, refl, closed_again-opened a.server_sd p h))
    | inl r ↦ elim (Status-cases a.bound) [
      | inr f ↦ rw (good, r, f.1) (inl (_, refl, closed_again-opened a.server_sd p h))
      | inl b ↦ rw (good, r, b) (inr (refl, refl))
    ]
  ]
]
