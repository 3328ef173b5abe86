-- ===== src/Tpevent/Engine/Listen.antt =====
-- What the constructor of an engine leaves open.
use technopark_cpp.Descriptor.Balance.{Status-cases}
use technopark_cpp.Tpevent.Engine.{ListenAnswers, make_engine, listen_socket}
use technopark_cpp.Descriptor.{success, failure, after_socket}
use Prim.Native.String.{◌++◌ as ◌^◌}
use technopark_cpp.Prelude.{
  Bool-cases, Exception, List, Run, String, arith, false, inl, inr, ltb_ℤ, negsuc, ok, pos, refl,
  runtime_error, suc, throw, true, zero, ℤ, ◌∷◌, ◌≡◌, ◌≢◌, ◌⊎◌,
}

-- The ways the constructor ends, by what the system answers: it returns and owns the one new
-- descriptor; there is no socket, it throws and nothing has changed; or it throws and the new
-- descriptor stays open.
pub data Listening (error : Exception) (a : ListenAnswers) (open_sds : List ℤ) (e : Run ℤ × List ℤ)
    : Type 0 where
  listens :
      ltb_ℤ (pos 0) a.listen_sd ≡ true
      → a.reuse ≡ success
      → a.bound ≡ success
      → e ≡ (ok a.listen_sd, a.listen_sd ∷ open_sds)
      → Listening error a open_sds e
  refused :
      ltb_ℤ (pos 0) a.listen_sd ≡ false → e ≡ (throw error, open_sds) → Listening error a open_sds e
  leaked :
      (text : String)
      → ltb_ℤ (pos 0) a.listen_sd ≡ true
      → (a.reuse ≡ failure text) ⊎ (a.bound ≡ failure text)
      → e ≡ (throw error, a.listen_sd ∷ open_sds)
      → Listening error a open_sds e

abbrev pub no_listener : String → Exception
no_listener text = runtime_error ("error listen socket: " ^ text)

after_socket-positive :
    (sd : ℤ) (xs : List ℤ) → ltb_ℤ (pos 0) sd ≡ true → after_socket sd xs ≡ sd ∷ xs
after_socket-positive (pos n) xs h = refl
after_socket-positive (negsuc n) xs h = absurd (ground arith)

after_socket-refused :
    (sd : ℤ) (xs : List ℤ) → ltb_ℤ (pos 0) sd ≡ false → sd ≢ pos 0 → after_socket sd xs ≡ xs
after_socket-refused (pos zero) xs h ne = absurd (ne refl)
after_socket-refused (pos (suc n)) xs h ne = absurd (ground arith)
after_socket-refused (negsuc n) xs h ne = refl

-- If socket does not return 0, the constructor of an engine ends in one of three ways. If socket,
-- setsockopt and bind succeed, it returns and owns the new descriptor, which is open besides those
-- from before; if socket fails, it throws and nothing has been opened; if setsockopt or bind fails,
-- it throws and leaves the new descriptor open.
pub make_engine-Listening :
    (text : String) (a : ListenAnswers) (open_sds : List ℤ)
    → a.listen_sd ≢ pos 0
    → Listening (no_listener text) a open_sds (make_engine text a open_sds)
unfolding make_engine listen_socket
make_engine-Listening text a open_sds ne = elim (Bool-cases (ltb_ℤ (pos 0) a.listen_sd)) [
  | inr bad ↦ refused bad (rw (bad, after_socket-refused a.listen_sd open_sds bad ne) refl)
  | inl good ↦
      let one_more = after_socket-positive a.listen_sd open_sds good in
      elim (Status-cases a.reuse) [
        | inr f ↦ leaked f.0 good (inl f.1) (rw (good, f.1, one_more) refl)
        | inl r ↦ elim (Status-cases a.bound) [
          | inr f ↦ leaked f.0 good (inr f.1) (rw (good, r, f.1, one_more) refl)
          | inl b ↦ listens good r b (rw (good, r, b, good, one_more) refl)
        ]
      ]
]
