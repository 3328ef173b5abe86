-- ===== src/SimpleSelect/Replies.antt =====
-- net/simplest_client_server/server_select.cpp: a round in which every ready client sends a text.
use technopark_cpp.Descriptor.{fits_set}
use technopark_cpp.Tpevent.Message.Strip.{is_nil, strip-ok, stripped, trim-strip}
use technopark_cpp.SimpleSelect.{
  trim, Answer, has_ended, set_pass, set_round, leaves_set, sets_fit, given, from_server,
}
use technopark_cpp.Tpevent.Engine.{Action, writes}
use technopark_cpp.Tpevent.Async.Worker.{asked}
use technopark_cpp.Prelude.{
  Bool, Bool-cases, List, String, [], ap, append-nil, append_assoc, false, if◌then◌else◌, inl, inr,
  ltb_ℤ, ok, pos, suc, sym, true, ℕ, ℤ, ◌&&◌, ◌++◌, ◌∙◌, ◌∷◌, ◌≡◌,
}

-- Each client that is ready sent something, and not only line ends; `i` is the place of the first.
abbrev pub Says : (ℤ → Bool) → (ℕ → Answer) → ℕ → List ℤ → Type 0
Says is_ready recvs i [] = Unit {0}
Says is_ready recvs i (x ∷ xs) =
    (is_ready x ≡ true
      → (has_ended (recvs i) ≡ false) × (is_nil (stripped (given (recvs i))) ≡ false))
    × Says is_ready recvs (suc i) xs

-- What is sent to the clients that are ready
unfoldable pub replies : (ℤ → Bool) → (ℕ → Answer) → ℕ → List ℤ → List Action
replies is_ready recvs i [] = []
replies is_ready recvs i (x ∷ xs) =
    let later = replies is_ready recvs (suc i) xs in
    if is_ready x then writes x (from_server (stripped (given (recvs i)))) ∷ later else later

trim-ok_text : (text : List ℕ) → is_nil (stripped text) ≡ false → trim text ≡ ok (stripped text)
trim-ok_text text some_left = trim-strip text ∙ strip-ok text some_left

set_pass-replies :
    (is_ready : ℤ → Bool) (recvs : ℕ → Answer) (clients : List ℤ) (i : ℕ) (xs : List ℤ)
    (acts : List Action)
    → Says is_ready recvs i xs
    → set_pass is_ready recvs clients i xs acts
      ≡ ok (leaves_set clients (acts ++ replies is_ready recvs i xs))
unfolding set_pass replies
set_pass-replies is_ready recvs clients i [] acts says =
    ap (λ l. ok (leaves_set clients l)) (sym (append-nil acts))
set_pass-replies is_ready recvs clients i (x ∷ xs) acts (says, more) =
    elim (Bool-cases (is_ready x)) [
      | inr still ↦ rw still (set_pass-replies is_ready recvs clients (suc i) xs acts more)
      | inl asked ↦
          let text = stripped (given (recvs i)) in
          let later =
            set_pass-replies is_ready recvs clients (suc i) xs
              (acts ++ writes x (from_server text) ∷ []) more in
          let regroup =
            append_assoc acts (writes x (from_server text) ∷ [])
              (replies is_ready recvs (suc i) xs) in
          rw (asked, (says asked).0, trim-ok_text (given (recvs i)) (says asked).1)
            (later ∙ ap (λ l. ok (leaves_set clients l)) regroup)
    ]

-- Without.
pub set_round-replies :
    (listener selected : ℤ) (is_ready : ℤ → Bool) (sock : ℤ) (unblocked : Bool) (text : String)
    (recvs : ℕ → Answer) (clients : List ℤ)
    → (fits_set listener && sets_fit clients) ≡ true
    → ltb_ℤ (pos 0) selected ≡ true
    → is_ready listener ≡ false
    → Says is_ready recvs 0 clients
    → set_round listener selected is_ready sock unblocked text recvs clients
      ≡ ok (leaves_set clients (replies is_ready recvs 0 clients))
unfolding set_round
set_round-replies listener selected is_ready sock unblocked text recvs clients fit chosen still
      says =
    rw (fit, chosen, still) (set_pass-replies is_ready recvs clients 0 clients [] says)
