-- ===== src/SimpleSelect/Tests.antt =====
-- The server over select where a client joins, one sends "hi" and another waits.
use technopark_cpp.Socket.{trim, trim_loop}
use technopark_cpp.SimpleSelect.{
  gives, writes, Answer, set_insert, from_server, leaves_set, sets_fit, set_accept, set_pass,
  set_round,
}
use technopark_cpp.Prelude.{Bool, [], eqb_ℤ, load, ok, pos, refl, true, ℕ, ℤ, ◌||◌, ◌∷◌, ◌≡◌}

-- The listener 3 and the client 6 are ready.
abbrev two_ready : ℤ → Bool
two_ready sd = eqb_ℤ sd (pos 3) || eqb_ℤ sd (pos 6)

abbrev hi : ℕ → Answer
hi i = gives (104 ∷ 105 ∷ 10 ∷ [])

joined_run :
    set_round (pos 3) (pos 2) two_ready (pos 5) true "" hi (pos 4 ∷ pos 6 ∷ [])
    ≡ ok (
        leaves_set
          (pos 4 ∷ pos 5 ∷ pos 6 ∷ [])
          (writes (pos 6) (from_server (104 ∷ 105 ∷ [])) ∷ []))
unfolding set_round set_accept set_insert set_pass sets_fit trim trim_loop load
joined_run = refl
