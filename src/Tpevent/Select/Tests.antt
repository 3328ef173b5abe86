-- ===== src/Tpevent/Select/Tests.antt =====
-- SelectEngine at concrete clients.
use technopark_cpp.Tpevent.Clients.Distinct.{survivors, gone_sds, Distinct}
use technopark_cpp.Tpevent.Message.{message, until_zero, strip_loop, strip}
use technopark_cpp.Tpevent.Select.Serve.{select_round-serves, heard, accept-overflow, echoes}
use technopark_cpp.Tpevent.Clients.{erase_sds, erase_sd}
use technopark_cpp.Tpevent.Engine.{
  read_error, closes, Client, Reading, client_sds, new_client, writes, received,
}
use technopark_cpp.Tpevent.Select.{
  goes_on, select_round, SelectAnswer, after_read, some_ready, largest, select_pass, close_lost,
  all_fit, echo,
}
use technopark_cpp.Tpevent.Poll.Calls.{Fits}
use technopark_cpp.Tpevent.Message.Strip.{stripped, text_of}
use technopark_cpp.Prelude.{
  Bool, Bool-cases, List, [], arith, if◌then◌else◌, inl, inr, ltb_ℤ, negsuc, ok, pos, refl, true,
  undefined, ℕ, ℤ, ◌++◌, ◌==◌, ◌∷◌, ◌≡◌,
}

abbrev two_clients : List Client
two_clients = new_client (pos 4) ∷ new_client (pos 5) ∷ []

abbrev clients_ready : ℤ → Bool
clients_ready sd = ltb_ℤ (pos 3) sd

abbrev all_ready : ℤ → Bool
all_ready sd = true

-- The first client sends "hi", the read of the second fails.
abbrev reads : ℕ → Reading
reads i = if i == 1 then received (104 ∷ 105 ∷ 10 ∷ []) else read_error

reads-Fits : (i : ℕ) → Fits (reads i)
unfolding text_of stripped until_zero
reads-Fits i = elim (Bool-cases (i == 1)) [ inl e ↦ rw e (omega arith, refl) | inr e ↦ rw e tt ]

separate_sds : Distinct (pos 3 ∷ client_sds two_clients)
separate_sds = ((refl, (refl, tt)), ((refl, tt), (tt, tt)))

serve_run :
    select_round (pos 3) (some_ready clients_ready) (pos 9) reads (new_client (pos 3) ∷ two_clients)
    ≡ ok (
        goes_on
          (new_client (pos 3) ∷ new_client (pos 4) ∷ [])
          (writes (pos 4) (echo (104 ∷ 105 ∷ [])) ∷ closes (pos 5) ∷ []))
unfolding select_round select_pass after_read close_lost erase_sds erase_sd message strip strip_loop
    until_zero all_fit largest
serve_run = refl

select_round-serves_example :
    select_round (pos 3) (some_ready clients_ready) (pos 9) reads (new_client (pos 3) ∷ two_clients)
    ≡ ok (
        goes_on (new_client (pos 3) ∷ survivors (heard clients_ready reads 1 two_clients)) (
          echoes clients_ready reads 1 two_clients
          ++ close_lost (gone_sds (λ c. c.sd) (heard clients_ready reads 1 two_clients))))
unfolding all_fit
select_round-serves_example =
    select_round-serves (pos 3) clients_ready (pos 9) reads two_clients refl refl reads-Fits
      separate_sds

accept-overflow_example :
    (after : List Client) × (select_round
        (pos 3)
        (some_ready all_ready)
        (negsuc 0)
        reads
        (new_client (pos 3) ∷ two_clients)
      ≡ ok (goes_on after []))
    × ((answer : SelectAnswer) (later_sd : ℤ) (later_reads : ℕ → Reading)
        → select_round (pos 3) answer later_sd later_reads after ≡ undefined)
unfolding all_fit
accept-overflow_example =
    accept-overflow (pos 3) all_ready (negsuc 0) reads two_clients refl refl refl
