-- ===== src/Tpevent/Engine/Tests.antt =====
-- The listening socket where the port is taken.
use technopark_cpp.Tpevent.Engine.Listen.{no_listener, make_engine-Listening, Listening}
use technopark_cpp.Tpevent.Engine.{failure, success, ListenAnswers, make_engine}
use technopark_cpp.Prelude.{[], arith, pos, ◌∷◌, ◌≢◌}

abbrev in_use : ListenAnswers
in_use = record { listen_sd = pos 3; reuse = success; bound = failure "Address already in use" }

not_zero : in_use.listen_sd ≢ pos 0
not_zero e = absurd (ground arith)

make_engine-Listening_example :
    Listening
      (no_listener "Address already in use")
      in_use
      (pos 0 ∷ [])
      (make_engine "Address already in use" in_use (pos 0 ∷ []))
make_engine-Listening_example =
    make_engine-Listening "Address already in use" in_use (pos 0 ∷ []) not_zero
