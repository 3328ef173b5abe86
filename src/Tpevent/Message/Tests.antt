-- ===== src/Tpevent/Message/Tests.antt =====
-- The strip of line ends at a concrete text.
use technopark_cpp.Tpevent.Message.{strip}
use technopark_cpp.Tpevent.Message.Strip.{stripped, strip-stripped}
use technopark_cpp.Prelude.{List, [], ok, ℕ, ◌∷◌, ◌≡◌}

-- "a\n\r\n"
abbrev ended_text : List ℕ
ended_text = 97 ∷ 10 ∷ 13 ∷ 10 ∷ []

strip-stripped_example : strip ended_text ≡ ok (97 ∷ [])
unfolding stripped
strip-stripped_example = strip-stripped ended_text
