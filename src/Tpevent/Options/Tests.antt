-- ===== src/Tpevent/Options/Tests.antt =====
-- The options with a library that does what is documented.
use technopark_cpp.Prelude.{
  Bool, List, [], arith, false, if◌then◌else◌, map, ok, pos, refl, true, undefined, ℕ, ◌&&◌, ◌*◌,
  ◌++◌, ◌+◌, ◌-◌, ◌==◌, ◌∷◌, ◌≡◌,
}
use technopark_cpp.Tpevent.Options.Laws.{
  sets_async, server_main-unset, Bare, sets_port, make_options-written, Setting, sets_engine,
  written, apply_all, Documented,
}
use technopark_cpp.Tpevent.Options.{make_options, equals, server_main, Library, unset}

-- A split at every `=`
abbrev put_first : ℕ → List (List ℕ) → List (List ℕ)
put_first x [] = (x ∷ []) ∷ []
put_first x (piece ∷ pieces) = (x ∷ piece) ∷ pieces

abbrev pieces_of : List ℕ → List (List ℕ)
pieces_of [] = [] ∷ []
pieces_of (x ∷ xs) = let rest = pieces_of xs in if x == 61 then [] ∷ rest else put_first x rest

abbrev is_prefix : List ℕ → List ℕ → Bool
is_prefix s [] = true
is_prefix [] (y ∷ ys) = false
is_prefix (x ∷ xs) (y ∷ ys) = x == y && is_prefix xs ys

abbrev digits_from : ℕ → List ℕ → ℕ
digits_from n [] = n
digits_from n (x ∷ xs) = digits_from (n * 10 + (x - 48)) xs

abbrev library : Library
library = record {
  boost_split = λ line delimiter. pieces_of line;
  boost_starts_with = is_prefix;
  stoi = λ s. ok (pos (digits_from 0 s));
}

pieces_of-Bare : (value : List ℕ) → Bare value → pieces_of value ≡ value ∷ []
pieces_of-Bare [] b = refl
pieces_of-Bare (x ∷ xs) b = rw (b.0, pieces_of-Bare xs b.1) refl

pieces_of-argument :
    (name value : List ℕ)
    → Bare name
    → Bare value
    → pieces_of (name ++ (equals ++ value)) ≡ name ∷ value ∷ []
pieces_of-argument [] value n v = rw (pieces_of-Bare value v) refl
pieces_of-argument (x ∷ name) value n v = rw (n.0, pieces_of-argument name value n.1 v) refl

is_prefix-append : (s p : List ℕ) → is_prefix (p ++ s) p ≡ true
is_prefix-append [] [] = refl
is_prefix-append (x ∷ s) [] = refl
is_prefix-append s (y ∷ p) = ground (arith, is_prefix-append s p)

documented : Documented library
documented = record { splits = pieces_of-argument; sees = is_prefix-append }

-- 8080 and 1
abbrev number_8080 : List ℕ
number_8080 = 56 ∷ 48 ∷ 56 ∷ 48 ∷ []

abbrev settings : List Setting
settings = sets_port number_8080 (pos 8080) ∷ sets_engine true ∷ sets_async (49 ∷ []) true ∷ []

number_8080-Bare : Bare number_8080
number_8080-Bare = (refl, (refl, (refl, (refl, tt))))

make_options-written_example :
    make_options library (map written settings) ≡ ok (apply_all settings unset)
make_options-written_example =
    make_options-written library documented settings
      ((number_8080-Bare, refl), (tt, (((refl, tt), refl), tt))) (omega arith)

abbrev ports : List Setting
ports =
    sets_port number_8080 (pos 8080)
    ∷ sets_port number_8080 (pos 8080)
    ∷ sets_async (49 ∷ []) true
    ∷ []

server_main-unset_example : server_main library (map written ports) ≡ undefined
server_main-unset_example =
    server_main-unset library ports documented
      ((number_8080-Bare, refl), ((number_8080-Bare, refl), (((refl, tt), refl), tt))) (omega arith)
      tt
