-- ===== src/Tpevent/Options.antt =====
-- net/libtpevent/src: options.hpp and options.cpp, utils.cpp, server.cpp and main.cpp. Texts are lists
-- of bytes. What the code takes from boost and from `std::stoi` is a parameter.
pub mod Laws
mod Tests
use technopark_cpp.Prelude.{
  Bool, List, Option, Run, [], drop, eqb_ℤ, false, if◌then◌else◌, length, logic_error, ltb, negsuc,
  none, ok, pos, runtime_error, some, throw, true, undefined, ℕ, ℤ, ◌%◌, ◌&&◌, ◌+◌, ◌-◌, ◌==◌,
  ◌>>=◌, ◌∷◌,
}

-- boost::split at the characters of a delimiter, boost::starts_with, and std::stoi
pub record Library : Type 0 where
  pub boost_split : List ℕ → List ℕ → List (List ℕ)
  pub boost_starts_with : List ℕ → List ℕ → Bool
  pub stoi : List ℕ → Run ℤ

-- utils::split and utils::starts_with
unfoldable pub split : Library → List ℕ → List ℕ → List (List ℕ)
split lib line delimiter = lib.boost_split line delimiter

unfoldable pub starts_with : Library → List ℕ → List ℕ → Bool
starts_with lib s predicate = lib.boost_starts_with s predicate

-- `==` of texts
abbrev pub eqb_text : List ℕ → List ℕ → Bool
eqb_text [] [] = true
eqb_text [] (y ∷ ys) = false
eqb_text (x ∷ xs) [] = false
eqb_text (x ∷ xs) (y ∷ ys) = x == y && eqb_text xs ys

-- "port", "engine", "async", "--", "=", "select", "poll"
abbrev pub opt_port : List ℕ
opt_port = 112 ∷ 111 ∷ 114 ∷ 116 ∷ []

abbrev pub opt_engine : List ℕ
opt_engine = 101 ∷ 110 ∷ 103 ∷ 105 ∷ 110 ∷ 101 ∷ []

abbrev pub opt_async : List ℕ
opt_async = 97 ∷ 115 ∷ 121 ∷ 110 ∷ 99 ∷ []

abbrev pub dashes : List ℕ
dashes = 45 ∷ 45 ∷ []

abbrev pub equals : List ℕ
equals = 61 ∷ []

abbrev pub text_select : List ℕ
text_select = 115 ∷ 101 ∷ 108 ∷ 101 ∷ 99 ∷ 116 ∷ []

abbrev pub text_poll : List ℕ
text_poll = 112 ∷ 111 ∷ 108 ∷ 108 ∷ []

-- engine_t
pub data EngineType : Type 0 where
  unknown_engine select_engine poll_engine : EngineType

unfoldable pub string2engine : List ℕ → EngineType
string2engine s =
    if eqb_text s text_select
    then select_engine
    else if eqb_text s text_poll
    then poll_engine
    else unknown_engine

-- class Options; a member that the constructor did not set is `none`.
pub record Options : Type 0 where
  pub m_port : Option ℕ
  pub m_engine : Option EngineType
  pub m_async : Option Bool

abbrev pub unset : Options
unset = record { m_port = none; m_engine = none; m_async = none }

abbrev pub bad_options : Run Options
bad_options = throw (runtime_error "bad options")

-- `static_cast<uint16_t>` of an int
abbrev pub to_uint16 : ℤ → ℕ
to_uint16 (pos n) = n % 65536
to_uint16 (negsuc n) = 65535 - n % 65536

unfoldable pub set_engine : EngineType → Options → Run Options
set_engine unknown_engine o = bad_options
set_engine select_engine o = ok (record o { m_engine = some select_engine })
set_engine poll_engine o = ok (record o { m_engine = some poll_engine })

unfoldable pub set_async : ℤ → Options → Run Options
set_async n o =
    if eqb_ℤ n (pos 0)
    then ok (record o { m_async = some false })
    else if eqb_ℤ n (pos 1)
    then ok (record o { m_async = some true })
    else bad_options

-- The name of an option without its dashes
unfoldable pub bare_name : Library → List ℕ → List ℕ
bare_name lib name = if starts_with lib name dashes then drop 2 name else name

unfoldable pub set_option : Library → List ℕ → List ℕ → Options → Run Options
set_option lib name value o =
    let port = lib.stoi value >>= λ n. ok (record o { m_port = some (to_uint16 n) }) in
    let async = lib.stoi value >>= λ n. set_async n o in
    if eqb_text name opt_port
    then port
    else if eqb_text name opt_engine
    then set_engine (string2engine value) o
    else if eqb_text name opt_async
    then async
    else bad_options

-- One turn of the loop over the arguments: anything but a name and a value is refused.
unfoldable pub set_pair : Library → List (List ℕ) → Options → Run Options
set_pair lib [] o = bad_options
set_pair lib (name ∷ []) o = bad_options
set_pair lib (name ∷ value ∷ []) o = set_option lib (bare_name lib name) value o
set_pair lib (name ∷ value ∷ more ∷ rest) o = bad_options

unfoldable pub set_all : Library → List (List ℕ) → Options → Run Options
set_all lib [] o = ok o
set_all lib (arg ∷ args) o = set_pair lib (split lib arg equals) o >>= λ next. set_all lib args next

-- Options::Options, with the arguments after the program's name
unfoldable pub make_options : Library → List (List ℕ) → Run Options
make_options lib args = if ltb (length args + 1) 4 then bad_options else set_all lib args unset

-- The classes that get_engine makes
pub data EngineClass : Type 0 where
  select_server poll_server async_poll_server : EngineClass

-- get_engine, as Server::Server calls it: a member that is not set is undefined to read. Its case for
-- `engine_t::EPOLL` names a constant that options.hpp does not declare.
unfoldable pub get_engine : Options → Run EngineClass
get_engine o = elim o.m_engine [
  | none ↦ undefined
  | some e ↦ elim o.m_port [
    | none ↦ undefined
    | some port ↦ elim o.m_async [
      | none ↦ undefined
      | some async ↦ elim e [
        | unknown_engine ↦ throw (logic_error "unknown engine type")
        | select_engine ↦ ok select_server
        | poll_engine ↦ if async then ok async_poll_server else ok poll_server
      ]
    ]
  ]
]

-- main.cpp up to `serv.run()`: the class and the port of the engine that runs, or the exception that
-- is printed
unfoldable pub server_main : Library → List (List ℕ) → Run EngineClass
server_main lib args = make_options lib args >>= λ o. get_engine o
