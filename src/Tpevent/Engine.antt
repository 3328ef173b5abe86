-- ===== src/Tpevent/Engine.antt =====
-- net/libtpevent/src/engine.hpp and engine.cpp: what the engines share, the clients and the listening
-- socket. Descriptors are those open in the process, as in module Descriptor.
pub mod Listen
mod Tests
use Prim.Native.String.{◌++◌ as ◌^◌}
use technopark_cpp.Descriptor.{after_socket, Status, success, failure, close_sd}
use technopark_cpp.Prelude.{
  Bool, List, Run, String, [], false, if◌then◌else◌, ltb_ℤ, map, negsuc, ok, pos, runtime_error,
  throw, true, ℕ, ℤ, ◌∷◌,
}

-- client_state_t
pub data ClientState : Type 0 where
  want_read want_write : ClientState

abbrev pub wants_read : ClientState → Bool
wants_read want_read = true
wants_read want_write = false

-- struct Client
pub record Client : Type 0 where
  pub sd : ℤ
  pub state : ClientState

-- `Client(sd)`
abbrev pub new_client : ℤ → Client
new_client sd = record { sd = sd; state = want_read }

abbrev pub client_sds : List Client → List ℤ
client_sds = map (λ c. c.sd)

-- The answers that Engine::listenSocket gets: what `socket` returns, and how `setsockopt` and `bind`
-- end. The answer of `listen` is not read.
pub record ListenAnswers : Type 0 where
  pub listen_sd : ℤ
  pub reuse : Status
  pub bound : Status

-- Engine::listenSocket: the result and the open descriptors
pub listen_socket : ListenAnswers → List ℤ → ℤ × List ℤ
listen_socket a open_sds =
    let made = after_socket a.listen_sd open_sds in
    let bind_it : ℤ × List ℤ = elim a.bound [
      | success ↦ (a.listen_sd, made)
      | failure text ↦ (negsuc 0, made)
    ] in
    let reuse_it : ℤ × List ℤ = elim a.reuse [
      | success ↦ bind_it
      | failure text ↦ (negsuc 0, made)
    ] in
    if ltb_ℤ (pos 0) a.listen_sd then reuse_it else (negsuc 0, made)

-- Engine::Engine: the listener, or the exception with the text of `strerror(errno)`; and the open
-- descriptors.
pub make_engine : String → ListenAnswers → List ℤ → Run ℤ × List ℤ
unfolding listen_socket
make_engine text a open_sds =
    let made = listen_socket a open_sds in
    if ltb_ℤ (pos 0) made.0
    then (ok made.0, made.1)
    else (throw (runtime_error ("error listen socket: " ^ text)), made.1)

-- Engine::~Engine
pub destroy_engine : ℤ → List ℤ → List ℤ
destroy_engine listener open_sds = close_sd listener open_sds

-- What `read(sd, buf, 256)` gives: -1, or bytes
pub data Reading : Type 0 where
  read_error : Reading
  received : List ℕ → Reading

-- What a loop does to a descriptor besides reading
pub data Action : Type 0 where
  writes : ℤ → List ℕ → Action
  closes : ℤ → Action

-- The descriptors that are closed
unfoldable pub closed_by : List Action → List ℤ
closed_by [] = []
closed_by (writes sd text ∷ actions) = closed_by actions
closed_by (closes sd ∷ actions) = sd ∷ closed_by actions
