-- ===== src/Descriptor.antt =====
-- net/common/socket.cpp: how class Socket gets its descriptor. The answers of the system calls are
-- arguments; a call that fails comes with the text of `strerror(errno)`. A method that throws
-- leaves descriptors behind or not, so the state is returned beside its outcome.
pub mod Balance
mod Tests
use Prim.Native.String.{◌++◌ as ◌^◌}
use technopark_cpp.Prelude.{
  Bool, List, Run, String, [], eqb_ℤ, false, if◌then◌else◌, ltb, ltb_ℤ, negsuc, ok, pos,
  runtime_error, throw, undefined, ℤ, ◌∷◌,
}

-- The member `m_Sd`, and the descriptors that are open in the process
pub record Process : Type 0 where
  pub m_sd : ℤ
  pub open_sds : List ℤ

-- `::close(sd)`
unfoldable pub close_sd : ℤ → List ℤ → List ℤ
close_sd sd [] = []
close_sd sd (x ∷ xs) = let rest = close_sd sd xs in if eqb_ℤ x sd then rest else x ∷ rest

-- What a call that only succeeds or fails answers
pub data Status : Type 0 where
  success : Status
  failure : String → Status

-- What a method does: it returns or throws, and leaves the process in a state.
abbrev pub Effect : Type 0
Effect = Run (Unit {0}) × Process

abbrev pub fail : String → String → Process → Effect
fail what text p = (throw (runtime_error (what ^ text)), p)

-- FD_SET and FD_ISSET write and read outside the set for a descriptor that is not below FD_SETSIZE.
abbrev pub fits_set : ℤ → Bool
fits_set (pos n) = ltb n 1024
fits_set (negsuc n) = false

-- The answers that Socket::connect gets. `sd` is what `socket` returns, with the text for -1;
-- `pending` tells whether a failed `::connect` left EINPROGRESS, and `ready` is what `select` returns.
pub record ConnectAnswers : Type 0 where
  pub resolved : Status
  pub sd : ℤ
  pub socket_text : String
  pub non_blocked : Status
  pub connected : Status
  pub pending : Bool
  pub ready : ℤ

-- `socket` opens the descriptor that it returns, if it is not -1.
abbrev pub after_socket : ℤ → List ℤ → List ℤ
after_socket (pos sd) open_sds = pos sd ∷ open_sds
after_socket (negsuc _) open_sds = open_sds

-- After a call of `socket` that succeeded
abbrev pub opened : ℤ → Process → Process
opened sd p = record p { open_sds = sd ∷ p.open_sds }

-- After a call of `socket` that returned `sd`
abbrev pub after_call : ℤ → Process → Process
after_call sd p = record p { open_sds = after_socket sd p.open_sds }

-- `::close(sd)` in a process
abbrev pub closed_again : ℤ → Process → Process
closed_again sd p = record p { open_sds = close_sd sd p.open_sds }

-- Socket::connect(host, port)
pub connect : ConnectAnswers → Process → Effect
unfolding close_sd
connect a p =
    let made = opened a.sd p in
    let tail : Effect = elim a.connected [
      | success ↦ (ok tt, record made { m_sd = a.sd })
      | failure text ↦ fail "connect error: " text (closed_again a.sd made)
    ] in
    elim a.resolved [
      | failure text ↦ fail "resolve error: " text p
      | success ↦
          if ltb_ℤ (pos 0) a.sd
          then tail
          else fail "error to create socket: " a.socket_text (after_call a.sd p)
    ]

-- The end of Socket::connect(host, port, timeout): FD_SET and the wait for the socket `sd`, where
-- `select` returns `ready`.
pub wait_ready : ℤ → ℤ → Process → Effect
wait_ready sd ready made =
    let waited : Effect =
      if eqb_ℤ ready (pos 1)
      then (ok tt, record made { m_sd = sd })
      else (throw (runtime_error "connect timeout"), closed_again sd made) in
    if fits_set sd then waited else (undefined, made)

-- Socket::connect(host, port, timeout)
pub connect_timeout : ConnectAnswers → Process → Effect
connect_timeout a p =
    let made = opened a.sd p in
    let after_connect : Effect = elim a.connected [
      | success ↦ wait_ready a.sd a.ready made
      | failure text ↦
          if a.pending
          then wait_ready a.sd a.ready made
          else fail "connect error: " text (closed_again a.sd made)
    ] in
    let tail : Effect = elim a.non_blocked [
      | success ↦ after_connect
      | failure text ↦ fail "make nonblocked: " text made
    ] in
    elim a.resolved [
      | failure text ↦ fail "resolve error: " text p
      | success ↦
          if ltb_ℤ (pos 0) a.sd
          then tail
          else fail "error to create socket: " a.socket_text (after_call a.sd p)
    ]

-- The answers that Socket::createServerSocket gets
pub record ServerAnswers : Type 0 where
  pub server_sd : ℤ
  pub server_text : String
  pub reuse : Status
  pub bound : Status

-- Socket::createServerSocket, with Socket::setReuseAddr. The answer of `listen` is not read.
pub create_server_socket : ServerAnswers → Process → Effect
unfolding close_sd
create_server_socket a p =
    let made = opened a.server_sd p in
    let after_reuse : Effect = elim a.bound [
      | success ↦ (ok tt, record made { m_sd = a.server_sd })
      | failure text ↦ fail "bind: " text (closed_again a.server_sd made)
    ] in
    let tail : Effect = elim a.reuse [
      | success ↦ after_reuse
      | failure text ↦ fail "setopt: " text (closed_again a.server_sd made)
    ] in
    if ltb_ℤ (pos 0) a.server_sd
    then tail
    else fail "socket: " a.server_text (after_call a.server_sd p)
