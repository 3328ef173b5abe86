-- ===== src/Socket/Stream.antt =====
-- net/common/socket.cpp: the reads of class Socket without a count, the accept and the HTTP query.
pub mod Chunks
use Prim.Native.String.{◌++◌ as ◌^◌}
use technopark_cpp.Socket.{send, Sent, trim}
use technopark_cpp.Prelude.{
  Bool, List, Option, Run, String, [], eqb_ℤ, false, if◌then◌else◌, length, negsuc, none, not, ok,
  out_of_fuel, pos, runtime_error, some, throw, ℕ, ℤ, ◌++◌, ◌==◌, ◌>>=◌, ◌∷◌,
}

-- How `::recv` ends: -1 with EAGAIN, -1 with another error and its text, or the bytes that it put into
-- the buffer, none of them at the end of the stream
pub data Answer : Type 0 where
  would_block : Answer
  broken : String → Answer
  gives : List ℕ → Answer

-- Socket::recv(); `name` is the descriptor as a text.
unfoldable pub recv : String → Answer → Run (List ℕ)
recv name would_block = throw (runtime_error ("client: " ^ (name ^ " timeouted")))
recv name (broken text) = throw (runtime_error ("read failed: " ^ text))
recv name (gives bytes) =
    if length bytes == 0
    then throw (runtime_error ("client: " ^ (name ^ " disconnected")))
    else trim bytes

-- Socket::recv_loop, with one answer for each call
unfoldable pub recv_loop : List Answer → List ℕ → Run (List ℕ)
recv_loop [] ret = out_of_fuel
recv_loop (would_block ∷ answers) ret = ok ret
recv_loop (broken text ∷ answers) ret = throw (runtime_error ("read failed: " ^ text))
recv_loop (gives bytes ∷ answers) ret =
    let goes_on = trim (ret ++ bytes) >>= λ kept. recv_loop answers kept in
    if length bytes == 0 then ok ret else goes_on

-- Socket::recvTimed, where `select` returns `ready`
unfoldable pub recv_timed : String → ℤ → Answer → Run (List ℕ)
recv_timed name ready answer =
    if eqb_ℤ ready (pos 1) then recv name answer else throw (runtime_error "read timeout")

-- Socket::hasData
unfoldable pub has_data : Answer → Bool
has_data would_block = false
has_data (broken text) = false
has_data (gives bytes) = not (length bytes == 0)

-- Socket::accept: the descriptor of the new object, or an empty pointer
unfoldable pub accept : ℤ → Option ℤ
accept cli_sd = if eqb_ℤ cli_sd (negsuc 0) then none else some cli_sd

-- Socket::httpQuery: what goes to the peer, and what the callback gets
unfoldable pub http_query : List ℕ → List Sent → List Answer → Run (List ℕ × List ℕ)
http_query query sent answers =
    send query sent >>= λ wire. recv_loop answers [] >>= λ res. ok (wire, res)
