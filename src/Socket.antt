-- ===== src/Socket.antt =====
-- net/common/socket.cpp: the transfers of class Socket, over what the system calls answer. Bytes are
-- numbers. The answers of the calls `::send` and `::recv` are a list, one for each call; a loop that
-- waits for one more answer has run out of fuel.
pub mod Send
pub mod Receive
pub mod Trim
pub mod Stream
mod Tests
use Prim.Native.String.{◌++◌ as ◌^◌}
use technopark_cpp.Prelude.{
  Bool, List, Run, String, [], drop, if◌then◌else◌, length, load, min, ok, out_of_fuel,
  runtime_error, sub_size, suc, take, throw, zero, ℕ, ◌++◌, ◌+◌, ◌-◌, ◌==◌, ◌>>=◌, ◌>>◌, ◌||◌, ◌∷◌,
}

-- A failed call, with the text of `strerror(errno)`, or `n >= 0`
pub data Sent : Type 0 where
  send_failed : String → Sent
  accepts : ℕ → Sent

-- The loop of Socket::send. `accepts n` is a call that takes up to `n` bytes; `wire` is what the
-- calls have taken, and `last` is the variable `sent`.
pub send_loop : List ℕ → List Sent → ℕ → ℕ → List ℕ → Run (List ℕ)
send_loop str [] left last wire = if left == 0 then ok wire else out_of_fuel
send_loop str (send_failed text ∷ answers) left last wire =
    if left == 0 then ok wire else throw (runtime_error ("write failed: " ^ text))
send_loop str (accepts n ∷ answers) left last wire =
    let taken = min n (sub_size (length str) last) in
    let rest =
      send_loop str answers (sub_size left taken) taken (wire ++ take taken (drop last str)) in
    if left == 0 then ok wire else rest

-- Socket::send; the result is what has gone to the peer.
pub send : List ℕ → List Sent → Run (List ℕ)
unfolding send_loop
send str answers = send_loop str answers (length str) 0 []

-- A failed call or a closed stream, with the text of `strerror(errno)`, or the bytes that are there,
-- at least one.
pub data Received : Type 0 where
  recv_failed closed : String → Received
  delivers : ℕ → List ℕ → Received

-- The loop of Socket::recv(bytes); `got` is the part of `buf` that is filled. A call delivers no more
-- than it was asked for.
pub recv_loop_exact : ℕ → List Received → List ℕ → Run (List ℕ)
recv_loop_exact bytes [] got = if length got == bytes then ok got else out_of_fuel
recv_loop_exact bytes (recv_failed text ∷ answers) got =
    if length got == bytes then ok got else throw (runtime_error ("read failed: " ^ text))
recv_loop_exact bytes (closed text ∷ answers) got =
    if length got == bytes then ok got else throw (runtime_error ("read failed: " ^ text))
recv_loop_exact bytes (delivers first others ∷ answers) got =
    let part = take (sub_size bytes (length got)) (first ∷ others) in
    let rest = recv_loop_exact bytes answers (got ++ part) in
    if length got == bytes then ok got else rest

-- Socket::recv(bytes)
pub recv_exact : ℕ → List Received → Run (List ℕ)
unfolding recv_loop_exact
recv_exact bytes answers = recv_loop_exact bytes answers []

-- '\r' or '\n'
abbrev pub line_end : ℕ → Bool
line_end c = (c == 13) || (c == 10)

-- `while (ret.back() == '\r' || ret.back() == '\n') ret.pop_back();` of Socket::recv and recv_loop.
-- On an empty string back() is undefined.
unfoldable pub trim_loop : ℕ → List ℕ → Run (List ℕ)
trim_loop zero ret = out_of_fuel
trim_loop (suc k) ret = do
  c ← load ret (length ret - 1)
  let rest = trim_loop k (take (length ret - 1) ret)
  if line_end c then rest else ok ret

unfoldable pub trim : List ℕ → Run (List ℕ)
unfolding trim_loop
trim ret = trim_loop (length ret + 1) ret
