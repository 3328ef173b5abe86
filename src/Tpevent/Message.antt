-- ===== src/Tpevent/Message.antt =====
-- What the engines in net/libtpevent/src make of the bytes of a `read`: `char buf[256]` is ended by
-- a zero, read as a string, and stripped of the line ends at its end.
pub mod Strip
mod Tests
use technopark_cpp.Socket.{line_end}
use technopark_cpp.Prelude.{
  List, Run, [], get_or, if◌then◌else◌, length, ltb, ok, out_of_fuel, suc, take, undefined, zero, ℕ,
  ◌+◌, ◌-◌, ◌==◌, ◌∷◌,
}

-- `std::string tmp(buf)`: the bytes before the first zero
unfoldable pub until_zero : List ℕ → List ℕ
until_zero [] = []
until_zero (c ∷ cs) = let rest = c ∷ until_zero cs in if c == 0 then [] else rest

-- `while (tmp[tmp.size() - 1] == '\r' || ...) tmp.pop_back();` with `k` rounds. The index of an empty
-- string is the largest `size_t`, which is undefined.
unfoldable pub strip_loop : ℕ → List ℕ → Run (List ℕ)
strip_loop zero tmp = out_of_fuel
strip_loop (suc k) tmp =
    let again = strip_loop k (take (length tmp - 1) tmp) in
    if length tmp == 0
    then undefined
    else if line_end (get_or tmp (length tmp - 1) 0)
    then again
    else ok tmp

unfoldable pub strip : List ℕ → Run (List ℕ)
unfolding strip_loop
strip tmp = strip_loop (length tmp + 1) tmp

-- The bytes that `read` put into `buf`, at most 256. The zero after 256 bytes lies outside `buf`.
unfoldable pub message : List ℕ → Run (List ℕ)
unfolding until_zero strip
message bytes = if ltb (length bytes) 256 then strip (until_zero bytes) else undefined
