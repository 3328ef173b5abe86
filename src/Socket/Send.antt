-- ===== src/Socket/Send.antt =====
-- Socket::send over calls that take less than they are given.
use technopark_cpp.Socket.{send_failed, Sent, accepts, send, send_loop}
use technopark_cpp.Prelude.{
  List, [], ap, arith, drop, false, length, length-drop, min, ok, refl, size_mod, sub_size, suc,
  take, take-all, zero, ℕ, ◌++◌, ◌+◌, ◌-◌, ◌<◌, ◌==◌, ◌∙◌, ◌∷◌, ◌≡◌, ◌≤◌,
}

pub take-drop : (n : ℕ) (xs : List ℕ) → take n xs ++ drop n xs ≡ xs
take-drop zero xs = refl
take-drop (suc n) [] = refl
take-drop (suc n) (x ∷ xs) = ap (◌∷◌ x) (take-drop n xs)

send_loop-done :
    (str : List ℕ) (answers : List Sent) (last : ℕ) (wire : List ℕ)
    → send_loop str answers 0 last wire ≡ ok wire
unfolding send_loop
send_loop-done str [] last wire = refl
send_loop-done str (send_failed text ∷ answers) last wire = refl
send_loop-done str (accepts n ∷ answers) last wire = refl

-- One call of the loop that takes `t` bytes.
send_loop-step :
    (str : List ℕ) (answers : List Sent) (n left last t : ℕ) (wire : List ℕ)
    → 0 < left
    → left ≤ length str
    → last ≤ length str
    → length str < size_mod
    → min n (length str - last) ≡ t
    → t ≤ left
    → send_loop str (accepts n ∷ answers) left last wire
      ≡ send_loop str answers (left - t) t (wire ++ take t (drop last str))
unfolding send_loop
send_loop-step str answers n left last t wire p within q small e r =
    let open_ : (left == 0) ≡ false = ground arith in
    let size : sub_size (length str) last ≡ length str - last = omega arith in
    let rest : sub_size left t ≡ left - t = omega arith in rw (open_, size, e, rest) refl

-- A string that `::send` takes in two calls, the first one not all of it, goes out whole and in
-- order, if its size fits `size_t`.
pub send-two_calls :
    (str : List ℕ) (answers : List Sent) (a b : ℕ)
    → length str < size_mod
    → a < length str
    → length str ≤ a + b
    → send str (accepts a ∷ accepts b ∷ answers) ≡ ok str
unfolding send
send-two_calls str answers a b small p q =
    let n = length str in
    let all_taken : take a str ++ take (n - a) (drop a str) ≡ str =
      ap (take a str ++◌) (take-all (n - a) (drop a str) (omega (arith, length-drop a str)))
      ∙ take-drop a str in
    let none_left : n - a - (n - a) ≡ 0 = omega arith in
    let finished : send_loop str answers (n - a - (n - a)) (n - a)
          (take a str ++ take (n - a) (drop a str))
        ≡ ok str =
      rw (none_left, all_taken) (send_loop-done str answers (n - a) str) in
    send_loop-step str (accepts b ∷ answers) a n 0 a [] (omega arith) (omega arith) (omega arith)
      small (omega arith) (omega arith)
    ∙ send_loop-step str answers b (n - a) a (n - a) (take a str) (omega arith) (omega arith)
        (omega arith) small (omega arith) (omega arith)
    ∙ finished

-- Of a string, of a size that fits `size_t`, that `::send` takes in three calls of `a`, `b` and `c`
-- bytes, the last two not empty, what goes out is the first `a` bytes, the `b` bytes from `a` on,
-- and then the `c` bytes from `b` on, not those from `a + b` on.
pub send-three_calls :
    (str : List ℕ) (answers : List Sent) (a b c : ℕ)
    → length str < size_mod
    → a + b + c ≡ length str
    → 0 < c
    → 0 < b
    → send str (accepts a ∷ accepts b ∷ accepts c ∷ answers)
      ≡ ok ((take a str ++ take b (drop a str)) ++ take c (drop b str))
unfolding send
send-three_calls str answers a b c small total p q =
    let n = length str in
    let wire = (take a str ++ take b (drop a str)) ++ take c (drop b str) in
    let none_left : n - a - b - c ≡ 0 = omega arith in
    let finished : send_loop str answers (n - a - b - c) c wire ≡ ok wire =
      rw none_left (send_loop-done str answers c wire) in
    send_loop-step str (accepts b ∷ accepts c ∷ answers) a n 0 a [] (omega arith) (omega arith)
      (omega arith) small (omega arith) (omega arith)
    ∙ send_loop-step str (accepts c ∷ answers) b (n - a) a b (take a str) (omega arith)
        (omega arith) (omega arith) small (omega arith) (omega arith)
    ∙ send_loop-step str answers c (n - a - b) b c (take a str ++ take b (drop a str)) (omega arith)
        (omega arith) (omega arith) small (omega arith) (omega arith)
    ∙ finished
