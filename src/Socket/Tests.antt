-- ===== src/Socket/Tests.antt =====
-- The transfers of class Socket at concrete answers.
use technopark_cpp.Socket.{line_end, accepts, send, recv_exact}
use technopark_cpp.Socket.Send.{send-two_calls, send-three_calls}
use technopark_cpp.Socket.Receive.{recv_exact-take, deliveries}
use technopark_cpp.Socket.Stream.Chunks.{texts, calls, Chunk, recv_loop-chunks}
use technopark_cpp.Socket.Stream.{gives, recv_loop}
use technopark_cpp.Prelude.{List, [], arith, get_or, ok, refl, suc, true, zero, ℕ, ◌<◌, ◌∷◌, ◌≡◌}

abbrev str : List ℕ
str = 71 ∷ 69 ∷ 84 ∷ 32 ∷ 47 ∷ 10 ∷ []

send-two_calls_example : send str (accepts 4 ∷ accepts 9 ∷ []) ≡ ok str
send-two_calls_example = send-two_calls str [] 4 9 (omega arith) (omega arith) (omega arith)

-- The bytes 3 and 4 go out twice.
send-three_calls_example :
    send str (accepts 2 ∷ accepts 2 ∷ accepts 2 ∷ []) ≡ ok (71 ∷ 69 ∷ 84 ∷ 32 ∷ 84 ∷ 32 ∷ [])
send-three_calls_example =
    send-three_calls str [] 2 2 2 (omega arith) (omega arith) (omega arith) (omega arith)

abbrev chunks : List (ℕ × List ℕ)
chunks = (71, 69 ∷ []) ∷ (84, 32 ∷ 47 ∷ 10 ∷ []) ∷ []

recv_exact-take_example : recv_exact 5 (deliveries chunks []) ≡ ok (71 ∷ 69 ∷ 84 ∷ 32 ∷ 47 ∷ [])
recv_exact-take_example = recv_exact-take 5 chunks [] (omega arith) (omega arith)

abbrev line : List ℕ
line = 71 ∷ 13 ∷ 10 ∷ []

ends_of_line : (i : ℕ) → 0 < i → i < 3 → line_end (get_or line i 0) ≡ true
ends_of_line zero p q = absurd (omega arith)
ends_of_line (suc zero) p q = refl
ends_of_line (suc (suc zero)) p q = refl
ends_of_line (suc (suc (suc i))) p q = absurd (omega arith)

abbrev blank : List ℕ
blank = 13 ∷ 10 ∷ []

ends_of_blank : (i : ℕ) → i < 2 → line_end (get_or blank i 0) ≡ true
ends_of_blank zero p = refl
ends_of_blank (suc zero) p = refl
ends_of_blank (suc (suc i)) p = absurd (omega arith)

-- "GET\r\n" and "Host\n" in two calls
abbrev get_host : List Chunk
get_host =
    record { body = 71 ∷ 69 ∷ []; last_byte = 84; ends = 13 ∷ 10 ∷ [] }
    ∷ record { body = 72 ∷ 111 ∷ 115 ∷ []; last_byte = 116; ends = 10 ∷ [] }
    ∷ []

recv_loop-chunks_example :
    recv_loop (calls get_host (gives [] ∷ [])) [] ≡ ok (71 ∷ 69 ∷ 84 ∷ 72 ∷ 111 ∷ 115 ∷ 116 ∷ [])
unfolding texts
recv_loop-chunks_example =
    recv_loop-chunks get_host [] [] ((refl, (refl, (refl, tt))), ((refl, (refl, tt)), tt))
