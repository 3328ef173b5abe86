-- ===== src/Socket/Receive.antt =====
-- Socket::recv(bytes) over calls that deliver in pieces.
use technopark_cpp.Socket.{recv_failed, Received, delivers, closed, recv_exact, recv_loop_exact}
use technopark_cpp.Prelude.{
  Bool-cases, List, [], ap, append-nil, append_assoc, arith, inl, inr, length, length-append,
  length-take_le, ok, refl, size_mod, sub_size, suc, sym, take, zero, ℕ, ◌++◌, ◌+◌, ◌-◌, ◌<◌, ◌==◌,
  ◌∙◌, ◌∷◌, ◌≡◌, ◌≤◌,
}

-- Calls that deliver these chunks, each of a first byte and others
abbrev pub deliveries : List (ℕ × List ℕ) → List Received → List Received
deliveries [] after = after
deliveries ((x, xs) ∷ chunks) after = delivers x xs ∷ deliveries chunks after

-- What arrives, in order
abbrev pub joined : List (ℕ × List ℕ) → List ℕ
joined [] = []
joined ((x, xs) ∷ chunks) = (x ∷ xs) ++ joined chunks

recv_loop_exact-full :
    (bytes : ℕ) (answers : List Received) (got : List ℕ)
    → length got ≡ bytes
    → recv_loop_exact bytes answers got ≡ ok got
unfolding recv_loop_exact
recv_loop_exact-full bytes [] got e = ground arith
recv_loop_exact-full bytes (recv_failed text ∷ answers) got e = ground arith
recv_loop_exact-full bytes (closed text ∷ answers) got e = ground arith
recv_loop_exact-full bytes (delivers first others ∷ answers) got e = ground arith

-- Taking in two steps what is there in two pieces.
take-split :
    (n : ℕ) (xs ys : List ℕ) → take n xs ++ take (n - length (take n xs)) ys ≡ take n (xs ++ ys)
take-split zero xs ys = refl
take-split (suc n) [] ys = let same : suc n - 0 ≡ suc n = omega arith in ap (λ z. take z ys) same
take-split (suc n) (x ∷ xs) ys =
    let l = length (take n xs) in
    let same : suc n - suc l ≡ n - l = omega arith in rw same (ap (◌∷◌ x) (take-split n xs ys))

length-take_room : (n m : ℕ) (xs : List ℕ) → n ≤ length xs + m → n ≤ length (take n xs) + m
length-take_room zero m xs h = omega arith
length-take_room (suc n) m [] h = h
length-take_room (suc n) m (x ∷ xs) h = omega (arith, length-take_room n m xs (omega arith))

-- Nothing more is asked for once the buffer is full.
recv_loop_exact-asked :
    (bytes : ℕ) (answers : List Received) (got others : List ℕ)
    → length got ≡ bytes
    → recv_loop_exact bytes answers got ≡ ok (got ++ take (bytes - length got) others)
recv_loop_exact-asked bytes answers got others e =
    let none_left : bytes - length got ≡ 0 = omega arith in
    rw none_left (recv_loop_exact-full bytes answers got e ∙ ap ok (sym (append-nil got)))

recv_loop_exact-take :
    (bytes : ℕ) (chunks : List (ℕ × List ℕ)) (after : List Received) (got : List ℕ)
    → bytes < size_mod
    → length got ≤ bytes
    → bytes ≤ length got + length (joined chunks)
    → recv_loop_exact bytes (deliveries chunks after) got
      ≡ ok (got ++ take (bytes - length got) (joined chunks))
unfolding recv_loop_exact
recv_loop_exact-take bytes [] after got small p q =
    recv_loop_exact-asked bytes after got [] (omega arith)
recv_loop_exact-take bytes ((x, xs) ∷ chunks) after got small p q =
    elim (Bool-cases (length got == bytes)) [
      | inl full ↦
          recv_loop_exact-asked bytes (deliveries ((x, xs) ∷ chunks) after) got
            (joined ((x, xs) ∷ chunks)) (ground arith)
      | inr more ↦
          let room = bytes - length got in
          let asked : sub_size bytes (length got) ≡ room = omega arith in
          let part = take room (x ∷ xs) in
          let grown : length (got ++ part) ≡ length got + length part = length-append got part in
          let fewer : bytes - length (got ++ part) ≡ room - length part = omega (arith, grown) in
          let joined_up : (got ++ part) ++ take (bytes - length (got ++ part)) (joined chunks)
              ≡ got ++ take room ((x ∷ xs) ++ joined chunks) =
            rw fewer
              (append_assoc got part _ ∙ ap (got ++◌) (take-split room (x ∷ xs) (joined chunks))) in
          rw (more, asked)
            (recv_loop_exact-take bytes chunks after (got ++ part) small
                (omega (arith, grown, length-take_le room (x ∷ xs)))
                (omega (
                  arith,
                  grown,
                  length-take_room room (length (joined chunks)) (x ∷ xs)
                      (omega (arith, length-append (x ∷ xs) (joined chunks))),
                ))
              ∙ ap ok joined_up)
    ]

-- Where the calls of `::recv` deliver at least `bytes` bytes, in whatever pieces, and `bytes` fits
-- `size_t`, recv(bytes) returns the first `bytes` of them, in order.
pub recv_exact-take :
    (bytes : ℕ) (chunks : List (ℕ × List ℕ)) (after : List Received)
    → bytes < size_mod
    → bytes ≤ length (joined chunks)
    → recv_exact bytes (deliveries chunks after) ≡ ok (take bytes (joined chunks))
unfolding recv_exact
recv_exact-take bytes chunks after small p =
    recv_loop_exact-take bytes chunks after [] small (omega arith) (omega arith)
    ∙ ap (λ n. ok (take n (joined chunks))) (omega arith)
