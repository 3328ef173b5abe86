-- ===== src/Socket/Stream/Chunks.antt =====
-- What recv_loop makes of the pieces in which a message comes.
use technopark_cpp.Socket.{line_end, trim}
use technopark_cpp.Socket.Trim.{trim-ok}
use technopark_cpp.Socket.Stream.{recv_loop, gives, Answer}
use technopark_cpp.Prelude.{
  List, [], ap, append-nil, append_assoc, arith, false, get_or, length, length-append, ok, refl,
  suc, sym, take, true, zero, ℕ, ◌++◌, ◌+◌, ◌<◌, ◌==◌, ◌∙◌, ◌∷◌, ◌≡◌,
}

-- What one call delivers: bytes up to the last one that is no line end, and the line ends after it
pub record Chunk : Type 0 where
  pub body : List ℕ
  pub last_byte : ℕ
  pub ends : List ℕ

abbrev pub text_part : Chunk → List ℕ
text_part c = c.body ++ c.last_byte ∷ []

abbrev pub bytes_of : Chunk → List ℕ
bytes_of c = text_part c ++ c.ends

abbrev pub AllEnds : List ℕ → Type 0
AllEnds [] = Unit {0}
AllEnds (x ∷ xs) = (line_end x ≡ true) × AllEnds xs

abbrev pub Proper : List Chunk → Type 0
Proper [] = Unit {0}
Proper (c ∷ cs) = ((line_end c.last_byte ≡ false) × AllEnds c.ends) × Proper cs

unfoldable pub texts : List Chunk → List ℕ
texts [] = []
texts (c ∷ cs) = text_part c ++ texts cs

abbrev pub calls : List Chunk → List Answer → List Answer
calls [] rest = rest
calls (c ∷ cs) rest = gives (bytes_of c) ∷ calls cs rest

get_or-last : (q : List ℕ) (l : ℕ) (ends : List ℕ) → get_or ((q ++ l ∷ []) ++ ends) (length q) 0 ≡ l
get_or-last [] l ends = refl
get_or-last (x ∷ q) l ends = get_or-last q l ends

take-last :
    (q : List ℕ) (l : ℕ) (ends : List ℕ) → take (length q + 1) ((q ++ l ∷ []) ++ ends) ≡ q ++ l ∷ []
take-last [] l ends = refl
take-last (x ∷ q) l ends =
    let more : length (x ∷ q) + 1 ≡ suc (length q + 1) = omega arith in
    rw more (ap (◌∷◌ x) (take-last q l ends))

get_or-AllEnds :
    (ends : List ℕ) (i : ℕ) → AllEnds ends → i < length ends → line_end (get_or ends i 0) ≡ true
get_or-AllEnds [] i a h = absurd (omega arith)
get_or-AllEnds (x ∷ ends) zero a h = a.0
get_or-AllEnds (x ∷ ends) (suc i) a h = get_or-AllEnds ends i a.1 (omega arith)

ends-after :
    (q : List ℕ) (l : ℕ) (ends : List ℕ) (i : ℕ)
    → AllEnds ends
    → length q < i
    → i < length ((q ++ l ∷ []) ++ ends)
    → line_end (get_or ((q ++ l ∷ []) ++ ends) i 0) ≡ true
ends-after [] l ends zero a h k = absurd (omega arith)
ends-after [] l ends (suc i) a h k = get_or-AllEnds ends i a (omega arith)
ends-after (x ∷ q) l ends zero a h k = absurd (omega arith)
ends-after (x ∷ q) l ends (suc i) a h k = ends-after q l ends i a (omega arith) (omega arith)

trim-chunk :
    (q : List ℕ) (l : ℕ) (ends : List ℕ)
    → line_end l ≡ false
    → AllEnds ends
    → trim ((q ++ l ∷ []) ++ ends) ≡ ok (q ++ l ∷ [])
trim-chunk q l ends plain a =
    let size : length ((q ++ l ∷ []) ++ ends) ≡ length (q ++ l ∷ []) + length ends =
      length-append (q ++ l ∷ []) ends in
    let size' : length (q ++ l ∷ []) ≡ length q + 1 = length-append q (l ∷ []) in
    trim-ok ((q ++ l ∷ []) ++ ends) (length q) (omega (arith, size, size'))
      (rw (get_or-last q l ends) plain) (λ i h k. ends-after q l ends i a h k)
    ∙ ap ok (take-last q l ends)

chunk-some : (c : Chunk) → (length (bytes_of c) == 0) ≡ false
chunk-some c =
    let size = length-append (text_part c) c.ends in
    let size' = length-append c.body (c.last_byte ∷ []) in ground (arith, size, size')

-- Let each call of recv deliver bytes of which at least one is no line end, and then the stream
-- end. recv_loop returns what it had and the bytes of all calls, without the line ends that stand
-- at the end of each call's bytes.
pub recv_loop-chunks :
    (cs : List Chunk) (ret : List ℕ) (rest : List Answer)
    → Proper cs
    → recv_loop (calls cs (gives [] ∷ rest)) ret ≡ ok (ret ++ texts cs)
unfolding recv_loop texts
recv_loop-chunks [] ret rest p = ap ok (sym (append-nil ret))
recv_loop-chunks (c ∷ cs) ret rest p =
    let whole : ret ++ bytes_of c ≡ ((ret ++ c.body) ++ c.last_byte ∷ []) ++ c.ends =
      simp append_assoc in
    let kept : (ret ++ c.body) ++ c.last_byte ∷ [] ≡ ret ++ text_part c = simp append_assoc in
    rw (chunk-some c, whole, trim-chunk (ret ++ c.body) c.last_byte c.ends p.0.0 p.0.1)
      (rw kept (recv_loop-chunks cs (ret ++ text_part c) rest p.1 ∙ ap ok (simp append_assoc)))
