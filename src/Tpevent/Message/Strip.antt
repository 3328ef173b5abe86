-- ===== src/Tpevent/Message/Strip.antt =====
-- The loop that strips line ends computes the string without them.
use technopark_cpp.Socket.{trim, trim_loop, line_end}
use technopark_cpp.Tpevent.Message.{message, until_zero, strip, strip_loop}
use technopark_cpp.Prelude.{
  Bool, Bool-cases, List, Run, [], ap, arith, false, get_or, get_or-take, if◌then◌else◌, inl, inr,
  length, length-take, load-ok, load-undefined, ltb, lt→ltb, ok, refl, suc, sym, take, take-all,
  take-suc, take-take, true, undefined, zero, ℕ, ◌&&◌, ◌++◌, ◌+◌, ◌-◌, ◌<◌, ◌==◌, ◌∙◌, ◌∷◌, ◌≡◌,
  ◌≤◌,
}

abbrev pub is_nil : List ℕ → Bool
is_nil [] = true
is_nil (x ∷ xs) = false

-- The string without the line ends at its end, by recursion from its start
unfoldable pub stripped : List ℕ → List ℕ
stripped [] = []
stripped (x ∷ xs) = let rest = stripped xs in if line_end x && is_nil rest then [] else x ∷ rest

stripped-nil : stripped [] ≡ []
unfolding stripped
stripped-nil = refl

is_nil-append : (ys : List ℕ) (c : ℕ) → is_nil (ys ++ c ∷ []) ≡ false
is_nil-append [] c = refl
is_nil-append (y ∷ ys) c = refl

stripped-append :
    (ys : List ℕ) (c : ℕ)
    → stripped (ys ++ c ∷ []) ≡ (if line_end c then stripped ys else ys ++ c ∷ [])
unfolding stripped
stripped-append [] c = ground arith
stripped-append (x ∷ ys) c = elim (Bool-cases (line_end c)) [
  | inl hit ↦ rw (stripped-append ys c, hit) refl
  | inr miss ↦ rw (stripped-append ys c, miss, is_nil-append ys c) (ground arith)
]

-- What the loop gives for a text, by the text without its line ends
abbrev pub unless_nil : List ℕ → Run (List ℕ)
unless_nil text = if is_nil text then undefined else ok text

strip_loop-stripped :
    (k m : ℕ) (full : List ℕ)
    → m < k
    → m ≤ length full
    → strip_loop k (take m full) ≡ unless_nil (stripped (take m full))
unfolding strip_loop
strip_loop-stripped zero m full f p = absurd (omega arith)
strip_loop-stripped (suc k) zero full f p = rw stripped-nil refl
strip_loop-stripped (suc k) (suc m) full f p =
    let size : length (take (suc m) full) ≡ suc m = length-take (suc m) full p in
    let top : suc m - 1 ≡ m = omega arith in
    let c = get_or full m 0 in
    let read : get_or (take (suc m) full) m 0 ≡ c = get_or-take (suc m) full m 0 (omega arith) in
    let split : stripped (take (suc m) full)
        ≡ (if line_end c then stripped (take m full) else take m full ++ c ∷ []) =
      ap stripped (take-suc m full 0 (omega arith)) ∙ stripped-append (take m full) c in
    let some_left : (suc m == 0) ≡ false = ground arith in
    elim (Bool-cases (line_end c)) [
      | inl hit ↦
          let shorter : stripped (take (suc m) full) ≡ stripped (take m full) =
            split ∙ (rw hit refl) in
          rw (size, top, read, hit, some_left, take-take m (suc m) full (omega arith))
            (strip_loop-stripped k m full (omega arith) (omega arith) ∙ ap unless_nil (sym shorter))
      | inr miss ↦
          let same : stripped (take (suc m) full) ≡ take m full ++ c ∷ [] =
            split ∙ (rw miss refl) in
          let whole : unless_nil (stripped (take (suc m) full)) ≡ ok (take m full ++ c ∷ []) =
            rw (same, is_nil-append (take m full) c) refl in
          rw (size, top, read, miss, some_left)
            (ap ok (take-suc m full 0 (omega arith)) ∙ sym whole)
    ]

-- The loop that takes line ends off the end of a text returns what a recursion from the start of
-- the text computes, if that is not empty; if it is, the loop is undefined.
pub strip-stripped : (tmp : List ℕ) → strip tmp ≡ unless_nil (stripped tmp)
unfolding strip
strip-stripped tmp =
    let whole : take (length tmp) tmp ≡ tmp = take-all (length tmp) tmp (omega arith) in
    ap (strip_loop (length tmp + 1)) (sym whole)
    ∙ strip_loop-stripped (length tmp + 1) (length tmp) tmp (omega arith) (omega arith)
    ∙ ap (λ s. unless_nil (stripped s)) whole

pub strip-ok : (tmp : List ℕ) → is_nil (stripped tmp) ≡ false → strip tmp ≡ ok (stripped tmp)
strip-ok tmp some_left = strip-stripped tmp ∙ (rw some_left refl)

-- The text of a message: what stands before the first zero, without the line ends at its end
unfoldable pub text_of : List ℕ → List ℕ
text_of bytes = stripped (until_zero bytes)

pub message-text_of :
    (bytes : List ℕ)
    → length bytes < 256
    → is_nil (text_of bytes) ≡ false
    → message bytes ≡ ok (text_of bytes)
unfolding message text_of
message-text_of bytes small some_left =
    rw (lt→ltb (length bytes) 256 small) (strip-ok (until_zero bytes) some_left)

-- A message without text, such as the empty one at the end of a stream, is undefined.
pub message-undefined : (bytes : List ℕ) → is_nil (text_of bytes) ≡ true → message bytes ≡ undefined
unfolding message text_of
message-undefined bytes no_text = elim (Bool-cases (ltb (length bytes) 256)) [
  | inl e ↦ rw e (strip-stripped (until_zero bytes) ∙ (rw no_text refl))
  | inr e ↦ rw e refl
]

-- The loop of class Socket, which calls back(), and the one of the engines, which calls `operator[]`,
-- do the same.
trim_loop-strip_loop : (k : ℕ) (tmp : List ℕ) → trim_loop k tmp ≡ strip_loop k tmp
unfolding trim_loop strip_loop
trim_loop-strip_loop zero tmp = refl
trim_loop-strip_loop (suc k) tmp =
    let rest = trim_loop-strip_loop k (take (length tmp - 1) tmp) in
    elim (Bool-cases (length tmp == 0)) [
      | inl e ↦ rw (e, load-undefined tmp (length tmp - 1) (ground (arith, e))) refl
      | inr e ↦ rw (e, load-ok tmp (length tmp - 1) 0 (ground (arith, e)), rest) refl
    ]

pub trim-strip : (tmp : List ℕ) → trim tmp ≡ strip tmp
unfolding trim strip
trim-strip tmp = trim_loop-strip_loop (length tmp + 1) tmp
