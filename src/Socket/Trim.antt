-- ===== src/Socket/Trim.antt =====
-- The loop that takes the line ends off a string.
use technopark_cpp.Socket.{trim, trim_loop, line_end}
use technopark_cpp.Prelude.{
  Bool-cases, List, ap, arith, false, get_or, get_or-take, inl, inr, length, length-take, load,
  load-ok, ok, refl, suc, sym, take, take-all, take-take, true, undefined, zero, ℕ, ◌+◌, ◌-◌, ◌<◌,
  ◌==◌, ◌∙◌, ◌≡◌, ◌≤◌,
}

trim_loop-ok :
    (k m p : ℕ) (full : List ℕ)
    → m < k
    → p < m
    → m ≤ length full
    → line_end (get_or full p 0) ≡ false
    → ((i : ℕ) → p < i → i < m → line_end (get_or full i 0) ≡ true)
    → trim_loop k (take m full) ≡ ok (take (p + 1) full)
unfolding trim_loop
trim_loop-ok zero m p full f hp hm stop ends = absurd (omega arith)
trim_loop-ok (suc k) m p full f hp hm stop ends =
    let size : length (take m full) ≡ m = length-take m full hm in
    let read : load (take m full) (m - 1) ≡ ok (get_or full (m - 1) 0) =
      load-ok (take m full) (m - 1) 0 (omega (arith, size))
      ∙ ap ok (get_or-take m full (m - 1) 0 (omega arith)) in
    elim (Bool-cases (m == p + 1)) [
      | inl here ↦
          let top : m - 1 ≡ p = ground arith in
          let kept : line_end (get_or full (m - 1) 0) ≡ false =
            ap (λ i. line_end (get_or full i 0)) top ∙ stop in
          let whole : m ≡ p + 1 = ground arith in
          rw (size, read, kept) (ap (λ i. ok (take i full)) whole)
      | inr above ↦
          let goes = ends (m - 1) (ground arith) (omega arith) in
          rw (size, read, goes, take-take (m - 1) m full (omega arith))
            (trim_loop-ok k (m - 1) p full (omega arith) (ground arith) (omega arith) stop
              λ i q r. ends i q (omega arith))
    ]

-- Where the byte at `p` is the last one that is neither '\r' nor '\n', the loop that takes off line
-- ends returns the string up to that byte.
pub trim-ok :
    (ret : List ℕ) (p : ℕ)
    → p < length ret
    → line_end (get_or ret p 0) ≡ false
    → ((i : ℕ) → p < i → i < length ret → line_end (get_or ret i 0) ≡ true)
    → trim ret ≡ ok (take (p + 1) ret)
unfolding trim
trim-ok ret p hp stop ends =
    ap (trim_loop (length ret + 1)) (sym (take-all (length ret) ret (omega arith)))
    ∙ trim_loop-ok (length ret + 1) (length ret) p ret (omega arith) hp (omega arith) stop ends

trim_loop-undefined :
    (k m : ℕ) (full : List ℕ)
    → m < k
    → m ≤ length full
    → ((i : ℕ) → i < m → line_end (get_or full i 0) ≡ true)
    → trim_loop k (take m full) ≡ undefined
unfolding trim_loop load
trim_loop-undefined zero m full f hm ends = absurd (omega arith)
trim_loop-undefined (suc k) zero full f hm ends = refl
trim_loop-undefined (suc k) (suc m) full f hm ends =
    let size : length (take (suc m) full) ≡ suc m = length-take (suc m) full hm in
    let top : suc m - 1 ≡ m = omega arith in
    let read : load (take (suc m) full) m ≡ ok (get_or full m 0) =
      load-ok (take (suc m) full) m 0 (omega (arith, size))
      ∙ ap ok (get_or-take (suc m) full m 0 (omega arith)) in
    let goes = ends m (omega arith) in
    rw (size, top, read, goes, take-take m (suc m) full (omega arith))
      (trim_loop-undefined k m full (omega arith) (omega arith) λ i r. ends i (omega arith))

-- On a string of line ends only the loop calls back() of an empty string.
pub trim-undefined :
    (ret : List ℕ)
    → ((i : ℕ) → i < length ret → line_end (get_or ret i 0) ≡ true)
    → trim ret ≡ undefined
unfolding trim
trim-undefined ret ends =
    ap (trim_loop (length ret + 1)) (sym (take-all (length ret) ret (omega arith)))
    ∙ trim_loop-undefined (length ret + 1) (length ret) ret (omega arith) (omega arith) ends
