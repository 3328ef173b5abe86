-- ===== src/DArray/Inv.antt =====
-- The representation invariant of class DArray, its contents, and each call on each branch.
use technopark_cpp.DArray.{load_int, DArray, create, at, pop_back}
use technopark_cpp.Prelude.{
  List, [], arith, get_or, get_or-take, if◌then◌else◌, int_limit, leb, length, length-replicate,
  length-take, load-ok, mul_size, neg_part, negsuc, ok, pos, refl, runtime_error, size_mod, take,
  throw, to_size, ℕ, ℤ, ◌+◌, ◌-◌, ◌/◌, ◌<◌, ◌^◌, ◌∙◌, ◌≡◌, ◌≤◌,
}

-- Sizes in bytes stay below this many entries of eight bytes.
abbrev pub size_limit : ℕ
size_limit = 2 ^ 60

module _ {A : Type 0} where
  pub record IsValid (d : DArray A) : Type 0 where
    pub block : length d.buffer ≡ d.buf_size
    pub used : d.actual_size ≤ d.buf_size
    pub small : d.buf_size < size_limit

  abbrev pub contents : DArray A → List A
  contents d = take d.actual_size d.buffer

  pub length-contents : (d : DArray A) → IsValid d → length (contents d) ≡ d.actual_size
  length-contents d v = length-take d.actual_size d.buffer (omega arith)

  pub create-IsValid :
      (z : A) (n : ℕ) → n < size_limit → IsValid (create z n) × (contents (create z n) ≡ [])
  unfolding create
  create-IsValid z n h = (
    record {
      block = length-replicate (mul_size n 8 / 8) z ∙ (omega arith);
      used = omega arith;
      small = h;
    },
    refl,
  )

  module _ (d : DArray A) (valid : IsValid d) where
    -- In a well-formed array that is not empty At() returns the entry inside the range and throws
    -- outside it, at a negative `int` index too.
    pub at-nonempty :
        (z : A) (i : ℤ)
        → 0 < d.actual_size
        → neg_part i < int_limit
        → at d i ≡ (
            if leb (to_size i + 1) d.actual_size
            then ok (get_or (contents d) (to_size i) z)
            else throw (runtime_error "out of range"))
    unfolding at
    at-nonempty z (pos i) h k =
        ground (arith, load-ok d.buffer i z, get_or-take d.actual_size d.buffer i z)
    at-nonempty z (negsuc i) h k = ground arith

    -- In an empty array, where `actual_size_ - 1` is the largest `size_t`, At() makes no range
    -- check and reads the block, for each index that fits `size_t`.
    pub at-empty : (i : ℤ) → d.actual_size ≡ 0 → to_size i < size_mod → at d i ≡ load_int d.buffer i
    unfolding at
    at-empty i h k = ground arith

    pub pop_back-empty : d.actual_size ≡ 0 → pop_back d ≡ throw (runtime_error "DArray is empty")
    unfolding pop_back
    pop_back-empty h = ground arith

    pub pop_back-ok :
        (z : A)
        → 0 < d.actual_size
        → pop_back d
          ≡ ok (get_or d.buffer (d.actual_size - 1) z, record d { actual_size = d.actual_size - 1 })
    unfolding pop_back
    pop_back-ok z h = ground (arith, load-ok d.buffer (d.actual_size - 1) z)
