-- ===== src/LruCache/Calls.antt =====
-- Scripts of calls of a cache, and what they should answer: the list of the last keys inserted.
use technopark_cpp.LruCache.{LruRecord, LruCache, find, insert, size, is_empty, clear}
use technopark_cpp.UnorderedMap.{UnorderedMap}
use technopark_cpp.Prelude.{
  Bool, List, Option, Run, [], if◌then◌else◌, length, none, ok, some, take, ℕ, ◌==◌, ◌>>=◌, ◌∷◌,
}

pub data Call (K V : Type 0) : Type 0 where
  insert_call : K → V → Call K V
  find_call : K → Call K V
  size_call empty_call clear_call : Call K V

pub data Reply (V : Type 0) : Type 0 where
  done : Reply V
  found : Option V → Reply V
  counted : ℕ → Reply V
  answered : Bool → Reply V

module _ {K V : Type 0} (same : K → K → Bool) where
  -- The specification: keys with their items, the last inserted first.
  unfoldable pub spec_find : K → List (K × V) → Option V
  spec_find q [] = none
  spec_find q ((k, v) ∷ xs) = if same k q then some v else spec_find q xs

  unfoldable pub spec_remove : K → List (K × V) → List (K × V)
  spec_remove q [] = []
  spec_remove q ((k, v) ∷ xs) = if same k q then xs else (k, v) ∷ spec_remove q xs

  -- A key moves to the front with its new item, and the `n` first keys stay.
  unfoldable pub spec_insert : ℕ → K → V → List (K × V) → List (K × V)
  spec_insert n k v xs = take n ((k, v) ∷ spec_remove k xs)

  unfoldable pub answers : ℕ → List (K × V) → List (Call K V) → List (Reply V)
  answers n xs [] = []
  answers n xs (insert_call k v ∷ calls) = done ∷ answers n (spec_insert n k v xs) calls
  answers n xs (find_call k ∷ calls) = found (spec_find k xs) ∷ answers n xs calls
  answers n xs (size_call ∷ calls) = counted (length xs) ∷ answers n xs calls
  answers n xs (empty_call ∷ calls) = answered (length xs == 0) ∷ answers n xs calls
  answers n xs (clear_call ∷ calls) = done ∷ answers n [] calls

  module _ {M : Type 0} (map : UnorderedMap K (LruRecord V) M same) where
    -- What an object of the class answers.
    unfoldable pub run : LruCache K M → List (Call K V) → Run (List (Reply V))
    run c [] = ok []
    run c (insert_call k v ∷ calls) = do
      d ← insert map c k v
      replies ← run d calls
      ok (done ∷ replies)
    run c (find_call k ∷ calls) = do replies ← run c calls; ok (found (find map c k) ∷ replies)
    run c (size_call ∷ calls) = do replies ← run c calls; ok (counted (size map c) ∷ replies)
    run c (empty_call ∷ calls) = do replies ← run c calls; ok (answered (is_empty map c) ∷ replies)
    run c (clear_call ∷ calls) = do replies ← run (clear map c) calls; ok (done ∷ replies)
