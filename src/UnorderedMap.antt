-- ===== src/UnorderedMap.antt =====
-- The interface of std::unordered_map and boost::unordered_map, as far as the caches use it: the
-- documented behaviour of each operation. `same` is the equality of keys.
use technopark_cpp.Prelude.{Bool, Option, if◌then◌else◌, none, some, ℕ, ◌+◌, ◌≡◌, ◌≢◌}

pub record UnorderedMap (K V M : Type 0) (same : K → K → Bool) : Type 0 where
  pub none_stored : M
  pub lookup : M → K → Option V
  pub size : M → ℕ
  -- `insert` of a key that is absent
  pub emplace : M → K → V → M
  -- a write through the iterator of a key that is present
  pub assign : M → K → V → M
  pub erase : M → K → M
  pub lookup_none_stored : (k : K) → lookup none_stored k ≡ none
  pub size_none_stored : size none_stored ≡ 0
  pub lookup_emplace :
      (m : M) (k q : K) (v : V)
      → lookup m k ≡ none
      → lookup (emplace m k v) q ≡ (if same k q then some v else lookup m q)
  pub size_emplace : (m : M) (k : K) (v : V) → lookup m k ≡ none → size (emplace m k v) ≡ size m + 1
  pub lookup_assign :
      (m : M) (k q : K) (v : V)
      → lookup m k ≢ none
      → lookup (assign m k v) q ≡ (if same k q then some v else lookup m q)
  pub size_assign : (m : M) (k : K) (v : V) → lookup m k ≢ none → size (assign m k v) ≡ size m
  pub lookup_erase :
      (m : M) (k q : K) → lookup (erase m k) q ≡ (if same k q then none else lookup m q)
  pub size_erase : (m : M) (k : K) → lookup m k ≢ none → size (erase m k) + 1 ≡ size m
