-- ===== src/GenCache.antt =====
-- examples/038_bad_lru_cache.cpp: class LastUsedCache, a map of bounded size whose entries carry the
-- number of the call that last touched them. The map is a list of its entries in the order in which
-- it is gone through. Numbers of calls wrap at 2 ^ 64.
pub mod Bounded
mod Tests
use technopark_cpp.Prelude.{
  Bool, List, Option, [], if◌then◌else◌, length, ltb, min, none, some, ℕ, ◌%◌, ◌+◌, ◌==◌, ◌∷◌,
}

-- record_t, with its key
pub record GenEntry (K V : Type 0) : Type 0 where
  pub key_of : K
  pub payload : V
  pub gen : ℕ

-- The members of class LastUsedCache
pub record GenCache (K V : Type 0) : Type 0 where
  pub stored : List (GenEntry K V)
  pub limit : ℕ
  pub generation : ℕ

-- LastUsedCache::LastUsedCache
unfoldable pub make_cache : {K V : Type 0} → ℕ → GenCache K V
make_cache nelems = record { stored = []; limit = nelems; generation = 0 }

-- `++generation_`
abbrev pub next_gen : ℕ → ℕ
next_gen g = (g + 1) % 18446744073709551616

-- The loop that finds the least generation, from `min_gen = -1` on
unfoldable pub least_gen : {K V : Type 0} → ℕ → List (GenEntry K V) → ℕ
least_gen g [] = g
least_gen g (e ∷ es) = least_gen (min g e.gen) es

-- The loop that erases the first entry with that generation
unfoldable pub erase_gen : {K V : Type 0} → ℕ → List (GenEntry K V) → List (GenEntry K V)
erase_gen g [] = []
erase_gen g (e ∷ es) = let rest = e ∷ erase_gen g es in if e.gen == g then es else rest

module _ {K V : Type 0} (same : K → K → Bool) where
  -- `cache_.find(key)`, and LastUsedCache::find, `none` where it returns false
  unfoldable pub find_entry : K → List (GenEntry K V) → Option (GenEntry K V)
  find_entry key [] = none
  find_entry key (e ∷ es) =
      let rest = find_entry key es in if same e.key_of key then some e else rest

  unfoldable pub find_data : GenCache K V → K → Option V
  find_data c key = elim (find_entry key c.stored) [ none ↦ none | some e ↦ some e.payload ]

  -- `result.first->second.gen = g`
  unfoldable pub set_gen : K → ℕ → List (GenEntry K V) → List (GenEntry K V)
  set_gen key g [] = []
  set_gen key g (e ∷ es) =
      let rest = e ∷ set_gen key g es in
      if same e.key_of key then record e { gen = g } ∷ es else rest

  -- LastUsedCache::insert of a key that is absent. `arrange` is the order of the entries after the
  -- map has taken in a new one.
  unfoldable pub insert_new :
      (GenEntry K V → List (GenEntry K V) → List (GenEntry K V))
      → K
      → V
      → GenCache K V
      → GenCache K V
  insert_new arrange key item c =
      let g = next_gen c.generation in
      let more = arrange (record { key_of = key; payload = item; gen = g }) c.stored in
      let kept = erase_gen (least_gen 18446744073709551615 more) more in
      record c { stored = if ltb c.limit (length more) then kept else more; generation = g }

  -- and of one that is present: the number is counted up twice.
  unfoldable pub insert_old : K → GenCache K V → GenCache K V
  insert_old key c =
      let g = next_gen (next_gen c.generation) in
      record c { stored = set_gen key g c.stored; generation = g }

  unfoldable pub insert_data :
      (GenEntry K V → List (GenEntry K V) → List (GenEntry K V))
      → K
      → V
      → GenCache K V
      → GenCache K V
  insert_data arrange key item c =
      let changed : GenCache K V = elim (find_entry key c.stored) [
        | none ↦ insert_new arrange key item c
        | some e ↦ insert_old key c
      ] in
      if c.limit == 0 then c else changed

-- LastUsedCache::size, empty and clear
unfoldable pub stored_size : {K V : Type 0} → GenCache K V → ℕ
stored_size c = length c.stored

unfoldable pub is_cleared : {K V : Type 0} → GenCache K V → Bool
is_cleared c = stored_size c == 0

unfoldable pub clear_all : {K V : Type 0} → GenCache K V → GenCache K V
clear_all c = record c { stored = [] }
