-- ===== src/LruCache.antt =====
-- examples/039_good_lru_cache.cpp: class lru_cache, a map of bounded size that drops the key that was
-- inserted the longest ago. The list of keys is a list of nodes, and an iterator is the name of
-- a node; `next_name` is the name that the next node gets. `find` and `insert` take the map as
-- a parameter, through its interface. A method that changes the object returns the new one.
pub mod Entries
pub mod Calls
pub mod Drop
pub mod Refine
mod Tests
use technopark_cpp.UnorderedMap.{UnorderedMap}
use technopark_cpp.Prelude.{
  Bool, List, Option, Run, [], if◌then◌else◌, ltb, none, ok, some, undefined, ℕ, ◌+◌, ◌==◌, ◌>>=◌,
  ◌∷◌,
}

-- An iterator into the list `lru_`
abbrev pub Iterator : Type 0
Iterator = ℕ

-- struct lru_record_t
pub record LruRecord (V : Type 0) : Type 0 where
  pub item : V
  pub lru_it : Iterator

-- The members of class lru_cache.
pub record LruCache (K M : Type 0) : Type 0 where
  pub lru : List (Iterator × K)
  pub cache : M
  pub max_size : ℕ
  pub next_name : Iterator

-- `lru_.back()`
pub back_key : {K : Type 0} → List (Iterator × K) → Run K
back_key [] = undefined
back_key (x ∷ []) = ok x.1
back_key (x ∷ y ∷ rest) = back_key (y ∷ rest)

-- `lru_.pop_back()`
pub drop_back : {K : Type 0} → List (Iterator × K) → Run (List (Iterator × K))
drop_back [] = undefined
drop_back (x ∷ []) = ok []
drop_back (x ∷ y ∷ rest) = do kept ← drop_back (y ∷ rest); ok (x ∷ kept)

-- `lru_.erase(it)`
pub erase_at : {K : Type 0} → Iterator → List (Iterator × K) → Run (List (Iterator × K))
erase_at it [] = undefined
erase_at it (x ∷ rest) =
    let deeper = erase_at it rest >>= λ kept. ok (x ∷ kept) in if x.0 == it then ok rest else deeper

module _ {K V M : Type 0} {same : K → K → Bool} (map : UnorderedMap K (LruRecord V) M same) where
  -- lru_cache::lru_cache
  pub create : ℕ → LruCache K M
  create nelems = record { lru = []; cache = map.none_stored; max_size = nelems; next_name = 0 }

  -- lru_cache::find; `none` where it returns false.
  pub find : LruCache K M → K → Option V
  find c key = elim (map.lookup c.cache key) [ none ↦ none | some r ↦ some r.item ]

  -- The end of lru_cache::insert for a new key: if there are too many keys, the oldest is dropped.
  pub evict : LruCache K M → Run (LruCache K M)
  evict c =
      if ltb c.max_size (map.size c.cache)
      then (do
        older_key ← back_key c.lru
        lru ← drop_back c.lru
        ok (record c { lru = lru; cache = map.erase c.cache older_key }))
      else ok c

  -- lru_cache::insert
  pub insert : LruCache K M → K → V → Run (LruCache K M)
  insert c key item =
      if c.max_size == 0
      then ok c
      else let it = c.next_name in
        let pushed = record c { lru = (it, key) ∷ c.lru; next_name = it + 1 } in
        let rec : LruRecord V = record { item = item; lru_it = it } in
        elim (map.lookup c.cache key) [
          | none ↦ evict (record pushed { cache = map.emplace c.cache key rec })
          | some old ↦ (do
            lru ← erase_at old.lru_it pushed.lru
            ok (record pushed { lru = lru; cache = map.assign c.cache key rec }))
        ]

  -- lru_cache::size, empty and clear
  pub size : LruCache K M → ℕ
  size c = map.size c.cache

  pub is_empty : LruCache K M → Bool
  unfolding size
  is_empty c = size c == 0

  pub clear : LruCache K M → LruCache K M
  clear c = record c { lru = []; cache = map.none_stored }
