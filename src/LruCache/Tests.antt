-- ===== src/LruCache/Tests.antt =====
-- Class lru_cache at a concrete map and script.
use technopark_cpp.LruCache.{create, UnorderedMap, LruRecord}
use technopark_cpp.LruCache.Calls.{
  run, done, Call, size_call, answers, spec_remove, answered, found, find_call, empty_call,
  spec_insert, clear_call, spec_find, insert_call, counted,
}
use technopark_cpp.LruCache.Refine.{run-answers}
use technopark_cpp.LruCache.Entries.{
  Distinct, remove-none, entry-erased, entry-front, length-remove, entry, entry-remove_same,
  remove-Distinct, Entries, remove,
}
use technopark_cpp.Prelude.{
  ==_iff, Bool, List, [], ap, arith, length, none, ok, refl, some, some_of, sym, true, ℕ, ◌==◌, ◌↔◌,
  ◌∷◌, ◌≡◌,
}

-- The map as a list of entries with distinct keys.
abbrev same_key : ℕ → ℕ → Bool
same_key x y = x == y

same_key_iff : (x y : ℕ) → (same_key x y ≡ true) ↔ (x ≡ y)
same_key_iff = ==_iff

abbrev Stored : Type 0
Stored = (es : Entries ℕ ℕ) × Distinct same_key es

abbrev put : Stored → ℕ → LruRecord ℕ → Stored
put m k r = (
  (r.lru_it, k, r.item) ∷ remove same_key k m.0,
  (
    entry-remove_same same_key same_key_iff k m.0 m.1,
    remove-Distinct same_key same_key_iff k m.0 m.1,
  ),
)

abbrev map : UnorderedMap ℕ (LruRecord ℕ) Stored same_key
map = record {
  none_stored = ([], tt);
  lookup = λ m k. entry same_key k m.0;
  size = λ m. length m.0;
  emplace = put;
  assign = put;
  erase = λ m k. (remove same_key k m.0, remove-Distinct same_key same_key_iff k m.0 m.1);
  lookup_none_stored = λ k. refl;
  size_none_stored = refl;
  lookup_emplace = λ m k q r h. sym (entry-front same_key same_key_iff r.lru_it k q r.item m.0);
  size_emplace = λ m k r h. omega (arith, ap length (remove-none same_key same_key_iff k m.0 h));
  lookup_assign = λ m k q r h. sym (entry-front same_key same_key_iff r.lru_it k q r.item m.0);
  size_assign = λ m k r h.
      omega (arith, length-remove same_key same_key_iff k m.0 (some_of (entry same_key k m.0) h).1);
  lookup_erase = λ m k q. sym (entry-erased same_key same_key_iff k q m.0 m.1);
  size_erase =
      λ m k h. length-remove same_key same_key_iff k m.0 (some_of (entry same_key k m.0) h).1;
}

-- Two keys fit; 1 is inserted once more before 3 drops 2, and keeps its new item.
abbrev script : List (Call ℕ ℕ)
script =
    insert_call 1 10
    ∷ insert_call 2 20
    ∷ insert_call 1 11
    ∷ insert_call 3 30
    ∷ find_call 1
    ∷ find_call 2
    ∷ size_call
    ∷ clear_call
    ∷ empty_call
    ∷ []

run-answers_example : run same_key map (create map 2) script ≡ ok (answers same_key 2 [] script)
run-answers_example = run-answers same_key_iff map 2 script

answers_of_script :
    answers same_key 2 [] script
    ≡ done
      ∷ done
      ∷ done
      ∷ done
      ∷ found (some 11)
      ∷ found none
      ∷ counted 2
      ∷ done
      ∷ answered true
      ∷ []
unfolding answers spec_find spec_insert spec_remove
answers_of_script = refl
