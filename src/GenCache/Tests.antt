-- ===== src/GenCache/Tests.antt =====
-- LastUsedCache with two entries.
use mathlib.Core.List.Perm
use technopark_cpp.GenCache.{
  erase_gen, find_entry, find_data, GenCache, GenEntry, least_gen, insert_new, insert_data,
}
use technopark_cpp.GenCache.Bounded.{insert_data-Kept, Valid, Arranges}
use technopark_cpp.Prelude.{List, [], arith, refl, snoc-perm, some, ℕ, ◌++◌, ◌==◌, ◌∷◌, ◌≡◌}

abbrev two_entries : GenCache ℕ ℕ
two_entries = record {
  stored =
      record { key_of = 1; payload = 10; gen = 1 }
      ∷ record { key_of = 2; payload = 20; gen = 2 }
      ∷ [];
  limit = 2;
  generation = 2;
}

-- A map that puts a new entry at the end
abbrev at_end : GenEntry ℕ ℕ → List (GenEntry ℕ ℕ) → List (GenEntry ℕ ℕ)
at_end e es = es ++ e ∷ []

at_end-Arranges : Arranges at_end
at_end-Arranges e es = Perm.symm (snoc-perm es e)

-- The entry that was touched the longest ago goes.
evict_run :
    (insert_data ◌==◌ at_end 3 30 two_entries).stored
    ≡ record { key_of = 2; payload = 20; gen = 2 }
      ∷ record { key_of = 3; payload = 30; gen = 3 }
      ∷ []
unfolding insert_data insert_new find_entry least_gen erase_gen
evict_run = refl

insert_data-Kept_example :
    Valid (insert_data ◌==◌ at_end 1 11 two_entries)
    × ((e : GenEntry ℕ ℕ) (q : ℕ)
        → find_entry ◌==◌ 1 two_entries.stored ≡ some e
        → find_data ◌==◌ (insert_data ◌==◌ at_end 1 11 two_entries) q
          ≡ find_data ◌==◌ two_entries q)
insert_data-Kept_example =
    insert_data-Kept ◌==◌ at_end 1 11 two_entries at_end-Arranges
      (record { small_gens = (omega arith, (omega arith, tt)); bounded = omega arith })
