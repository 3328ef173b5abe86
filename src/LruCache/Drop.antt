-- ===== src/LruCache/Drop.antt =====
-- What erase and pop_back of the list of keys do to the entries.
use technopark_cpp.LruCache.{LruRecord, Iterator, back_key, drop_back, erase_at}
use technopark_cpp.LruCache.Entries.{Distinct, entry, Descending, Entries, nodes, remove}
use technopark_cpp.Prelude.{
  Bool, Bool-cases, Option, [], ap, arith, false, inl, inr, length, none, ok, refl, some, sym, take,
  true, ℕ, ◌<◌, ◌==◌, ◌↔◌, ◌∙◌, ◌∷◌, ◌≡◌, ◌≢◌,
}

-- The name in a record, if there is one.
name_of : {V : Type 0} → Option (LruRecord V) → Iterator
name_of none = 0
name_of (some r) = r.lru_it

module _ {K V : Type 0} (same : K → K → Bool)
    (same_iff : (x y : K) → (same x y ≡ true) ↔ (x ≡ y)) where
  -- The node of a key that is present has a name below the bound.
  pub entry-below :
      (b : ℕ) (q : K) (es : Entries K V) {r : LruRecord V}
      → Descending b es
      → entry same q es ≡ some r
      → r.lru_it < b
  unfolding name_of
  entry-below b q [] d h = absurd (cc h)
  entry-below b q ((i, x, v) ∷ es) {r} d h = elim (Bool-cases (same x q)) [
    | inl hit ↦
        let found : some (record { item = v; lru_it = i }) ≡ some r = rw hit at h in
        omega (arith, ap name_of found, d.0)
    | inr miss ↦ omega (arith, entry-below i q es d.1 (rw miss at h), d.0)
  ]

  -- Erasing at the iterator of a key removes the node of that key.
  pub erase_at-remove :
      (b : ℕ) (q : K) (es : Entries K V) {r : LruRecord V}
      → Descending b es
      → entry same q es ≡ some r
      → erase_at r.lru_it (nodes es) ≡ ok (nodes (remove same q es))
  unfolding erase_at name_of
  erase_at-remove b q [] d h = absurd (cc h)
  erase_at-remove b q ((i, x, v) ∷ es) {r} d h = elim (Bool-cases (same x q)) [
    | inl hit ↦
        let found : some (record { item = v; lru_it = i }) ≡ some r = rw hit at h in
        let name : (i == r.lru_it) ≡ true = ground (arith, ap name_of found) in rw (name, hit) refl
    | inr miss ↦
        let tail : entry same q es ≡ some r = rw miss at h in
        let other : (i == r.lru_it) ≡ false = ground (arith, entry-below i q es d.1 tail) in
        rw (other, miss, erase_at-remove i q es d.1 tail) refl
  ]

  -- What the end of the list holds: its key, which the entries have, and the entries without it.
  pub record Oldest (e : Iterator × K × V) (es : Entries K V) : Type 0 where
    pub key : K
    pub back : back_key (nodes (e ∷ es)) ≡ ok key
    pub dropped : drop_back (nodes (e ∷ es)) ≡ ok (nodes (remove same key (e ∷ es)))
    pub first : remove same key (e ∷ es) ≡ take (length es) (e ∷ es)
    pub present : entry same key (e ∷ es) ≢ none

  pub oldest : (e : Iterator × K × V) (es : Entries K V) → Distinct same (e ∷ es) → Oldest e es
  unfolding back_key drop_back
  oldest (i, k, v) [] d =
      let hit = (same_iff k k).1 refl in
      record {
        key = k;
        back = refl;
        dropped = rw hit refl;
        first = rw hit refl;
        present = rw hit λ bad. cc bad;
      }
  oldest (i, k, v) (f ∷ es) d =
      let o = oldest f es d.1 in
      let miss : same k o.key ≡ false = elim (Bool-cases (same k o.key)) [
        | inl hit ↦
            absurd
              (o.present (ap (λ z. entry same z (f ∷ es)) (sym ((same_iff k o.key).0 hit)) ∙ d.0))
        | inr miss ↦ miss
      ] in
      record {
        key = o.key;
        back = o.back;
        dropped = rw (miss, o.dropped) refl;
        first = rw miss (ap (◌∷◌ (i, k, v)) o.first);
        present = rw miss o.present;
      }
