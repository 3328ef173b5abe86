-- ===== src/LruCache/Entries.antt =====
-- The entries of a cache, newest first: each with the name of its node, its key and its item.
use technopark_cpp.LruCache.{LruRecord, Iterator}
use technopark_cpp.Prelude.{
  Bool, Bool-cases, List, Option, [], ap, arith, false, if◌then◌else◌, inl, inr, length, none, refl,
  some, sym, true, ℕ, ◌+◌, ◌<◌, ◌↔◌, ◌∙◌, ◌∷◌, ◌≡◌, ◌≤◌,
}

module _ (K V : Type 0) where
  abbrev pub Entries : Type 0
  Entries = List (Iterator × K × V)

module _ {K V : Type 0} where
  -- The list of keys, as `lru_` holds it
  abbrev pub nodes : Entries K V → List (Iterator × K)
  nodes [] = []
  nodes ((i, k, v) ∷ es) = (i, k) ∷ nodes es

  -- The keys with their items
  abbrev pub pairs : Entries K V → List (K × V)
  pairs [] = []
  pairs ((i, k, v) ∷ es) = (k, v) ∷ pairs es

  -- The names fall, and lie below `b`.
  abbrev pub Descending : ℕ → Entries K V → Type 0
  Descending b [] = Unit {0}
  Descending b ((i, k, v) ∷ es) = (i < b) × Descending i es

  pub Descending-weaken : (b c : ℕ) (es : Entries K V) → b ≤ c → Descending b es → Descending c es
  Descending-weaken b c [] h d = tt
  Descending-weaken b c (e ∷ es) h d = (omega (arith, d.0), d.1)

  module _ (same : K → K → Bool) where
    -- The record that the map holds for a key
    abbrev pub entry : K → Entries K V → Option (LruRecord V)
    entry q [] = none
    entry q ((i, k, v) ∷ es) =
        if same k q then some (record { item = v; lru_it = i }) else entry q es

    abbrev pub remove : K → Entries K V → Entries K V
    remove q [] = []
    remove q ((i, k, v) ∷ es) = if same k q then es else (i, k, v) ∷ remove q es

    abbrev pub Distinct : Entries K V → Type 0
    Distinct [] = Unit {0}
    Distinct ((i, k, v) ∷ es) = (entry k es ≡ none) × Distinct es

    -- A key that is missing is neither the first nor among the others.
    entry-none_cons :
        (q : K) (i : Iterator) (x : K) (v : V) (es : Entries K V)
        → entry q ((i, x, v) ∷ es) ≡ none
        → (same x q ≡ false) × (entry q es ≡ none)
    entry-none_cons q i x v es h = elim (Bool-cases (same x q)) [
      | inl hit ↦ absurd (cc (h, hit))
      | inr miss ↦ (miss, rw miss at h)
    ]

    module _ (same_iff : (x y : K) → (same x y ≡ true) ↔ (x ≡ y)) where
      pub entry-remove_other :
          (k q : K) (es : Entries K V) → same k q ≡ false → entry q (remove k es) ≡ entry q es
      entry-remove_other k q [] ne = refl
      entry-remove_other k q ((i, x, v) ∷ es) ne = elim (Bool-cases (same x k)) [
        | inl hit ↦
            let at_k : x ≡ k = (same_iff x k).0 hit in
            let miss : same x q ≡ false = rw at_k ne in rw (hit, miss) refl
        | inr miss ↦ rw (miss, entry-remove_other k q es ne) refl
      ]

      -- Removing keeps a missing key missing.
      pub entry-remove-none :
          (k q : K) (es : Entries K V) → entry q es ≡ none → entry q (remove k es) ≡ none
      entry-remove-none k q [] h = refl
      entry-remove-none k q ((i, x, v) ∷ es) h =
          let inner = entry-none_cons q i x v es h in
          elim (Bool-cases (same x k)) [
            | inl hit ↦ rw hit inner.1
            | inr miss ↦ rw (miss, inner.0) (entry-remove-none k q es inner.1)
          ]

      pub entry-remove_same :
          (k : K) (es : Entries K V) → Distinct es → entry k (remove k es) ≡ none
      entry-remove_same k [] d = refl
      entry-remove_same k ((i, x, v) ∷ es) d = elim (Bool-cases (same x k)) [
        | inl hit ↦ rw hit (rw ((same_iff x k).0 hit) at d.0)
        | inr miss ↦ rw (miss, miss) (entry-remove_same k es d.1)
      ]

      pub remove-Distinct : (k : K) (es : Entries K V) → Distinct es → Distinct (remove k es)
      remove-Distinct k [] d = tt
      remove-Distinct k ((i, x, v) ∷ es) d = elim (Bool-cases (same x k)) [
        | inl hit ↦ rw hit d.1
        | inr miss ↦ rw miss (entry-remove-none k x es d.0, remove-Distinct k es d.1)
      ]

      pub remove-Descending :
          (b : ℕ) (k : K) (es : Entries K V) → Descending b es → Descending b (remove k es)
      remove-Descending b k [] d = tt
      remove-Descending b k ((i, x, v) ∷ es) d = elim (Bool-cases (same x k)) [
        | inl hit ↦ rw hit (Descending-weaken i b es (omega (arith, d.0)) d.1)
        | inr miss ↦ rw miss (d.0, remove-Descending i k es d.1)
      ]

      pub remove-none : (k : K) (es : Entries K V) → entry k es ≡ none → remove k es ≡ es
      remove-none k [] h = refl
      remove-none k ((i, x, v) ∷ es) h =
          let inner = entry-none_cons k i x v es h in
          rw inner.0 (ap (◌∷◌ (i, x, v)) (remove-none k es inner.1))

      pub length-remove :
          (k : K) (es : Entries K V) {r : LruRecord V}
          → entry k es ≡ some r
          → length (remove k es) + 1 ≡ length es
      length-remove k [] h = absurd (cc h)
      length-remove k ((i, x, v) ∷ es) h = elim (Bool-cases (same x k)) [
        | inl hit ↦ rw hit (omega arith)
        | inr miss ↦ rw miss (omega (arith, length-remove k es (rw miss at h)))
      ]

      -- What the map holds once `k` has a new record.
      pub entry-front :
          (i : ℕ) (k q : K) (v : V) (es : Entries K V)
          → (if same k q then some (record { item = v; lru_it = i }) else entry q es)
            ≡ entry q ((i, k, v) ∷ remove k es)
      entry-front i k q v es = elim (Bool-cases (same k q)) [
        | inl hit ↦ rw hit refl
        | inr miss ↦ rw miss (sym (entry-remove_other k q es miss))
      ]

      -- What the map holds once `k` is erased.
      pub entry-erased :
          (k q : K) (es : Entries K V)
          → Distinct es
          → (if same k q then none else entry q es) ≡ entry q (remove k es)
      entry-erased k q es d = elim (Bool-cases (same k q)) [
        | inl hit ↦ rw hit (
            sym (
              ap (λ z. entry z (remove k es)) (sym ((same_iff k q).0 hit))
              ∙ entry-remove_same k es d))
        | inr miss ↦ rw miss (sym (entry-remove_other k q es miss))
      ]
