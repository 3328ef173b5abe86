-- ===== src/LruCache/Refine.antt =====
-- A cache behaves as the list of the last keys inserted.
use technopark_cpp.LruCache.{
  Iterator, erase_at, LruCache, LruRecord, create, find, insert, evict, size, is_empty, clear,
}
use technopark_cpp.LruCache.Calls.{
  insert_call, size_call, find_call, clear_call, empty_call, Call, spec_find, spec_insert, answers,
  spec_remove, run,
}
use technopark_cpp.UnorderedMap.{UnorderedMap}
use technopark_cpp.LruCache.Entries.{
  entry-erased, entry-front, remove-none, length-remove, remove-Distinct, remove-Descending,
  entry-remove_same, Distinct, entry, Descending, Entries, pairs, remove, nodes,
}
use technopark_cpp.LruCache.Drop.{oldest, erase_at-remove, entry-below}
use technopark_cpp.Prelude.{
  Bool, Bool-cases, List, Option-cases, Returns, Returns-map, [], ap, ap₂, arith, false,
  if◌then◌else◌, inl, inr, length, length-take_le, ltb, none, ok, refl, some, some_of, subst, suc,
  sym, take, take-all, true, zero, ℕ, ◌+◌, ◌<◌, ◌==◌, ◌↔◌, ◌∙◌, ◌∷◌, ◌≡◌, ◌≢◌, ◌≤◌,
}

nothing-kept : {X : Type 0} (n : ℕ) (xs ys : List X) → n ≡ 0 → length xs ≤ n → xs ≡ take n ys
nothing-kept zero [] ys e h = refl
nothing-kept zero (x ∷ xs) ys e h = absurd (omega arith)
nothing-kept (suc n) xs ys e h = absurd (omega arith)

module _ {K V M : Type 0} {same : K → K → Bool} (same_iff : (x y : K) → (same x y ≡ true) ↔ (x ≡ y))
    (map : UnorderedMap K (LruRecord V) M same) where
  -- The members hold the entries `es`, newest first.
  record Holds (n : ℕ) (c : LruCache K M) (es : Entries K V) : Type 0 where
    capacity : c.max_size ≡ n
    list : c.lru ≡ nodes es
    stored : (q : K) → map.lookup c.cache q ≡ entry same q es
    total : map.size c.cache ≡ length es
    names : Descending c.next_name es
    distinct : Distinct same es

  -- The members hold the keys `xs` with their items, and there are at most `n`.
  abbrev Represents : ℕ → List (K × V) → LruCache K M → Type 0
  Represents n xs c = (es : Entries K V) × Holds n c es × (length es ≤ n) × (pairs es ≡ xs)

  pairs-take : (n : ℕ) (es : Entries K V) → pairs (take n es) ≡ take n (pairs es)
  pairs-take zero es = refl
  pairs-take (suc n) [] = refl
  pairs-take (suc n) (e ∷ es) = ap (◌∷◌ (e.1, e.2)) (pairs-take n es)

  pairs-remove :
      (k : K) (es : Entries K V) → pairs (remove same k es) ≡ spec_remove same k (pairs es)
  unfolding spec_remove
  pairs-remove k [] = refl
  pairs-remove k ((i, x, v) ∷ es) = elim (Bool-cases (same x k)) [
    | inl hit ↦ rw hit refl
    | inr miss ↦ rw miss (ap (◌∷◌ (x, v)) (pairs-remove k es))
  ]

  length-pairs : (es : Entries K V) → length (pairs es) ≡ length es
  length-pairs [] = refl
  length-pairs (e ∷ es) = ap suc (length-pairs es)

  find-pairs :
      (k : K) (es : Entries K V)
      → elim (entry same k es) [ none ↦ none | some r ↦ some r.item ] ≡ spec_find same k (pairs es)
  unfolding spec_find
  find-pairs k [] = refl
  find-pairs k ((i, x, v) ∷ es) = elim (Bool-cases (same x k)) [
    | inl hit ↦ rw hit refl
    | inr miss ↦ rw miss (find-pairs k es)
  ]

  -- A new entry in front, under a new name.
  front-Descending :
      (i : ℕ) (k : K) (v : V) (es : Entries K V)
      → Descending i es
      → Descending (i + 1) ((i, k, v) ∷ remove same k es)
  front-Descending i k v es d = (omega arith, remove-Descending same same_iff i k es d)

  front-Distinct :
      (i : ℕ) (k : K) (v : V) (es : Entries K V)
      → Distinct same es
      → Distinct same ((i, k, v) ∷ remove same k es)
  front-Distinct i k v es d =
      (entry-remove_same same same_iff k es d, remove-Distinct same same_iff k es d)

  front-pairs :
      (n i : ℕ) (k : K) (v : V) (es : Entries K V)
      → take n (pairs ((i, k, v) ∷ remove same k es)) ≡ spec_insert same n k v (pairs es)
  unfolding spec_insert
  front-pairs n i k v es = ap (λ z. take n ((k, v) ∷ z)) (pairs-remove k es)

  -- A key that is present moves to the front.
  refresh-Represents :
      (n : ℕ) (c : LruCache K M) (k : K) (v : V) (es : Entries K V) {old : LruRecord V}
      → Holds n c es
      → length es ≤ n
      → 0 < n
      → entry same k es ≡ some old
      → Returns (Represents n (spec_insert same n k v (pairs es))) (insert map c k v)
  unfolding insert erase_at
  refresh-Represents n c k v es {old} h room p present =
      let up : map.lookup c.cache k ≡ some old = h.stored k ∙ present in
      let there : map.lookup c.cache k ≢ none = rw up λ bad. cc bad in
      let rec : LruRecord V = record { item = v; lru_it = c.next_name } in
      let positive : (c.max_size == 0) ≡ false = ground (arith, h.capacity) in
      let other : (c.next_name == old.lru_it) ≡ false =
        ground (arith, entry-below same same_iff c.next_name k es h.names present) in
      let fewer = length-remove same same_iff k es present in
      let new : Entries K V = (c.next_name, k, v) ∷ remove same k es in
      let small : length new ≤ n = omega (arith, fewer, room) in
      let holds : Holds n
          (record {
            lru = nodes new;
            cache = map.assign c.cache k rec;
            max_size = c.max_size;
            next_name = c.next_name + 1;
          })
          new =
        record {
          capacity = h.capacity;
          list = refl;
          stored = λ q.
              map.lookup_assign c.cache k q rec there
              ∙ ap (λ z. if same k q then some rec else z) (h.stored q)
              ∙ entry-front same same_iff c.next_name k q v es;
          total = omega (arith, map.size_assign c.cache k rec there, h.total, fewer);
          names = front-Descending c.next_name k v es h.names;
          distinct = front-Distinct c.next_name k v es h.distinct;
        } in
      rw
        (
          positive,
          up,
          other,
          h.list,
          erase_at-remove same same_iff c.next_name k es h.names present,
        )
        (
          _,
          refl,
          (
            new,
            holds,
            small,
            sym (take-all n (pairs new) (omega (arith, length-pairs new, small)))
                ∙ front-pairs n c.next_name k v es,
          ),
        )

  -- With one entry too many the oldest goes, else all stay.
  evict-Holds :
      (n : ℕ) (c : LruCache K M) (e : Iterator × K × V) (es : Entries K V)
      → Holds n c (e ∷ es)
      → length es ≤ n
      → Returns (λ d. Holds n d (take n (e ∷ es))) (evict map c)
  unfolding evict
  evict-Holds n c e es h room = elim (Bool-cases (ltb n (suc (length es)))) [
    | inl full ↦
        let o = oldest same same_iff e es h.distinct in
        let there : map.lookup c.cache o.key ≢ none = rw (h.stored o.key) o.present in
        let exact : length es ≡ n = ground (arith, room) in
        let r = some_of (entry same o.key (e ∷ es)) o.present in
        let kept : remove same o.key (e ∷ es) ≡ take n (e ∷ es) =
          o.first ∙ ap (λ z. take z (e ∷ es)) exact in
        let left : LruCache K M = record {
          lru = nodes (remove same o.key (e ∷ es));
          cache = map.erase c.cache o.key;
          max_size = n;
          next_name = c.next_name;
        } in
        let holds : Holds n left (remove same o.key (e ∷ es)) = record {
          capacity = refl;
          list = refl;
          stored = λ q.
              map.lookup_erase c.cache o.key q
              ∙ ap (λ z. if same o.key q then none else z) (h.stored q)
              ∙ entry-erased same same_iff o.key q (e ∷ es) h.distinct;
          total = omega (
            arith,
            map.size_erase c.cache o.key there,
            h.total,
            length-remove same same_iff o.key (e ∷ es) r.1,
          );
          names = remove-Descending same same_iff c.next_name o.key (e ∷ es) h.names;
          distinct = remove-Distinct same same_iff o.key (e ∷ es) h.distinct;
        } in
        rw (h.capacity, h.total, full, h.list, o.back, o.dropped)
          (left, refl, subst (Holds n left) kept holds)
    | inr fits ↦
        let test : ltb c.max_size (map.size c.cache) ≡ false = ap₂ ltb h.capacity h.total ∙ fits in
        rw test (c, refl, rw (take-all n (e ∷ es) (ground arith)) h)
  ]

  -- A new key goes to the front, and the last key goes if there are too many.
  fresh-Represents :
      (n : ℕ) (c : LruCache K M) (k : K) (v : V) (es : Entries K V)
      → Holds n c es
      → length es ≤ n
      → 0 < n
      → entry same k es ≡ none
      → Returns (Represents n (spec_insert same n k v (pairs es))) (insert map c k v)
  unfolding insert
  fresh-Represents n c k v es h room p absent =
      let up : map.lookup c.cache k ≡ none = h.stored k ∙ absent in
      let rec : LruRecord V = record { item = v; lru_it = c.next_name } in
      let positive : (c.max_size == 0) ≡ false = ground (arith, h.capacity) in
      let e : Iterator × K × V = (c.next_name, k, v) in
      let pushed : LruCache K M = record {
        lru = (c.next_name, k) ∷ c.lru;
        cache = map.emplace c.cache k rec;
        max_size = c.max_size;
        next_name = c.next_name + 1;
      } in
      let holds : Holds n pushed (e ∷ es) = record {
        capacity = h.capacity;
        list = ap (◌∷◌ (c.next_name, k)) h.list;
        stored = λ q.
            map.lookup_emplace c.cache k q rec up
            ∙ ap (λ z. if same k q then some rec else z) (h.stored q);
        total = omega (arith, map.size_emplace c.cache k rec up, h.total);
        names = (omega arith, h.names);
        distinct = (absent, h.distinct);
      } in
      let in_order : pairs (take n (e ∷ es)) ≡ spec_insert same n k v (pairs es) =
        pairs-take n (e ∷ es)
        ∙ ap (λ z. take n ((k, v) ∷ pairs z)) (sym (remove-none same same_iff k es absent))
        ∙ front-pairs n c.next_name k v es in
      rw (positive, up)
        (Returns-map (evict-Holds n pushed e es holds room)
          λ d g. (take n (e ∷ es), g, length-take_le n (e ∷ es), in_order))

  -- A cache of size 0 keeps nothing.
  full-Represents :
      (n : ℕ) (c : LruCache K M) (k : K) (v : V) (es : Entries K V)
      → Holds n c es
      → length es ≤ n
      → n ≡ 0
      → Returns (Represents n (spec_insert same n k v (pairs es))) (insert map c k v)
  unfolding insert spec_insert
  full-Represents n c k v es h room e =
      let none_kept : (c.max_size == 0) ≡ true = ground (arith, h.capacity) in
      rw none_kept (
        c,
        refl,
        (es, h, room, nothing-kept n (pairs es) _ e (omega (arith, length-pairs es, room))),
      )

  insert-Represents :
      (n : ℕ) (c : LruCache K M) (k : K) (v : V) (xs : List (K × V))
      → Represents n xs c
      → Returns (Represents n (spec_insert same n k v xs)) (insert map c k v)
  insert-Represents n c k v xs (es, h, room, same_pairs) =
      let inserted : Returns (Represents n (spec_insert same n k v (pairs es))) (insert map c k v) =
        elim (Bool-cases (n == 0)) [
          | inl zero_size ↦ full-Represents n c k v es h room (ground arith)
          | inr positive ↦ elim (Option-cases (entry same k es)) [
            | inl absent ↦ fresh-Represents n c k v es h room (ground arith) absent
            | inr present ↦ refresh-Represents n c k v es h room (ground arith) present.1
          ]
        ] in
      rw same_pairs at inserted

  find-Represents :
      (n : ℕ) (c : LruCache K M) (k : K) (xs : List (K × V))
      → Represents n xs c
      → find map c k ≡ spec_find same k xs
  unfolding find
  find-Represents n c k xs (es, h, room, same_pairs) =
      rw (h.stored k, find) (find-pairs k es ∙ ap (spec_find same k) same_pairs)

  size-Represents :
      (n : ℕ) (c : LruCache K M) (xs : List (K × V)) → Represents n xs c → size map c ≡ length xs
  unfolding size
  size-Represents n c xs (es, h, room, same_pairs) =
      h.total ∙ sym (length-pairs es) ∙ ap length same_pairs

  clear-Represents :
      (n : ℕ) (c : LruCache K M) (xs : List (K × V))
      → Represents n xs c
      → Represents n [] (clear map c)
  unfolding clear
  clear-Represents n c xs (es, h, room, same_pairs) = (
    [],
    record {
      capacity = h.capacity;
      list = refl;
      stored = map.lookup_none_stored;
      total = map.size_none_stored;
      names = tt;
      distinct = tt;
    },
    omega arith,
    refl,
  )

  run-Represents :
      (n : ℕ) (c : LruCache K M) (xs : List (K × V)) (calls : List (Call K V))
      → Represents n xs c
      → run same map c calls ≡ ok (answers same n xs calls)
  unfolding run answers is_empty
  run-Represents n c xs [] r = refl
  run-Represents n c xs (insert_call k v ∷ calls) r =
      let next = insert-Represents n c k v xs r in
      rw (next.1, run-Represents n next.0 (spec_insert same n k v xs) calls next.2) refl
  run-Represents n c xs (find_call k ∷ calls) r =
      rw (run-Represents n c xs calls r, find-Represents n c k xs r) refl
  run-Represents n c xs (size_call ∷ calls) r =
      rw (run-Represents n c xs calls r, size-Represents n c xs r) refl
  run-Represents n c xs (empty_call ∷ calls) r =
      rw (run-Represents n c xs calls r, size-Represents n c xs r) refl
  run-Represents n c xs (clear_call ∷ calls) r =
      rw (run-Represents n (clear map c) [] calls (clear-Represents n c xs r)) refl

  -- A cache made by lru_cache(n) answers every script of insert, find, size, empty and clear as the
  -- list of the `n` last keys inserted does, each with its last item, whatever map it is built on.
  pub run-answers :
      (n : ℕ) (calls : List (Call K V))
      → run same map (create map n) calls ≡ ok (answers same n [] calls)
  unfolding create
  run-answers n calls = run-Represents n (create map n) [] calls (
    [],
    record {
      capacity = refl;
      list = refl;
      stored = map.lookup_none_stored;
      total = map.size_none_stored;
      names = tt;
      distinct = tt;
    },
    omega arith,
    refl,
  )
