-- ===== src/HttpClient/Host.antt =====
-- The host that make_query takes out of an address.
use technopark_cpp.HttpClient.{until_slash, query_text, find_slashes, make_query}
use technopark_cpp.Prelude.{
  List, [], ap, arith, drop, false, length, ok, refl, some, suc, true, ℕ, ◌++◌, ◌+◌, ◌==◌, ◌∙◌, ◌∷◌,
  ◌≡◌,
}

abbrev pub NoSlash : List ℕ → Type 0
NoSlash [] = Unit {0}
NoSlash (x ∷ xs) = ((x == 47) ≡ false) × NoSlash xs

abbrev pub slashes : List ℕ
slashes = 47 ∷ 47 ∷ []

-- What may follow the host: nothing, or a path
abbrev pub IsPath : List ℕ → Type 0
IsPath [] = Unit {0}
IsPath (x ∷ xs) = (x == 47) ≡ true

until_slash-host :
    (host path : List ℕ) → NoSlash host → IsPath path → until_slash (host ++ path) ≡ host
unfolding until_slash
until_slash-host [] [] n p = refl
until_slash-host [] (x ∷ path) n p = rw p refl
until_slash-host (x ∷ host) path n p = rw (n.0, until_slash-host host path n.1 p) refl

find_slashes-scheme :
    (scheme rest : List ℕ)
    → NoSlash scheme
    → find_slashes (scheme ++ (slashes ++ rest)) ≡ some (length scheme)
unfolding find_slashes
find_slashes-scheme [] rest n = refl
find_slashes-scheme (x ∷ []) rest n = rw n.0 refl
find_slashes-scheme (x ∷ y ∷ scheme) rest n =
    rw (n.0, find_slashes-scheme (y ∷ scheme) rest n.1) refl

drop-scheme : (scheme rest : List ℕ) → drop (length scheme + 2) (scheme ++ (slashes ++ rest)) ≡ rest
drop-scheme [] rest = refl
drop-scheme (x ∷ scheme) rest =
    let more : length (x ∷ scheme) + 2 ≡ suc (length scheme + 2) = omega arith in
    rw more (drop-scheme scheme rest)

make_query-found :
    (response : List ℕ) (place : ℕ) (host : List ℕ)
    → find_slashes response ≡ some place
    → until_slash (drop (place + 2) response) ≡ host
    → (length host == 0) ≡ false
    → make_query response ≡ ok (record { query = query_text response host; host = host })
unfolding make_query
make_query-found response place host e u n = rw (e, make_query, u, n) refl

-- For an address made of a scheme without slashes, two slashes, a host of at least one byte without
-- slashes, and nothing or a path, make_query returns the host and the query for the whole address.
pub make_query-host :
    (scheme : List ℕ) (h : ℕ) (hs path : List ℕ)
    → NoSlash scheme
    → NoSlash (h ∷ hs)
    → IsPath path
    → make_query (scheme ++ (slashes ++ ((h ∷ hs) ++ path)))
      ≡ ok (record {
        query = query_text (scheme ++ (slashes ++ ((h ∷ hs) ++ path))) (h ∷ hs);
        host = h ∷ hs;
      })
make_query-host scheme h hs path s n p =
    let response = scheme ++ (slashes ++ ((h ∷ hs) ++ path)) in
    let rest = drop-scheme scheme ((h ∷ hs) ++ path) in
    make_query-found response (length scheme) (h ∷ hs)
      (find_slashes-scheme scheme ((h ∷ hs) ++ path) s)
      (ap until_slash rest ∙ until_slash-host (h ∷ hs) path n p) (ground arith)
