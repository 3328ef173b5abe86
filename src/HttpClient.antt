-- ===== src/HttpClient.antt =====
-- net/http_client/http_client.cpp: the query that the client sends. Texts are lists of bytes.
pub mod Host
mod Tests
use mathlib.Core.Option.{map as option_map}
use technopark_cpp.Prelude.{
  List, Option, Run, [], drop, if◌then◌else◌, length, none, ok, runtime_error, some, suc, throw, ℕ,
  ◌&&◌, ◌++◌, ◌+◌, ◌==◌, ◌∷◌,
}

-- The place of the first "//", as `find` gives it
unfoldable pub find_slashes : List ℕ → Option ℕ
find_slashes [] = none
find_slashes (x ∷ []) = none
find_slashes (x ∷ y ∷ rest) =
    let later = option_map suc (find_slashes (y ∷ rest)) in
    if x == 47 && y == 47 then some 0 else later

-- The bytes before the first '/', or all: `substr(pos + 2, find("/", pos + 2) - pos - 2)`
unfoldable pub until_slash : List ℕ → List ℕ
until_slash [] = []
until_slash (x ∷ xs) = let rest = x ∷ until_slash xs in if x == 47 then [] else rest

-- struct HttpQuery
pub record HttpQuery : Type 0 where
  pub query : List ℕ
  pub host : List ℕ

-- "GET ", " HTTP/1.1\r\n" and "Host: "
abbrev pub get_word : List ℕ
get_word = 71 ∷ 69 ∷ 84 ∷ 32 ∷ []

abbrev pub version_words : List ℕ
version_words = 32 ∷ 72 ∷ 84 ∷ 84 ∷ 80 ∷ 47 ∷ 49 ∷ 46 ∷ 49 ∷ 13 ∷ 10 ∷ []

abbrev pub host_word : List ℕ
host_word = 72 ∷ 111 ∷ 115 ∷ 116 ∷ 58 ∷ 32 ∷ []

abbrev pub new_line : List ℕ
new_line = 13 ∷ 10 ∷ []

-- The text of the query
abbrev pub query_text : List ℕ → List ℕ → List ℕ
query_text response host =
    (get_word ++ (response ++ version_words)) ++ ((host_word ++ (host ++ new_line)) ++ new_line)

-- make_query
unfoldable pub make_query : List ℕ → Run HttpQuery
make_query response = elim (find_slashes response) [
  | none ↦ throw (runtime_error "bad query")
  | some place ↦
      let host = until_slash (drop (place + 2) response) in
      if length host == 0
      then throw (runtime_error "bad query")
      else ok (record { query = query_text response host; host = host })
]
