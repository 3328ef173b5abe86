-- ===== src/HttpClient/Tests.antt =====
-- The query for http://ya.ru/a.
use technopark_cpp.HttpClient.Host.{make_query-host, slashes}
use technopark_cpp.HttpClient.{query_text, make_query}
use technopark_cpp.Prelude.{List, [], ok, refl, ℕ, ◌++◌, ◌∷◌, ◌≡◌}

abbrev http_scheme : List ℕ
http_scheme = 104 ∷ 116 ∷ 116 ∷ 112 ∷ 58 ∷ []

abbrev ya_ru_path : List ℕ
ya_ru_path = 47 ∷ 97 ∷ []

make_query-host_example :
    make_query (http_scheme ++ (slashes ++ ((121 ∷ 97 ∷ 46 ∷ 114 ∷ 117 ∷ []) ++ ya_ru_path)))
    ≡ ok (record {
      query =
          query_text
            (http_scheme ++ (slashes ++ ((121 ∷ 97 ∷ 46 ∷ 114 ∷ 117 ∷ []) ++ ya_ru_path)))
            (121 ∷ 97 ∷ 46 ∷ 114 ∷ 117 ∷ []);
      host = 121 ∷ 97 ∷ 46 ∷ 114 ∷ 117 ∷ [];
    })
make_query-host_example =
    make_query-host http_scheme 121 (97 ∷ 46 ∷ 114 ∷ 117 ∷ []) ya_ru_path
      (refl, (refl, (refl, (refl, (refl, tt))))) (refl, (refl, (refl, (refl, (refl, tt))))) refl
