-- ===== src/Tpevent/Clients.antt =====
-- net/libtpevent/src: how the loops of select.cpp, poll.cpp and poll_async.cpp take a client out of
-- their vector, `std::find_if`, `assert` and `erase`. Of the elements only the descriptor matters here.
pub mod Distinct
pub mod Open
use technopark_cpp.Prelude.{List, Run, [], eqb_ℤ, if◌then◌else◌, ok, undefined, ℤ, ◌>>=◌, ◌∷◌}

module _ {A : Type 0} (sd_of : A → ℤ) where
  -- The first element with the descriptor `sd` goes. Where there is none the assertion fails, and
  -- without assertions `erase(end())` is undefined.
  unfoldable pub erase_sd : ℤ → List A → Run (List A)
  erase_sd sd [] = undefined
  erase_sd sd (x ∷ xs) =
      let rest = erase_sd sd xs >>= λ left. ok (x ∷ left) in
      if eqb_ℤ (sd_of x) sd then ok xs else rest

  -- `for (size_t i = 0; i < disconnected_clients.size(); ++i)`
  unfoldable pub erase_sds : List ℤ → List A → Run (List A)
  erase_sds [] xs = ok xs
  erase_sds (sd ∷ sds) xs = erase_sd sd xs >>= λ left. erase_sds sds left
