-- ===== src/Tpevent/Clients/Open.antt =====
-- Lists of descriptors: which are open, and which are apart from others.
use technopark_cpp.Descriptor.Balance.{NotOpen}
use technopark_cpp.Tpevent.Clients.Distinct.{Distinct, eqb_ℤ-swap}
use technopark_cpp.Descriptor.{close_sd}
use technopark_cpp.Prelude.{
  Bool-cases, List, [], eqb_ℤ, eqb_ℤ_iff, false, inl, inr, sym, true, ℤ, ◌++◌, ◌∙◌, ◌∷◌, ◌≡◌, ◌⊎◌,
}

abbrev pub IsOpen : ℤ → List ℤ → Type 0
IsOpen sd [] = ⊥
IsOpen sd (x ∷ xs) = (eqb_ℤ x sd ≡ true) ⊎ IsOpen sd xs

abbrev pub AllOpen : List ℤ → List ℤ → Type 0
AllOpen [] open_sds = Unit {0}
AllOpen (x ∷ xs) open_sds = IsOpen x open_sds × AllOpen xs open_sds

-- No descriptor of the first list is in the second.
abbrev pub Apart : List ℤ → List ℤ → Type 0
Apart [] ys = Unit {0}
Apart (x ∷ xs) ys = NotOpen x ys × Apart xs ys

pub IsOpen-apart : (x sd : ℤ) (xs : List ℤ) → IsOpen x xs → NotOpen sd xs → eqb_ℤ x sd ≡ false
IsOpen-apart x sd [] m n = elim m [ ]
IsOpen-apart x sd (y ∷ ys) (inl e) n = rw (sym ((eqb_ℤ_iff y x).0 e)) n.0
IsOpen-apart x sd (y ∷ ys) (inr m) n = IsOpen-apart x sd ys m n.1

pub AllOpen-NotOpen :
    (sd : ℤ) (xs open_sds : List ℤ) → AllOpen xs open_sds → NotOpen sd open_sds → NotOpen sd xs
AllOpen-NotOpen sd [] open_sds a n = tt
AllOpen-NotOpen sd (x ∷ xs) open_sds a n =
    (IsOpen-apart x sd open_sds a.0 n, AllOpen-NotOpen sd xs open_sds a.1 n)

pub AllOpen-more :
    (sd : ℤ) (xs open_sds : List ℤ) → AllOpen xs open_sds → AllOpen xs (sd ∷ open_sds)
AllOpen-more sd [] open_sds a = tt
AllOpen-more sd (x ∷ xs) open_sds a = (inr a.0, AllOpen-more sd xs open_sds a.1)

pub NotOpen-append :
    (sd : ℤ) (xs ys : List ℤ) → NotOpen sd xs → NotOpen sd ys → NotOpen sd (xs ++ ys)
NotOpen-append sd [] ys a b = b
NotOpen-append sd (x ∷ xs) ys a b = (a.0, NotOpen-append sd xs ys a.1 b)

pub Distinct-last : (sd : ℤ) (xs : List ℤ) → Distinct xs → NotOpen sd xs → Distinct (xs ++ sd ∷ [])
Distinct-last sd [] d n = (tt, tt)
Distinct-last sd (x ∷ xs) d n =
    (NotOpen-append x xs (sd ∷ []) d.0 (eqb_ℤ-swap sd x ∙ n.0, tt), Distinct-last sd xs d.1 n.1)

pub AllOpen-last :
    (sd : ℤ) (xs open_sds : List ℤ)
    → AllOpen xs open_sds
    → IsOpen sd open_sds
    → AllOpen (xs ++ sd ∷ []) open_sds
AllOpen-last sd [] open_sds a o = (o, tt)
AllOpen-last sd (x ∷ xs) open_sds a o = (a.0, AllOpen-last sd xs open_sds a.1 o)

pub Apart-append : (xs ys zs : List ℤ) → Apart xs ys → Apart xs zs → Apart xs (ys ++ zs)
Apart-append [] ys zs a b = tt
Apart-append (x ∷ xs) ys zs a b = (NotOpen-append x ys zs a.0 b.0, Apart-append xs ys zs a.1 b.1)

pub Apart-one : (sd : ℤ) (xs : List ℤ) → NotOpen sd xs → Apart xs (sd ∷ [])
Apart-one sd [] n = tt
Apart-one sd (x ∷ xs) n = ((eqb_ℤ-swap sd x ∙ n.0, tt), Apart-one sd xs n.1)

pub Apart-nil : (xs : List ℤ) → Apart xs []
Apart-nil [] = tt
Apart-nil (x ∷ xs) = (tt, Apart-nil xs)

-- Closing the descriptors of a list, in order
unfoldable pub close_all : List ℤ → List ℤ → List ℤ
close_all [] open_sds = open_sds
close_all (sd ∷ sds) open_sds = close_all sds (close_sd sd open_sds)

IsOpen-close_sd :
    (x sd : ℤ) (open_sds : List ℤ)
    → IsOpen x open_sds
    → eqb_ℤ sd x ≡ false
    → IsOpen x (close_sd sd open_sds)
unfolding close_sd
IsOpen-close_sd x sd [] m n = elim m [ ]
IsOpen-close_sd x sd (y ∷ ys) (inl e) n =
    let differs : eqb_ℤ y sd ≡ false = rw ((eqb_ℤ_iff y x).0 e) (eqb_ℤ-swap x sd ∙ n) in
    rw differs (inl e)
IsOpen-close_sd x sd (y ∷ ys) (inr m) n = elim (Bool-cases (eqb_ℤ y sd)) [
  | inl e ↦ rw e (IsOpen-close_sd x sd ys m n)
  | inr e ↦ rw e (inr (IsOpen-close_sd x sd ys m n))
]

pub IsOpen-close_all :
    (x : ℤ) (sds open_sds : List ℤ)
    → IsOpen x open_sds
    → NotOpen x sds
    → IsOpen x (close_all sds open_sds)
unfolding close_all
IsOpen-close_all x [] open_sds m n = m
IsOpen-close_all x (sd ∷ sds) open_sds m n =
    IsOpen-close_all x sds (close_sd sd open_sds) (IsOpen-close_sd x sd open_sds m n.0) n.1

pub AllOpen-close_all :
    (xs sds open_sds : List ℤ)
    → AllOpen xs open_sds
    → Apart xs sds
    → AllOpen xs (close_all sds open_sds)
AllOpen-close_all [] sds open_sds a p = tt
AllOpen-close_all (x ∷ xs) sds open_sds a p =
    (IsOpen-close_all x sds open_sds a.0 p.0, AllOpen-close_all xs sds open_sds a.1 p.1)
