-- ===== src/Updater/Order.antt =====
-- internal/updater/updater.go: `CompareVersions` of two versions, both ways round.
use awp.Common.{ℕ, String, Option, some, none, List, [], ◌∷◌, ltb, ◌≡◌, refl, ap, arith}
use awp.Common.Order.{text_lt, text_lt_asym}
use awp.Updater.{
  ParsedVersion, Comparison, less, equal, greater, parse_version, order, first_of, compare_numbers,
  compare_identifier, compare_prerelease, compare_release, compare_parsed, compare_results,
  compare_versions,
}
use awp.Common.Numbers.{atoi}

abbrev pub opposite : Comparison → Comparison
opposite less = greater
opposite equal = equal
opposite greater = less

first_of-opposite :
    (a b a' b' : Comparison)
    → a' ≡ opposite a
    → b' ≡ opposite b
    → first_of a' b' ≡ opposite (first_of a b)
first_of-opposite less b a' b' h k = rw h
first_of-opposite equal b a' b' h k = rw (h, k)
first_of-opposite greater b a' b' h k = rw h

order-opposite : (m n : ℕ) → order (ltb n m) (ltb m n) ≡ opposite (order (ltb m n) (ltb n m))
order-opposite m n = ground arith

text-opposite :
    (x y : String)
    → order (text_lt y x) (text_lt x y) ≡ opposite (order (text_lt x y) (text_lt y x))
text-opposite x y = ground (arith, text_lt_asym x y)

compare_numbers-opposite :
    (x y : String) (m n : Option ℕ) → compare_numbers y x n m ≡ opposite (compare_numbers x y m n)
compare_numbers-opposite x y (some m) (some n) = order-opposite m n
compare_numbers-opposite x y (some m) none = refl
compare_numbers-opposite x y none (some n) = refl
compare_numbers-opposite x y none none = text-opposite x y

compare_prerelease-opposite :
    (xs ys : List String) → compare_prerelease ys xs ≡ opposite (compare_prerelease xs ys)
unfolding compare_prerelease compare_identifier
compare_prerelease-opposite [] [] = refl
compare_prerelease-opposite [] (y ∷ ys) = refl
compare_prerelease-opposite (x ∷ xs) [] = refl
compare_prerelease-opposite (x ∷ xs) (y ∷ ys) =
    first_of-opposite _ _ _ _ (compare_numbers-opposite x y (atoi x) (atoi y))
      (compare_prerelease-opposite xs ys)

compare_release-opposite :
    (xs ys : List String) → compare_release ys xs ≡ opposite (compare_release xs ys)
compare_release-opposite [] [] = refl
compare_release-opposite [] (y ∷ ys) = refl
compare_release-opposite (x ∷ xs) [] = refl
compare_release-opposite (x ∷ xs) (y ∷ ys) = compare_prerelease-opposite (x ∷ xs) (y ∷ ys)

compare_parsed-opposite : (a b : ParsedVersion) → compare_parsed b a ≡ opposite (compare_parsed a b)
unfolding compare_parsed
compare_parsed-opposite a b = first_of-opposite _ _ _ _ (order-opposite a.major b.major) (
    first_of-opposite _ _ _ _ (order-opposite a.minor b.minor) (
      first_of-opposite _ _ _ _ (order-opposite a.patch b.patch)
        (compare_release-opposite a.prerelease b.prerelease)))

abbrev pub opposite_of : Option Comparison → Option Comparison
opposite_of none = none
opposite_of (some c) = some (opposite c)

compare_results-opposite :
    (a b : Option ParsedVersion) → compare_results b a ≡ opposite_of (compare_results a b)
compare_results-opposite none none = refl
compare_results-opposite none (some b) = refl
compare_results-opposite (some a) none = refl
compare_results-opposite (some a) (some b) = ap some (compare_parsed-opposite a b)

-- `CompareVersions` of two texts fails if and only if it fails of them the other way round, and
-- else it gives the opposite: what is newer than a version is not older than it.
pub compare_versions-opposite :
    (left right : String) → compare_versions right left ≡ opposite_of (compare_versions left right)
unfolding compare_versions
compare_versions-opposite left right =
    compare_results-opposite (parse_version left) (parse_version right)
