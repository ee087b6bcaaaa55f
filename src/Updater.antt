-- ===== src/Updater.antt =====
-- internal/updater/updater.go: versions and their order.
pub mod Fields
pub mod Order
pub mod Release
pub mod Install
pub mod Policy
pub mod Commands
pub mod Verified
pub mod Replaced
pub mod Newer
pub mod Waits
pub mod Disabled
mod Tests
mod Examples
use awp.Common.{
  ℕ, ◌+◌, ◌*◌, String, Bool, true, false, Option, some, none, List, [], ◌∷◌, Result, ok, err,
  is_empty, ltb, leb, ◌==◌, ◌&&◌, ◌||◌, not, if◌then◌else◌,
}
use awp.Common.Order.{text_lt}
use awp.Common.Numbers.{bias, atoi}
use Fields.{cut, split, trim_v}

pub record ParsedVersion : Type 0 where
  pub major : ℕ
  pub minor : ℕ
  pub patch : ℕ
  pub prerelease : List String

-- `compareVersions`'s -1, 0 and 1
pub data Comparison : Type 0 where
  less equal greater : Comparison

-- A part of the core: an `int` that is not negative
abbrev pub part : String → Option ℕ
part s = elim (atoi s) [ none ↦ none | some n ↦ if ltb n bias then none else some n ]

unfoldable pub parsed : List String → Option String → Option ParsedVersion
parsed (a ∷ b ∷ c ∷ []) behind = elim (part a) [
  | none ↦ none
  | some major ↦ elim (part b) [
    | none ↦ none
    | some minor ↦ elim (part c) [
      | none ↦ none
      | some patch ↦ elim behind [
        | none ↦ some (record { major = major; minor = minor; patch = patch; prerelease = [] })
        | some text ↦
            if text == ""
            then none
            else some
                (record { major = major; minor = minor; patch = patch; prerelease = split 46 text })
      ]
    ]
  ]
]
parsed _ behind = none

-- `parseVersion`
unfoldable pub parse_version : String → Option ParsedVersion
parse_version text =
    let (core, behind) = cut 45 (cut 43 (trim_v text)).0 in parsed (split 46 core) behind

abbrev pub order : Bool → Bool → Comparison
order lt gt = if lt then less else if gt then greater else equal

-- The first comparison that is not `equal`.
abbrev pub first_of : Comparison → Comparison → Comparison
first_of less c = less
first_of equal c = c
first_of greater c = greater

-- One round of the loop over the prerelease.
abbrev pub compare_numbers : String → String → Option ℕ → Option ℕ → Comparison
compare_numbers x y (some m) (some n) = order (ltb m n) (ltb n m)
compare_numbers x y (some m) none = less
compare_numbers x y none (some n) = greater
compare_numbers x y none none = order (text_lt x y) (text_lt y x)

unfoldable pub compare_identifier : String → String → Comparison
compare_identifier x y = compare_numbers x y (atoi x) (atoi y)

-- The loop over the prerelease.
unfoldable pub compare_prerelease : List String → List String → Comparison
compare_prerelease [] [] = equal
compare_prerelease [] (y ∷ ys) = less
compare_prerelease (x ∷ xs) [] = greater
compare_prerelease (x ∷ xs) (y ∷ ys) = first_of (compare_identifier x y) (compare_prerelease xs ys)

-- A version without a prerelease comes behind all those with one.
abbrev pub compare_release : List String → List String → Comparison
compare_release [] [] = equal
compare_release [] (y ∷ ys) = greater
compare_release (x ∷ xs) [] = less
compare_release (x ∷ xs) (y ∷ ys) = compare_prerelease (x ∷ xs) (y ∷ ys)

unfoldable pub compare_parsed : ParsedVersion → ParsedVersion → Comparison
compare_parsed a b = first_of (order (ltb a.major b.major) (ltb b.major a.major)) (
    first_of (order (ltb a.minor b.minor) (ltb b.minor a.minor)) (
      first_of (order (ltb a.patch b.patch) (ltb b.patch a.patch))
        (compare_release a.prerelease b.prerelease)))

abbrev pub compare_results : Option ParsedVersion → Option ParsedVersion → Option Comparison
compare_results none b = none
compare_results (some a) none = none
compare_results (some a) (some b) = some (compare_parsed a b)

-- `CompareVersions`; none for an error
unfoldable pub compare_versions : String → String → Option Comparison
compare_versions left right = compare_results (parse_version left) (parse_version right)
