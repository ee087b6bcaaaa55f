-- ===== src/Common/Order.antt =====
-- Go's `<` on strings: the order of the bytes, which is that of the code points.
use Prim.Native.Nat.{Ordering}
use Prim.Native.String.{String, [], ◌∷◌, compare}
use Prim.Native.String.compare
use mathlib.Core.Path.{◌≡◌, refl, ap}
use mathlib.Core.Bool.{Bool, true, false}
use mathlib.Core.Logic.{inl, inr}
use native.Mathlib.Omega.{arith}
use text.Mathlib.Text.{is_lt, ◌==◌}
use text.Mathlib.TextEquality.{path_by_compare, eq_iff}
use text.Mathlib.TextPositions.{compare_refl}
use awp.Common.Tests.{Bool-cases, if◌then◌else◌}

abbrev pub text_lt : String → String → Bool
text_lt s t = is_lt (compare s t)

pub text_lt_irrefl : (s : String) → text_lt s s ≡ false
text_lt_irrefl s = rw compare_refl

pub text_lt_trans : (s t u : String) → text_lt s t ≡ true → text_lt t u ≡ true → text_lt s u ≡ true
text_lt_trans [] [] u h k = k
text_lt_trans [] (d ∷ t) [] h k = cc (compare.cons-nil d t)
text_lt_trans [] (d ∷ t) (e ∷ u) h k = rw compare.nil-cons
text_lt_trans (c ∷ s) [] u h k = cc (compare.cons-nil c s)
text_lt_trans (c ∷ s) (d ∷ t) [] h k = cc (compare.cons-nil d t)
text_lt_trans (c ∷ s) (d ∷ t) (e ∷ u) h k = ground (
  arith,
  text_lt_trans s t u,
  compare.cons-cons c d s t,
  compare.cons-cons d e t u,
  compare.cons-cons c e s u,
  path_by_compare s t,
  path_by_compare t u,
)

compare-eq_of_not-lt :
    (s t : String) → text_lt s t ≡ false → text_lt t s ≡ false → compare s t ≡ Ordering.eq
compare-eq_of_not-lt [] [] h k = refl
compare-eq_of_not-lt [] (d ∷ t) h k = cc (compare.nil-cons d t)
compare-eq_of_not-lt (c ∷ s) [] h k = cc (compare.nil-cons c s)
compare-eq_of_not-lt (c ∷ s) (d ∷ t) h k =
    ground (arith, compare-eq_of_not-lt s t, compare.cons-cons c d s t, compare.cons-cons d c t s)

pub text_lt_total : (s t : String) → text_lt s t ≡ false → text_lt t s ≡ false → s ≡ t
text_lt_total s t h k = path_by_compare s t (compare-eq_of_not-lt s t h k)

pub text_lt_asym : (s t : String) → text_lt s t ≡ true → text_lt t s ≡ false
text_lt_asym s t h = elim (Bool-cases (text_lt t s)) [
  | inl e ↦ cc (text_lt_trans s t s h e, text_lt_irrefl s)
  | inr e ↦ e
]

pub text_lt_neg_trans :
    (s t u : String) → text_lt s t ≡ false → text_lt t u ≡ false → text_lt s u ≡ false
text_lt_neg_trans s t u h k = elim (Bool-cases (text_lt s u)) [
  | inr e ↦ e
  | inl e ↦ elim (Bool-cases (text_lt t s)) [
    | inl f ↦ cc (text_lt_trans t s u f e, k)
    | inr f ↦ cc (ap (λ z. text_lt z u) (text_lt_total s t h f), k)
  ]
]

-- The order of pairs of texts by the first, and by the second where the first are equal.
abbrev pub pair_lt : String → String → String → String → Bool
pair_lt a b a' b' = if a == a' then text_lt b b' else text_lt a a'

pub pair_lt_asym : (a b a' b' : String) → pair_lt a b a' b' ≡ true → pair_lt a' b' a b ≡ false
pair_lt_asym a b a' b' h =
    ground (arith, eq_iff a a', eq_iff a' a, text_lt_asym a a', text_lt_asym b b')

pub pair_lt_neg_trans :
    (a b a' b' a'' b'' : String)
    → pair_lt a b a' b' ≡ false
    → pair_lt a' b' a'' b'' ≡ false
    → pair_lt a b a'' b'' ≡ false
pair_lt_neg_trans a b a' b' a'' b'' h k = ground (
  arith,
  eq_iff a a',
  eq_iff a' a'',
  eq_iff a a'',
  text_lt_total a a',
  text_lt_neg_trans a a' a'',
  text_lt_neg_trans b b' b'',
)
