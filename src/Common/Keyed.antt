-- ===== src/Common/Keyed.antt =====
-- The loops over a slice that look for the first match: find it, replace it, or append.
use mathlib.Core.Path.{subst, ◌≡◌, refl}
use mathlib.Core.Bool.{Bool, true, false}
use mathlib.Core.List.{List, [], ◌∷◌, ◌++◌}
use mathlib.Core.Logic.{inl, inr}
use mathlib.Core.Option
use mathlib.Core.Option.{Option, none, some}
use native.Mathlib.Omega.{arith}
use awp.Common.Tests.{if◌then◌else◌, Bool-cases}
use awp.Common.Lists.{
  All, All-get_elem?, All-remove_at, get_elem?, remove_at, All-mono, length, drop,
}
use Prim.Native.Nat.{ℕ, zero, suc}

module _ {ℓ} {A : Type ℓ} where
  -- The first element that passes the test.
  unfoldable pub find_first : (A → Bool) → List A → Option A
  find_first p [] = none
  find_first p (x ∷ xs) = let rest = find_first p xs in if p x then some x else rest

  -- The list with that element replaced; `none` if there is none.
  unfoldable pub replace_first : (A → Bool) → A → List A → Option (List A)
  replace_first p a [] = none
  replace_first p a (x ∷ xs) =
      let rest = replace_first p a xs in if p x then some (a ∷ xs) else Option.map (◌∷◌ x) rest

  -- Replace the first match in place, or append.
  unfoldable pub upsert : (A → Bool) → A → List A → List A
  unfolding replace_first
  upsert p a xs = elim (replace_first p a xs) [ none ↦ xs ++ a ∷ [] | some ys ↦ ys ]

  pub find_first-holds :
      (p : A → Bool) (xs : List A) {a : A} → find_first p xs ≡ some a → p a ≡ true
  unfolding find_first
  find_first-holds p [] h = absurd (ground arith)
  find_first-holds p (x ∷ xs) {a} h = ground (arith, find_first-holds p xs {a = a})

  pub All-find_first {κ} :
      (P : A → Type κ) (p : A → Bool) (xs : List A) {a : A}
      → All P xs
      → find_first p xs ≡ some a
      → P a
  unfolding find_first
  All-find_first P p [] k h = absurd (ground arith)
  All-find_first P p (x ∷ xs) {a} k h = ground (arith, All-find_first P p xs {a = a} k.1)

  pub upsert_hit :
      (p : A → Bool) (a x : A) (xs : List A) → p x ≡ true → upsert p a (x ∷ xs) ≡ a ∷ xs
  unfolding upsert
  upsert_hit p a x xs h = ground arith

  pub upsert_miss :
      (p : A → Bool) (a x : A) (xs : List A) → p x ≡ false → upsert p a (x ∷ xs) ≡ x ∷ upsert p a xs
  unfolding upsert
  upsert_miss p a x xs h = ground arith

  pub All-upsert {κ} :
      (P : A → Type κ) (p : A → Bool) (a : A) (xs : List A) → P a → All P xs → All P (upsert p a xs)
  All-upsert P p a [] h k = unfold upsert in (h, tt)
  All-upsert P p a (x ∷ xs) h k = elim (Bool-cases (p x)) [
    | inl e ↦ rw (upsert_hit p a x xs e) (h, k.1)
    | inr e ↦ rw (upsert_miss p a x xs e) (k.0, All-upsert P p a xs h k.1)
  ]

  -- What was put in is what is found.
  pub find_first-upsert_self :
      (p : A → Bool) (a : A) (xs : List A) → p a ≡ true → find_first p (upsert p a xs) ≡ some a
  unfolding find_first upsert
  find_first-upsert_self p a [] h = ground arith
  find_first-upsert_self p a (x ∷ xs) h = ground (arith, find_first-upsert_self p a xs h)

  -- A search for what the replaced element and the new one are not finds what it found.
  pub find_first-upsert_ne :
      (p q : A → Bool) (a : A) (xs : List A)
      → q a ≡ false
      → ((x : A) → p x ≡ true → q x ≡ false)
      → find_first q (upsert p a xs) ≡ find_first q xs
  unfolding find_first upsert
  find_first-upsert_ne p q a [] h d = ground arith
  find_first-upsert_ne p q a (x ∷ xs) h d = ground (arith, d x, find_first-upsert_ne p q a xs h d)

  -- With no match the element is appended, and with a match the length stays.
  pub upsert_absent :
      (p : A → Bool) (a : A) (xs : List A) → find_first p xs ≡ none → upsert p a xs ≡ xs ++ a ∷ []
  unfolding find_first upsert
  upsert_absent p a [] h = refl
  upsert_absent p a (x ∷ xs) h = ground (arith, upsert_absent p a xs)

  pub length-upsert_present :
      (p : A → Bool) (a b : A) (xs : List A)
      → find_first p xs ≡ some b
      → length (upsert p a xs) ≡ length xs
  unfolding find_first upsert
  length-upsert_present p a b [] h = absurd (ground arith)
  length-upsert_present p a b (x ∷ xs) h = ground (arith, length-upsert_present p a b xs)

-- No two elements have the same key.
abbrev pub IsUnique {ℓ} : {A : Type ℓ} → (A → A → Bool) → List A → Type 0
IsUnique same [] = Unit
IsUnique same (x ∷ xs) = All (λ y. same x y ≡ false) xs × IsUnique same xs

-- Equality of keys as a Boolean test.
pub record IsSame {ℓ} {A : Type ℓ} (same : A → A → Bool) : Type ℓ where
  pub symm : (x y : A) → same x y ≡ true → same y x ≡ true
  pub trans : (x y z : A) → same x y ≡ true → same y z ≡ true → same x z ≡ true

module _ {ℓ} {A : Type ℓ} {same : A → A → Bool} (e : IsSame same) where
  same-false : (x y z : A) → same x y ≡ true → same x z ≡ false → same y z ≡ false
  same-false x y z h k = elim (Bool-cases (same y z)) [ inl t ↦ cc (e.trans x y z h t) | inr t ↦ t ]

  same_symm_false : (x y : A) → same x y ≡ false → same y x ≡ false
  same_symm_false x y h = elim (Bool-cases (same y x)) [ inl t ↦ cc (e.symm y x t) | inr t ↦ t ]

  -- Replacing in place or appending keeps the keys distinct.
  pub IsUnique-upsert :
      (a : A) (xs : List A) → IsUnique same xs → IsUnique same (upsert (same a) a xs)
  IsUnique-upsert a [] u = unfold upsert in (tt, tt)
  IsUnique-upsert a (x ∷ xs) u = elim (Bool-cases (same a x)) [
    | inl t ↦
        rw (upsert_hit (same a) a x xs t)
          (All-mono (λ z. same-false x a z (e.symm a x t)) xs u.0, u.1)
    | inr t ↦ rw (upsert_miss (same a) a x xs t) (
      All-upsert (λ y. same x y ≡ false) (same a) a xs (same_symm_false a x t) u.0,
      IsUnique-upsert a xs u.1,
    )
  ]

pub IsUnique-drop {ℓ} :
    {A : Type ℓ} (same : A → A → Bool) (n : ℕ) (xs : List A)
    → IsUnique same xs
    → IsUnique same (drop n xs)
IsUnique-drop same zero xs u = u
IsUnique-drop same (suc n) [] u = tt
IsUnique-drop same (suc n) (x ∷ xs) u = IsUnique-drop same n xs u.1

module _ {ℓ} {A : Type ℓ} {same : A → A → Bool} (e : IsSame same) where
  -- None of the others has the key of the element that is taken out.
  pub IsUnique-others :
      (i : ℕ) (xs : List A) {a : A}
      → IsUnique same xs
      → get_elem? xs i ≡ some a
      → All (λ y. same a y ≡ false) (remove_at i xs)
  IsUnique-others i [] u h = tt
  IsUnique-others zero (x ∷ xs) {a} u h =
      let here : x ≡ a = cc in subst (λ z. All (λ y. same z y ≡ false) xs) here u.0
  IsUnique-others (suc i) (x ∷ xs) {a} u h = (
    same_symm_false e x a (All-get_elem? (λ y. same x y ≡ false) xs i u.0 h),
    IsUnique-others i xs u.1 h,
  )

pub IsUnique-remove_at {ℓ} :
    {A : Type ℓ} (same : A → A → Bool) (i : ℕ) (xs : List A)
    → IsUnique same xs
    → IsUnique same (remove_at i xs)
IsUnique-remove_at same i [] u = tt
IsUnique-remove_at same zero (x ∷ xs) u = u.1
IsUnique-remove_at same (suc i) (x ∷ xs) u =
    (All-remove_at (λ y. same x y ≡ false) i xs u.0, IsUnique-remove_at same i xs u.1)
