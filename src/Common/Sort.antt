-- ===== src/Common/Sort.antt =====
-- `sort.Strings` and `sort.Slice` of the standard library, as insertion sort. Where two elements
-- are equal under the order, `sort.Slice` promises nothing of their places; here they keep them.
use mathlib.Core.Path.{◌≡◌}
use mathlib.Core.Bool.{Bool, true, false}
use mathlib.Core.List.{List, [], ◌∷◌, Perm}
use mathlib.Core.List.Perm
use mathlib.Core.Logic.{◌≢◌, inl, inr}
use awp.Common.Tests.{if◌then◌else◌, Bool-cases}
use awp.Common.Lists.{All, All-mono}

-- No element stands twice.
abbrev pub IsDistinct {ℓ} : {A : Type ℓ} → List A → Type ℓ
IsDistinct [] = Unit
IsDistinct (x ∷ xs) = All (λ y. x ≢ y) xs × IsDistinct xs

module _ {ℓ} {A : Type ℓ} (lt : A → A → Bool) where
  unfoldable pub insert_by : A → List A → List A
  insert_by x [] = x ∷ []
  insert_by x (y ∷ ys) = let rest = insert_by x ys in if lt y x then y ∷ rest else x ∷ y ∷ ys

  unfoldable pub sort_by : List A → List A
  unfolding insert_by
  sort_by [] = []
  sort_by (x ∷ xs) = insert_by x (sort_by xs)

  -- No element stands behind a greater one.
  abbrev pub IsSorted : List A → Type ℓ
  IsSorted [] = Unit
  IsSorted (x ∷ xs) = All (λ y. lt y x ≡ false) xs × IsSorted xs

  -- Each element is less than all those behind it.
  abbrev pub IsAscending : List A → Type ℓ
  IsAscending [] = Unit
  IsAscending (x ∷ xs) = All (λ y. lt x y ≡ true) xs × IsAscending xs

  insert_by-perm : (x : A) (ys : List A) → Perm (insert_by x ys) (x ∷ ys)
  unfolding insert_by
  insert_by-perm x [] = Perm.rfl
  insert_by-perm x (y ∷ ys) = elim (Bool-cases (lt y x)) [
    | inl e ↦ rw e (Perm.trans (Perm.cons y (insert_by-perm x ys)) (Perm.swap x y ys))
    | inr e ↦ rw e Perm.rfl
  ]

  pub sort_by-perm : (xs : List A) → Perm (sort_by xs) xs
  unfolding sort_by
  sort_by-perm [] = Perm.rfl
  sort_by-perm (x ∷ xs) = Perm.trans (insert_by-perm x (sort_by xs)) (Perm.cons x (sort_by-perm xs))

  pub All-insert_by {κ} :
      (P : A → Type κ) (x : A) (ys : List A) → P x → All P ys → All P (insert_by x ys)
  unfolding insert_by
  All-insert_by P x [] h k = (h, tt)
  All-insert_by P x (y ∷ ys) h k = elim (Bool-cases (lt y x)) [
    | inl e ↦ rw e (k.0, All-insert_by P x ys h k.1)
    | inr e ↦ rw e (h, k)
  ]

  pub All-sort_by {κ} : (P : A → Type κ) (xs : List A) → All P xs → All P (sort_by xs)
  unfolding sort_by
  All-sort_by P [] h = tt
  All-sort_by P (x ∷ xs) h = All-insert_by P x (sort_by xs) h.0 (All-sort_by P xs h.1)

  module _ (trans : (a b c : A) → lt a b ≡ true → lt b c ≡ true → lt a c ≡ true)
      (total : (a b : A) → lt a b ≡ false → lt b a ≡ false → a ≡ b) where
    lt_of_ne : (x y : A) → x ≢ y → lt y x ≡ false → lt x y ≡ true
    lt_of_ne x y h k = elim (Bool-cases (lt x y)) [ inl e ↦ e | inr e ↦ absurd (h (total x y e k)) ]

    pub insert_by-IsAscending :
        (x : A) (ys : List A) → All (λ y. x ≢ y) ys → IsAscending ys → IsAscending (insert_by x ys)
    unfolding insert_by
    insert_by-IsAscending x [] h k = (tt, tt)
    insert_by-IsAscending x (y ∷ ys) h k = elim (Bool-cases (lt y x)) [
      | inl e ↦
          rw e (All-insert_by (λ z. lt y z ≡ true) x ys e k.0, insert_by-IsAscending x ys h.1 k.1)
      | inr e ↦
          let first = lt_of_ne x y h.0 e in
          rw e ((first, All-mono (λ z. trans x y z first) ys k.0), k)
    ]

    -- Sorting what has no element twice gives a strictly ascending list.
    pub sort_by-IsAscending : (xs : List A) → IsDistinct xs → IsAscending (sort_by xs)
    unfolding sort_by
    sort_by-IsAscending [] h = tt
    sort_by-IsAscending (x ∷ xs) h =
        insert_by-IsAscending x (sort_by xs) (All-sort_by (λ y. x ≢ y) xs h.0)
          (sort_by-IsAscending xs h.1)

  module _ (asym : (a b : A) → lt a b ≡ true → lt b a ≡ false)
      (trans : (a b c : A) → lt a b ≡ false → lt b c ≡ false → lt a c ≡ false) where
    insert_by-IsSorted : (x : A) (ys : List A) → IsSorted ys → IsSorted (insert_by x ys)
    unfolding insert_by
    insert_by-IsSorted x [] k = (tt, tt)
    insert_by-IsSorted x (y ∷ ys) k = elim (Bool-cases (lt y x)) [
      | inl e ↦
          rw e
            (All-insert_by (λ z. lt z y ≡ false) x ys (asym y x e) k.0, insert_by-IsSorted x ys k.1)
      | inr e ↦ rw e ((e, All-mono (λ z h. trans z y x h e) ys k.0), k)
    ]

    -- With `lt` a strict weak order, the result is in order.
    pub sort_by-IsSorted : (xs : List A) → IsSorted (sort_by xs)
    unfolding sort_by
    sort_by-IsSorted [] = tt
    sort_by-IsSorted (x ∷ xs) = insert_by-IsSorted x (sort_by xs) (sort_by-IsSorted xs)
