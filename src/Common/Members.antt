-- ===== src/Common/Members.antt =====
-- Membership in the part of a list that passes a test, and in a sorted list.
use mathlib.Core.Path.{◌≡◌}
use mathlib.Core.Bool.{Bool, true}
use mathlib.Core.Logic.{inl, inr}
use mathlib.Core.Logic.Or
use mathlib.Core.List.{
  List, [], ◌∷◌, Mem, Mem-prop, mem-cons, not-mem-nil, mem-cons_self, mem-cons_of_mem,
}
use awp.Common.Tests.{Bool-cases}
use awp.Common.Lists.{keep}

module _ {ℓ} {A : Type ℓ} (p : A → Bool) where
  pub mem_of_mem-keep : {c : A} (xs : List A) → Mem c (keep p xs) → Mem c xs
  mem_of_mem-keep [] m = absurd (not-mem-nil m)
  mem_of_mem-keep (x ∷ xs) m = elim (Bool-cases (p x)) [
    | inl e ↦
        Or.elim Mem-prop (mem-cons.0 (rw e at m)) (λ h. rw h mem-cons_self)
          (λ h. mem-cons_of_mem x (mem_of_mem-keep xs h))
    | inr e ↦ mem-cons_of_mem x (mem_of_mem-keep xs (rw e at m))
  ]

  pub passes_of_mem-keep : {c : A} (xs : List A) → Mem c (keep p xs) → p c ≡ true
  passes_of_mem-keep [] m = absurd (not-mem-nil m)
  passes_of_mem-keep (x ∷ xs) m = elim (Bool-cases (p x)) [
    | inl e ↦ Or.elim (hlevel) (mem-cons.0 (rw e at m)) (λ h. rw h e) (λ h. passes_of_mem-keep xs h)
    | inr e ↦ passes_of_mem-keep xs (rw e at m)
  ]

  pub mem-keep : {c : A} (xs : List A) → Mem c xs → p c ≡ true → Mem c (keep p xs)
  mem-keep [] m h = absurd (not-mem-nil m)
  mem-keep {c} (x ∷ xs) m h = elim (Bool-cases (p x)) [
    | inl e ↦ rw e (
        Or.elim Mem-prop (mem-cons.0 m) (λ (k : c ≡ x). rw k mem-cons_self)
          (λ k. mem-cons_of_mem x (mem-keep xs k h)))
    | inr e ↦
        rw e (Or.elim Mem-prop (mem-cons.0 m) (λ (k : c ≡ x). absurd (cc)) (λ k. mem-keep xs k h))
  ]
