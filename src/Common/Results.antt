-- ===== src/Common/Results.antt =====
-- A Go function that returns `(value, error)` returns a `Result`: the value, or the error.
use mathlib.Core.Path.{◌≡◌, refl}
use mathlib.Core.Bool.{Bool, true, false}
use mathlib.Core.Logic.{◌⊎◌, inl, inr}

pub data Result {ℓ κ} (E : Type ℓ) (A : Type κ) : Type (ℓ ⊔ κ) where
  err : E → Result E A
  ok : A → Result E A

-- Go on with the value, or return the error.
module _ {ℓ κ μ} {E : Type ℓ} {A : Type κ} {B : Type μ} where
  infixl 5 ◌>>=◌ ◌>>◌
  abbrev pub ◌>>=◌ : Result E A → (A → Result E B) → Result E B
  err failure >>= next = err failure
  ok value >>= next = next value

  abbrev pub ◌>>◌ : Result E A → Result E B → Result E B
  check >> next = check >>= λ _. next

  -- Inversion of a successful bind.
  pub >>=-eq-ok :
      (r : Result E A) (next : A → Result E B) {b : B}
      → (r >>= next) ≡ ok b
      → (a : A) × (r ≡ ok a) × (next a ≡ ok b)
  >>=-eq-ok (err failure) next e = cc
  >>=-eq-ok (ok value) next e = (value, refl, e)

  pub >>-eq-ok :
      (r : Result E A) (next : Result E B) {b : B}
      → (r >> next) ≡ ok b
      → (a : A) × (r ≡ ok a) × (next ≡ ok b)
  >>-eq-ok (err failure) next e = cc
  >>-eq-ok (ok value) next e = (value, refl, e)

-- `if test { return ..., failure }`
abbrev pub fail_if {ℓ} : {E : Type ℓ} → Bool → E → Result E (Unit {0})
fail_if test failure = elim test [ true ↦ err failure | false ↦ ok tt ]

module _ {ℓ κ} {E : Type ℓ} {A : Type κ} where
  pub Result-cases : (r : Result E A) → ((a : A) × (r ≡ ok a)) ⊎ ((e : E) × (r ≡ err e))
  Result-cases (err failure) = inr (failure, refl)
  Result-cases (ok value) = inl (value, refl)

  pub ok-injective : {a b : A} → ◌≡◌ {A = Result E A} (ok a) (ok b) → a ≡ b
  ok-injective e = cc

  -- Past a check that a successful call has made.
  pub fail_if-then :
      (test : Bool) (failure : E) (next : Result E A) {a : A}
      → (fail_if test failure >> next) ≡ ok a
      → (test ≡ false) × (next ≡ ok a)
  fail_if-then true failure next e = absurd (cc)
  fail_if-then false failure next e = (refl, e)
