-- ===== src/Common/Steps.antt =====
-- A command as a chain of steps on a state, which an error ends: what was saved before stays.
pub mod Rules
use mathlib.Core.Bool.{Bool, true, false}
use awp.Common.Results.{Result, ok, err}

abbrev pub Step : Type 0 → Type 0 → Type 0 → Type 0
Step S E A = S → Result E A × S

module _ {S E : Type 0} where
  -- Go on after a step, or return its error.
  abbrev pub next : {A B : Type 0} → Result E A × S → (A → Step S E B) → Result E B × S
  next (err e, m) f = (err e, m)
  next (ok a, m) f = f a m

  infixl 5 ◌>>=◌ ◌>>◌
  abbrev pub ◌>>=◌ : {A B : Type 0} → Step S E A → (A → Step S E B) → Step S E B
  ◌>>=◌ t f m = next (t m) f

  abbrev pub ◌>>◌ : {A B : Type 0} → Step S E A → Step S E B → Step S E B
  t >> u = t >>= λ _. u

  abbrev pub return : {A : Type 0} → A → Step S E A
  return a m = (ok a, m)

  -- `if test { return ..., failure }`
  abbrev pub fail_if : Bool → E → Step S E (Unit {0})
  fail_if true e m = (err e, m)
  fail_if false e m = (ok tt, m)

  abbrev pub read : {A : Type 0} → (S → A) → Step S E A
  read f m = (ok (f m), m)

  -- What a call returned that changes no file.
  abbrev pub try : {F A : Type 0} → (F → E) → Result F A → Step S E A
  try wrap (err e) m = (err (wrap e), m)
  try wrap (ok a) m = (ok a, m)

  -- A save: it changes the machine, or it fails and leaves it.
  abbrev pub save : Bool → E → (S → S) → Step S E (Unit {0})
  save false e change m = (err e, m)
  save true e change m = (ok tt, change m)
