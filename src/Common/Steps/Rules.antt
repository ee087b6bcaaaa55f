-- ===== src/Common/Steps/Rules.antt =====
-- Rules for a command's steps: what the state is after them, and what a result without an error says
-- of them.
use mathlib.Core.Path.{◌≡◌, refl}
use mathlib.Core.Bool.{Bool, true, false}
use awp.Common.Results.{Result, ok, err}
use awp.Common.Steps.{Step, next, ◌>>=◌, ◌>>◌, fail_if, try, save}

module _ {S E : Type 0} where
  -- The state that `t` leaves.
  abbrev pub Leaves : {A : Type 0} → (S → Type 0) → Step S E A → S → Type 0
  Leaves P t m = P (t m).1

  -- After a step and what follows it.
  pub Leaves-next :
      {A B : Type 0} (P : S → Type 0) (r : Result E A × S) (f : A → Step S E B)
      → P r.1
      → ((a : A) (m : S) → r ≡ (ok a, m) → P m → Leaves P (f a) m)
      → P (next r f).1
  Leaves-next P (err e, m) f p q = p
  Leaves-next P (ok a, m) f p q = q a m refl p

module _ {S E B : Type 0} {m m' : S} {b : B} where
  pub next-ok :
      {A : Type 0} (r : Result E A) (f : A → Step S E B)
      → next (r, m) f ≡ (ok b, m')
      → (a : A) × (r ≡ ok a) × (f a m ≡ (ok b, m'))
  next-ok (err e) f h = absurd (cc)
  next-ok (ok a) f h = (a, refl, h)

  pub fail_if-ok :
      (test : Bool) (e : E) (t : Step S E B)
      → (fail_if test e >> t) m ≡ (ok b, m')
      → (test ≡ false) × (t m ≡ (ok b, m'))
  fail_if-ok true e t h = absurd (cc)
  fail_if-ok false e t h = (refl, h)

  pub save-ok :
      (works : Bool) (e : E) (change : S → S) (t : Step S E B)
      → (save works e change >> t) m ≡ (ok b, m')
      → (works ≡ true) × (t (change m) ≡ (ok b, m'))
  save-ok false e change t h = absurd (cc)
  save-ok true e change t h = (refl, h)

  pub try-ok :
      {F A : Type 0} (wrap : F → E) (r : Result F A) (f : A → Step S E B)
      → (try wrap r >>= f) m ≡ (ok b, m')
      → (a : A) × (r ≡ ok a) × (f a m ≡ (ok b, m'))
  try-ok wrap (err e) f h = absurd (cc)
  try-ok wrap (ok a) f h = (a, refl, h)

module _ {S E A B : Type 0} (m : S) {m' : S} {b : B} where
  pub fail_if-then-ok :
      (test : Bool) (e : E) (t : Step S E A) (f : A → Step S E B)
      → ((fail_if test e >> t) >>= f) m ≡ (ok b, m')
      → (test ≡ false) × ((t >>= f) m ≡ (ok b, m'))
  fail_if-then-ok true e t f h = absurd (cc)
  fail_if-then-ok false e t f h = (refl, h)
