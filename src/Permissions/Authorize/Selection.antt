-- ===== src/Permissions/Authorize/Selection.antt =====
-- Which grant `Authorize` selects: one that applies, and none that applies has a higher priority.
use awp.Common.{
  ℕ, zero, suc, length, length-append, All-append, All-mono, ◌≤◌, String, true, false, Option, some,
  none, List, [], ◌∷◌, ◌++◌, ◌≡◌, inl, inr, refl, arith, All, get_elem?, ltb, Bool-cases,
}
use mathlib.Core.List.{append-nil, append_assoc}
use native.Mathlib.Nat.{le_refl}
use awp.Permissions.{Grant}
use awp.Permissions.Authorize.{priority, applies, prefer, select_step, select}

-- The grant does not apply, or has no higher priority than `g`.
abbrev pub IsBelow : String → String → Grant → Grant → Type 0
IsBelow p s g h = applies p s h ≡ true → priority h.scope ≤ priority g.scope

-- What is known of `selected` after the grants `seen`.
abbrev pub Best : String → String → List Grant → Option (Grant × ℕ) → Type 0
Best p s seen none = All (λ h. applies p s h ≡ false) seen
Best p s seen (some (g, i)) =
    (get_elem? seen i ≡ some g) × (applies p s g ≡ true) × All (IsBelow p s g) seen

get_elem?-append_left {ℓ} :
    {A : Type ℓ} (xs ys : List A) (i : ℕ) {a : A}
    → get_elem? xs i ≡ some a
    → get_elem? (xs ++ ys) i ≡ some a
get_elem?-append_left [] ys i h = absurd (ground arith)
get_elem?-append_left (x ∷ xs) ys zero h = h
get_elem?-append_left (x ∷ xs) ys (suc i) h = get_elem?-append_left xs ys i h

get_elem?-append_here {ℓ} :
    {A : Type ℓ} (xs : List A) (a : A) → get_elem? (xs ++ a ∷ []) (length xs) ≡ some a
get_elem?-append_here [] a = refl
get_elem?-append_here (x ∷ xs) a = get_elem?-append_here xs a

le_of_ltb : {a b c : ℕ} → a ≤ b → ltb b c ≡ true → a ≤ c
le_of_ltb h k = ground arith

le_of_not-ltb : (a b : ℕ) → ltb a b ≡ false → b ≤ a
le_of_not-ltb a b h = ground arith

module _ (p s : String) where
  -- A preference for the greater priority keeps all the others below.
  prefer-Best :
      (seen : List Grant) (g h : Grant) (i : ℕ)
      → Best p s seen (some (h, i))
      → applies p s g ≡ true
      → Best p s (seen ++ g ∷ []) (prefer (some (h, i)) g (length seen))
  prefer-Best seen g h i b a = elim (Bool-cases (ltb (priority h.scope) (priority g.scope))) [
    | inl e ↦ rw e (
      get_elem?-append_here seen g,
      a,
      All-append (IsBelow p s g) seen (g ∷ [])
          (All-mono {P = IsBelow p s h} {Q = IsBelow p s g} (λ k below t. le_of_ltb (below t) e)
            seen b.2)
          ((λ _. le_refl _), tt),
    )
    | inr e ↦ rw e (
      get_elem?-append_left seen (g ∷ []) i b.0,
      b.1,
      All-append (IsBelow p s h) seen (g ∷ []) b.2 ((λ _. le_of_not-ltb _ _ e), tt),
    )
  ]

  select_step-Best :
      (seen : List Grant) (g : Grant) (o : Option (Grant × ℕ))
      → Best p s seen o
      → Best p s (seen ++ g ∷ []) (select_step p s o g (length seen))
  select_step-Best seen g none b = elim (Bool-cases (applies p s g)) [
    | inl a ↦ rw a (
      get_elem?-append_here seen g,
      a,
      All-append (IsBelow p s g) seen (g ∷ [])
          (All-mono {P = λ k. applies p s k ≡ false} {Q = IsBelow p s g} (λ k f t. absurd (cc)) seen
            b)
          ((λ _. le_refl _), tt),
    )
    | inr a ↦ rw a (All-append _ seen (g ∷ []) b (a, tt))
  ]
  select_step-Best seen g (some (h, i)) b = elim (Bool-cases (applies p s g)) [
    | inl a ↦ rw a (prefer-Best seen g h i b a)
    | inr a ↦ rw a (
      get_elem?-append_left seen (g ∷ []) i b.0,
      b.1,
      All-append (IsBelow p s h) seen (g ∷ []) b.2 ((λ t. absurd (cc)), tt),
    )
  ]

  select-Best_from :
      (gs seen : List Grant) (o : Option (Grant × ℕ))
      → Best p s seen o
      → Best p s (seen ++ gs) (select p s o (length seen) gs)
  unfolding select
  select-Best_from [] seen o b = rw append-nil b
  select-Best_from (g ∷ gs) seen o b =
      let step =
        select-Best_from gs (seen ++ g ∷ []) (select_step p s o g (length seen))
          (select_step-Best seen g o b) in
      let count : length (seen ++ g ∷ []) ≡ suc (length seen) =
        omega (arith, length-append seen (g ∷ [])) in
      rw (append_assoc seen (g ∷ []) gs, count) at step

  -- The grant that the loop selects is the one at its index, applies to the session, and has the
  -- greatest priority of those that apply; and if it selects none, none applies.
  pub select-Best : (gs : List Grant) → Best p s gs (select p s none 0 gs)
  select-Best gs = select-Best_from gs [] none tt
