-- ===== src/Sessions/History.antt =====
-- internal/sessions/registry.go: histories of bindings and removals.
use awp.Common.{
  String, false, Option, List, [], ◌∷◌, ◌≡◌, inl, inr, subst, Bool-cases, Result-cases, All,
}
use awp.Common.Keyed.{upsert, IsUnique, IsUnique-upsert}
use awp.Sessions.{
  Binding, Registry, new_registry, is_key, get, stamped, checked, put, bind, remove_first, remove,
}
use awp.Sessions.Lookup.{same_key, same_key-IsSame, stamped-key}

pub data Call : Type 0 where
  binds : String → Binding → Call
  removes : String → String → Call

pub All-remove_first {ℓ} :
    (P : Binding → Type ℓ) (p s : String) (bs : List Binding)
    → All P bs
    → All P (remove_first p s bs)
unfolding remove_first
All-remove_first P p s [] a = tt
All-remove_first P p s (b ∷ bs) a = elim (Bool-cases (is_key p s b)) [
  | inl e ↦ rw e a.1
  | inr e ↦ rw e (a.0, All-remove_first P p s bs a.1)
]

pub IsUnique-remove_first :
    (p s : String) (bs : List Binding)
    → IsUnique same_key bs
    → IsUnique same_key (remove_first p s bs)
unfolding remove_first
IsUnique-remove_first p s [] u = tt
IsUnique-remove_first p s (b ∷ bs) u = elim (Bool-cases (is_key p s b)) [
  | inl e ↦ rw e u.1
  | inr e ↦
      rw e
        (All-remove_first (λ y. same_key b y ≡ false) p s bs u.0, IsUnique-remove_first p s bs u.1)
]

module _ (absolute : String → Option String) where
  unfoldable pub register : List Call → Registry → Registry
  register [] registry = registry
  register (binds now b ∷ cs) registry = register cs (bind absolute now registry b).1
  register (removes p s ∷ cs) registry = register cs (remove registry p s).1

  pub put-IsUnique :
      (now : String) (registry : Registry) (c : Binding)
      → IsUnique same_key registry.bindings
      → IsUnique same_key (put absolute now registry c).1.bindings
  unfolding put
  put-IsUnique now registry c u =
      let b = stamped now (get registry c.provider c.session_id) c in
      let (e, f) = stamped-key now (get registry c.provider c.session_id) c in
      subst (λ k. IsUnique same_key (upsert (is_key k c.session_id) b registry.bindings)) e
        (subst (λ k. IsUnique same_key (upsert (is_key b.provider k) b registry.bindings)) f
          (IsUnique-upsert same_key-IsSame b registry.bindings u))

  bind-IsUnique :
      (now : String) (registry : Registry) (b : Binding)
      → IsUnique same_key registry.bindings
      → IsUnique same_key (bind absolute now registry b).1.bindings
  unfolding bind
  bind-IsUnique now registry b u = elim (Result-cases (checked absolute b)) [
    | inl (c, e) ↦ rw (e, bind) (put-IsUnique now registry c u)
    | inr (x, e) ↦ rw (e, bind) u
  ]

  register_from-IsUnique :
      (cs : List Call) (registry : Registry)
      → IsUnique same_key registry.bindings
      → IsUnique same_key (register cs registry).bindings
  unfolding register remove
  register_from-IsUnique [] registry u = u
  register_from-IsUnique (binds now b ∷ cs) registry u =
      register_from-IsUnique cs (bind absolute now registry b).1 (bind-IsUnique now registry b u)
  register_from-IsUnique (removes p s ∷ cs) registry u =
      register_from-IsUnique cs (remove registry p s).1
        (IsUnique-remove_first p s registry.bindings u)

  -- After any history of `Bind` and `Remove` from the empty registry no two bindings have the same
  -- provider and session.
  pub register-IsUnique : (cs : List Call) → IsUnique same_key (register cs new_registry).bindings
  register-IsUnique cs = register_from-IsUnique cs new_registry tt
