-- ===== src/Adapters/Bound.antt =====
-- internal/adapters/adapter.go and internal/sessions/registry.go: `Resolve` on what `Bind` stores.
use awp.Common.{
  String, Option, some, none, List, [], ◌∷◌, ok, ◌≡◌, inl, inr, subst, ok-injective, arith, eq_iff,
  is_empty, ◌==◌, Bool-cases, Option-cases, Result-cases, All,
}
use awp.Common.Keyed.{All-upsert}
use awp.Sessions.{
  Binding, Registry, new_registry, is_key, get, stamped, resolve_workspace, checked, put, bind,
  remove,
}
use awp.Sessions.History.{Call, binds, removes, register, All-remove_first}
use awp.Sessions.Lookup.Bound.{IsBindable, checked-IsBindable}
use awp.Adapters.{Adapter, command, codex, resolve}

-- `Resolve` has an adapter for the binding.
abbrev pub IsUsable : Binding → Type 0
IsUsable b = (a : Adapter) × (resolve b ≡ ok a)

IsBindable-IsUsable : (b : Binding) → IsBindable b → IsUsable b
unfolding resolve
IsBindable-IsUsable b can = elim (Bool-cases (is_empty b.resume_command)) [
  | inr e ↦ (command, ground (arith, e))
  | inl e ↦ elim can.runs [
    | inl f ↦ absurd (cc (e, f))
    | inr f ↦ (codex, ground (arith, e, (eq_iff b.adapter "codex").1 f))
  ]
]

stamped-IsUsable :
    (now : String) (old : Option Binding) (b : Binding) → IsUsable b → IsUsable (stamped now old b)
unfolding resolve
stamped-IsUsable now none b u = u
stamped-IsUsable now (some x) b u = u

module _ (absolute : String → Option String) where
  resolve_workspace-IsUsable :
      (b c : Binding) → resolve_workspace absolute b ≡ ok c → IsUsable b → IsUsable c
  unfolding resolve_workspace resolve
  resolve_workspace-IsUsable b c h u = elim (Bool-cases (b.workspace == "")) [
    | inl e ↦ subst IsUsable (ok-injective (rw e at h)) u
    | inr e ↦ elim (Option-cases (absolute b.workspace)) [
      | inl f ↦ absurd (ground (arith, e, f, h))
      | inr (path, f) ↦ subst IsUsable (ok-injective (rw (e, f) at h)) u
    ]
  ]

  bind-IsUsable :
      (now : String) (registry : Registry) (b : Binding)
      → All IsUsable registry.bindings
      → All IsUsable (bind absolute now registry b).1.bindings
  unfolding bind put
  bind-IsUsable now registry b all = elim (Result-cases (checked absolute b)) [
    | inl (c, e) ↦
        let (can, resolved) = checked-IsBindable absolute b c e in
        let usable = resolve_workspace-IsUsable b c resolved (IsBindable-IsUsable b can) in
        let old = get registry c.provider c.session_id in
        rw (e, bind)
          (All-upsert IsUsable (is_key c.provider c.session_id) (stamped now old c)
            registry.bindings (stamped-IsUsable now old c usable) all)
    | inr (x, e) ↦ rw (e, bind) all
  ]

  register_from-IsUsable :
      (cs : List Call) (registry : Registry)
      → All IsUsable registry.bindings
      → All IsUsable (register absolute cs registry).bindings
  unfolding register remove
  register_from-IsUsable [] registry all = all
  register_from-IsUsable (binds now b ∷ cs) registry all =
      register_from-IsUsable cs (bind absolute now registry b).1 (bind-IsUsable now registry b all)
  register_from-IsUsable (removes p s ∷ cs) registry all =
      register_from-IsUsable cs (remove registry p s).1
        (All-remove_first IsUsable p s registry.bindings all)

  -- After any history of `Bind` and `Remove` from the empty registry, `Resolve` finds an adapter
  -- for each binding: none that `Bind` accepted is without one.
  pub register-IsUsable :
      (cs : List Call) → All IsUsable (register absolute cs new_registry).bindings
  register-IsUsable cs = register_from-IsUsable cs new_registry tt
