-- ===== src/Sessions/Lookup/Bound.antt =====
-- internal/sessions/registry.go: what `Bind` does to what `Get` finds.
use awp.Common.{
  String, true, false, Option, some, ok, err, fail_if-then, ok-injective, ◌≡◌, ◌≢◌, ◌⊎◌, inl, inr,
  sym, ◌∙◌, ap, subst, arith, eq_iff, is_empty, ◌==◌, ◌&&◌, not, Bool-cases, Option-cases,
  Result-cases,
}
use awp.Common.Text.{trim_space}
use awp.Common.Keyed.{find_first, find_first-upsert_self, find_first-upsert_ne}
use awp.Sessions.{
  Binding, Registry, Error, is_key, any_newline, get, stamped, resolve_workspace, checked, put,
  bind,
}
use awp.Sessions.Lookup.{IsOther, stamped-key, is_key_self}

-- What a binding must have to be stored.
pub record IsBindable (b : Binding) : Type 0 where
  pub named :
      (trim_space b.provider ≢ "")
      × (trim_space b.session_id ≢ "")
      × (trim_space b.adapter ≢ "")
      × (trim_space b.runtime_session_id ≢ "")
  pub runs : (is_empty b.resume_command ≡ false) ⊎ (b.adapter ≡ "codex")
  pub lines : any_newline b.resume_command ≡ false

module _ (absolute : String → Option String) where
  pub checked-IsBindable :
      (b c : Binding)
      → checked absolute b ≡ ok c
      → IsBindable b × (resolve_workspace absolute b ≡ ok c)
  unfolding checked
  checked-IsBindable b c h₀ =
      let (e₁, h₁) = fail_if-then (trim_space b.provider == "") _ _ h₀ in
      let (e₂, h₂) = fail_if-then (trim_space b.session_id == "") _ _ h₁ in
      let (e₃, h₃) = fail_if-then (trim_space b.adapter == "") _ _ h₂ in
      let (e₄, h₄) =
        fail_if-then (is_empty b.resume_command && not (b.adapter == "codex")) _ _ h₃ in
      let (e₅, h₅) = fail_if-then (any_newline b.resume_command) _ _ h₄ in
      let (e₆, h₆) = fail_if-then (trim_space b.runtime_session_id == "") _ _ h₅ in
      (
        record {
          named = (
            ground (arith, e₁, eq_iff (trim_space b.provider) ""),
            ground (arith, e₂, eq_iff (trim_space b.session_id) ""),
            ground (arith, e₃, eq_iff (trim_space b.adapter) ""),
            ground (arith, e₆, eq_iff (trim_space b.runtime_session_id) ""),
          );
          runs = runs e₄;
          lines = e₅;
        },
        h₆,
      )
    where
      runs :
          (is_empty b.resume_command && not (b.adapter == "codex")) ≡ false
          → (is_empty b.resume_command ≡ false) ⊎ (b.adapter ≡ "codex")
      runs e = elim (Bool-cases (is_empty b.resume_command)) [
        | inl t ↦ inr (ground (arith, e, t, eq_iff b.adapter "codex"))
        | inr t ↦ inl t
      ]

  resolve_workspace-key :
      (b c : Binding)
      → resolve_workspace absolute b ≡ ok c
      → (c.provider ≡ b.provider) × (c.session_id ≡ b.session_id)
  unfolding resolve_workspace
  resolve_workspace-key b c h = elim (Bool-cases (b.workspace == "")) [
    | inl e ↦
        let same : b ≡ c = ok-injective (rw e at h) in
        (ap (λ x. x.provider) (sym same), ap (λ x. x.session_id) (sym same))
    | inr e ↦ elim (Option-cases (absolute b.workspace)) [
      | inl f ↦ absurd (ground (arith, e, f, h))
      | inr (path, f) ↦
          let same : record b { workspace = path } ≡ c = ok-injective (rw (e, f) at h) in
          (ap (λ x. x.provider) (sym same), ap (λ x. x.session_id) (sym same))
    ]
  ]

  pub put-get :
      (now : String) (registry : Registry) (c : Binding)
      → let r = put absolute now registry c in
        (get r.1 c.provider c.session_id ≡ some r.0)
        × ((p s : String) → IsOther c.provider c.session_id p s → get r.1 p s ≡ get registry p s)
  unfolding put get
  put-get now registry c =
      let old = find_first (is_key c.provider c.session_id) registry.bindings in
      let b = stamped now old c in
      (
        find_first-upsert_self (is_key c.provider c.session_id) b registry.bindings
            (is_key_self now old c),
        λ p s o.
            find_first-upsert_ne (is_key c.provider c.session_id) (is_key p s) b registry.bindings
              (other p s o b (stamped-key now old c)) (λ x h. apart p s o x h),
      )
    where
      other :
          (p s : String)
          → IsOther c.provider c.session_id p s
          → (b : Binding) → (b.provider ≡ c.provider) × (b.session_id ≡ c.session_id)
          → is_key p s b ≡ false
      other p s o b (e, f) = ground (arith, e, f, eq_iff b.provider p, eq_iff b.session_id s)

      apart :
          (p s : String)
          → IsOther c.provider c.session_id p s
          → (x : Binding) → is_key c.provider c.session_id x ≡ true
          → is_key p s x ≡ false
      apart p s o x h = ground (
        arith,
        eq_iff x.provider p,
        eq_iff x.session_id s,
        eq_iff x.provider c.provider,
        eq_iff x.session_id c.session_id,
      )

  -- `Bind` fails and changes nothing, or the binding was one that may be stored; then `Get` finds
  -- what `Bind` returned under its provider and session, and what it found before under any other.
  pub bind-get :
      (now : String) (registry : Registry) (b : Binding)
      → let r = bind absolute now registry b in
        ((e : Error) × (r ≡ (err e, registry)))
        ⊎ ((c : Binding) × (r.0 ≡ ok c)
            × IsBindable b
            × (get r.1 b.provider b.session_id ≡ some c)
            × ((p s : String)
                → IsOther b.provider b.session_id p s
                → get r.1 p s ≡ get registry p s))
  unfolding bind
  bind-get now registry b = elim (Result-cases (checked absolute b)) [
    | inl (c, e) ↦
        let (can, resolved) = checked-IsBindable b c e in
        let (pe, se) = resolve_workspace-key b c resolved in
        let r = put absolute now registry c in
        let (found, others) = put-get now registry c in
        inr (
          (put absolute now registry c).0,
          rw (e, bind),
          can,
          rw (e, bind)
              (ap (λ k. get r.1 k b.session_id) (sym pe)
                ∙ ap (get r.1 c.provider) (sym se)
                ∙ found),
          rw (e, bind)
              (λ p s o. others p s (
                subst (λ k. IsOther k c.session_id p s) (sym pe)
                  (subst (λ k. IsOther b.provider k p s) (sym se) o))),
        )
    | inr (x, e) ↦ inl (x, rw (e, bind))
  ]
