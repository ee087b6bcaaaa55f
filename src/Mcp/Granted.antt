-- ===== src/Mcp/Granted.antt =====
-- internal/mcpserver/server.go: what `grantPermissions` grants, and what `Authorize` then allows.
use awp.Common.{
  String, Bool, List, ok, err, is_empty, ◌≡◌, sym, ◌∙◌, ap, subst, arith, inl, inr, All,
  Option-cases, ok-injective, not,
}
use awp.Permissions.{RequestedPermission, Grant, Store, Authorization, get_request}
use awp.Permissions.Requests.{request_local}
use awp.Permissions.Grants.{grant_permissions}
use awp.Permissions.Authorize.{authorize}
use awp.Permissions.Slots.{IsValid, record_request-IsValid}
use awp.Permissions.RoundTrip.{Yields, grant_takes_effect}
use awp.Permissions as Permissions
use awp.Mcp.{Machine, Io, Value, granted, loads, saves, not_granted, not_requested}
use awp.Common.Steps.Rules.{fail_if-ok, next-ok, try-ok, save-ok}
use awp.Mcp.Waking.{target, resolve_session}
use awp.Mcp.Granting.{GrantArgs, scope_of, outcome, with_request, grant}
use awp.Mcp.Grants.Each.{record_request-grants}

module _ (permission_hash : RequestedPermission → String) (workspace : String) (io : Io) where
  -- What the store has from which `grantPermissions` grants.
  abbrev grants_from : Store → String → String → GrantArgs → Permissions.Outcome Grant
  grants_from store p s args =
      grant_permissions permission_hash io.third io.fourth store p s (scope_of args.scope)
        args.allow

  grant-ok :
      (args : GrantArgs) (m m' : Machine) (v : Value) (p s : String)
      → resolve_session workspace io.registry m.registry args.provider args.session_id ≡ ok (p, s)
      → grant permission_hash workspace io args m ≡ (ok v, m')
      → (store : Store) × (g : Grant) × (with_request io.first io.second m.permissions p s
            args.allow args.mcp_tools
          ≡ ok store)
        × ((grants_from store p s args).0 ≡ ok g)
        × (v ≡ granted g)
        × (m'.permissions ≡ (grants_from store p s args).1)
  unfolding grant target
  grant-ok args m m' v p s r h₀ =
      let (_, h₁) = fail_if-ok (is_empty args.allow) _ _ h₀ in
      let (t, e, h₂) =
        next-ok (resolve_session workspace io.registry m.registry args.provider args.session_id) _
          h₁ in
      let (_, h₃) = fail_if-ok (not (loads io.permissions)) _ _ h₂ in
      let (store, made, h₄) =
        try-ok not_requested
          (with_request io.first io.second m.permissions t.0 t.1 args.allow args.mcp_tools) _ h₃ in
      let (g, gives, h₅) = try-ok not_granted (grants_from store t.0 t.1 args).0 _ h₄ in
      let (_, h₆) = save-ok (saves io.permissions) _ _ _ h₅ in
      let same : t ≡ (p, s) = ok-injective (sym e ∙ r) in
      subst
        (λ (t : String × String).
          (with_request io.first io.second m.permissions t.0 t.1 args.allow args.mcp_tools
            ≡ ok store)
          → ((grants_from store t.0 t.1 args).0 ≡ ok g)
          → (m'.permissions ≡ (grants_from store t.0 t.1 args).1)
          → (store : Store) × (g : Grant) × (with_request io.first io.second m.permissions p s
                args.allow args.mcp_tools
              ≡ ok store)
            × ((grants_from store p s args).0 ≡ ok g)
            × (v ≡ granted g)
            × (m'.permissions ≡ (grants_from store p s args).1))
        (sym same) (λ a b c. (store, g, a, b, ground (arith, h₆), c)) made gives
        (ground (arith, h₆))

  -- The request that is made where the provider sent none is a valid one, and no grant changes.
  with_request-kept :
      (loaded store : Store) (p s : String) (allow tools : List String)
      → IsValid loaded
      → with_request io.first io.second loaded p s allow tools ≡ ok store
      → IsValid store × (store.grants ≡ loaded.grants)
  unfolding with_request request_local
  with_request-kept loaded store p s allow tools v h =
      elim (Option-cases (get_request loaded p s)) [
        | inr (q, e) ↦
            let same : loaded ≡ store = ok-injective (rw (e, with_request) at h) in
            (subst IsValid same v, ap (λ x. x.grants) (sym same))
        | inl e ↦
            made _ (record_request-IsValid io.first io.second loaded _ v)
              (record_request-grants io.first io.second loaded _) (rw (e, with_request) at h)
      ]
    where
      made :
          (r : Permissions.Outcome Permissions.Request)
          → IsValid r.1
          → r.1.grants ≡ loaded.grants
          → outcome r ≡ ok store
          → IsValid store × (store.grants ≡ loaded.grants)
      made (err e, x) w k q = absurd (cc)
      made (ok a, x) w k q =
          (subst IsValid (ok-injective q) w, sym (ap (λ x. x.grants) (ok-injective q)) ∙ k)

  -- What the tool grants is what `Authorize` finds in the store that the tool saves. After a call of
  -- grant_permissions that succeeds, for a session that it resolves to and in a valid store, where
  -- the other grants for the session have a lower priority, `Authorize` of that session from the
  -- saved store succeeds with exactly the granted permissions and scope: also where the provider
  -- never sent a request. It says nothing of a daemon that has loaded its permissions before.
  pub grant-authorize :
      (args : GrantArgs) (m m' : Machine) (g : Grant) (p s first second : String)
      (consume_once : Bool)
      → resolve_session workspace io.registry m.registry args.provider args.session_id ≡ ok (p, s)
      → grant permission_hash workspace io args m ≡ (ok (granted g), m')
      → IsValid m.permissions
      → All (Yields p s g) m.permissions.grants
      → (a : Authorization) × ((authorize permission_hash first second m'.permissions p s
            consume_once).0
          ≡ ok a)
        × (a.permissions ≡ g.permissions)
        × (a.scope ≡ g.scope)
  grant-authorize args m m' g p s first second consume_once r h v y =
      let (store, g', made, gives, same, left) = grant-ok args m m' (granted g) p s r h in
      let (valid, kept) =
        with_request-kept m.permissions store p s args.allow args.mcp_tools v made in
      let same' : g' ≡ g = ground (arith, same) in
      let gives' : (grants_from store p s args).0 ≡ ok g = gives ∙ ap ok same' in
      let (a, e, names, scope) =
        grant_takes_effect permission_hash io.third io.fourth first second store p s
          (scope_of args.scope) args.allow g consume_once valid gives' (rw kept y) in
      (a, rw left e, names, scope)
