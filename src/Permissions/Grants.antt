-- ===== src/Permissions/Grants.antt =====
-- internal/permissions/store.go: `GrantPermissions` and `permissionHash`'s map of hashes.
use awp.Common.{
  String, Bool, Option, some, none, is_some, List, [], ◌∷◌, Result, ok, err, ◌>>=◌, ◌>>◌, fail_if,
  is_empty, ◌==◌, ◌&&◌, ◌||◌, not, if◌then◌else◌,
}
use mathlib.Core.Option.{get_or}
use mathlib.Core.Option
use awp.Common.Keyed.{find_first, upsert}
use awp.Permissions.{
  RequestedPermission, Request, Grant, Hashes, Store, Error, Outcome, not_requested,
  unsupported_scope, nothing_allowed, wake_not_allowed, permission_not_requested, interactive_only,
  runtime_wake, scope_once, scope_binding, scope_provider, delegation_interactive_only,
  append_audit, audit_entry, get_request,
}
use awp.Permissions.Names.{contains, unique_sorted}

-- `requested[id]` of the map built from a request: the last permission with the id.
unfoldable pub requested : List RequestedPermission → String → Option RequestedPermission
requested [] id = none
requested (p ∷ ps) id = elim (requested ps id) [
  | some q ↦ some q
  | none ↦ if p.id == id then some p else none
]

-- `m[id]` of a `map[string]string`: the empty text for a missing key
unfoldable pub hash_at : Hashes → String → String
hash_at m id = get_or (Option.map (λ e. e.1) (find_first (λ (e : String × String). e.0 == id) m)) ""

-- `m[id] = hash`
unfoldable pub set_hash : Hashes → String → String → Hashes
set_hash m id hash = upsert (λ (e : String × String). e.0 == id) (id, hash) m

abbrev pub is_scope : String → Bool
is_scope s = s == scope_once || s == scope_binding || s == scope_provider

abbrev pub scope_or_binding : String → String
scope_or_binding scope = if scope == "" then scope_binding else scope

-- The grant's `SessionID` is empty where the scope is the whole provider.
abbrev pub grant_session : String → String → String
grant_session scope session_id = if scope == scope_provider then "" else session_id

abbrev pub is_slot : Grant → Grant → Bool
is_slot a b = b.provider == a.provider && b.session_id == a.session_id && b.scope == a.scope

-- The loop over `store.Grants`, and the append behind it.
unfoldable pub put_grant : String → Store → Grant → Store
put_grant audited store grant =
    let action =
      if is_some (find_first (is_slot grant) store.grants)
      then "grant.updated"
      else "grant.created" in
    append_audit audited (record store { grants = upsert (is_slot grant) grant store.grants })
      (audit_entry action grant.provider grant.source_session_id grant.scope grant.permissions)

module _ (permission_hash : RequestedPermission → String) where
  -- The loop over the allowed ids.
  unfoldable pub check_allowed :
      String → List RequestedPermission → List String → Hashes → Result Error Hashes
  check_allowed provider ps [] hashes = ok hashes
  check_allowed provider ps (id ∷ ids) hashes = elim (requested ps id) [
    | none ↦ err (permission_not_requested id provider)
    | some p ↦
        fail_if (p.delegation == delegation_interactive_only) (interactive_only id)
        >> check_allowed provider ps ids (set_hash hashes id (permission_hash p))
  ]

  -- The checks behind `GetRequest`, with the scope defaulted and the ids sorted.
  unfoldable pub granting_for :
      String → String → String → Request → String → List String → Result Error Grant
  granting_for now provider session_id request scope ids = do
    fail_if (not (is_scope scope)) (unsupported_scope scope)
    fail_if (is_empty ids) nothing_allowed
    hashes ← check_allowed provider request.permissions ids []
    fail_if (not (contains ids runtime_wake)) wake_not_allowed
    ok (record {
      provider = provider;
      session_id = grant_session scope session_id;
      source_session_id = session_id;
      request_id = request.request_id;
      scope = scope;
      permissions = ids;
      permission_hashes = hashes;
      granted_at = now;
      granted_by = "interactive_cli";
    })

  -- The grant that `GrantPermissions` stores, or why it stores none.
  unfoldable pub granting :
      String → Store → String → String → String → List String → Result Error Grant
  granting now store provider session_id scope allowed =
      elim (get_request store provider session_id) [
        | none ↦ err (not_requested provider session_id)
        | some request ↦
            granting_for now provider session_id request (scope_or_binding scope)
              (unique_sorted allowed)
      ]

  -- `GrantPermissions`
  unfoldable pub grant_permissions :
      String → String → Store → String → String → String → List String → Outcome Grant
  grant_permissions now audited store provider session_id scope allowed =
      elim (granting now store provider session_id scope allowed) [
        | err e ↦ (err e, store)
        | ok g ↦ (ok g, put_grant audited store g)
      ]
