-- ===== src/Cli/Permitting.antt =====
-- internal/cli/permissions.go: `awp permissions`.
use awp.Common.{
  String, Bool, true, false, Option, some, none, List, [], Result, ok, err, ◌==◌, ◌||◌, not,
  if◌then◌else◌,
}
use awp.Common.Text.{trim_space}
use awp.Common.Split.{split}
use awp.Common.Steps.{◌>>=◌, ◌>>◌, return, fail_if, try, save}
use awp.Permissions.{RequestedPermission, Store}
use awp.Permissions.Views.{list_requests, list_grants}
use awp.Permissions.Grants.{grant_permissions}
use awp.Permissions.Revocation.{revoke}
use awp.Permissions as Permissions
use awp.Sessions.{get}
use awp.Config.{Provider}
use awp.Mcp.{saves}
use awp.Mcp.Providing.{provider_of, listen}
use awp.Mcp.Granting.{with_request}
use awp.Cli.{
  Io, of_permissions, of_connection, Failure, plainly, Value, requested, pending, granted, grants,
  revoked, audit, Command, or_fails, same, load_config, load_registry, load_permissions,
}

-- `splitCSV`
unfoldable pub split_csv : String → List String
split_csv value = if trim_space value == "" then [] else split 44 value

-- `loadToken`: the file of --token-file, if the flag is given, or else the environment
unfoldable pub load_token : Io → Provider → Result Failure String
load_token io p = elim io.token_file [
  | none ↦
      if trim_space (io.files.environment p.token_env) == ""
      then err (plainly "token_missing")
      else ok (trim_space (io.files.environment p.token_env))
  | some none ↦ err (plainly "token_missing")
  | some (some text) ↦
      if trim_space text == "" then err (plainly "token_missing") else ok (trim_space text)
]

-- The request that the connection brought, if its id is not empty.
abbrev pub captured :
    Option (Permissions.Request × Store) → Result Failure (Permissions.Request × Store)
captured none = err (plainly "permission_request_missing")
captured (some r) =
    if r.0.request_id == "" then err (plainly "permission_request_missing") else ok r

-- The flags of `awp permissions grant`.
pub record GrantArgs : Type 0 where
  pub provider : String
  pub session_id : String
  pub allow : String
  pub mcp_tools : String
  pub scope : String

abbrev pub permissions_unwritten : Failure
permissions_unwritten = plainly "permissions_write"

abbrev pub failed_as : String → Permissions.Error → Failure
failed_as code e = record { code = code; cause = of_permissions e }

module _ (io : Io) where
  -- `runPermissionsRequest`
  unfoldable pub run_request : String → String → Command Value
  run_request provider session_id = do
    fail_if (provider == "" || session_id == "") (plainly "target_required")
    config ← load_config io
    p ← try same (or_fails (plainly "provider_not_found") (provider_of config provider))
    registry ← load_registry io
    b ← try same (or_fails (plainly "session_not_bound") (get registry provider session_id))
    token ← try same (load_token io p)
    fail_if (not io.has_permissions_path) (plainly "permissions_path")
    store ← load_permissions io
    heard ←
        try (λ e. record { code = "permission_request_failed"; cause = of_connection e })
          (listen io.files provider b store io.files.heard)
    r ← try same (captured heard)
    save (saves io.files.permissions) permissions_unwritten (λ m. record m { permissions = r.1 })
    return (requested r.0)

  -- `runPermissionsPending`
  unfoldable pub run_pending : String → Command Value
  run_pending provider = do
    store ← load_permissions io
    return (pending (list_requests store provider))

  -- `runPermissionsList`
  unfoldable pub run_list : String → Command Value
  run_list provider = do store ← load_permissions io; return (grants (list_grants store provider))

  -- `if changed { Save }`
  abbrev pub save_permissions_if : Bool → Store → Command (Unit {0})
  save_permissions_if false store = return tt
  save_permissions_if true store =
      save (saves io.files.permissions) permissions_unwritten
        (λ m. record m { permissions = store })

  -- `runPermissionsRevoke`
  unfoldable pub run_revoke : String → String → String → String → Command Value
  run_revoke provider session_id scope ids = do
    fail_if (provider == "" || session_id == "") (plainly "target_required")
    store ← load_permissions io
    let r = revoke io.files.first store provider session_id scope (split_csv ids)
    save_permissions_if r.0 r.1
    return (revoked r.0)

  -- `runPermissionsAudit`
  unfoldable pub run_audit : Command Value
  run_audit = do store ← load_permissions io; return (audit store.audit)

module _ (permission_hash : RequestedPermission → String) (io : Io) where
  -- `runPermissionsGrant`
  unfoldable pub run_grant : GrantArgs → Command Value
  run_grant args = do
    fail_if (args.provider == "" || args.session_id == "" || args.allow == "")
        (plainly "grant_required")
    registry ← load_registry io
    b ←
        try same
          (or_fails (plainly "session_not_bound") (get registry args.provider args.session_id))
    loaded ← load_permissions io
    store ← try (failed_as "local_request_invalid") (
        with_request io.files.first io.files.second loaded args.provider args.session_id
          (split_csv args.allow) (split_csv args.mcp_tools))
    let r =
        grant_permissions permission_hash io.files.third io.files.fourth store args.provider
          args.session_id args.scope (split_csv args.allow)
    g ← try (failed_as "grant_invalid") r.0
    save (saves io.files.permissions) permissions_unwritten (λ m. record m { permissions = r.1 })
    return (granted g)
