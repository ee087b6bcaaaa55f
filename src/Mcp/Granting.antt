-- ===== src/Mcp/Granting.antt =====
-- internal/mcpserver/server.go: `grantPermissions`, and the tools on the daemon's process.
use awp.Common.{ℕ, String, some, none, List, Result, ok, err, is_empty, ◌==◌, not, if◌then◌else◌}
use awp.Common.Text.{trim_space}
use awp.Permissions.{RequestedPermission, Store, Request, get_request, scope_binding}
use awp.Permissions.Requests.{request_local}
use awp.Permissions.Grants.{grant_permissions}
use awp.Daemonctl.{System, start, stop, status}
use awp.Mcp.{
  Io, loads, saves, permissions_unread, permissions_unwritten, allow_required, not_requested,
  not_granted, no_pid_path, no_executable, daemon_failed, Value, granted, started, not_started,
  stopped, running,
}
use awp.Mcp.Steps.{Tool, ◌>>=◌, ◌>>◌, return, fail_if, read, try, save}
use awp.Mcp.Waking.{target}
use awp.Permissions as Permissions
use awp.Daemonctl as Daemonctl

-- The arguments of `grant_permissions`.
pub record GrantArgs : Type 0 where
  pub provider : String
  pub session_id : String
  pub allow : List String
  pub scope : String
  pub mcp_tools : List String

abbrev pub scope_of : String → String
scope_of text = let scope = trim_space text in if scope == "" then scope_binding else scope

abbrev pub outcome : Result Permissions.Error Request × Store → Result Permissions.Error Store
outcome (err e, store) = err e
outcome (ok r, store) = ok store

-- The store with a request for the session: the provider's, or else one that is made here.
unfoldable pub with_request :
    String
    → String
    → Store
    → String
    → String
    → List String
    → List String
    → Result Permissions.Error Store
with_request first second store provider session_id allow mcp_tools =
    elim (get_request store provider session_id) [
      | some request ↦ ok store
      | none ↦ outcome (request_local first second store provider session_id allow mcp_tools)
    ]

module _ (permission_hash : RequestedPermission → String) (workspace : String) (io : Io) where
  -- `grantPermissions`
  unfoldable pub grant : GrantArgs → Tool Value
  grant args = do
    fail_if (is_empty args.allow) allow_required
    t ← target workspace io args.provider args.session_id
    fail_if (not (loads io.permissions)) permissions_unread
    loaded ← read (λ m. m.permissions)
    store ←
        try not_requested (with_request io.first io.second loaded t.0 t.1 args.allow args.mcp_tools)
    let r =
        grant_permissions permission_hash io.third io.fourth store t.0 t.1 (scope_of args.scope)
          args.allow
    g ← try not_granted r.0
    save (saves io.permissions) permissions_unwritten (λ m. record m { permissions = r.1 })
    return (granted g)

-- A result of `daemonctl.Start` as a value, also where it failed.
abbrev pub start_value : Result Daemonctl.Error ℕ → Value
start_value (err e) = not_started e
start_value (ok pid) = started pid

module _ (io : Io) where
  -- `startDaemon`
  unfoldable pub start_daemon : Tool Value
  start_daemon = do
    fail_if (not io.has_pid_path) no_pid_path
    fail_if (not io.has_executable) no_executable
    r ← read (λ m. start io.daemon m.system)
    (λ m. (ok (start_value r.0), record m { system = r.1 }))

  -- `stopDaemon`
  unfoldable pub stop_daemon : Tool Value
  stop_daemon = do
    fail_if (not io.has_pid_path) no_pid_path
    r ← read (λ m. stop io.daemon m.system)
    pid ← (λ m. try daemon_failed r.0 (record m { system = r.1 }))
    return (stopped pid)

  -- `daemonStatus`
  unfoldable pub daemon_status : Tool Value
  daemon_status = do
    fail_if (not io.has_pid_path) no_pid_path
    r ← read (λ m. status io.daemon m.system)
    pid ← try daemon_failed r
    return (running pid)
