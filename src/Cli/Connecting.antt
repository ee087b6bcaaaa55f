-- ===== src/Cli/Connecting.antt =====
-- internal/cli/cli.go: `awp connect`: its start up to the connection, and the two closures that the
-- connection calls. The connection itself is in Client.
use awp.Common.{
  String, Bool, true, false, Option, some, none, Result, ok, err, ◌==◌, not, if◌then◌else◌,
}
use awp.Common.Steps.{◌>>=◌, ◌>>◌, return, fail_if, read, try}
use awp.Config.{Provider, Url, validate}
use awp.Permissions.{RequestedPermission, Authorization, Store, new_store}
use awp.Permissions.Requests.{record_request}
use awp.Permissions.Authorize.{authorize}
use awp.Permissions as Permissions
use awp.Sessions.{Binding, get}
use awp.Adapters.{Adapter, resolve}
use awp.Client.Connection.{DeliveryData}
use awp.Daemon.{RunError, PermissionRequestData, request_from_protocol}
use awp.Mcp.{loads}
use awp.Mcp.Providing.{provider_of}
use awp.Cli.{Io, Failure, plainly, Command, or_fails, same, load_config, load_registry}
use awp.Cli.Permitting.{load_token}
use awp.Cli.Configuring.{config_failed}

-- What the connection starts with: the provider, its token, and with --session-id the session.
pub record Started : Type 0 where
  pub provider : Provider
  pub token : String
  pub permissions : Store
  pub session : Option (Binding × Adapter)

abbrev pub resolved : Binding → Result Failure (Binding × Adapter)
resolved b = elim (resolve b) [ err e ↦ err (plainly "adapter_unavailable") | ok a ↦ ok (b, a) ]

module _ (parse_url : String → Option Url) (io : Io) where
  -- The permissions that `connect` loads where a session is given.
  abbrev pub connect_permissions : Bool → Command Store
  connect_permissions true = return new_store
  connect_permissions false = do
    fail_if (not io.has_permissions_path) (plainly "permissions_path")
    fail_if (not (loads io.files.permissions)) (plainly "permissions_read")
    read (λ m. m.permissions)

  -- The session that `connect` wakes, if one is given.
  abbrev pub connect_session : Bool → String → String → Command (Option (Binding × Adapter))
  connect_session true provider session_id = return none
  connect_session false provider session_id = do
    registry ← load_registry io
    b ← try same (or_fails (plainly "session_not_bound") (get registry provider session_id))
    s ← try same (resolved b)
    return (some s)

  -- `runConnect` up to the connection
  unfoldable pub connect : String → String → Command Started
  connect provider session_id = do
    c ← load_config io
    try (config_failed "invalid_config") (validate parse_url c)
    fail_if (provider == "") (plainly "provider_required")
    p ← try same (or_fails (plainly "provider_not_found") (provider_of c provider))
    token ← try same (load_token io p)
    store ← connect_permissions (session_id == "")
    session ← connect_session (session_id == "") provider session_id
    return (record { provider = p; token = token; permissions = store; session = session })

-- The permissions in memory, and those in the file.
pub record Permitted : Type 0 where
  pub memory : Store
  pub file : Store

pub data ReceiveError : Type 0 where
  not_decoded : ReceiveError
  unexpected_session : String → ReceiveError
  not_recorded : Permissions.Error → ReceiveError
  not_saved : ReceiveError

-- `permissions.Save` of the store in memory, if it works.
abbrev pub saved : Bool → Store → Permitted → Permitted
saved true store st = record { memory = store; file = store }
saved false store st = record st { memory = store }

-- `receive` for a `permission.request`, where a session is given; none for data that do not decode
unfoldable pub connect_receive :
    String
    → String
    → Bool
    → String
    → String
    → Option PermissionRequestData
    → Permitted
    → Result ReceiveError (Unit {0}) × Permitted
connect_receive now audited saves provider session_id none st = (err not_decoded, st)
connect_receive now audited saves provider session_id (some request) st =
    let r = record_request now audited st.memory (request_from_protocol provider request) in
    if not (request.session_id == session_id)
    then (err (unexpected_session request.session_id), st)
    else elim r.0 [
      | err e ↦ (err (not_recorded e), record st { memory = r.1 })
      | ok q ↦ (if saves then ok tt else err not_saved, saved saves r.1 st)
    ]

-- What `handle` has done: under which authorization it ran the adapter, if it did, and its error.
pub data Woke : Type 0 where
  unauthorized : Permissions.Error → Woke
  unsaved : Woke
  ran : Authorization → Option RunError → Woke

-- What the adapter does with a delivery; the binding and the name of the MCP server stay the same.
abbrev pub Run : Type 0
Run = Authorization → DeliveryData → Option RunError

abbrev pub run_if_saved : Bool → Run → DeliveryData → Authorization → Woke
run_if_saved true adapter d a = ran a (adapter a d)
run_if_saved false adapter d a = unsaved

abbrev pub handled :
    Bool → Run → DeliveryData → Permissions.Outcome Authorization → Permitted → Woke × Permitted
handled saves adapter d (err e, store) st = (unauthorized e, record st { memory = store })
handled saves adapter d (ok a, store) st = (run_if_saved saves adapter d a, saved saves store st)

-- `handle`; what the adapter does with a delivery is an argument
unfoldable pub connect_handle :
    (RequestedPermission → String)
    → String
    → String
    → Bool
    → String
    → String
    → Run
    → DeliveryData
    → Permitted
    → Woke × Permitted
connect_handle permission_hash first second saves provider session_id adapter d st =
    handled saves adapter d
      (authorize permission_hash first second st.memory provider session_id true) st
