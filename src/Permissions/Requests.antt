-- ===== src/Permissions/Requests.antt =====
-- internal/permissions/store.go: `RecordRequest` and `RequestLocal`.
use awp.Common.{
  String, Bool, false, List, [], ◌∷◌, Result, ok, err, ◌>>=◌, ◌>>◌, fail_if, is_some, is_empty, map,
  ◌==◌, ◌&&◌, ◌||◌, not, if◌then◌else◌,
}
use awp.Common.Text.{trim_space, contains_any}
use awp.Common.Keyed.{find_first, upsert}
use awp.Permissions.{
  RequestedPermission, Request, Store, Error, Outcome, ids_required, no_permission, title_required,
  wake_tools, wake_policy, wake_missing, duplicate_permission, unsupported_risk,
  unsupported_delegation, invalid_tool, runtime_wake, delegation_background,
  delegation_interactive_only, append_audit, audit_entry, is_for,
}
use awp.Permissions.Names.{contains, unique_sorted}

abbrev pub is_risk : String → Bool
is_risk r = r == "runtime" || r == "read" || r == "write" || r == "sensitive"

abbrev pub is_delegation : String → Bool
is_delegation d = d == delegation_background || d == delegation_interactive_only

abbrev pub is_bad_tool : String → Bool
is_bad_tool tool = tool == "" || contains_any tool "\r\n"

unfoldable pub any_bad_tool : List String → Bool
any_bad_tool [] = false
any_bad_tool (tool ∷ tools) = is_bad_tool tool || any_bad_tool tools

-- The permission as the loop stores it.
unfoldable pub normalised : RequestedPermission → RequestedPermission
normalised p = record p {
  id = trim_space p.id;
  title = trim_space p.title;
  risk = trim_space p.risk;
  delegation = trim_space p.delegation;
  mcp_tools = unique_sorted p.mcp_tools;
}

-- The checks of one round of the loop, on the normalised permission.
unfoldable pub check_permission : List String → RequestedPermission → Result Error (Unit {0})
check_permission seen q = do
  fail_if (q.id == "" || q.title == "") title_required
  fail_if (contains seen q.id) (duplicate_permission q.id)
  fail_if (not (is_risk q.risk)) (unsupported_risk q.id q.risk)
  fail_if (not (is_delegation q.delegation)) (unsupported_delegation q.id q.delegation)
  fail_if (any_bad_tool q.mcp_tools) (invalid_tool q.id)
  fail_if (q.id == runtime_wake && not (is_empty q.mcp_tools)) wake_tools
  fail_if
      (q.id == runtime_wake
        && (not (q.risk == "runtime") || not (q.delegation == delegation_background)))
      wake_policy

-- The loop; `wake` is `wakeRequested`.
unfoldable pub check_permissions :
    List String → Bool → List RequestedPermission → Result Error (List RequestedPermission × Bool)
check_permissions seen wake [] = ok ([], wake)
check_permissions seen wake (p ∷ ps) = do
  let q = normalised p
  check_permission seen q
  (qs, wake') ← check_permissions (q.id ∷ seen) (wake || q.id == runtime_wake) ps
  ok (q ∷ qs, wake')

-- The request that `RecordRequest` stores, or why it stores none.
unfoldable pub validated : String → Request → Result Error Request
validated now request = do
  let provider = trim_space request.provider
  let session_id = trim_space request.session_id
  let request_id = trim_space request.request_id
  fail_if (provider == "" || session_id == "" || request_id == "") ids_required
  fail_if (is_empty request.permissions) no_permission
  (permissions, wake) ← check_permissions [] false request.permissions
  fail_if (not wake) wake_missing
  ok (record {
    provider = provider;
    session_id = session_id;
    request_id = request_id;
    permissions = permissions;
    requested_at = now;
  })

-- The loop over `store.Requests`, and the append behind it.
unfoldable pub put_request : String → Store → Request → Store
put_request audited store request =
    let mine = is_for request.provider request.session_id in
    let action =
      if is_some (find_first mine store.requests) then "request.updated" else "request.created" in
    append_audit audited (record store { requests = upsert mine request store.requests })
      (audit_entry action request.provider request.session_id "" [])

-- `RecordRequest`
unfoldable pub record_request : String → String → Store → Request → Outcome Request
record_request now audited store request = elim (validated now request) [
  | err e ↦ (err e, store)
  | ok r ↦ (ok r, put_request audited store r)
]

abbrev pub local_request_id : String
local_request_id = "local"

-- A permission of a request that the client authors itself.
abbrev pub local_permission : List String → String → RequestedPermission
local_permission mcp_tools id =
    let is_wake = id == runtime_wake in
    record {
      id = id;
      title = id;
      description = "";
      risk = if is_wake then "runtime" else "read";
      delegation = delegation_background;
      mcp_tools = if is_wake then [] else mcp_tools;
    }

-- `RequestLocal`
unfoldable pub request_local :
    String → String → Store → String → String → List String → List String → Outcome Request
request_local now audited store provider session_id allow mcp_tools =
    record_request now audited store (record {
      provider = provider;
      session_id = session_id;
      request_id = local_request_id;
      permissions = map (local_permission mcp_tools) (unique_sorted (runtime_wake ∷ allow));
      requested_at = "";
    })
