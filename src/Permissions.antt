-- ===== src/Permissions.antt =====
-- internal/permissions/store.go: what providers asked for, what the user granted, and the audit.
-- `time.Now()` is an argument, one for each call of it. The hash of a permission, SHA-256 of its
-- JSON text, is a parameter of the operations that use it.
pub mod Names
pub mod Requests
pub mod Grants
pub mod Authorize
pub mod Revocation
pub mod Views
pub mod Granted
pub mod Slots
pub mod RoundTrip
pub mod Revoked
pub mod History
pub mod Requested
mod Tests
use awp.Common.{
  ℕ, ◌-◌, String, Bool, Option, List, [], ◌∷◌, ◌++◌, Result, length, drop, ltb, ◌==◌, ◌&&◌,
  if◌then◌else◌,
}
use awp.Common.Keyed.{find_first}

abbrev pub version : String
version = "0.1"

abbrev pub runtime_wake : String
runtime_wake = "runtime.wake"

abbrev pub scope_once : String
scope_once = "once"

abbrev pub scope_binding : String
scope_binding = "binding"

abbrev pub scope_provider : String
scope_provider = "provider"

abbrev pub delegation_background : String
delegation_background = "background"

abbrev pub delegation_interactive_only : String
delegation_interactive_only = "interactive-only"

pub record RequestedPermission : Type 0 where
  pub id : String
  pub title : String
  pub description : String
  pub risk : String
  pub delegation : String
  pub mcp_tools : List String

pub record Request : Type 0 where
  pub provider : String
  pub session_id : String
  pub request_id : String
  pub permissions : List RequestedPermission
  pub requested_at : String

-- `map[string]string` as an association list
abbrev pub Hashes : Type 0
Hashes = List (String × String)

pub record Grant : Type 0 where
  pub provider : String
  pub session_id : String
  pub source_session_id : String
  pub request_id : String
  pub scope : String
  pub permissions : List String
  pub permission_hashes : Hashes
  pub granted_at : String
  pub granted_by : String

pub record AuditEntry : Type 0 where
  pub timestamp : String
  pub action : String
  pub provider : String
  pub session_id : String
  pub scope : String
  pub permissions : List String

pub record Store : Type 0 where
  pub version : String
  pub requests : List Request
  pub grants : List Grant
  pub audit : List AuditEntry

pub record Authorization : Type 0 where
  pub provider : String
  pub session_id : String
  pub scope : String
  pub permissions : List String
  pub mcp_tools : List String

abbrev pub new_store : Store
new_store = record { version = version; requests = []; grants = []; audit = [] }

pub data Error : Type 0 where
  ids_required no_permission title_required wake_tools wake_policy wake_missing : Error
  duplicate_permission : String → Error
  unsupported_risk unsupported_delegation : String → String → Error
  invalid_tool : String → Error
  not_requested : String → String → Error
  unsupported_scope : String → Error
  nothing_allowed wake_not_allowed : Error
  permission_not_requested : String → String → Error
  interactive_only : String → Error
  request_pending wake_not_granted wake_changed : String → String → Error

-- A result, and the store that the call leaves.
abbrev pub Outcome : Type 0 → Type 0
Outcome A = Result Error A × Store

abbrev pub max_audit : ℕ
max_audit = 1000

-- `appendAudit`: the newest `max_audit` entries stay.
unfoldable pub append_audit : String → Store → AuditEntry → Store
append_audit now store entry =
    let audit = store.audit ++ record entry { timestamp = now } ∷ [] in
    record store {
      audit = if ltb max_audit (length audit) then drop (length audit - max_audit) audit else audit;
    }

abbrev pub audit_entry : String → String → String → String → List String → AuditEntry
audit_entry action provider session_id scope permissions = record {
  timestamp = "";
  action = action;
  provider = provider;
  session_id = session_id;
  scope = scope;
  permissions = permissions;
}

abbrev pub is_for : String → String → Request → Bool
is_for provider session_id r = r.provider == provider && r.session_id == session_id

-- `GetRequest`
unfoldable pub get_request : Store → String → String → Option Request
get_request store provider session_id = find_first (is_for provider session_id) store.requests
