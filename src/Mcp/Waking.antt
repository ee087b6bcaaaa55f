-- ===== src/Mcp/Waking.antt =====
-- internal/mcpserver/server.go: `resolveSession`, and the tools on the sessions and on the event
-- store: wake_context, list_pending_events, list_sessions, pause_session, resume_session, set_awp.
use Prim.Native.String.{◌++◌ as concat}
use mathlib.Core.Option.{get_or}
use awp.Common.{
  String, Bool, Option, none, List, [], ◌∷◌, Result, ok, err, map, keep, is_empty, ◌==◌, ◌&&◌, ◌||◌,
  not, if◌then◌else◌,
}
use awp.Common.Text.{trim_space}
use awp.Daemon.{Disk}
use awp.Sessions.{Binding, Registry, bind, list}
use awp.Wake.{SessionState, Lifecycle, get}
use awp.Wake.Status.{idle}
use awp.Wake.Changes.{pause, resume}
use awp.Wake.Views.{pending}
use awp.Mcp.{
  Io, loads, saves, Error, not_bound, several_bound, target_required, registry_unread,
  registry_unwritten, events_unread, events_unwritten, resume_command_required,
  runtime_session_required, wake_failed, not_stored, Value, context, pending_events, sessions,
  session, bound,
}
use awp.Mcp.Steps.{Tool, ◌>>=◌, ◌>>◌, return, fail_if, read, try, save}

-- The test in the loop of `resolveSession`.
abbrev pub is_candidate : String → String → Binding → Bool
is_candidate workspace session_id b =
    (workspace == "" || b.workspace == workspace)
    && (session_id == "" || b.session_id == session_id)

abbrev pub full_name : Binding → String
full_name b = concat b.provider (concat "/" b.session_id)

-- The switch on the number of candidates.
unfoldable pub only_one : String → List Binding → Result Error (String × String)
only_one workspace [] = err (not_bound workspace)
only_one workspace (b ∷ []) = ok (b.provider, b.session_id)
only_one workspace (b ∷ b' ∷ bs) = err (several_bound workspace (map full_name (b ∷ b' ∷ bs)))

-- `resolveSession`
unfoldable pub resolve_session :
    String → Disk → Registry → String → String → Result Error (String × String)
resolve_session workspace disk registry provider session_id =
    if not (provider == "") && not (session_id == "")
    then ok (provider, session_id)
    else if not (loads disk)
    then err registry_unread
    else only_one workspace (keep (is_candidate workspace session_id) (list registry provider))

-- The arguments of `set_awp`.
pub record SetAwpArgs : Type 0 where
  pub provider : String
  pub session_id : String
  pub adapter : String
  pub runtime_session_id : String
  pub resume_command : List String
  pub workspace : String
  pub metadata : List (String × String)

abbrev pub idle_lifecycle : Lifecycle
idle_lifecycle = record {
  status = idle;
  updated_at = "";
  reason = "";
  context_hint = "";
  approval_details = none;
}

abbrev pub unknown_session : String → String → SessionState
unknown_session provider session_id = record {
  provider = provider;
  session_id = session_id;
  created_at = "";
  lifecycle = idle_lifecycle;
  events = [];
  permissions = [];
}

abbrev pub adapter_name : String → String
adapter_name adapter =
    let name = trim_space adapter in if name == "" then "mcp-configured" else name

-- The binding that `setAWP` hands to `Bind`.
abbrev pub new_binding : String → String → String → SetAwpArgs → Binding
new_binding workspace provider session_id args = record {
  provider = provider;
  session_id = session_id;
  adapter = adapter_name args.adapter;
  runtime_session_id = args.runtime_session_id;
  workspace = if args.workspace == "" then workspace else args.workspace;
  metadata = args.metadata;
  resume_command = args.resume_command;
  created_at = "";
  updated_at = "";
}

-- `resolveSession` as a step of a tool.
unfoldable pub target : String → Io → String → String → Tool (String × String)
target workspace io provider session_id m =
    (resolve_session workspace io.registry m.registry provider session_id, m)

module _ (absolute : String → Option String) (workspace : String) (io : Io) where
  -- `wakeContext`
  unfoldable pub wake_context : String → String → Tool Value
  wake_context provider session_id = do
    t ← target workspace io provider session_id
    fail_if (not (loads io.events)) events_unread
    found ← read (λ m. get m.events t.0 t.1)
    let state = get_or found (unknown_session t.0 t.1)
    return (
        context (record {
          provider = t.0;
          session_id = t.1;
          created_at = state.created_at;
          lifecycle = state.lifecycle;
          pending_events = pending state;
          permissions = state.permissions;
        }))

  -- `listPendingEvents`; without a session its state has no events.
  unfoldable pub list_pending_events : String → String → Tool Value
  list_pending_events provider session_id = do
    t ← target workspace io provider session_id
    fail_if (not (loads io.events)) events_unread
    found ← read (λ m. get m.events t.0 t.1)
    return (pending_events t.0 t.1 (pending (get_or found (unknown_session t.0 t.1))))

  -- `listSessions`
  unfoldable pub list_sessions : Tool Value
  list_sessions = do
    fail_if (not (loads io.registry)) registry_unread
    bindings ← read (λ m. list m.registry "")
    return (sessions bindings)

  -- `pauseSession`
  unfoldable pub pause_session : String → String → String → Tool Value
  pause_session provider session_id reason = do
    t ← target workspace io provider session_id
    fail_if (not (loads io.events)) events_unread
    r ← read (λ m. pause io.first m.events t.0 t.1 reason)
    save (saves io.events) events_unwritten (λ m. record m { events = r.1 })
    return (session r.0)

  -- `resumeSession`
  unfoldable pub resume_session : String → String → Tool Value
  resume_session provider session_id = do
    t ← target workspace io provider session_id
    fail_if (not (loads io.events)) events_unread
    r ← read (λ m. resume io.first m.events t.0 t.1)
    state ← try wake_failed r.0
    save (saves io.events) events_unwritten (λ m. record m { events = r.1 })
    return (session state)

  -- `setAWP`
  unfoldable pub set_awp : SetAwpArgs → Tool Value
  set_awp args = do
    fail_if (is_empty args.resume_command) resume_command_required
    fail_if (trim_space args.runtime_session_id == "") runtime_session_required
    registry ← read (λ m. m.registry)
    t ←
        try target_required
          (resolve_session workspace io.registry registry args.provider args.session_id)
    fail_if (not (loads io.registry_again)) registry_unread
    r ← read (λ m. bind absolute io.first m.registry (new_binding workspace t.0 t.1 args))
    b ← try not_stored r.0
    save (saves io.registry_again) registry_unwritten (λ m. record m { registry = r.1 })
    return (bound b)
