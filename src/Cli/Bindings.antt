-- ===== src/Cli/Bindings.antt =====
-- internal/cli/sessions.go: `awp sessions`.
use mathlib.Core.Option.{get_or}
use awp.Common.{
  String, Bool, true, false, Option, List, [], ◌∷◌, is_empty, ◌==◌, ◌||◌, not, if◌then◌else◌,
}
use awp.Common.Steps.{◌>>=◌, ◌>>◌, return, fail_if, try, save}
use awp.Sessions.{Binding, Registry, bind, list, remove}
use awp.Wake.Changes.{pause, resume}
use awp.Wake.Views.{pending}
use awp.Wake as Wake
use awp.Mcp.{saves}
use awp.Mcp.Waking.{unknown_session}
use awp.Mcp.Providing.{provider_of}
use awp.Cli.{
  Io, Failure, of_sessions, of_wake, plainly, Value, bound, bindings, removed_all, removed, session,
  state, Command, or_fails, same, load_config, load_registry, load_events,
}

-- The flags of `awp sessions bind`; `metadata` is none where --metadata-json is no JSON object.
pub record BindArgs : Type 0 where
  pub provider : String
  pub session_id : String
  pub adapter : String
  pub runtime_session_id : String
  pub workspace : String
  pub metadata : Option (List (String × String))

-- The binding that `runSessionsBind` hands to `Bind`.
abbrev pub flagged : BindArgs → List (String × String) → Binding
flagged args metadata = record {
  provider = args.provider;
  session_id = args.session_id;
  adapter = args.adapter;
  runtime_session_id = args.runtime_session_id;
  workspace = args.workspace;
  metadata = metadata;
  resume_command = [];
  created_at = "";
  updated_at = "";
}

-- The loop of `awp sessions remove --all`: the bindings that were there and are removed.
unfoldable pub remove_each : List Binding → Registry → List (String × String) × Registry
remove_each [] registry = ([], registry)
remove_each (b ∷ bs) registry =
    let (found, registry₁) = remove registry b.provider b.session_id in
    let (names, registry₂) = remove_each bs registry₁ in
    (if found then (b.provider, b.session_id) ∷ names else names, registry₂)

abbrev pub registry_unwritten : Failure
registry_unwritten = plainly "registry_write"

module _ (absolute : String → Option String) (io : Io) where
  -- `runSessionsBind`
  unfoldable pub run_bind : BindArgs → Command Value
  run_bind args = do
    fail_if (args.provider == "") (plainly "provider_required")
    config ← load_config io
    provider ← try same (or_fails (plainly "provider_not_found") (provider_of config args.provider))
    metadata ← try same (or_fails (plainly "invalid_metadata") args.metadata)
    registry ← load_registry io
    let r = bind absolute io.files.first registry (flagged args metadata)
    b ← try (λ e. record { code = "invalid_binding"; cause = of_sessions e }) r.0
    save (saves io.files.registry) registry_unwritten (λ m. record m { registry = r.1 })
    return (bound b)

module _ (io : Io) where
  -- `runSessionsList`
  unfoldable pub run_list : String → Command Value
  run_list provider = do registry ← load_registry io; return (bindings (list registry provider))

  -- `if changed { Save }`
  abbrev pub save_registry_if : Bool → Registry → Command (Unit {0})
  save_registry_if false registry = return tt
  save_registry_if true registry =
      save (saves io.files.registry) registry_unwritten (λ m. record m { registry = registry })

  -- `runSessionsRemove` with --all
  unfoldable pub run_remove_all : String → String → Command Value
  run_remove_all provider session_id = do
    fail_if (not (session_id == "")) (plainly "conflicting_flags")
    registry ← load_registry io
    let r = remove_each (list registry provider) registry
    save_registry_if (not (is_empty r.0)) r.1
    return (removed_all r.0)

  -- `runSessionsRemove` without --all
  unfoldable pub run_remove : String → String → Command Value
  run_remove provider session_id = do
    fail_if (provider == "" || session_id == "") (plainly "binding_required")
    registry ← load_registry io
    let r = remove registry provider session_id
    save_registry_if r.0 r.1
    return (removed r.0)

  -- `runSessionsPause`
  unfoldable pub run_pause : String → String → String → Command Value
  run_pause provider session_id reason = do
    fail_if (provider == "" || session_id == "") (plainly "binding_required")
    store ← load_events io
    let r = pause io.files.first store provider session_id reason
    save (saves io.files.events) (plainly "events_write") (λ m. record m { events = r.1 })
    return (session r.0)

  -- `runSessionsResume`
  unfoldable pub run_resume : String → String → Command Value
  run_resume provider session_id = do
    fail_if (provider == "" || session_id == "") (plainly "binding_required")
    store ← load_events io
    let r = resume io.files.first store provider session_id
    s ← try (λ e. record { code = "not_found"; cause = of_wake e }) r.0
    save (saves io.files.events) (plainly "events_write") (λ m. record m { events = r.1 })
    return (session s)

  -- `runSessionsStatus`
  unfoldable pub run_status : String → String → Command Value
  run_status provider session_id = do
    fail_if (provider == "" || session_id == "") (plainly "binding_required")
    store ← load_events io
    let s = get_or (Wake.get store provider session_id) (unknown_session provider session_id)
    return (state s (pending s))
