-- ===== src/Daemon.antt =====
-- internal/cli/daemon.go: what the daemon does with a delivery and with a permission request. The
-- event store is a file that each step loads and saves under a lock; the permission state is loaded
-- once, when the daemon starts, kept in memory and saved after each change. What the files and the
-- adapter do is an argument, and so are the calls on the event store that others (the command line,
-- the MCP server, other sessions' deliveries) make between the daemon's own steps.
pub mod Wakes
pub mod Spent
pub mod Saved
pub mod Again
mod Tests
use awp.Common.{
  String, Bool, true, false, Option, some, none, List, [], ◌∷◌, Result, ok, err, map, ◌==◌, not,
  if◌then◌else◌,
}
use awp.Permissions.{RequestedPermission, Request, Authorization}
use awp.Permissions.Requests.{record_request}
use awp.Permissions.Authorize.{authorize}
use awp.Sessions.{Binding}
use awp.Wake.{SessionState, Lifecycle, gate, record_delivery}
use awp.Wake.Status.{completed, failed}
use awp.Wake.Changes.{complete_event, mark_crashed, set_permissions}
use awp.Wake.Views.{Projection, projection}
use awp.Wake.History.{Call, run}
use awp.Permissions as Permissions
use awp.Wake as Wake

-- What a file does in one load and save. A save that fails leaves the file as it was.
pub data Disk : Type 0 where
  works load_fails save_fails : Disk

-- `target` is `none` where `delivery.Target` does not decode; else it is the session's id.
pub record Delivery : Type 0 where
  pub delivery_id : String
  pub event_id : String
  pub target : Option String
  pub event : String

-- The error of an adapter; `is_unusable` where it wraps `ErrBindingUnusable`.
pub record RunError : Type 0 where
  pub text : String
  pub is_unusable : Bool

pub data Error : Type 0 where
  bad_target : Error
  no_binding : String → Error
  events_unread events_unwritten permissions_unwritten : Error
  not_recorded : Wake.Error → Error
  held : String → Error
  not_authorized not_stored : Permissions.Error → Error
  adapter_failed : RunError → Error
  unbound_session : String → Error

-- The files of events and of permissions, and the permissions in memory.
pub record State : Type 0 where
  pub events : Wake.Store
  pub permissions : Permissions.Store
  pub saved : Permissions.Store

-- The readings of the clock, and what the files do, in one run of `handle`.
pub record Times : Type 0 where
  pub delivered : String
  pub first : String
  pub second : String
  pub permitted : String
  pub event_ended : String
  pub ended : String
  pub crashed : String

pub record Disks : Type 0 where
  pub recording : Disk
  pub saves_permissions : Bool
  pub failing : Disk
  pub permitting : Disk
  pub ending : Disk

-- What others do to the event store before the permissions are recorded there, and while the
-- adapter runs.
pub record Others : Type 0 where
  pub before : List Call
  pub while_running : List Call

-- What `handle` returns and does outside the stores: the authorization that the adapter was run
-- with, and the projection that was written.
pub record Handled : Type 0 where
  pub result : Result Error (Unit {0})
  pub woken : Option Authorization
  pub written : Option Projection

-- `recordOrGate`
unfoldable pub record_or_gate :
    Disk
    → String
    → Wake.Store
    → String
    → String
    → Delivery
    → Result Error (Bool × String) × Wake.Store
record_or_gate load_fails now store provider session_id d = (err events_unread, store)
record_or_gate save_fails now store provider session_id d =
    elim (record_delivery now store provider session_id d.event_id d.delivery_id d.event).0 [
      | err e ↦ (err (not_recorded e), store)
      | ok r ↦ (err events_unwritten, store)
    ]
record_or_gate works now store provider session_id d =
    let r = record_delivery now store provider session_id d.event_id d.delivery_id d.event in
    elim r.0 [
      | err e ↦ (err (not_recorded e), store)
      | ok (state, duplicate) ↦
          (ok (if duplicate then (true, "") else (false, (gate state).1)), r.1)
    ]

-- `mutateEventStore`
unfoldable pub mutate_event_store :
    Disk
    → Wake.Store
    → (Wake.Store → SessionState × Wake.Store)
    → Result Error SessionState × Wake.Store
mutate_event_store load_fails store mutate = (err events_unread, store)
mutate_event_store save_fails store mutate = (err events_unwritten, store)
mutate_event_store works store mutate = (ok (mutate store).0, (mutate store).1)

-- `SessionState{}`
abbrev pub zero_state : SessionState
zero_state = record {
  provider = "";
  session_id = "";
  created_at = "";
  lifecycle = record {
    status = "";
    updated_at = "";
    reason = "";
    context_hint = "";
    approval_details = none;
  };
  events = [];
  permissions = [];
}

-- `state, _ := wake.CompleteEvent(...)`
abbrev pub state_of : Result Wake.Error SessionState → SessionState
state_of (ok state) = state
state_of (err e) = zero_state

-- The mutation behind a failed authorization.
abbrev pub fail_event : Times → String → String → String → Wake.Store → SessionState × Wake.Store
fail_event t provider session_id event_id store =
    let r = complete_event t.event_ended t.ended store provider session_id event_id failed in
    (state_of r.0, r.1)

-- The mutation behind the adapter's run.
abbrev pub end_event :
    Times → String → String → String → Option RunError → Wake.Store → SessionState × Wake.Store
end_event t provider session_id event_id none store =
    let r = complete_event t.event_ended t.ended store provider session_id event_id completed in
    (state_of r.0, r.1)
end_event t provider session_id event_id (some e) store =
    let r = complete_event t.event_ended t.ended store provider session_id event_id failed in
    if e.is_unusable
    then mark_crashed t.crashed r.1 provider session_id e.text
    else (state_of r.0, r.1)

abbrev pub run_result : Option RunError → Result Error (Unit {0})
run_result none = ok tt
run_result (some e) = err (adapter_failed e)

-- `WriteProjection`'s value: none for a binding with no workspace, or if the store was not saved
abbrev pub projected : String → Result Error SessionState → Option Projection
projected workspace (err e) = none
projected workspace (ok state) = if workspace == "" then none else some (projection state)

abbrev pub stopped : Error → Handled
stopped e = record { result = err e; woken = none; written = none }

module _ (permission_hash : RequestedPermission → String) (name : String) (t : Times)
    (disks : Disks) (others : Others) (adapter : Authorization → Option RunError) where
  -- `handle` once it is authorized.
  unfoldable pub wake : Binding → String → Delivery → Authorization → State → Handled × State
  wake b session_id d a st =
      let before = run others.before st.events in
      let permitted =
        mutate_event_store disks.permitting before
          (λ store. set_permissions t.permitted store name session_id a.permissions) in
      let meanwhile = run others.while_running permitted.1 in
      let ended =
        mutate_event_store disks.ending meanwhile
          (end_event t name session_id d.event_id (adapter a)) in
      (
        record {
          result = run_result (adapter a);
          woken = some a;
          written = projected b.workspace ended.0;
        },
        record st { events = ended.1 },
      )

  -- `handle` where `Authorize` failed, or what it left could not be saved.
  unfoldable pub refuse : String → Delivery → Error → State → Handled × State
  refuse session_id d e st =
      let failing =
        mutate_event_store disks.failing (run others.before st.events)
          (fail_event t name session_id d.event_id) in
      (stopped e, record st { events = failing.1 })

  -- `handle` once the delivery is recorded, and neither held nor a duplicate.
  unfoldable pub authorize_and_wake : Binding → String → Delivery → State → Handled × State
  authorize_and_wake b session_id d st =
      let r = authorize permission_hash t.first t.second st.permissions name session_id true in
      elim r.0 [
        | err e ↦ refuse session_id d (not_authorized e) (record st { permissions = r.1 })
        | ok a ↦
            if disks.saves_permissions
            then wake b session_id d a (record st { permissions = r.1; saved = r.1 })
            else refuse session_id d permissions_unwritten (record st { permissions = r.1 })
      ]

  -- `handle` for a session with a binding.
  unfoldable pub handle_bound : Binding → String → Delivery → State → Handled × State
  handle_bound b session_id d st =
      let r = record_or_gate disks.recording t.delivered st.events name session_id d in
      let st' = record st { events = r.1 } in
      elim r.0 [
        | err e ↦ (stopped e, st')
        | ok (duplicate, blocked) ↦
            if not (blocked == "")
            then (stopped (held blocked), st')
            else if duplicate
            then (record { result = ok tt; woken = none; written = none }, st')
            else authorize_and_wake b session_id d st'
      ]

  -- `handle`
  unfoldable pub handle : (String → Option Binding) → Delivery → State → Handled × State
  handle handlers d st = elim d.target [
    | none ↦ (stopped bad_target, st)
    | some session_id ↦ elim (handlers session_id) [
      | none ↦ (stopped (no_binding session_id), st)
      | some b ↦ handle_bound b session_id d st
    ]
  ]

-- `PermissionRequestData`
pub record PermissionRequestData : Type 0 where
  pub request_id : String
  pub session_id : String
  pub permissions : List RequestedPermission

-- `permissionRequestFromProtocol`
abbrev pub request_from_protocol : String → PermissionRequestData → Request
request_from_protocol provider request = record {
  provider = provider;
  session_id = request.session_id;
  request_id = request.request_id;
  permissions = request.permissions;
  requested_at = "";
}

-- The part of `receive` for a `permission.request` message; the flag is whether the save works.
unfoldable pub receive_request :
    String
    → String
    → Bool
    → (String → Option Binding)
    → String
    → PermissionRequestData
    → State
    → Result Error (Unit {0}) × State
receive_request now audited saves handlers name request st = elim (handlers request.session_id) [
  | none ↦ (err (unbound_session request.session_id), st)
  | some b ↦
      let r = record_request now audited st.permissions (request_from_protocol name request) in
      elim r.0 [
        | err e ↦ (err (not_stored e), record st { permissions = r.1 })
        | ok q ↦
            if saves
            then (ok tt, record st { permissions = r.1; saved = r.1 })
            else (err permissions_unwritten, record st { permissions = r.1 })
      ]
]
