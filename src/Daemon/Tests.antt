-- ===== src/Daemon/Tests.antt =====
-- Runs of the daemon's handler, and its theorems at concrete deliveries.
use awp.Common.{
  String, true, Option, some, none, List, [], ◌∷◌, ok, err, ◌≡◌, ◌≢◌, inr, refl, arith, eq_iff,
  ◌==◌, if◌then◌else◌,
}
use awp.Common.Text.{trim_space, contains_any}
use awp.Common.Sort.{insert_by, sort_by}
use awp.Common.Keyed.{find_first, replace_first, upsert}
use awp.Permissions.{RequestedPermission, Authorization, scope_once, append_audit, get_request}
use awp.Permissions as Permissions
use awp.Permissions.Names.{contains, unique_sorted}
use awp.Permissions.Requests.{
  any_bad_tool, normalised, check_permission, check_permissions, validated, put_request,
  record_request, request_local,
}
use awp.Permissions.Grants.{
  requested, hash_at, set_hash, put_grant, check_allowed, granting_for, granting, grant_permissions,
}
use awp.Permissions.Authorize.{select, is_current, gather_tools, authorize_with, consume, authorize}
use awp.Permissions.Revocation.{revoke_one, revoke_grants, revoke}
use awp.Permissions.History.{Call, asks_local, grants, replay, replay-IsValid}
use awp.Permissions.History as Asked
use awp.Sessions.{Binding}
use awp.Wake as Wake
use awp.Wake.{
  gate, woken, bounded, appended, retried, deliver, ensure_session, write_session, record_trimmed,
  record_delivery, get,
}
use awp.Wake.Changes.{
  finish, complete_event, with_status, pause, mark_crashed, resume, set_permissions,
}
use awp.Wake.Views.{pending, projection}
use awp.Wake.History as Woken
use awp.Wake.History.{delivers, pauses}
use awp.Wake.Dedup.{is_done}
use awp.Daemon.{
  works, Delivery, RunError, held, State, Times, Disks, Others, record_or_gate, mutate_event_store,
  wake, refuse, authorize_and_wake, handle_bound, handle, receive_request,
}
use awp.Daemon.Wakes.{Wakes, handle-Wakes}
use awp.Daemon.Spent.{once_wakes_once}
use awp.Daemon.Saved.{revoke_unseen}
use awp.Daemon.Again.{handled_once}

program : Unit {0}
unfolding contains_any insert_by sort_by find_first replace_first upsert trim_space append_audit
    get_request contains unique_sorted any_bad_tool normalised check_permission check_permissions
    validated put_request record_request request_local requested hash_at set_hash put_grant
    check_allowed granting_for granting grant_permissions select is_current gather_tools
    authorize_with consume authorize revoke_one revoke_grants revoke Asked.step replay gate woken
    bounded appended retried deliver ensure_session write_session record_trimmed record_delivery get
    finish complete_event with_status pause mark_crashed resume set_permissions pending projection
    Woken.step Woken.run is_done record_or_gate mutate_event_store wake refuse authorize_and_wake
    handle_bound handle receive_request
program = tt

abbrev sample_hash : RequestedPermission → String
sample_hash p = p.id

abbrev asked : List Asked.Call
asked =
    asks_local "t0" "t0" "sinores" "chat-1" [] []
    ∷ grants "t1" "t1" "sinores" "chat-1" "once" ("runtime.wake" ∷ [])
    ∷ grants "t1" "t1" "sinores" "chat-1" "binding" ("runtime.wake" ∷ [])
    ∷ []

abbrev binding : Binding
binding = record {
  provider = "sinores";
  session_id = "chat-1";
  adapter = "codex";
  runtime_session_id = "r1";
  workspace = "/w";
  metadata = [];
  resume_command = [];
  created_at = "";
  updated_at = "";
}

abbrev handlers : String → Option Binding
handlers s = if s == "chat-1" then some binding else none

abbrev times : Times
times = record {
  delivered = "t2";
  first = "t3";
  second = "t4";
  permitted = "t5";
  event_ended = "t6";
  ended = "t7";
  crashed = "t8";
}

abbrev disks : Disks
disks = record {
  recording = works;
  saves_permissions = true;
  failing = works;
  permitting = works;
  ending = works;
}

-- Another session's delivery comes in while the adapter runs.
abbrev others : Others
others = record {
  before = [];
  while_running = delivers "t6" "sinores" "chat-2" "e9" "d9" "{}" ∷ [];
}

abbrev fine : Authorization → Option RunError
fine a = none

abbrev broken : Authorization → Option RunError
broken a = some (record { text = "no codex"; is_unusable = true })

abbrev delivery : Delivery
delivery = record { delivery_id = "d1"; event_id = "e1"; target = some "chat-1"; event = "{}" }

abbrev start : State
start = record {
  events = Wake.new_store;
  permissions = replay sample_hash asked Permissions.new_store;
  saved = replay sample_hash asked Permissions.new_store;
}

abbrev allowed : String → Authorization
allowed scope = record {
  provider = "sinores";
  session_id = "chat-1";
  scope = scope;
  permissions = "runtime.wake" ∷ [];
  mcp_tools = [];
}

abbrev after : State
after = (handle sample_hash "sinores" times disks others fine handlers delivery start).1

abbrev crashed_after : State
crashed_after = (handle sample_hash "sinores" times disks others broken handlers delivery start).1

-- The first delivery wakes the session, the second is a duplicate, a failure can be tried again.
runs :
    ((handle sample_hash "sinores" times disks others fine handlers delivery start).0.woken
      ≡ some (allowed "once"))
    × ((handle sample_hash "sinores" times disks others fine handlers delivery after).0.woken
        ≡ none)
    × ((handle sample_hash "sinores" times disks others fine handlers delivery after).0.result
        ≡ ok tt)
    × ((handle sample_hash "sinores" times disks others fine handlers delivery
          crashed_after).0.result
        ≡ err (held "session is crashed: no codex"))
unfolding program
runs = (refl, refl, refl, refl)

handle-Wakes_example :
    Wakes sample_hash "sinores" handlers delivery start (allowed "once")
    × (after.saved ≡ after.permissions)
unfolding program
handle-Wakes_example =
    handle-Wakes sample_hash "sinores" times disks others fine handlers delivery start
      (allowed "once") refl

abbrev next : Delivery
next = record { delivery_id = "d2"; event_id = "e2"; target = some "chat-1"; event = "{}" }

once_wakes_once_example : "binding" ≢ scope_once
unfolding program
once_wakes_once_example =
    once_wakes_once sample_hash "sinores" handlers times times disks disks others others fine fine
      delivery next start after (allowed "once") (allowed "binding")
      (replay-IsValid sample_hash asked) refl refl refl refl refl

revoke_unseen_example :
    let file = (revoke "t2" start.saved "sinores" "chat-1" "" []).1 in
    let r' =
      handle sample_hash "sinores" times disks others fine handlers delivery
        (record start { saved = file }) in
    (r'.0.woken ≡ some (allowed "once")) × (r'.1.saved ≡ after.saved)
unfolding program
revoke_unseen_example =
    revoke_unseen sample_hash "sinores" times disks others fine handlers "t2" delivery start
      "sinores" "chat-1" "" [] (allowed "once") refl

handled_once_example :
    (handle sample_hash "sinores" times disks others broken handlers delivery after).0.woken ≡ none
unfolding program
handled_once_example =
    handled_once sample_hash "sinores" times disks others fine times disks others broken handlers
      handlers delivery delivery start after "chat-1" (allowed "once") refl refl refl refl refl refl
      refl (tt, (inr (ground (arith, eq_iff "chat-2" "chat-1")), tt)) refl refl refl
