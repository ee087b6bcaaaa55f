-- ===== src/Wake/Changes.antt =====
-- internal/wake/store.go: what completes an event, and what changes a session's lifecycle or its
-- permissions.
use Prim.Native.String.{◌++◌ as concat}
use awp.Common.{String, none, some, List, ok, err, ◌==◌, ◌&&◌, not, if◌then◌else◌}
use awp.Common.Text.{trim_space}
use awp.Common.Keyed.{find_first, upsert}
use awp.Wake.{
  EventRecord, SessionState, Store, Outcome, unsupported_event_status, no_event_state,
  event_not_recorded, has_id, get, plain, ensure_session, write_session,
}
use awp.Wake.Status.{idle, completed, failed, paused, crashed}

-- The record of an event that has ended: its payload is dropped.
abbrev pub ended : String → EventRecord → String → EventRecord
ended event_now e status = record e { status = status; updated_at = event_now; event = "" }

-- The session after the event `e` of it has ended with `status`; the first `now` is the event's.
unfoldable pub finish :
    String → String → SessionState → EventRecord → String → String → SessionState
finish event_now now current e event_id status = record current {
  events = upsert (has_id event_id) (ended event_now e status) current.events;
  lifecycle =
      if status == failed
      then plain failed now (concat (concat "event " event_id) " failed")
      else plain idle now "";
}

-- `CompleteEvent`
unfoldable pub complete_event :
    String → String → Store → String → String → String → String → Outcome SessionState
complete_event event_now now store provider session_id event_id status =
    if not (status == completed) && not (status == failed)
    then (err (unsupported_event_status status), store)
    else elim (get store provider session_id) [
      | none ↦ (err (no_event_state provider session_id), store)
      | some current ↦ elim (find_first (has_id event_id) current.events) [
        | none ↦ (err (event_not_recorded event_id provider session_id), store)
        | some e ↦
            let state = finish event_now now current e event_id status in
            (ok state, write_session store provider session_id state)
      ]
    ]

-- The session, made if it is missing, with another lifecycle.
unfoldable pub with_status : String → String → Store → String → String → String → SessionState
with_status status now store provider session_id reason =
    record (ensure_session now store provider session_id) {
      lifecycle = plain status now (trim_space reason);
    }

-- `Pause`
unfoldable pub pause : String → Store → String → String → String → SessionState × Store
pause now store provider session_id reason =
    let state = with_status paused now store provider session_id reason in
    (state, write_session store provider session_id state)

-- `MarkCrashed`
unfoldable pub mark_crashed : String → Store → String → String → String → SessionState × Store
mark_crashed now store provider session_id reason =
    let state = with_status crashed now store provider session_id reason in
    (state, write_session store provider session_id state)

-- `Resume`
unfoldable pub resume : String → Store → String → String → Outcome SessionState
resume now store provider session_id = elim (get store provider session_id) [
  | none ↦ (err (no_event_state provider session_id), store)
  | some current ↦
      let state = record current { lifecycle = plain idle now "" } in
      (ok state, write_session store provider session_id state)
]

-- `SetPermissions`
unfoldable pub set_permissions :
    String → Store → String → String → List String → SessionState × Store
set_permissions now store provider session_id permissions =
    let state = record (ensure_session now store provider session_id) {
      permissions = permissions;
    } in
    (state, write_session store provider session_id state)
