-- ===== src/Wake.antt =====
-- internal/wake/store.go: the event store of the daemon, one `SessionState` for each
-- (provider, session_id), and the operations that change it. `time.Now()` is an argument, one for
-- each call. A Go pointer into `store.Sessions` is modelled by writing the session back: the
-- pointer is to the first session with its key, or to the one just appended.
pub mod Status
pub mod Changes
pub mod Views
pub mod Keys
pub mod Invariant
pub mod History
pub mod Dedup
pub mod Isolation
pub mod Gating
pub mod Pending
pub mod Trimmed
pub mod Recorded
mod Tests
use Prim.Native.String.{◌++◌ as concat}
use mathlib.Core.Option.{get_or}
use awp.Common.{
  ℕ, ◌-◌, String, Bool, true, false, Option, none, some, List, [], ◌∷◌, ◌++◌, Result, ok, err,
  length, drop, keep, is_some, ltb, ◌==◌, ◌&&◌, ◌||◌, not, if◌then◌else◌,
}
use awp.Common.Text.{trim_space}
use awp.Common.Keyed.{find_first, upsert}
use Status.{idle, running, completed, failed, paused, crashed, pending}

abbrev pub version : String
version = "0.1"

abbrev pub max_event_history : ℕ
max_event_history = 500

pub record ApprovalDetails : Type 0 where
  pub what : String
  pub target : String
  pub expires_at : String

pub record Lifecycle : Type 0 where
  pub status : String
  pub updated_at : String
  pub reason : String
  pub context_hint : String
  pub approval_details : Option ApprovalDetails

-- The raw payload is a text; Go's nil and empty payloads are both the empty text.
pub record EventRecord : Type 0 where
  pub event_id : String
  pub delivery_id : String
  pub status : String
  pub received_at : String
  pub updated_at : String
  pub event : String

pub record SessionState : Type 0 where
  pub provider : String
  pub session_id : String
  pub created_at : String
  pub lifecycle : Lifecycle
  pub events : List EventRecord
  pub permissions : List String

pub record Store : Type 0 where
  pub version : String
  pub sessions : List SessionState

abbrev pub new_store : Store
new_store = record { version = version; sessions = [] }

pub data Error : Type 0 where
  ids_required : Error
  unsupported_event_status : String → Error
  no_event_state : String → String → Error
  event_not_recorded : String → String → String → Error

-- What a Go function with a `*Store` does: its result, and the store that it leaves.
abbrev pub Outcome : Type 0 → Type 0
Outcome A = Result Error A × Store

abbrev pub matches : String → String → SessionState → Bool
matches provider session_id s = s.provider == provider && s.session_id == session_id

abbrev pub has_id : String → EventRecord → Bool
has_id event_id e = e.event_id == event_id

-- `find` and `Get`: the first session with the key
unfoldable pub get : Store → String → String → Option SessionState
get store provider session_id = find_first (matches provider session_id) store.sessions

-- `Seen`
unfoldable pub seen : Store → String → String → String → Bool
unfolding get
seen store provider session_id event_id = elim (get store provider session_id) [
  | none ↦ false
  | some state ↦ is_some (find_first (has_id event_id) state.events)
]

abbrev pub plain : String → String → String → Lifecycle
plain status now reason = record {
  status = status;
  updated_at = now;
  reason = reason;
  context_hint = "";
  approval_details = none;
}

abbrev pub fresh : String → String → String → SessionState
fresh now provider session_id = record {
  provider = provider;
  session_id = session_id;
  created_at = now;
  lifecycle = plain idle now "";
  events = [];
  permissions = [];
}

-- `ensureSession`: the session that its result points to
unfoldable pub ensure_session : String → Store → String → String → SessionState
unfolding get
ensure_session now store provider session_id =
    get_or (get store provider session_id) (fresh now provider session_id)

-- A write through the pointer that `ensureSession` returned.
unfoldable pub write_session : Store → String → String → SessionState → Store
write_session store provider session_id state = record store {
  sessions = upsert (matches provider session_id) state store.sessions;
}

-- `Gate`
unfoldable pub gate : SessionState → Bool × String
gate state =
    if state.lifecycle.status == paused
    then (true, concat "session is paused: " state.lifecycle.reason)
    else if state.lifecycle.status == crashed
    then (true, concat "session is crashed: " state.lifecycle.reason)
    else (false, "")

-- The newest `max_event_history` events.
unfoldable pub bounded : List EventRecord → List EventRecord
bounded events =
    if ltb max_event_history (length events)
    then drop (length events - max_event_history) events
    else events

-- The lifecycle that a delivery leaves: a paused or crashed session keeps its own.
unfoldable pub woken : String → SessionState → String → Lifecycle
woken now current reason = if (gate current).0 then current.lifecycle else plain running now reason

abbrev pub new_record : String → String → String → String → EventRecord
new_record now event_id delivery_id event = record {
  event_id = event_id;
  delivery_id = trim_space delivery_id;
  status = pending;
  received_at = now;
  updated_at = now;
  event = event;
}

-- The new record is appended, as pending.
unfoldable pub appended : String → SessionState → String → String → String → SessionState
appended now current event_id delivery_id event = record current {
  events = bounded (current.events ++ new_record now event_id delivery_id event ∷ []);
  lifecycle = woken now current (concat "processing event " event_id);
}

-- The record `e` of an earlier delivery is reset to pending.
unfoldable pub retried :
    String → SessionState → EventRecord → String → String → String → SessionState
retried now current e event_id delivery_id event = record current {
  events =
      upsert (has_id event_id)
        (record e {
          status = pending;
          delivery_id = trim_space delivery_id;
          updated_at = now;
          event = event;
        })
        current.events;
  lifecycle = woken now current (concat "retrying event " event_id);
}

-- The body of `RecordDelivery` on the session that it points to; the flag is `duplicate`.
unfoldable pub deliver : String → SessionState → String → String → String → SessionState × Bool
deliver now current event_id delivery_id event =
    elim (find_first (has_id event_id) current.events) [
      | none ↦ (appended now current event_id delivery_id event, false)
      | some e ↦
          if e.status == completed
          then (current, true)
          else (retried now current e event_id delivery_id event, false)
    ]

-- `RecordDelivery`, its three identifiers trimmed
unfoldable pub record_trimmed :
    String → Store → String → String → String → String → String → Outcome (SessionState × Bool)
record_trimmed now store provider session_id event_id delivery_id event =
    if provider == "" || session_id == "" || event_id == ""
    then (err ids_required, store)
    else let (state, duplicate) =
        deliver now (ensure_session now store provider session_id) event_id delivery_id event in
      (ok (state, duplicate), write_session store provider session_id state)

-- `RecordDelivery`
unfoldable pub record_delivery :
    String → Store → String → String → String → String → String → Outcome (SessionState × Bool)
record_delivery now store provider session_id event_id delivery_id event =
    record_trimmed now store (trim_space provider) (trim_space session_id) (trim_space event_id)
      delivery_id event
