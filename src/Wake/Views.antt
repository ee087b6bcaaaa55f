-- ===== src/Wake/Views.antt =====
-- internal/wake/store.go, `Pending` and `List`, and the value that internal/wake/projection.go
-- writes into a workspace.
use awp.Common.{String, Bool, List, keep, ◌==◌, ◌||◌, if◌then◌else◌}
use awp.Common.Order.{text_lt}
use awp.Common.Sort.{sort_by}
use awp.Wake.{Lifecycle, EventRecord, SessionState, Store}
use awp.Wake.Status.{pending as pending_status}

abbrev pub is_pending : EventRecord → Bool
is_pending e = e.status == pending_status

-- `Pending`: the events that have not ended, oldest first
unfoldable pub pending : SessionState → List EventRecord
pending state = keep is_pending state.events

abbrev pub state_lt : SessionState → SessionState → Bool
state_lt a b =
    if a.provider == b.provider
    then text_lt a.session_id b.session_id
    else text_lt a.provider b.provider

-- `List`
unfoldable pub list : Store → String → List SessionState
list store provider =
    sort_by state_lt (keep (λ s. provider == "" || s.provider == provider) store.sessions)

pub record Projection : Type 0 where
  pub session_id : String
  pub provider : String
  pub created_at : String
  pub lifecycle : Lifecycle
  pub pending_events : List EventRecord
  pub permissions : List String

-- The value that `WriteProjection` encodes.
unfoldable pub projection : SessionState → Projection
unfolding pending
projection state = record {
  session_id = state.session_id;
  provider = state.provider;
  created_at = state.created_at;
  lifecycle = state.lifecycle;
  pending_events = pending state;
  permissions = state.permissions;
}
