-- ===== src/Wake/History.antt =====
-- Histories of calls on the event store, from the daemon, the command line and the MCP server, in
-- any order.
use awp.Common.{
  String, some, List, [], ◌∷◌, ok, err, ◌≡◌, ◌⊎◌, inl, inr, refl, sym, subst, eq_iff, arith, ◌==◌,
  ◌&&◌, not, Option-cases, Bool-cases,
}
use awp.Common.Keyed.{find_first, IsUnique}
use awp.Wake.{
  EventRecord, SessionState, Store, Error, unsupported_event_status, no_event_state,
  event_not_recorded, new_store, has_id, get, ensure_session, write_session, record_delivery,
}
use awp.Wake.Status.{completed, failed}
use awp.Wake.Keys.{get-matches, ensure_session-matches}
use awp.Wake.Changes.{
  finish, complete_event, with_status, pause, mark_crashed, resume, set_permissions,
}
use awp.Wake.Invariant.{
  same_event, IsValid, IsValidSession, new_store-IsValid, get-IsValidSession,
  ensure_session-IsValidSession, write_session-IsValid, replace-IsValidSession,
  record_delivery-IsValid,
}

-- One call, with what its clock reads.
pub data Call : Type 0 where
  delivers : String → String → String → String → String → String → Call
  completes : String → String → String → String → String → String → Call
  pauses : String → String → String → String → Call
  crashes : String → String → String → String → Call
  resumes : String → String → String → Call
  permits : String → String → String → List String → Call

unfoldable pub step : Call → Store → Store
step (delivers now p s event_id delivery_id event) store =
    (record_delivery now store p s event_id delivery_id event).1
step (completes event_now now p s event_id status) store =
    (complete_event event_now now store p s event_id status).1
step (pauses now p s reason) store = (pause now store p s reason).1
step (crashes now p s reason) store = (mark_crashed now store p s reason).1
step (resumes now p s) store = (resume now store p s).1
step (permits now p s permissions) store = (set_permissions now store p s permissions).1

unfoldable pub run : List Call → Store → Store
run [] store = store
run (c ∷ cs) store = run cs (step c store)

-- `CompleteEvent` either fails and changes nothing, or ends the recorded event.
pub complete_cases :
    (event_now now : String) (store : Store) (p s event_id status : String)
    → let r = complete_event event_now now store p s event_id status in
      ((e : Error) × (r ≡ (err e, store)))
      ⊎ ((x : SessionState) × (e : EventRecord) × (get store p s ≡ some x)
          × (find_first (has_id event_id) x.events ≡ some e)
          × ((status ≡ completed) ⊎ (status ≡ failed))
          × (r ≡ (
            ok (finish event_now now x e event_id status),
            write_session store p s (finish event_now now x e event_id status),
          )))
unfolding complete_event
complete_cases event_now now store p s event_id status =
    elim (Bool-cases (not (status == completed) && not (status == failed))) [
      | inl e ↦ inl (unsupported_event_status status, ground arith)
      | inr e ↦ elim (Option-cases (get store p s)) [
        | inl f ↦ inl (no_event_state p s, ground arith)
        | inr (x, f) ↦ elim (Option-cases (find_first (has_id event_id) x.events)) [
          | inl g ↦ inl (event_not_recorded event_id p s, ground arith)
          | inr (r, g) ↦ inr (
            x,
            r,
            f,
            g,
            ground (arith, eq_iff status completed, eq_iff status failed),
            ground arith,
          )
        ]
      ]
    ]

finish-IsValidSession :
    (event_now now : String) (x : SessionState) (e : EventRecord) (event_id status : String)
    → find_first (has_id event_id) x.events ≡ some e
    → IsValidSession x
    → IsValidSession (finish event_now now x e event_id status)
unfolding finish
finish-IsValidSession event_now now x e event_id status h v =
    let (u, b) = replace-IsValidSession x.events event_id e _ h refl v.distinct v.within in
    record { distinct = u; within = b }

complete_event-IsValid :
    (event_now now : String) (store : Store) (p s event_id status : String)
    → IsValid store
    → IsValid (complete_event event_now now store p s event_id status).1
complete_event-IsValid event_now now store p s event_id status v =
    elim (complete_cases event_now now store p s event_id status) [
      | inl (e, r) ↦ rw r v
      | inr (x, e, f, g, h, r) ↦ rw r (
          write_session-IsValid store p s _ v
            (finish-IsValidSession event_now now x e event_id status g
              (get-IsValidSession store p s v f))
            (unfold finish in get-matches store p s f))
    ]

-- A write of the ensured session with its key and its events unchanged.
rewrite-IsValid :
    (now : String) (store : Store) (p s : String) (x : SessionState)
    → IsValid store
    → x.events ≡ (ensure_session now store p s).events
    → x.provider ≡ (ensure_session now store p s).provider
    → x.session_id ≡ (ensure_session now store p s).session_id
    → IsValid (write_session store p s x)
rewrite-IsValid now store p s x v e f g =
    let w = ensure_session-IsValidSession now store p s v in
    write_session-IsValid store p s x v
      (record { distinct = subst (IsUnique same_event) (sym e) w.distinct; within = rw e w.within })
      (rw (f, g) (ensure_session-matches now store p s))

resume-IsValid :
    (now : String) (store : Store) (p s : String) → IsValid store → IsValid (resume now store p s).1
unfolding resume
resume-IsValid now store p s v = elim (Option-cases (get store p s)) [
  | inl e ↦ rw (e, resume) v
  | inr (x, e) ↦
      rw (e, resume)
        (let w = get-IsValidSession store p s v e in
          write_session-IsValid store p s _ v (record { distinct = w.distinct; within = w.within })
            (get-matches store p s e))
]

pub step-IsValid : (c : Call) (store : Store) → IsValid store → IsValid (step c store)
unfolding step
step-IsValid (delivers now p s event_id delivery_id event) store v =
    record_delivery-IsValid now store p s event_id delivery_id event v
step-IsValid (completes event_now now p s event_id status) store v =
    complete_event-IsValid event_now now store p s event_id status v
step-IsValid (pauses now p s reason) store v =
    unfold pause with_status in rewrite-IsValid now store p s _ v refl refl refl
step-IsValid (crashes now p s reason) store v =
    unfold mark_crashed with_status in rewrite-IsValid now store p s _ v refl refl refl
step-IsValid (resumes now p s) store v = resume-IsValid now store p s v
step-IsValid (permits now p s permissions) store v =
    unfold set_permissions in rewrite-IsValid now store p s _ v refl refl refl

pub run-IsValid : (cs : List Call) (store : Store) → IsValid store → IsValid (run cs store)
unfolding run
run-IsValid [] store v = v
run-IsValid (c ∷ cs) store v = run-IsValid cs (step c store) (step-IsValid c store v)

-- After any history of calls from the empty store, in any order and with any arguments, no two
-- sessions have the same provider and session id, no session holds more than
-- `max_event_history` events, and no two events of a session have the same id.
pub run-new_store-IsValid : (cs : List Call) → IsValid (run cs new_store)
run-new_store-IsValid cs = run-IsValid cs new_store new_store-IsValid
