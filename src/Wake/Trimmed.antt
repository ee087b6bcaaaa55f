-- ===== src/Wake/Trimmed.antt =====
-- `RecordDelivery` trims an event's id and `CompleteEvent` does not: what follows for an id with
-- blanks at its ends, which internal/cli/daemon.go hands to both as it came.
use awp.Common.{
  String, some, List, [], ◌∷◌, err, ◌≡◌, ◌≢◌, inl, inr, refl, eq_iff, subst, All, All-append,
  All-drop, length, ltb, ◌-◌, ◌==◌, ◌||◌, Option-cases, Bool-cases,
}
use awp.Common.Text.{trim_space, trim_space_idem}
use awp.Common.Keyed.{find_first, find_first-holds, upsert, All-upsert, All-find_first}
use awp.Wake.{
  EventRecord, SessionState, Store, Error, max_event_history, new_store, has_id, matches, get,
  bounded, new_record, appended, retried, deliver, ensure_session, write_session, record_trimmed,
  record_delivery,
}
use awp.Wake.Keys.{deliver_cases}
use awp.Wake.Changes.{
  finish, complete_event, with_status, pause, mark_crashed, resume, set_permissions,
}
use awp.Wake.History.{
  Call, delivers, completes, pauses, crashes, resumes, permits, step, run, complete_cases,
}

abbrev IsTrimmed : EventRecord → Type 0
IsTrimmed e = trim_space e.event_id ≡ e.event_id

-- Every recorded id is trimmed.
abbrev EventsTrimmed : SessionState → Type 0
EventsTrimmed x = All IsTrimmed x.events

abbrev AllTrimmed : Store → Type 0
AllTrimmed store = All EventsTrimmed store.sessions

get-EventsTrimmed :
    (store : Store) (p s : String) {x : SessionState}
    → AllTrimmed store
    → get store p s ≡ some x
    → EventsTrimmed x
unfolding get
get-EventsTrimmed store p s v h = All-find_first EventsTrimmed (matches p s) store.sessions v h

ensure_session-EventsTrimmed :
    (now : String) (store : Store) (p s : String)
    → AllTrimmed store
    → EventsTrimmed (ensure_session now store p s)
unfolding ensure_session
ensure_session-EventsTrimmed now store p s v = elim (Option-cases (get store p s)) [
  | inl e ↦ rw e tt
  | inr (x, e) ↦ rw e (get-EventsTrimmed store p s v e)
]

write_session-AllTrimmed :
    (store : Store) (p s : String) (x : SessionState)
    → AllTrimmed store
    → EventsTrimmed x
    → AllTrimmed (write_session store p s x)
unfolding write_session
write_session-AllTrimmed store p s x v h =
    All-upsert EventsTrimmed (matches p s) x store.sessions h v

bounded-IsTrimmed : (l : List EventRecord) → All IsTrimmed l → All IsTrimmed (bounded l)
unfolding bounded
bounded-IsTrimmed l h = elim (Bool-cases (ltb max_event_history (length l))) [
  | inl e ↦ rw e (All-drop IsTrimmed (length l - max_event_history) l h)
  | inr e ↦ rw e h
]

replace-IsTrimmed :
    (events : List EventRecord) (event_id : String) (e e' : EventRecord)
    → find_first (has_id event_id) events ≡ some e
    → e'.event_id ≡ e.event_id
    → All IsTrimmed events
    → All IsTrimmed (upsert (has_id event_id) e' events)
replace-IsTrimmed events event_id e e' h k a =
    All-upsert IsTrimmed (has_id event_id) e' events
      (rw k (All-find_first IsTrimmed (has_id event_id) events {a = e} a h)) a

deliver-EventsTrimmed :
    (now : String) (x : SessionState) (event_id delivery_id event : String)
    → trim_space event_id ≡ event_id
    → EventsTrimmed x
    → EventsTrimmed (deliver now x event_id delivery_id event).0
deliver-EventsTrimmed now x event_id delivery_id event t v =
    elim (deliver_cases now x event_id delivery_id event) [
      | inl (h, e) ↦ rw e (
          unfold appended in
          bounded-IsTrimmed _ (
            All-append IsTrimmed x.events (new_record now event_id delivery_id event ∷ []) v
              (t, tt)))
      | inr (inl (r, h, c, e)) ↦ rw e v
      | inr (inr (r, h, c, e)) ↦
          rw e (unfold retried in replace-IsTrimmed x.events event_id r _ h refl v)
    ]

record_trimmed-AllTrimmed :
    (now : String) (store : Store) (p s event_id delivery_id event : String)
    → trim_space event_id ≡ event_id
    → AllTrimmed store
    → AllTrimmed (record_trimmed now store p s event_id delivery_id event).1
unfolding record_trimmed
record_trimmed-AllTrimmed now store p s event_id delivery_id event t v =
    elim (Bool-cases (p == "" || s == "" || event_id == "")) [
      | inl e ↦ rw e v
      | inr e ↦ rw e (
          write_session-AllTrimmed store p s _ v (
            deliver-EventsTrimmed now _ event_id delivery_id event t
              (ensure_session-EventsTrimmed now store p s v)))
    ]

complete_event-AllTrimmed :
    (event_now now : String) (store : Store) (p s event_id status : String)
    → AllTrimmed store
    → AllTrimmed (complete_event event_now now store p s event_id status).1
complete_event-AllTrimmed event_now now store p s event_id status v =
    elim (complete_cases event_now now store p s event_id status) [
      | inl (e, r) ↦ rw r v
      | inr (x, e, f, g, h, r) ↦ rw r (
          write_session-AllTrimmed store p s _ v (
            unfold finish in
            replace-IsTrimmed x.events event_id e _ g refl (get-EventsTrimmed store p s v f)))
    ]

resume-AllTrimmed :
    (now : String) (store : Store) (p s : String)
    → AllTrimmed store
    → AllTrimmed (resume now store p s).1
unfolding resume
resume-AllTrimmed now store p s v = elim (Option-cases (get store p s)) [
  | inl e ↦ rw (e, resume) v
  | inr (x, e) ↦
      rw (e, resume) (write_session-AllTrimmed store p s _ v (get-EventsTrimmed store p s v e))
]

step-AllTrimmed : (c : Call) (store : Store) → AllTrimmed store → AllTrimmed (step c store)
unfolding step
step-AllTrimmed (delivers now p s event_id delivery_id event) store v =
    unfold record_delivery in
    record_trimmed-AllTrimmed now store (trim_space p) (trim_space s) (trim_space event_id)
      delivery_id event (trim_space_idem event_id) v
step-AllTrimmed (completes event_now now p s event_id status) store v =
    complete_event-AllTrimmed event_now now store p s event_id status v
step-AllTrimmed (pauses now p s reason) store v =
    unfold pause with_status in
    write_session-AllTrimmed store p s _ v (ensure_session-EventsTrimmed now store p s v)
step-AllTrimmed (crashes now p s reason) store v =
    unfold mark_crashed with_status in
    write_session-AllTrimmed store p s _ v (ensure_session-EventsTrimmed now store p s v)
step-AllTrimmed (resumes now p s) store v = resume-AllTrimmed now store p s v
step-AllTrimmed (permits now p s permissions) store v =
    unfold set_permissions in
    write_session-AllTrimmed store p s _ v (ensure_session-EventsTrimmed now store p s v)

run-AllTrimmed : (cs : List Call) (store : Store) → AllTrimmed store → AllTrimmed (run cs store)
unfolding run
run-AllTrimmed [] store v = v
run-AllTrimmed (c ∷ cs) store v = run-AllTrimmed cs (step c store) (step-AllTrimmed c store v)

-- An event id with blanks at its ends can be delivered and never be completed: in every store that
-- calls have made from the empty one, `CompleteEvent` with such an id fails and changes nothing.
pub complete_event_untrimmed :
    (cs : List Call) (event_now now p s event_id status : String)
    → trim_space event_id ≢ event_id
    → let store = run cs new_store in
      (e : Error) × (complete_event event_now now store p s event_id status ≡ (err e, store))
complete_event_untrimmed cs event_now now p s event_id status n =
    elim (complete_cases event_now now (run cs new_store) p s event_id status) [
      | inl r ↦ r
      | inr (x, e, f, g, h, r) ↦
          let trimmed =
            get-EventsTrimmed (run cs new_store) p s (run-AllTrimmed cs new_store tt) f in
          let same =
            (eq_iff e.event_id event_id).0
              (find_first-holds (has_id event_id) x.events {a = e} g) in
          absurd (
            n (
              subst (λ i. trim_space i ≡ i) same
                (All-find_first IsTrimmed (has_id event_id) x.events {a = e} trimmed g)))
    ]
