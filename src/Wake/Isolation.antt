-- ===== src/Wake/Isolation.antt =====
-- internal/wake/store.go: the sessions that a call does not name.
use awp.Common.{String, ◌≡◌, inl, inr, ◌==◌, ◌||◌, Option-cases, Bool-cases}
use awp.Common.Text.{trim_space}
use awp.Wake.{Store, get, record_trimmed, record_delivery}
use awp.Wake.Keys.{
  IsOther, get-matches, ensure_session-matches, get-write_session_other, matches-deliver,
}
use awp.Wake.Changes.{
  finish, complete_event, with_status, pause, mark_crashed, resume, set_permissions,
}
use awp.Wake.History.{
  Call, delivers, completes, pauses, crashes, resumes, permits, step, complete_cases,
}

-- The provider and the session that a call names. Deliveries trim theirs.
abbrev pub target : Call → String × String
target (delivers now p s event_id delivery_id event) = (trim_space p, trim_space s)
target (completes event_now now p s event_id status) = (p, s)
target (pauses now p s reason) = (p, s)
target (crashes now p s reason) = (p, s)
target (resumes now p s) = (p, s)
target (permits now p s permissions) = (p, s)

module _ (store : Store) (p s p' s' : String) (o : IsOther p s p' s') where
  get-record_trimmed_other :
      (now event_id delivery_id event : String)
      → get (record_trimmed now store p s event_id delivery_id event).1 p' s' ≡ get store p' s'
  unfolding record_trimmed
  get-record_trimmed_other now event_id delivery_id event =
      elim (Bool-cases (p == "" || s == "" || event_id == "")) [
        | inl e ↦ rw e
        | inr e ↦ rw e (
            get-write_session_other store p s p' s' _ o
              (rw matches-deliver (ensure_session-matches now store p s)))
      ]

  get-complete_event_other :
      (event_now now event_id status : String)
      → get (complete_event event_now now store p s event_id status).1 p' s' ≡ get store p' s'
  get-complete_event_other event_now now event_id status =
      elim (complete_cases event_now now store p s event_id status) [
        | inl (e, r) ↦ rw r
        | inr (x, e, f, g, h, r) ↦
            rw r (
              get-write_session_other store p s p' s' _ o
                (unfold finish in get-matches store p s f))
      ]

  get-resume_other : (now : String) → get (resume now store p s).1 p' s' ≡ get store p' s'
  unfolding resume
  get-resume_other now = elim (Option-cases (get store p s)) [
    | inl e ↦ rw (e, resume)
    | inr (x, e) ↦
        rw (e, resume) (get-write_session_other store p s p' s' _ o (get-matches store p s e))
  ]

-- A call of any kind leaves every session but the one that it names as it was, whether it
-- succeeds or fails.
pub get-step_other :
    (c : Call) (store : Store) (p' s' : String)
    → IsOther (target c).0 (target c).1 p' s'
    → get (step c store) p' s' ≡ get store p' s'
unfolding step
get-step_other (delivers now p s event_id delivery_id event) store p' s' o =
    unfold record_delivery in
    get-record_trimmed_other store (trim_space p) (trim_space s) p' s' o now (trim_space event_id)
      delivery_id event
get-step_other (completes event_now now p s event_id status) store p' s' o =
    get-complete_event_other store p s p' s' o event_now now event_id status
get-step_other (pauses now p s reason) store p' s' o =
    unfold pause with_status in
    get-write_session_other store p s p' s' _ o (ensure_session-matches now store p s)
get-step_other (crashes now p s reason) store p' s' o =
    unfold mark_crashed with_status in
    get-write_session_other store p s p' s' _ o (ensure_session-matches now store p s)
get-step_other (resumes now p s) store p' s' o = get-resume_other store p s p' s' o now
get-step_other (permits now p s permissions) store p' s' o =
    unfold set_permissions in
    get-write_session_other store p s p' s' _ o (ensure_session-matches now store p s)
