-- ===== src/Wake/Recorded.antt =====
-- internal/wake/store.go, `Seen`: what `RecordDelivery` and `CompleteEvent` do to the record of an
-- event, also when the history is full.
use awp.Common.{
  ℕ, zero, suc, ◌-◌, ◌≤◌, String, Bool, true, false, some, none, List, [], ◌∷◌, ◌++◌, ok, ◌≡◌, ◌⊎◌,
  inl, inr, refl, sym, ap, ◌∙◌, eq_refl, arith, ◌==◌, ◌&&◌, ◌||◌, not, Option-cases, Bool-cases,
  is_some, length, length-append, drop, ltb, All,
}
use awp.Common.Text.{trim_space}
use awp.Common.Keyed.{find_first, find_first-holds, find_first-upsert_self}
use awp.Wake.{
  EventRecord, SessionState, Store, max_event_history, has_id, get, seen, bounded, new_record,
  ensure_session, write_session, deliver, appended, retried, record_trimmed, record_delivery,
}
use awp.Wake.Status.{completed, failed}
use awp.Wake.Keys.{
  IsOther, ensure_session-matches, ensure_session_present, get-write_session_self, deliver_cases,
  matches-deliver,
}
use awp.Wake.Changes.{finish, complete_event, set_permissions}
use awp.Wake.History.{Call, step, run}
use awp.Wake.Isolation.{target, get-step_other}

abbrev is_in : String → List EventRecord → Bool
is_in event_id events = is_some (find_first (has_id event_id) events)

seen_of_none :
    (store : Store) (p s event_id : String) → get store p s ≡ none → seen store p s event_id ≡ false
unfolding seen
seen_of_none store p s event_id h = rw (h, seen)

seen_of_get :
    (store : Store) (p s event_id : String) {x : SessionState}
    → get store p s ≡ some x
    → seen store p s event_id ≡ is_in event_id x.events
unfolding seen
seen_of_get store p s event_id h = rw (h, seen)

get_of_seen :
    (store : Store) (p s event_id : String)
    → seen store p s event_id ≡ true
    → (x : SessionState) × (get store p s ≡ some x) × (is_in event_id x.events ≡ true)
get_of_seen store p s event_id h = elim (Option-cases (get store p s)) [
  | inl e ↦ absurd (cc (seen_of_none store p s event_id e, h))
  | inr (x, e) ↦ (x, e, sym (seen_of_get store p s event_id e) ∙ h)
]

-- The newest event stays when older ones are dropped.
is_in-drop_append :
    (n : ℕ) (events : List EventRecord) (event_id : String) (e : EventRecord)
    → n ≤ length events
    → has_id event_id e ≡ true
    → is_in event_id (drop n (events ++ e ∷ [])) ≡ true
unfolding find_first
is_in-drop_append zero [] event_id e le h = rw h
is_in-drop_append zero (x ∷ xs) event_id e le h =
    ground (arith, is_in-drop_append zero xs event_id e (omega arith) h)
is_in-drop_append (suc n) [] event_id e le h = absurd (omega arith)
is_in-drop_append (suc n) (x ∷ xs) event_id e le h =
    is_in-drop_append n xs event_id e (omega arith) h

is_in-bounded :
    (events : List EventRecord) (event_id : String) (e : EventRecord)
    → has_id event_id e ≡ true
    → is_in event_id (bounded (events ++ e ∷ [])) ≡ true
unfolding bounded
is_in-bounded events event_id e h =
    let all = events ++ e ∷ [] in
    let count = length-append events (e ∷ []) in
    elim (Bool-cases (ltb max_event_history (length all))) [
      | inl f ↦ rw f (
          is_in-drop_append (length all - max_event_history) events event_id e
            (omega (arith, count)) h)
      | inr f ↦ rw f (is_in-drop_append 0 events event_id e (omega arith) h)
    ]

is_in-deliver :
    (now : String) (x : SessionState) (event_id delivery_id event : String)
    → is_in event_id (deliver now x event_id delivery_id event).0.events ≡ true
is_in-deliver now x event_id delivery_id event =
    elim (deliver_cases now x event_id delivery_id event) [
      | inl (h, e) ↦ rw e (
          unfold appended in
          is_in-bounded x.events event_id (new_record now event_id delivery_id event)
            (eq_refl event_id))
      | inr (inl (r, h, c, e)) ↦ rw e (rw h)
      | inr (inr (r, h, c, e)) ↦ rw e (
          unfold retried in
          ap is_some (
            find_first-upsert_self (has_id event_id) _ x.events
              (find_first-holds (has_id event_id) x.events {a = r} h)))
    ]

record_trimmed-seen :
    (now : String) (store : Store) (p s event_id delivery_id event : String)
    {r : SessionState × Bool}
    → (record_trimmed now store p s event_id delivery_id event).0 ≡ ok r
    → seen (record_trimmed now store p s event_id delivery_id event).1 p s event_id ≡ true
unfolding record_trimmed
record_trimmed-seen now store p s event_id delivery_id event h =
    elim (Bool-cases (p == "" || s == "" || event_id == "")) [
      | inl e ↦ absurd (cc (rw (e, record_trimmed) at h))
      | inr e ↦
          let x = ensure_session now store p s in
          let y = deliver now x event_id delivery_id event in
          rw e (
            seen_of_get (write_session store p s y.0) p s event_id (
              get-write_session_self store p s y.0 (
                matches-deliver p s now x event_id delivery_id event
                ∙ ensure_session-matches now store p s))
            ∙ is_in-deliver now x event_id delivery_id event)
    ]

-- A delivery that `RecordDelivery` accepts is recorded under the trimmed identifiers, also when the
-- session's history is full.
pub record_delivery-seen :
    (now : String) (store : Store) (provider session_id event_id delivery_id event : String)
    (r : SessionState × Bool)
    → (record_delivery now store provider session_id event_id delivery_id event).0 ≡ ok r
    → seen
        (record_delivery now store provider session_id event_id delivery_id event).1
        (trim_space provider)
        (trim_space session_id)
        (trim_space event_id)
      ≡ true
unfolding record_delivery
record_delivery-seen now store provider session_id event_id delivery_id event r h =
    record_trimmed-seen now store _ _ _ delivery_id event h

pub seen-get :
    (store store' : Store) (p s event_id : String)
    → get store' p s ≡ get store p s
    → seen store p s event_id ≡ true
    → seen store' p s event_id ≡ true
seen-get store store' p s event_id h k =
    let (x, e, f) = get_of_seen store p s event_id k in seen_of_get store' p s event_id (h ∙ e) ∙ f

pub get-run_other :
    (cs : List Call) (store : Store) (p s : String)
    → All (λ c. IsOther (target c).0 (target c).1 p s) cs
    → get (run cs store) p s ≡ get store p s
unfolding run
get-run_other [] store p s a = refl
get-run_other (c ∷ cs) store p s a =
    get-run_other cs (step c store) p s a.1 ∙ get-step_other c store p s a.0

pub seen-set_permissions :
    (now : String) (store : Store) (p s event_id : String) (permissions : List String)
    → seen store p s event_id ≡ true
    → seen (set_permissions now store p s permissions).1 p s event_id ≡ true
unfolding set_permissions
seen-set_permissions now store p s event_id permissions h =
    let (x, e, f) = get_of_seen store p s event_id h in
    let y = record (ensure_session now store p s) { permissions = permissions } in
    seen_of_get (write_session store p s y) p s event_id
      (get-write_session_self store p s y (ensure_session-matches now store p s))
    ∙ ap (λ z. is_in event_id z.events) (ensure_session_present now store p s e)
    ∙ f

-- `CompleteEvent` with a terminal status succeeds on every recorded event.
pub complete_event-seen :
    (event_now now : String) (store : Store) (p s event_id status : String)
    → seen store p s event_id ≡ true
    → (status ≡ completed) ⊎ (status ≡ failed)
    → (x : SessionState) × ((complete_event event_now now store p s event_id status).0 ≡ ok x)
unfolding complete_event
complete_event-seen event_now now store p s event_id status h k =
    let (x, e, f) = get_of_seen store p s event_id h in
    elim (Option-cases (find_first (has_id event_id) x.events)) [
      | inl g ↦ absurd (cc (f, g))
      | inr (r, g) ↦
          let known : (not (status == completed) && not (status == failed)) ≡ false = terminal k in
          (finish event_now now x r event_id status, ground (arith, e, g, known))
    ]
  where
    terminal :
        (status ≡ completed) ⊎ (status ≡ failed)
        → (not (status == completed) && not (status == failed)) ≡ false
    terminal (inl t) = rw t
    terminal (inr t) = rw t
