-- ===== src/Wake/Invariant.antt =====
-- What every operation on the event store keeps: one session for each key, at most
-- `max_event_history` events in a session, and one record for each event id.
use awp.Common.{
  String, Bool, true, some, none, List, [], ◌∷◌, ◌++◌, ◌-◌, ◌∙◌, ◌==◌, ◌||◌, ◌≡◌, ◌≤◌, refl, subst,
  inl, inr, arith, eq_iff, ltb, length, length-drop, All, Option-cases, Bool-cases,
}
use awp.Common.Keyed.{
  find_first, find_first-holds, upsert, All-upsert, All-find_first, upsert_absent,
  length-upsert_present, IsUnique, IsUnique-upsert, IsUnique-drop, IsSame,
}
use awp.Wake.{
  EventRecord, SessionState, Store, max_event_history, new_store, matches, has_id, get,
  ensure_session, write_session, bounded, new_record, appended, retried, deliver, record_trimmed,
  record_delivery,
}
use awp.Wake.Keys.{
  matches-true, same_key, same_key-IsSame, ensure_session-matches, matches-deliver, deliver_cases,
}

abbrev pub same_event : EventRecord → EventRecord → Bool
same_event x y = has_id x.event_id y

same_event-IsSame : IsSame same_event
same_event-IsSame = record {
  symm = λ x y h. ground (arith, eq_iff x.event_id y.event_id, eq_iff y.event_id x.event_id);
  trans = λ x y z h k. ground (
    arith,
    eq_iff x.event_id y.event_id,
    eq_iff y.event_id x.event_id,
    eq_iff z.event_id y.event_id,
    eq_iff z.event_id x.event_id,
  );
}

pub record IsValidSession (s : SessionState) : Type 0 where
  pub distinct : IsUnique same_event s.events
  pub within : length s.events ≤ max_event_history

pub record IsValid (store : Store) : Type 0 where
  pub one_each : IsUnique same_key store.sessions
  pub each : All IsValidSession store.sessions

pub new_store-IsValid : IsValid new_store
new_store-IsValid = record { one_each = tt; each = tt }

pub get-IsValidSession :
    (store : Store) (p s : String) {x : SessionState}
    → IsValid store
    → get store p s ≡ some x
    → IsValidSession x
unfolding get
get-IsValidSession store p s v h =
    All-find_first IsValidSession (matches p s) store.sessions v.each h

pub ensure_session-IsValidSession :
    (now : String) (store : Store) (p s : String)
    → IsValid store
    → IsValidSession (ensure_session now store p s)
unfolding ensure_session
ensure_session-IsValidSession now store p s v = elim (Option-cases (get store p s)) [
  | inl e ↦ rw e (record { distinct = tt; within = omega arith })
  | inr (x, e) ↦ rw e (get-IsValidSession store p s v e)
]

pub write_session-IsValid :
    (store : Store) (p s : String) (x : SessionState)
    → IsValid store
    → IsValidSession x
    → matches p s x ≡ true
    → IsValid (write_session store p s x)
unfolding write_session
write_session-IsValid store p s x v k h =
    let (e, f) = matches-true p s x h in
    record {
      one_each =
          subst (λ q. IsUnique same_key (upsert (matches q s) x store.sessions)) e
            (subst (λ t. IsUnique same_key (upsert (matches x.provider t) x store.sessions)) f
              (IsUnique-upsert same_key-IsSame x store.sessions v.one_each));
      each = All-upsert IsValidSession (matches p s) x store.sessions k v.each;
    }

bounded-distinct : (l : List EventRecord) → IsUnique same_event l → IsUnique same_event (bounded l)
unfolding bounded
bounded-distinct l u = elim (Bool-cases (ltb max_event_history (length l))) [
  | inl e ↦ rw e (IsUnique-drop same_event _ l u)
  | inr e ↦ rw e u
]

pub length-bounded-le : (l : List EventRecord) → length (bounded l) ≤ max_event_history
unfolding bounded
length-bounded-le l = ground (arith, length-drop (length l - max_event_history) l)

-- A record with the id of one that is there, put in its place.
pub replace-IsValidSession :
    (events : List EventRecord) (event_id : String) (e e' : EventRecord)
    → find_first (has_id event_id) events ≡ some e
    → e'.event_id ≡ e.event_id
    → IsUnique same_event events
    → length events ≤ max_event_history
    → IsUnique same_event (upsert (has_id event_id) e' events)
      × (length (upsert (has_id event_id) e' events) ≤ max_event_history)
replace-IsValidSession events event_id e e' h k u b =
    let same : e'.event_id ≡ event_id =
      k ∙ (eq_iff e.event_id event_id).0 (find_first-holds (has_id event_id) events {a = e} h) in
    (
      subst (λ i. IsUnique same_event (upsert (has_id i) e' events)) same
          (IsUnique-upsert same_event-IsSame e' events u),
      omega (arith, length-upsert_present (has_id event_id) e' e events h),
    )

append-distinct :
    (events : List EventRecord) (e : EventRecord)
    → find_first (has_id e.event_id) events ≡ none
    → IsUnique same_event events
    → IsUnique same_event (events ++ e ∷ [])
append-distinct events e h u =
    subst (IsUnique same_event) (upsert_absent (has_id e.event_id) e events h)
      (IsUnique-upsert same_event-IsSame e events u)

appended-IsValidSession :
    (now : String) (x : SessionState) (event_id delivery_id event : String)
    → find_first (has_id event_id) x.events ≡ none
    → IsValidSession x
    → IsValidSession (appended now x event_id delivery_id event)
unfolding appended
appended-IsValidSession now x event_id delivery_id event h v = record {
  distinct = bounded-distinct all (append-distinct x.events new h v.distinct);
  within = length-bounded-le all;
}
  where
    new : EventRecord
    new = new_record now event_id delivery_id event

    all : List EventRecord
    all = x.events ++ new ∷ []

retried-IsValidSession :
    (now : String) (x : SessionState) (e : EventRecord) (event_id delivery_id event : String)
    → find_first (has_id event_id) x.events ≡ some e
    → IsValidSession x
    → IsValidSession (retried now x e event_id delivery_id event)
unfolding retried
retried-IsValidSession now x e event_id delivery_id event h v =
    let (u, b) = replace-IsValidSession x.events event_id e _ h refl v.distinct v.within in
    record { distinct = u; within = b }

pub deliver-IsValidSession :
    (now : String) (x : SessionState) (event_id delivery_id event : String)
    → IsValidSession x
    → IsValidSession (deliver now x event_id delivery_id event).0
deliver-IsValidSession now x event_id delivery_id event v =
    elim (deliver_cases now x event_id delivery_id event) [
      | inl (h, e) ↦ rw e (appended-IsValidSession now x event_id delivery_id event h v)
      | inr (inl (r, h, c, e)) ↦ rw e v
      | inr (inr (r, h, c, e)) ↦
          rw e (retried-IsValidSession now x r event_id delivery_id event h v)
    ]

record_trimmed-IsValid :
    (now : String) (store : Store) (p s event_id delivery_id event : String)
    → IsValid store
    → IsValid (record_trimmed now store p s event_id delivery_id event).1
unfolding record_trimmed
record_trimmed-IsValid now store p s event_id delivery_id event v =
    elim (Bool-cases (p == "" || s == "" || event_id == "")) [
      | inl e ↦ rw e v
      | inr e ↦ rw e (
          write_session-IsValid store p s _ v
            (deliver-IsValidSession now _ event_id delivery_id event
              (ensure_session-IsValidSession now store p s v))
            (rw matches-deliver (ensure_session-matches now store p s)))
    ]

pub record_delivery-IsValid :
    (now : String) (store : Store) (p s event_id delivery_id event : String)
    → IsValid store
    → IsValid (record_delivery now store p s event_id delivery_id event).1
unfolding record_delivery
record_delivery-IsValid now store p s event_id delivery_id event v =
    record_trimmed-IsValid now store _ _ _ delivery_id event v
