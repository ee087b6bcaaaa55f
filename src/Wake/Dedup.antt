-- ===== src/Wake/Dedup.antt =====
-- internal/wake/store.go: which deliveries wake the agent: the first one of an event, one of an
-- event that completed, and one of an event that failed.
use awp.Common.{
  sym, ok-injective, true, Bool-cases, String, Bool, false, some, none, List, ok, ◌≡◌, ◌≢◌, inl,
  inr, refl, ap, ◌∙◌, eq_iff, arith, ◌==◌, ◌||◌, Option-cases,
}
use mathlib.Core.Option.{get_or}
use awp.Common.Text.{trim_space}
use awp.Common.Keyed.{find_first, find_first-holds, find_first-upsert_self}
use awp.Wake.{
  EventRecord, SessionState, Store, has_id, get, ensure_session, deliver, record_trimmed,
  record_delivery,
}
use awp.Wake.Status.{completed}
use awp.Wake.Keys.{
  get-matches, ensure_session-matches, get-write_session_self, deliver_cases, matches-deliver,
}
use awp.Wake.Changes.{ended, finish, complete_event}
use awp.Wake.History.{complete_cases}

abbrev is_done_in : List EventRecord → String → Bool
is_done_in events event_id = elim (find_first (has_id event_id) events) [
  | none ↦ false
  | some e ↦ e.status == completed
]

-- The session has a record of the event, and it says that the event completed.
unfoldable pub is_done : Store → String → String → String → Bool
is_done store p s event_id = elim (get store p s) [
  | none ↦ false
  | some x ↦ is_done_in x.events event_id
]

deliver-flag :
    (now : String) (x : SessionState) (event_id delivery_id event : String)
    → (deliver now x event_id delivery_id event).1 ≡ is_done_in x.events event_id
deliver-flag now x event_id delivery_id event =
    elim (deliver_cases now x event_id delivery_id event) [
      | inl (h, e) ↦ rw (e, h, is_done_in)
      | inr (inl (r, h, c, e)) ↦ rw (e, h, is_done_in, c)
      | inr (inr (r, h, c, e)) ↦ rw (e, h, is_done_in, c)
    ]

is_done_in-ensure_session :
    (now : String) (store : Store) (p s event_id : String)
    → is_done_in (ensure_session now store p s).events event_id ≡ is_done store p s event_id
unfolding ensure_session is_done
is_done_in-ensure_session now store p s event_id = elim (Option-cases (get store p s)) [
  | inl e ↦ rw (e, get_or, is_done) (unfold find_first in refl)
  | inr (x, e) ↦ rw (e, get_or, is_done)
]

record_trimmed-is_done :
    (now : String) (store : Store) (p s event_id delivery_id event : String)
    → p ≢ ""
    → s ≢ ""
    → event_id ≢ ""
    → let r = record_trimmed now store p s event_id delivery_id event in
      (x : SessionState) × (r.0 ≡ ok (x, is_done store p s event_id)) × (get r.1 p s ≡ some x)
unfolding record_trimmed
record_trimmed-is_done now store p s event_id delivery_id event hp hs hi =
    let x = ensure_session now store p s in
    let y = deliver now x event_id delivery_id event in
    let given : (p == "" || s == "" || event_id == "") ≡ false =
      ground (arith, eq_iff p "", eq_iff s "", eq_iff event_id "") in
    (
      y.0,
      rw given (
          ap (λ b. ok (y.0, b))
            (deliver-flag now x event_id delivery_id event
              ∙ is_done_in-ensure_session now store p s event_id)),
      rw given (
          get-write_session_self store p s y.0 (
            matches-deliver p s now x event_id delivery_id event
            ∙ ensure_session-matches now store p s)),
    )

-- With three identifiers that are not blank `RecordDelivery` succeeds. It reports a duplicate
-- exactly if the store holds the event, under the trimmed identifiers, as completed; and the state
-- that it returns is the one that the store then holds.
pub record_delivery-is_done :
    (now : String) (store : Store) (provider session_id event_id delivery_id event : String)
    → trim_space provider ≢ ""
    → trim_space session_id ≢ ""
    → trim_space event_id ≢ ""
    → let r = record_delivery now store provider session_id event_id delivery_id event in
      let p = trim_space provider in
      let s = trim_space session_id in
      (x : SessionState) × (r.0 ≡ ok (x, is_done store p s (trim_space event_id)))
      × (get r.1 p s ≡ some x)
unfolding record_delivery
record_delivery-is_done now store provider session_id event_id delivery_id event hp hs hi =
    record_trimmed-is_done now store _ _ _ delivery_id event hp hs hi

-- What a successful `RecordDelivery` tells.
pub record_delivery-ok :
    (now : String) (store : Store) (provider session_id event_id delivery_id event : String)
    {x : SessionState} {duplicate : Bool}
    → let r = record_delivery now store provider session_id event_id delivery_id event in
      let p = trim_space provider in
      let s = trim_space session_id in
      r.0 ≡ ok (x, duplicate)
      → (duplicate ≡ is_done store p s (trim_space event_id)) × (get r.1 p s ≡ some x)
unfolding record_delivery record_trimmed
record_delivery-ok now store provider session_id event_id delivery_id event {x} {duplicate} h =
    let p = trim_space provider in
    let s = trim_space session_id in
    let i = trim_space event_id in
    elim (Bool-cases (p == "" || s == "" || i == "")) [
      | inl e ↦ absurd (blank p s i e h)
      | inr e ↦
          let (y, f, g) =
            record_trimmed-is_done now store p s i delivery_id event (ground (arith, eq_iff p ""))
              (ground (arith, eq_iff s "")) (ground (arith, eq_iff i "")) in
          let same = ok-injective (sym h ∙ f) in
          (ap (λ z. z.1) same, g ∙ ap (λ z. some z.0) (sym same))
    ]
  where
    blank :
        (p s i : String)
        → (p == "" || s == "" || i == "") ≡ true
        → (record_trimmed now store p s i delivery_id event).0 ≢ ok (x, duplicate)
    blank p s i e k = cc (rw (e, record_trimmed) at k)

pub complete_event-is_done :
    (event_now now : String) (store : Store) (p s event_id status : String) {x : SessionState}
    → (complete_event event_now now store p s event_id status).0 ≡ ok x
    → is_done (complete_event event_now now store p s event_id status).1 p s event_id
      ≡ (status == completed)
unfolding is_done
complete_event-is_done event_now now store p s event_id status h =
    elim (complete_cases event_now now store p s event_id status) [
      | inl (e, r) ↦ absurd (ground (arith, r))
      | inr (x, e, f, g, st, r) ↦
          let y = finish event_now now x e event_id status in
          let read =
            get-write_session_self store p s y (unfold finish in get-matches store p s f) in
          let found : find_first (has_id event_id) y.events ≡ some (ended event_now e status) =
            unfold finish in
            find_first-upsert_self (has_id event_id) (ended event_now e status) x.events
              (find_first-holds (has_id event_id) x.events {a = e} g) in
          rw r (rw (read, is_done) (rw (found, is_done_in)))
    ]

-- At-least-once delivery. Once `CompleteEvent` has succeeded, delivering the same event again is a
-- duplicate if the status was `completed`; if it was `failed`, it is to be handled again. This is
-- for identifiers with no blanks at their ends.
pub redelivery :
    (event_now now later : String) (store store' : Store)
    (p s event_id status delivery_id event : String) (x : SessionState)
    → complete_event event_now now store p s event_id status ≡ (ok x, store')
    → trim_space p ≡ p
    → trim_space s ≡ s
    → trim_space event_id ≡ event_id
    → p ≢ ""
    → s ≢ ""
    → event_id ≢ ""
    → (y : SessionState) × ((record_delivery later store' p s event_id delivery_id event).0
        ≡ ok (y, status == completed))
unfolding record_delivery
redelivery event_now now later store store' p s event_id status delivery_id event x h tp ts ti np ns
      ni =
    let done = complete_event-is_done event_now now store p s event_id status (ap (λ r. r.0) h) in
    let (y, e, _) = record_trimmed-is_done later store' p s event_id delivery_id event np ns ni in
    (y, rw (tp, ts, ti) (e ∙ ap (λ b. ok (y, b)) (rw h at done)))

pub is_done-get :
    (store store' : Store) (p s event_id : String)
    → get store' p s ≡ get store p s
    → is_done store' p s event_id ≡ is_done store p s event_id
unfolding is_done
is_done-get store store' p s event_id h = rw (h, is_done)
