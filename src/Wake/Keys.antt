-- ===== src/Wake/Keys.antt =====
-- Reads of one session after writes of it or of another one.
use awp.Common.{
  String, Bool, true, false, some, ◌≡◌, ◌≢◌, ◌⊎◌, inl, inr, refl, arith, eq_iff, Option-cases,
  Bool-cases, ◌==◌, none,
}
use mathlib.Core.Option.{get_or}
use awp.Common.Keyed.{
  find_first, find_first-holds, find_first-upsert_self, find_first-upsert_ne, IsSame,
}
use awp.Wake.Status.{completed}
use awp.Wake.{
  SessionState, Store, matches, get, fresh, ensure_session, write_session, EventRecord, has_id,
  appended, retried, deliver,
}

pub matches-true :
    (p s : String) (x : SessionState) → matches p s x ≡ true → (x.provider ≡ p) × (x.session_id ≡ s)
matches-true p s x h = ground (arith, eq_iff x.provider p, eq_iff x.session_id s)

pub matches_of_eq :
    (p s : String) (x : SessionState) → x.provider ≡ p → x.session_id ≡ s → matches p s x ≡ true
matches_of_eq p s x h k = ground (arith, eq_iff x.provider p, eq_iff x.session_id s)

-- Another provider or another session.
abbrev pub IsOther : String → String → String → String → Type 0
IsOther p s p' s' = (p ≢ p') ⊎ (s ≢ s')

pub matches_other :
    (p s p' s' : String) (x : SessionState)
    → IsOther p s p' s'
    → matches p s x ≡ true
    → matches p' s' x ≡ false
matches_other p s p' s' x o h =
    ground (arith, matches-true p s x, eq_iff x.provider p', eq_iff x.session_id s')

pub get-matches :
    (store : Store) (p s : String) {x : SessionState}
    → get store p s ≡ some x
    → matches p s x ≡ true
unfolding get
get-matches store p s {x} h = find_first-holds (matches p s) store.sessions {a = x} h

pub ensure_session-matches :
    (now : String) (store : Store) (p s : String)
    → matches p s (ensure_session now store p s) ≡ true
unfolding ensure_session
ensure_session-matches now store p s = elim (Option-cases (get store p s)) [
  | inl e ↦ rw e (matches_of_eq p s (fresh now p s) refl refl)
  | inr (x, e) ↦ rw e (get-matches store p s e)
]

pub get-write_session_self :
    (store : Store) (p s : String) (x : SessionState)
    → matches p s x ≡ true
    → get (write_session store p s x) p s ≡ some x
unfolding get write_session
get-write_session_self store p s x h = find_first-upsert_self (matches p s) x store.sessions h

pub get-write_session_other :
    (store : Store) (p s p' s' : String) (x : SessionState)
    → IsOther p s p' s'
    → matches p s x ≡ true
    → get (write_session store p s x) p' s' ≡ get store p' s'
unfolding get write_session
get-write_session_other store p s p' s' x o h =
    find_first-upsert_ne (matches p s) (matches p' s') x store.sessions
      (matches_other p s p' s' x o h) (λ y k. matches_other p s p' s' y o k)

-- The same provider and the same session.
abbrev pub same_key : SessionState → SessionState → Bool
same_key x y = matches x.provider x.session_id y

pub same_key-IsSame : IsSame same_key
same_key-IsSame = record {
  symm = λ x y h.
      let (p, s) = matches-true x.provider x.session_id y h in
      ground (arith, eq_iff x.provider y.provider, eq_iff x.session_id y.session_id);
  trans = λ x y z h k. ground (
    arith,
    matches-true x.provider x.session_id y h,
    matches-true y.provider y.session_id z k,
    matches_of_eq x.provider x.session_id z,
  );
}

-- The three ways of a delivery: a new event, one that had completed, one to try again.
pub deliver_cases :
    (now : String) (x : SessionState) (event_id delivery_id event : String)
    → let y = deliver now x event_id delivery_id event in
      ((find_first (has_id event_id) x.events ≡ none)
        × (y ≡ (appended now x event_id delivery_id event, false)))
      ⊎ (((e : EventRecord) × (find_first (has_id event_id) x.events ≡ some e)
            × ((e.status == completed) ≡ true)
            × (y ≡ (x, true)))
          ⊎ ((e : EventRecord) × (find_first (has_id event_id) x.events ≡ some e)
              × ((e.status == completed) ≡ false)
              × (y ≡ (retried now x e event_id delivery_id event, false))))
unfolding deliver
deliver_cases now x event_id delivery_id event =
    elim (Option-cases (find_first (has_id event_id) x.events)) [
      | inl h ↦ inl (h, rw (h, deliver))
      | inr (e, h) ↦ elim (Bool-cases (e.status == completed)) [
        | inl c ↦ inr (inl (e, h, c, ground arith))
        | inr c ↦ inr (inr (e, h, c, ground arith))
      ]
    ]

pub matches-deliver :
    (p s now : String) (x : SessionState) (event_id delivery_id event : String)
    → matches p s (deliver now x event_id delivery_id event).0 ≡ matches p s x
matches-deliver p s now x event_id delivery_id event =
    elim (deliver_cases now x event_id delivery_id event) [
      | inl (h, e) ↦ rw e (unfold appended in refl)
      | inr (inl (r, h, c, e)) ↦ rw e
      | inr (inr (r, h, c, e)) ↦ rw e (unfold retried in refl)
    ]

pub key_cases : (p s p' s' : String) → ((p ≡ p') × (s ≡ s')) ⊎ IsOther p s p' s'
key_cases p s p' s' =
    ground (arith, eq_iff p p', eq_iff s s', Bool-cases (p == p'), Bool-cases (s == s'))

pub ensure_session_present :
    (now : String) (store : Store) (p s : String) {x : SessionState}
    → get store p s ≡ some x
    → ensure_session now store p s ≡ x
unfolding ensure_session
ensure_session_present now store p s h = rw (h, get_or)
