-- ===== src/Wake/Pending.antt =====
-- internal/wake/store.go, `Pending`: what a resumed agent is shown, after a delivery and after the
-- end of an event.
use awp.Common.{
  String, Bool, false, some, List, [], ◌∷◌, ◌++◌, ok, ◌≡◌, ◌⊎◌, inl, inr, refl, sym, ok-injective,
  ap, subst, length-append, ◌<◌, ◌∙◌, arith, eq_iff, All, length, ltb, keep, not, Bool-cases,
}
use awp.Common.Keyed.{find_first, find_first-holds, upsert, upsert_hit, upsert_miss, IsUnique}
use awp.Wake.{
  Store, Outcome, get, write_session, EventRecord, SessionState, has_id, bounded, max_event_history,
  new_record, appended,
}
use awp.Wake.Status.{completed, failed}
use awp.Wake.Changes.{ended, finish, complete_event}
use awp.Wake.Views.{is_pending, pending}
use awp.Wake.Invariant.{same_event, IsValidSession, IsValid, get-IsValidSession}
use awp.Wake.Keys.{get-matches, get-write_session_self}
use awp.Wake.History.{complete_cases}

-- The other events.
abbrev pub is_not : String → EventRecord → Bool
is_not event_id e = not (has_id event_id e)

-- No event with this id: dropping it drops nothing.
keep-is_not_absent :
    (event_id : String) (events : List EventRecord)
    → All (λ y. has_id event_id y ≡ false) events
    → keep (is_not event_id) (keep is_pending events) ≡ keep is_pending events
keep-is_not_absent event_id [] h = refl
keep-is_not_absent event_id (x ∷ xs) h = ground (arith, keep-is_not_absent event_id xs h.1)

keep-upsert_ended :
    (events : List EventRecord) (event_id : String) (e e' : EventRecord)
    → find_first (has_id event_id) events ≡ some e
    → e.event_id ≡ event_id
    → IsUnique same_event events
    → is_pending e' ≡ false
    → keep is_pending (upsert (has_id event_id) e' events)
      ≡ keep (is_not event_id) (keep is_pending events)
keep-upsert_ended [] event_id e e' h i u k = unfold find_first in absurd (ground arith)
keep-upsert_ended (x ∷ xs) event_id e e' h i u k = elim (Bool-cases (has_id event_id x)) [
  | inl t ↦
      let same = (eq_iff x.event_id event_id).0 t in
      let rest =
        keep-is_not_absent event_id xs (subst (λ j. All (λ y. has_id j y ≡ false) xs) same u.0) in
      rw (upsert_hit (has_id event_id) e' x xs t) (ground (arith, rest))
  | inr t ↦
      let rest = keep-upsert_ended xs event_id e e' (unfold find_first in ground arith) i u.1 k in
      rw (upsert_miss (has_id event_id) e' x xs t) (ground (arith, rest))
]

-- Ending an event takes it out of the pending ones, and leaves the others there in their order.
pub pending-finish :
    (event_now now : String) (x : SessionState) (e : EventRecord) (event_id status : String)
    → find_first (has_id event_id) x.events ≡ some e
    → (status ≡ completed) ⊎ (status ≡ failed)
    → IsValidSession x
    → pending (finish event_now now x e event_id status) ≡ keep (is_not event_id) (pending x)
unfolding pending finish
pending-finish event_now now x e event_id status h k v =
    keep-upsert_ended x.events event_id e (ended event_now e status) h
      ((eq_iff e.event_id event_id).0 (find_first-holds (has_id event_id) x.events {a = e} h))
      v.distinct (ended-not-pending k)
  where
    ended-not-pending :
        (status ≡ completed) ⊎ (status ≡ failed) → is_pending (ended event_now e status) ≡ false
    ended-not-pending (inl f) = rw f
    ended-not-pending (inr f) = rw f

keep-append {ℓ} :
    {A : Type ℓ} (p : A → Bool) (xs ys : List A) → keep p (xs ++ ys) ≡ keep p xs ++ keep p ys
keep-append p [] ys = refl
keep-append p (x ∷ xs) ys = ground (arith, keep-append p xs ys)

-- A new event is the last of the pending ones, and no other is lost while there is room.
pub pending-appended :
    (now : String) (x : SessionState) (event_id delivery_id event : String)
    → length x.events < max_event_history
    → pending (appended now x event_id delivery_id event)
      ≡ pending x ++ new_record now event_id delivery_id event ∷ []
unfolding pending appended bounded
pending-appended now x event_id delivery_id event h =
    let new = new_record now event_id delivery_id event in
    let small : ltb max_event_history (length (x.events ++ new ∷ [])) ≡ false =
      ground (arith, length-append x.events (new ∷ [])) in
    rw small (keep-append is_pending x.events (new ∷ []))

-- In a valid store, a `CompleteEvent` that succeeds takes exactly the event's record out of the
-- pending ones of its session, and leaves the others there in their order.
pub complete_event-pending :
    (event_now now : String) (store store' : Store) (p s event_id status : String)
    (y : SessionState)
    → IsValid store
    → complete_event event_now now store p s event_id status ≡ (ok y, store')
    → (x : SessionState) × (get store p s ≡ some x)
      × (get store' p s ≡ some y)
      × (pending y ≡ keep (is_not event_id) (pending x))
complete_event-pending event_now now store store' p s event_id status y v h =
    elim (complete_cases event_now now store p s event_id status) [
      | inl (e, r) ↦ absurd (ground (arith, r, h))
      | inr (x, e, f, g, k, r) ↦
          let z = finish event_now now x e event_id status in
          let both : ◌≡◌ {A = Outcome SessionState} (ok z, write_session store p s z)
              (ok y, store') =
            sym r ∙ h in
          let same : z ≡ y = ok-injective (ap (λ q. q.0) both) in
          let left : write_session store p s z ≡ store' = ap (λ q. q.1) both in
          let read =
            get-write_session_self store p s z (unfold finish in get-matches store p s f) in
          (
            x,
            f,
            ap (λ st. get st p s) (sym left) ∙ read ∙ ap some same,
            ap pending (sym same)
                ∙ pending-finish event_now now x e event_id status g k
                    (get-IsValidSession store p s v f),
          )
    ]
