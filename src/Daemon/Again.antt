-- ===== src/Daemon/Again.antt =====
-- internal/cli/daemon.go: the end of an event that an adapter has handled without an error, and
-- another delivery of it.
use awp.Common.{
  String, Bool, true, false, Option, some, none, List, ok, ◌≡◌, inl, inr, refl, sym, ◌∙◌, ap, subst,
  All, Result-cases, Option-cases,
}
use awp.Common.Text.{trim_space}
use awp.Permissions.{RequestedPermission, Authorization}
use awp.Permissions.Authorize.{authorize}
use awp.Sessions.{Binding}
use awp.Wake as Wake
use awp.Wake.{get, record_delivery, SessionState}
use awp.Wake.Status.{completed}
use awp.Wake.Keys.{IsOther}
use awp.Wake.Changes.{set_permissions}
use awp.Wake.History.{run}
use awp.Wake.Isolation.{target}
use awp.Wake.Dedup.{is_done, is_done-get, complete_event-is_done}
use awp.Wake.Recorded.{
  record_delivery-seen, seen-get, get-run_other, seen-set_permissions, complete_event-seen,
}
use awp.Daemon.{
  Disk, works, load_fails, save_fails, Delivery, RunError, State, Times, Disks, Others,
  mutate_event_store, end_event, record_or_gate, wake, handle,
}
use awp.Daemon.Wakes.{
  handle_cases, handle_bound_cases, authorize_and_wake_cases, refuse-woken, wake-woken,
  handle-Wakes,
}

-- An accepted delivery is recorded in the file.
record_or_gate-seen :
    (disk : Disk) (now : String) (store : Wake.Store) (p s : String) (d : Delivery)
    {r : Bool × String}
    → (record_or_gate disk now store p s d).0 ≡ ok r
    → Wake.seen
        (record_or_gate disk now store p s d).1
        (trim_space p)
        (trim_space s)
        (trim_space d.event_id)
      ≡ true
unfolding record_or_gate
record_or_gate-seen load_fails now store p s d h = cc
record_or_gate-seen save_fails now store p s d h =
    elim (Result-cases (record_delivery now store p s d.event_id d.delivery_id d.event).0) [
      | inl (r, e) ↦ absurd (cc (rw (e, record_or_gate) at h))
      | inr (c, e) ↦ absurd (cc (rw (e, record_or_gate) at h))
    ]
record_or_gate-seen works now store p s d h =
    elim (Result-cases (record_delivery now store p s d.event_id d.delivery_id d.event).0) [
      | inr (c, e) ↦ absurd (cc (rw (e, record_or_gate) at h))
      | inl (r, e) ↦
          rw (e, record_or_gate)
            (record_delivery-seen now store p s d.event_id d.delivery_id d.event r e)
    ]

mutate_event_store-seen :
    (disk : Disk) (now : String) (store : Wake.Store) (p s event_id : String) (ids : List String)
    → Wake.seen store p s event_id ≡ true
    → Wake.seen (mutate_event_store disk store (λ x. set_permissions now x p s ids)).1 p s event_id
      ≡ true
unfolding mutate_event_store
mutate_event_store-seen works now store p s event_id ids h =
    seen-set_permissions now store p s event_id ids h
mutate_event_store-seen load_fails now store p s event_id ids h = h
mutate_event_store-seen save_fails now store p s event_id ids h = h

module _ (permission_hash : RequestedPermission → String) (name : String) (t : Times)
    (disks : Disks) (others : Others) (adapter : Authorization → Option RunError) where
  abbrev pub Apart : String → Type 0
  Apart s =
      All (λ c. IsOther (target c).0 (target c).1 name s) others.before
      × All (λ c. IsOther (target c).0 (target c).1 name s) others.while_running

  ended-done :
      (store : Wake.Store) (s : String) (d : Delivery) (e : Option RunError)
      → Wake.seen store name s d.event_id ≡ true
      → e ≡ none
      → is_done
          (mutate_event_store works store (end_event t name s d.event_id e)).1
          name
          s
          d.event_id
        ≡ true
  unfolding mutate_event_store
  ended-done store s d e h k =
      let (x, f) =
        complete_event-seen t.event_ended t.ended store name s d.event_id completed h (inl refl) in
      rw k (complete_event-is_done t.event_ended t.ended store name s d.event_id completed f)

  wake-done :
      (b : Binding) (s : String) (d : Delivery) (a : Authorization) (st : State)
      → Wake.seen st.events name s d.event_id ≡ true
      → adapter a ≡ none
      → disks.ending ≡ works
      → Apart s
      → let r = wake permission_hash name t disks others adapter b s d a st in
        (is_done r.1.events name s d.event_id ≡ true) × (r.0.result ≡ ok tt)
  unfolding wake
  wake-done b s d a st h k e o =
      let before = run others.before st.events in
      let h₁ =
        seen-get st.events before name s d.event_id
          (get-run_other others.before st.events name s o.0) h in
      let h₂ =
        mutate_event_store-seen disks.permitting t.permitted before name s d.event_id a.permissions
          h₁ in
      let h₃ =
        seen-get _ _ name s d.event_id (get-run_other others.while_running _ name s o.1) h₂ in
      (rw e (ended-done _ s d (adapter a) h₃ k), rw k)

  -- The event that an adapter has handled without an error is completed: `handle` returns no error
  -- and leaves the event done, if the event store is written at the end, no other call is about the
  -- session meanwhile, and the three identifiers have no blanks at their ends.
  pub handle-done :
      (handlers : String → Option Binding) (d : Delivery) (st : State) (s : String)
      (a : Authorization)
      → let r = handle permission_hash name t disks others adapter handlers d st in
        d.target ≡ some s
        → trim_space name ≡ name
        → trim_space s ≡ s
        → trim_space d.event_id ≡ d.event_id
        → r.0.woken ≡ some a
        → adapter a ≡ none
        → disks.ending ≡ works
        → Apart s
        → (is_done r.1.events name s d.event_id ≡ true) × (r.0.result ≡ ok tt)
  handle-done handlers d st s a aim tn ts ti h k e o =
      elim (handle_cases permission_hash name t disks others adapter handlers d st) [
        | inl (x, r) ↦ absurd (cc (rw r at h))
        | inr (s', b, aim', bound, r) ↦
            elim (handle_bound_cases permission_hash name t disks others adapter b s' d st) [
              | inl (w, _) ↦ absurd (cc (rw (r, w) at h))
              | inr (reason, g, quiet, r₁) ↦
                  let st₁ = record st {
                    events = (record_or_gate disks.recording t.delivered st.events name s' d).1;
                  } in
                  let q = authorize permission_hash t.first t.second st.permissions name s' true in
                  elim (authorize_and_wake_cases permission_hash name t disks others adapter b s' d
                    st₁) [
                      | inl (x, st', _, _, r₂) ↦ absurd (
                          cc (
                            h,
                            r,
                            r₁,
                            r₂,
                            refuse-woken permission_hash name t disks others adapter s' d x st',
                          ))
                      | inr (a', granted, r₂) ↦
                          let st₂ = record st₁ { permissions = q.1; saved = q.1 } in
                          let (w, _, _) =
                            wake-woken permission_hash name t disks others adapter b s' d a' st₂ in
                          let same : a' ≡ a = cc (h, r, r₁, r₂, w) in
                          let here : s' ≡ s = cc (aim, aim') in
                          let kept =
                            record_or_gate-seen disks.recording t.delivered st.events name s' d g in
                          let found : Wake.seen st₁.events name s' d.event_id ≡ true =
                            rw (tn, ap trim_space here ∙ ts ∙ sym here, ti) at kept in
                          let (done, fine) =
                            wake-done b s' d a' st₂ found (ap adapter same ∙ k) e
                              (subst Apart (sym here) o) in
                          let ends = r ∙ r₁ ∙ r₂ in
                          (
                            ap (λ x. is_done x.1.events name s d.event_id) ends
                                ∙ ap
                                    (λ x.
                                      is_done
                                        (wake permission_hash name t disks others adapter b s' d a'
                                          st₂).1.events
                                        name x d.event_id)
                                    (sym here)
                                ∙ done,
                            ap (λ x. x.0.result) ends ∙ fine,
                          )
                    ]
            ]
      ]

  -- At-least-once delivery becomes one wake: once an adapter has handled an event without an error
  -- and the event store was written at its end, with no other call about the session meanwhile and no
  -- blanks at the ends of the three identifiers, delivering the same event to the same session again,
  -- while the session's record is as it was left, does not run the adapter, whatever the files, the
  -- grants and the other sessions have become.
  pub handled_once :
      (t' : Times) (disks' : Disks) (others' : Others) (adapter' : Authorization → Option RunError)
      (handlers handlers' : String → Option Binding) (d d' : Delivery) (st st' : State) (s : String)
      (a : Authorization)
      → let r = handle permission_hash name t disks others adapter handlers d st in
        d.target ≡ some s
        → trim_space name ≡ name
        → trim_space s ≡ s
        → trim_space d.event_id ≡ d.event_id
        → r.0.woken ≡ some a
        → adapter a ≡ none
        → disks.ending ≡ works
        → Apart s
        → d'.target ≡ some s
        → d'.event_id ≡ d.event_id
        → get st'.events name s ≡ get r.1.events name s
        → (handle permission_hash name t' disks' others' adapter' handlers' d' st').0.woken ≡ none
  handled_once t' disks' others' adapter' handlers handlers' d d' st st' s a aim tn ts ti h k e o
        aim' same_event same_session =
      let r' = handle permission_hash name t' disks' others' adapter' handlers' d' st' in
      let (done, _) = handle-done handlers d st s a aim tn ts ti h k e o in
      elim (Option-cases r'.0.woken) [
        | inl f ↦ f
        | inr (a', f) ↦
            let (w, _) =
              handle-Wakes permission_hash name t' disks' others' adapter' handlers' d' st' a' f in
            let here : w.session_id ≡ s = cc (w.target, aim') in
            let again : is_done st'.events name s d.event_id ≡ false =
              rw (tn, ap trim_space here ∙ ts, ap trim_space same_event ∙ ti) at w.not_done in
            cc (again, is_done-get _ st'.events name s d.event_id same_session, done)
      ]
