-- ===== src/Daemon/Saved.antt =====
-- internal/cli/daemon.go: the daemon loads the permissions when it starts, and then no more.
use awp.Common.{
  false, if◌then◌else◌, ◌==◌, not, not, Bool-cases, Result-cases, Option-cases, String, Bool, true,
  Option, some, none, List, ◌≡◌, inl, inr, refl, sym, ◌∙◌, ap,
}
use awp.Permissions.{RequestedPermission, Authorization}
use awp.Permissions as Permissions
use awp.Permissions.Authorize.{authorize}
use awp.Permissions.Revocation.{revoke}
use awp.Sessions.{Binding}
use awp.Daemon.{
  Delivery, RunError, Error, State, Times, Disks, Others, Handled, stopped, bad_target, no_binding,
  not_authorized, permissions_unwritten, record_or_gate, refuse, wake, authorize_and_wake,
  handle_bound, handle,
}
use awp.Daemon.Wakes.{handle-woken}

module _ (permission_hash : RequestedPermission → String) (name : String) (t : Times)
    (disks : Disks) (others : Others) (adapter : Authorization → Option RunError)
    (handlers : String → Option Binding) where
  -- The same but for the permission file.
  abbrev pub Agree : Handled × State → Handled × State → Type 0
  Agree x y = (x.0 ≡ y.0) × (x.1.events ≡ y.1.events) × (x.1.permissions ≡ y.1.permissions)

  if-Agree :
      (b : Bool) (x x' y y' : Handled × State)
      → Agree x x'
      → Agree y y'
      → Agree (if b then x else y) (if b then x' else y')
  if-Agree true x x' y y' h k = h
  if-Agree false x x' y y' h k = k

  wake-Agree :
      (b : Binding) (s : String) (d : Delivery) (a : Authorization) (st st' : State)
      → st'.events ≡ st.events
      → st'.permissions ≡ st.permissions
      → Agree
          (wake permission_hash name t disks others adapter b s d a st')
          (wake permission_hash name t disks others adapter b s d a st)
  unfolding wake
  wake-Agree b s d a st st' e f = (rw e, rw e, f)

  refuse-Agree :
      (s : String) (d : Delivery) (e : Error) (st st' : State)
      → st'.events ≡ st.events
      → st'.permissions ≡ st.permissions
      → Agree
          (refuse permission_hash name t disks others adapter s d e st')
          (refuse permission_hash name t disks others adapter s d e st)
  unfolding refuse
  refuse-Agree s d e st st' h f = (refl, rw h, f)

  authorize_and_wake-Agree :
      (b : Binding) (s : String) (d : Delivery) (st : State) (file : Permissions.Store)
      → Agree
          (authorize_and_wake permission_hash name t disks others adapter b s d
            (record st { saved = file }))
          (authorize_and_wake permission_hash name t disks others adapter b s d st)
  unfolding authorize_and_wake
  authorize_and_wake-Agree b s d st file =
      elim (Result-cases
        (authorize permission_hash t.first t.second st.permissions name s true).0) [
          | inr (c, e) ↦
              rw (e, authorize_and_wake) (refuse-Agree s d (not_authorized c) _ _ refl refl)
          | inl (a, e) ↦
              rw (e, authorize_and_wake)
                (if-Agree disks.saves_permissions _ _ _ _ (wake-Agree b s d a _ _ refl refl)
                  (refuse-Agree s d permissions_unwritten _ _ refl refl))
        ]

  handle_bound-Agree :
      (b : Binding) (s : String) (d : Delivery) (st : State) (file : Permissions.Store)
      → Agree
          (handle_bound permission_hash name t disks others adapter b s d
            (record st { saved = file }))
          (handle_bound permission_hash name t disks others adapter b s d st)
  unfolding handle_bound
  handle_bound-Agree b s d st file =
      let g = record_or_gate disks.recording t.delivered st.events name s d in
      elim (Result-cases g.0) [
        | inr (c, e) ↦ rw (e, handle_bound) (refl, refl, refl)
        | inl ((duplicate, reason), e) ↦
            rw (e, handle_bound)
              (elim (Bool-cases (not (reason == ""))) [
                | inl f ↦ rw f (refl, refl, refl)
                | inr f ↦ rw f (elim (Bool-cases duplicate) [
                  | inl h ↦ rw h (refl, refl, refl)
                  | inr h ↦ rw h (authorize_and_wake-Agree b s d (record st { events = g.1 }) file)
                ])
              ])
      ]

  -- What `handle` returns, and what it does to the events and to the permissions in memory, does
  -- not depend on the permission file.
  handle-Agree :
      (d : Delivery) (st : State) (file : Permissions.Store)
      → Agree
          (handle permission_hash name t disks others adapter handlers d
            (record st { saved = file }))
          (handle permission_hash name t disks others adapter handlers d st)
  unfolding handle
  handle-Agree d st file = by_target d.target
    where
      by_target :
          (o : Option String)
          → Agree
              (elim o [
                | none ↦ (stopped bad_target, record st { saved = file })
                | some s ↦ elim (handlers s) [
                  | none ↦ (stopped (no_binding s), record st { saved = file })
                  | some b ↦
                      handle_bound permission_hash name t disks others adapter b s d
                        (record st { saved = file })
                ]
              ])
              (elim o [
                | none ↦ (stopped bad_target, st)
                | some s ↦ elim (handlers s) [
                  | none ↦ (stopped (no_binding s), st)
                  | some b ↦ handle_bound permission_hash name t disks others adapter b s d st
                ]
              ])
      by_target none = (refl, refl, refl)
      by_target (some s) = elim (Option-cases (handlers s)) [
        | inl e ↦ rw e (refl, refl, refl)
        | inr (b, e) ↦ rw e (handle_bound-Agree b s d st file)
      ]

  -- A revocation that the command line writes to the permission file while the daemon runs neither
  -- stops the next wake nor lasts: if `handle` would run the adapter, it does so after `Revoke` of
  -- any grants in the file as well, with the same authorization, and the file then holds what it
  -- would hold without the revocation.
  pub revoke_unseen :
      (now : String) (d : Delivery) (st : State) (p s scope : String) (ids : List String)
      (a : Authorization)
      → let r = handle permission_hash name t disks others adapter handlers d st in
        let r' =
          handle permission_hash name t disks others adapter handlers d
            (record st { saved = (revoke now st.saved p s scope ids).1 }) in
        r.0.woken ≡ some a → (r'.0.woken ≡ some a) × (r'.1.saved ≡ r.1.saved)
  revoke_unseen now d st p s scope ids a h =
      let file = (revoke now st.saved p s scope ids).1 in
      let (same, _, perms) = handle-Agree d st file in
      let woken = ap (λ x. x.woken) same ∙ h in
      let (_, _, _, _, _, _, _, (_, p₁, s₁)) =
        handle-woken permission_hash name t disks others adapter handlers d st h in
      let (_, _, _, _, _, _, _, (_, p₂, s₂)) =
        handle-woken permission_hash name t disks others adapter handlers d
          (record st { saved = file }) woken in
      (woken, s₂ ∙ sym p₂ ∙ perms ∙ p₁ ∙ sym s₁)
