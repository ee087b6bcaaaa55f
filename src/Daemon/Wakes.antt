-- ===== src/Daemon/Wakes.antt =====
-- internal/cli/daemon.go: when `handle` runs the adapter, and with what.
use Prim.Native.String.{◌++◌ as concat}
use Prim.Native.Char.{Char}
use Prim.Native.String.{◌∷◌}
use Prim.Native.String.append
use awp.Common.{
  String, Bool, true, false, Option, some, none, Result, ok, ok-injective, ◌≡◌, ◌≢◌, ◌⊎◌, inl, inr,
  refl, sym, ◌∙◌, ap, arith, eq_iff, ◌==◌, not, if◌then◌else◌, Bool-cases, Option-cases,
  Result-cases,
}
use awp.Common.Text.{trim_space}
use awp.Permissions.{RequestedPermission, Authorization}
use awp.Permissions.Authorize.{authorize}
use awp.Permissions.Authorize.Sound.{Rests, authorize-Rests}
use awp.Sessions.{Binding}
use awp.Wake.{SessionState, gate, get, record_trimmed, record_delivery}
use awp.Wake.Status.{paused, crashed}
use awp.Wake.Dedup.{is_done, record_delivery-ok}
use awp.Wake.Gating.{is_held, gated, record_delivery-is_held}
use awp.Wake as Wake
use awp.Daemon.{
  Disk, works, load_fails, save_fails, Delivery, RunError, Error, State, Times, Disks, Others,
  not_authorized, permissions_unwritten, bad_target, no_binding, stopped, record_or_gate, refuse,
  wake, authorize_and_wake, handle_bound, handle,
}

concat-cons-ne : (c : Char) (s t : String) → concat (c ∷ s) t ≢ ""
concat-cons-ne c s t h = cc (append.cons c s t, h)

gate-reason : (x : SessionState) → (gate x).1 ≡ "" → (gate x).0 ≡ false
unfolding gate
gate-reason x h = elim (Bool-cases (x.lifecycle.status == paused)) [
  | inl e ↦ absurd (concat-cons-ne _ _ x.lifecycle.reason (rw e at h))
  | inr e ↦ elim (Bool-cases (x.lifecycle.status == crashed)) [
    | inl f ↦ absurd (concat-cons-ne _ _ x.lifecycle.reason (rw (e, f) at h))
    | inr f ↦ rw (e, f)
  ]
]

-- A store that has just recorded a delivery that is no duplicate, of a session that is not held.
recorded-go :
    (now : String) (store : Wake.Store) (p s : String) (d : Delivery) (x : SessionState)
    (duplicate : Bool)
    → (record_delivery now store p s d.event_id d.delivery_id d.event).0 ≡ ok (x, duplicate)
    → duplicate ≡ false
    → (gate x).0 ≡ false
    → let p' = trim_space p in
      let s' = trim_space s in
      (is_done store p' s' (trim_space d.event_id) ≡ false) × (is_held store p' s' ≡ false)
recorded-go now store p s d x duplicate e n g =
    let (done, read) = record_delivery-ok now store p s d.event_id d.delivery_id d.event e in
    (
      sym done ∙ n,
      elim (Bool-cases (is_held store (trim_space p) (trim_space s))) [
        | inr f ↦ f
        | inl f ↦
            let still = record_delivery-is_held now store p s d.event_id d.delivery_id d.event f in
            cc (ap gated read, still, g)
      ],
    )

-- A delivery that is neither held nor a duplicate was recorded, and had not completed before; and
-- its session was not held.
record_or_gate-go :
    (disk : Disk) (now : String) (store : Wake.Store) (p s : String) (d : Delivery) (b : String)
    → (record_or_gate disk now store p s d).0 ≡ ok (false, b)
    → b ≡ ""
    → let p' = trim_space p in
      let s' = trim_space s in
      (is_done store p' s' (trim_space d.event_id) ≡ false) × (is_held store p' s' ≡ false)
unfolding record_or_gate
record_or_gate-go load_fails now store p s d b h k = absurd (cc)
record_or_gate-go save_fails now store p s d b h k =
    elim (Result-cases (record_delivery now store p s d.event_id d.delivery_id d.event).0) [
      | inl (r, e) ↦ absurd (cc (rw (e, record_or_gate) at h))
      | inr (c, e) ↦ absurd (cc (rw (e, record_or_gate) at h))
    ]
record_or_gate-go works now store p s d b h k =
    elim (Result-cases (record_delivery now store p s d.event_id d.delivery_id d.event).0) [
      | inr (c, e) ↦ absurd (cc (rw (e, record_or_gate) at h))
      | inl ((x, duplicate), e) ↦
          let told : ◌≡◌ {A = Result Error (Bool × String)}
              (ok (if duplicate then (true, "") else (false, (gate x).1))) (ok (false, b)) =
            rw (e, record_or_gate) at h in
          let (n, r) = fresh duplicate (gate x).1 (ok-injective told) in
          recorded-go now store p s d x duplicate e n (gate-reason x (r ∙ k))
    ]
  where
    fresh :
        (duplicate : Bool) (reason : String)
        → ◌≡◌ {A = Bool × String} (if duplicate then (true, "") else (false, reason)) (false, b)
        → (duplicate ≡ false) × (reason ≡ b)
    fresh true reason f = absurd (cc (ap (λ q. q.0) f))
    fresh false reason f = (refl, ap (λ q. q.1) f)

-- What a run of the adapter rests on.
pub record Wakes (permission_hash : RequestedPermission → String) (name : String)
    (handlers : String → Option Binding) (d : Delivery) (st : State) (a : Authorization)
    : Type 0 where
  pub session_id : String
  pub binding : Binding
  pub target : d.target ≡ some session_id
  pub bound : handlers session_id ≡ some binding
  pub not_done :
      is_done st.events (trim_space name) (trim_space session_id) (trim_space d.event_id) ≡ false
  pub not_held : is_held st.events (trim_space name) (trim_space session_id) ≡ false
  pub authorized : Rests permission_hash st.permissions name session_id a

module _ (permission_hash : RequestedPermission → String) (name : String) (t : Times)
    (disks : Disks) (others : Others) (adapter : Authorization → Option RunError) where
  -- `authorize_and_wake` refuses, or it authorizes, saves what that leaves and runs the adapter.
  pub authorize_and_wake_cases :
      (b : Binding) (s : String) (d : Delivery) (st : State)
      → let r = authorize_and_wake permission_hash name t disks others adapter b s d st in
        let q = authorize permission_hash t.first t.second st.permissions name s true in
        ((e : Error) × (st' : State) × (st'.events ≡ st.events)
          × (st'.permissions ≡ q.1)
          × (r ≡ refuse permission_hash name t disks others adapter s d e st'))
        ⊎ ((a : Authorization) × (q.0 ≡ ok a)
            × (r
                ≡ wake permission_hash name t disks others adapter b s d a
                    (record st { permissions = q.1; saved = q.1 })))
  unfolding authorize_and_wake
  authorize_and_wake_cases b s d st =
      let q = authorize permission_hash t.first t.second st.permissions name s true in
      elim (Result-cases q.0) [
        | inr (c, e) ↦ inl (
          not_authorized c,
          record st { permissions = q.1 },
          refl,
          refl,
          rw (e, authorize_and_wake),
        )
        | inl (a, e) ↦ elim (Bool-cases disks.saves_permissions) [
          | inr f ↦ inl (
            permissions_unwritten,
            record st { permissions = q.1 },
            refl,
            refl,
            rw (e, authorize_and_wake) (rw f),
          )
          | inl f ↦ inr (a, e, rw (e, authorize_and_wake) (rw f))
        ]
      ]

  pub refuse-woken :
      (s : String) (d : Delivery) (e : Error) (st : State)
      → (refuse permission_hash name t disks others adapter s d e st).0.woken ≡ none
  unfolding refuse
  refuse-woken s d e st = refl

  pub wake-woken :
      (b : Binding) (s : String) (d : Delivery) (a : Authorization) (st : State)
      → let r = wake permission_hash name t disks others adapter b s d a st in
        (r.0.woken ≡ some a) × (r.1.permissions ≡ st.permissions) × (r.1.saved ≡ st.saved)
  unfolding wake
  wake-woken b s d a st = (refl, refl, refl)

  -- `handle_bound` stops with the permissions as they are, or the delivery is recorded, with no
  -- reason to hold it, and goes on.
  pub handle_bound_cases :
      (b : Binding) (s : String) (d : Delivery) (st : State)
      → let r = handle_bound permission_hash name t disks others adapter b s d st in
        let g = record_or_gate disks.recording t.delivered st.events name s d in
        ((r.0.woken ≡ none) × (r.1 ≡ record st { events = g.1 }))
        ⊎ ((reason : String) × (g.0 ≡ ok (false, reason))
            × (reason ≡ "")
            × (r
                ≡ authorize_and_wake permission_hash name t disks others adapter b s d
                    (record st { events = g.1 })))
  unfolding handle_bound
  handle_bound_cases b s d st =
      let g = record_or_gate disks.recording t.delivered st.events name s d in
      elim (Result-cases g.0) [
        | inr (c, e) ↦ inl (rw (e, handle_bound), rw (e, handle_bound))
        | inl ((duplicate, reason), e) ↦ elim (Bool-cases (not (reason == ""))) [
          | inl f ↦ inl (rw (e, handle_bound) (rw f), rw (e, handle_bound) (rw f))
          | inr f ↦ elim (Bool-cases duplicate) [
            | inl h ↦ inl (rw (e, handle_bound) (rw (f, h)), rw (e, handle_bound) (rw (f, h)))
            | inr h ↦ inr (
              reason,
              e ∙ ap (λ x. ok (x, reason)) h,
              ground (arith, f, eq_iff reason ""),
              rw (e, handle_bound) (rw (f, h)),
            )
          ]
        ]
      ]

  pub handle_cases :
      (handlers : String → Option Binding) (d : Delivery) (st : State)
      → let r = handle permission_hash name t disks others adapter handlers d st in
        ((e : Error) × (r ≡ (stopped e, st)))
        ⊎ ((s : String) × (b : Binding) × (d.target ≡ some s)
            × (handlers s ≡ some b)
            × (r ≡ handle_bound permission_hash name t disks others adapter b s d st))
  unfolding handle
  handle_cases handlers d st = elim (Option-cases d.target) [
    | inl e ↦ inl (bad_target, rw (e, handle))
    | inr (s, e) ↦ elim (Option-cases (handlers s)) [
      | inl f ↦ inl (no_binding s, ground (arith, e, f))
      | inr (b, f) ↦ inr (s, b, e, f, ground (arith, e, f))
    ]
  ]

  -- How `handle` came to run the adapter.
  pub handle-woken :
      (handlers : String → Option Binding) (d : Delivery) (st : State) {a : Authorization}
      → let r = handle permission_hash name t disks others adapter handlers d st in
        r.0.woken ≡ some a
        → (s : String) × (b : Binding) × (reason : String) × (d.target ≡ some s)
          × (handlers s ≡ some b)
          × ((record_or_gate disks.recording t.delivered st.events name s d).0 ≡ ok (false, reason))
          × (reason ≡ "")
          × (let q = authorize permission_hash t.first t.second st.permissions name s true in
              (q.0 ≡ ok a) × (r.1.permissions ≡ q.1) × (r.1.saved ≡ q.1))
  handle-woken handlers d st {a} h = elim (handle_cases handlers d st) [
    | inl (e, r) ↦ absurd (cc (rw r at h))
    | inr (s, b, target, bound, r) ↦ elim (handle_bound_cases b s d st) [
      | inl (w, _) ↦ absurd (cc (rw (r, w) at h))
      | inr (reason, g, quiet, r₁) ↦
          let st₁ = record st {
            events = (record_or_gate disks.recording t.delivered st.events name s d).1;
          } in
          let q = authorize permission_hash t.first t.second st.permissions name s true in
          elim (authorize_and_wake_cases b s d st₁) [
            | inl (e, st', _, _, r₂) ↦ absurd (cc (h, r, r₁, r₂, refuse-woken s d e st'))
            | inr (a', granted, r₂) ↦
                let (w, wp, ws) =
                  wake-woken b s d a' (record st₁ { permissions = q.1; saved = q.1 }) in
                let same : a' ≡ a = cc (h, r, r₁, r₂, w) in
                (
                  s,
                  b,
                  reason,
                  target,
                  bound,
                  g,
                  quiet,
                  (granted ∙ ap ok same, rw (r, r₁, r₂) wp, rw (r, r₁, r₂) ws),
                )
          ]
    ]
  ]

  -- `handle` runs the adapter only for a delivery to a session with a local binding, of an event
  -- that had not completed, while the session was neither paused nor crashed, and with an
  -- authorization that rests on the session's request and on a grant of the user; and then what the
  -- authorization left of the grants was saved before.
  pub handle-Wakes :
      (handlers : String → Option Binding) (d : Delivery) (st : State) (a : Authorization)
      → let r = handle permission_hash name t disks others adapter handlers d st in
        r.0.woken ≡ some a
        → Wakes permission_hash name handlers d st a × (r.1.saved ≡ r.1.permissions)
  handle-Wakes handlers d st a h =
      let (s, b, reason, target, bound, g, quiet, (granted, perms, saved)) =
        handle-woken handlers d st h in
      let (fresh, free) =
        record_or_gate-go disks.recording t.delivered st.events name s d reason g quiet in
      (
        record {
          session_id = s;
          binding = b;
          target = target;
          bound = bound;
          not_done = fresh;
          not_held = free;
          authorized =
              authorize-Rests permission_hash t.first t.second st.permissions name s true granted;
        },
        saved ∙ sym perms,
      )
