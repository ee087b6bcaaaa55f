-- ===== src/Daemon/Spent.antt =====
-- internal/cli/daemon.go: two deliveries under a grant for one use.
use awp.Common.{String, true, Option, some, ◌≡◌, ◌≢◌, sym, ◌∙◌, ap}
use awp.Permissions.{RequestedPermission, Authorization, scope_once}
use awp.Permissions.Authorize.{authorize}
use awp.Permissions.Slots.{IsValid}
use awp.Permissions.Slots.Once.{once_is_once}
use awp.Sessions.{Binding}
use awp.Daemon.{Delivery, RunError, State, Times, Disks, Others, handle}
use awp.Daemon.Wakes.{handle-woken}

module _ (permission_hash : RequestedPermission → String) (name : String)
    (handlers : String → Option Binding) where
  -- If `handle` runs the adapter under a grant with scope `once`, in a state with one grant for each
  -- slot, then a later `handle` of a delivery to the same session, on the permissions so left, with
  -- whatever has become of the events, does not run the adapter under scope `once`.
  pub once_wakes_once :
      (t t' : Times) (disks disks' : Disks) (others others' : Others)
      (adapter adapter' : Authorization → Option RunError) (d d' : Delivery) (st st' : State)
      (a a' : Authorization)
      → IsValid st.permissions
      → d'.target ≡ d.target
      → let r = handle permission_hash name t disks others adapter handlers d st in
        let r' = handle permission_hash name t' disks' others' adapter' handlers d' st' in
        r.0.woken ≡ some a
        → a.scope ≡ scope_once
        → st'.permissions ≡ r.1.permissions
        → r'.0.woken ≡ some a'
        → a'.scope ≢ scope_once
  once_wakes_once t t' disks disks' others others' adapter adapter' d d' st st' a a' v e h o p k =
      let (s, _, _, target, _, _, _, (granted, perms, _)) =
        handle-woken permission_hash name t disks others adapter handlers d st h in
      let (s', _, _, target', _, _, _, (granted', _, _)) =
        handle-woken permission_hash name t' disks' others' adapter' handlers d' st' k in
      let same : s' ≡ s = cc (target, target', e) in
      once_is_once permission_hash t.first t.second t'.first t'.second st.permissions name s true a
        a' v granted o
        (ap (λ x. (authorize permission_hash t'.first t'.second x name s true).0) (sym (p ∙ perms))
          ∙ ap (λ x. (authorize permission_hash t'.first t'.second st'.permissions name x true).0)
              (sym same)
          ∙ granted')
