-- ===== src/Permissions/Slots/Once.antt =====
-- internal/permissions/store.go: what `Authorize` does with a grant for one use.
use awp.Common.{
  String, Bool, true, false, some, ok, ◌≡◌, ◌≢◌, sym, ◌∙◌, subst, arith, eq_iff, All-get_elem?,
  get_elem?, remove_at, ◌==◌,
}
use awp.Common.Keyed.{IsUnique-others}
use awp.Permissions.{RequestedPermission, Grant, Store, Authorization, scope_once, scope_provider}
use awp.Permissions.Grants.{is_slot}
use awp.Permissions.Authorize.{applies, authorize}
use awp.Permissions.Authorize.Sound.{authorize-Rests, authorize_consumes}
use awp.Permissions.Authorize.Selection.{Best, select-Best}
use awp.Permissions.Slots.{is_slot-IsSame, slot_of_eq, IsValid}

-- A grant for one use that applies is of the session.
applies_once :
    (p s : String) (g : Grant)
    → applies p s g ≡ true
    → g.scope ≡ scope_once
    → (g.provider ≡ p) × (g.session_id ≡ s)
applies_once p s g a e = ground (
  arith,
  eq_iff g.provider p,
  eq_iff g.session_id s,
  eq_iff g.scope scope_provider,
  eq_iff scope_once scope_provider,
)

module _ (permission_hash : RequestedPermission → String) where
  pub once-slot :
      (p s : String) (g h : Grant)
      → applies p s g ≡ true
      → applies p s h ≡ true
      → g.scope ≡ scope_once
      → h.scope ≡ scope_once
      → is_slot g h ≡ true
  once-slot p s g h a b e f =
      let (gp, gs) = applies_once p s g a e in
      let (hp, hs) = applies_once p s h b f in
      slot_of_eq g h (hp ∙ sym gp) (hs ∙ sym gs) (f ∙ sym e)

  -- A grant for one use is used once. After a consuming `Authorize` under a grant with scope
  -- `once`, in a store with one grant for each slot, no later `Authorize` of that session on the
  -- store so left is under scope `once`.
  pub once_is_once :
      (first second third fourth : String) (store : Store) (p s : String) (again : Bool)
      (a b : Authorization)
      → IsValid store
      → (authorize permission_hash first second store p s true).0 ≡ ok a
      → a.scope ≡ scope_once
      → (authorize permission_hash third fourth
          (authorize permission_hash first second store p s true).1
          p
          s
          again).0
        ≡ ok b
      → b.scope ≢ scope_once
  once_is_once first second third fourth store p s again a b v h o k = λ q.
      let (i, g, sel, scope, grants, _) =
        authorize_consumes permission_hash first second store p s true h in
      let r = authorize-Rests permission_hash third fourth _ p s again k in
      let (at, fits, _) = subst (Best p s store.grants) sel (select-Best p s store.grants) in
      let used : (a.scope == scope_once) ≡ true = (eq_iff a.scope scope_once).1 o in
      let held = subst (λ l. get_elem? l r.index ≡ some r.grant) (rw used at grants) r.held in
      let other =
        All-get_elem? (λ y. is_slot g y ≡ false) (remove_at i store.grants) r.index
          (IsUnique-others is_slot-IsSame i store.grants v.grants at) held in
      let same = once-slot p s g r.grant fits r.for_session (sym scope ∙ o) (sym r.names.2 ∙ q) in
      cc (other, same)
