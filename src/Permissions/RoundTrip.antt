-- ===== src/Permissions/RoundTrip.antt =====
-- internal/permissions/store.go: `GrantPermissions` and then `Authorize`.
use awp.Common.{
  ℕ, zero, suc, ◌<◌, ◌≤◌, String, Bool, true, false, some, none, List, [], ◌∷◌, ok, ◌≡◌, ◌⊎◌, inl,
  inr, refl, sym, ap, ◌∙◌, subst, arith, eq_iff, All, All_of, All-mono, All-get_elem?, get_elem?,
  keep, ◌==◌, Bool-cases, Option-cases, Result-cases, ok-injective,
}
use awp.Common.Keyed.{
  find_first, upsert, find_first-upsert_self, All-upsert, All-find_first, IsUnique, IsUnique-upsert,
}
use awp.Permissions.{
  RequestedPermission, Request, Grant, Store, Authorization, runtime_wake, scope_once, append_audit,
  get_request,
}
use awp.Permissions.Names.{contains, unique_sorted}
use awp.Permissions.Names.Idempotent.{unique_sorted_idem}
use awp.Permissions.Grants.{hash_at, is_slot, put_grant, granting, grant_permissions}
use awp.Permissions.Granted.{IsGranted, Answers, granting-Answers}
use awp.Permissions.Authorize.{
  priority, applies, select, is_current, current_ids, authorization, authorize_with, authorize,
}
use awp.Permissions.Authorize.Selection.{IsBelow, Best, select-Best}
use awp.Permissions.Slots.{IsValid, is_slot-IsSame, slot_of_eq}
use awp.Permissions.Slots.Once.{once-slot}

-- The other grants that apply to the session have a lower priority.
abbrev pub Yields : String → String → Grant → Grant → Type 0
Yields p s g h = applies p s h ≡ true → (is_slot g h ≡ true) ⊎ (priority h.scope < priority g.scope)

is_slot_self : (g : Grant) → is_slot g g ≡ true
is_slot_self g = slot_of_eq g g refl refl refl

-- With one grant for each slot, the grant found in a slot is the only one there.
only_in_slot :
    (xs : List Grant) (i : ℕ) (g k : Grant)
    → IsUnique is_slot xs
    → find_first (is_slot g) xs ≡ some g
    → get_elem? xs i ≡ some k
    → is_slot g k ≡ true
    → k ≡ g
unfolding find_first
only_in_slot [] i g k u f e h = absurd (cc)
only_in_slot (x ∷ xs) zero g k u f e h = ground (arith, f, e, h)
only_in_slot (x ∷ xs) (suc i) g k u f e h = elim (Bool-cases (is_slot g x)) [
  | inl t ↦
      let same : x ≡ g = ground (arith, f, t) in
      absurd (cc (All-get_elem? (λ y. is_slot x y ≡ false) xs i u.0 e, ap (λ y. is_slot y k) same))
  | inr t ↦ only_in_slot xs i g k u.1 (ground (arith, f, t)) e h
]

priority-lt_once :
    (scope : String) → (scope == scope_once) ≡ false → priority scope < priority scope_once
priority-lt_once scope h = ground arith

keep_all {ℓ} : {A : Type ℓ} (p : A → Bool) (xs : List A) → All (λ x. p x ≡ true) xs → keep p xs ≡ xs
keep_all p [] h = refl
keep_all p (x ∷ xs) h = rw h.0 (ap (◌∷◌ x) (keep_all p xs h.1))

-- The new grant is the one that is selected.
select-put :
    (p s : String) (g : Grant) (grants : List Grant)
    → IsUnique is_slot grants
    → applies p s g ≡ true
    → All (Yields p s g) grants
    → (i : ℕ) × (select p s none 0 (upsert (is_slot g) g grants) ≡ some (g, i))
select-put p s g grants u a y =
    let all = upsert (is_slot g) g grants in
    let found = find_first-upsert_self (is_slot g) g grants (is_slot_self g) in
    elim (Option-cases (select p s none 0 all)) [
      | inl e ↦
          let none_applies = subst (Best p s all) e (select-Best p s all) in
          absurd
            (cc (All-find_first (λ h. applies p s h ≡ false) (is_slot g) all none_applies found, a))
      | inr ((k, i), e) ↦
          let (at, fits, below) = subst (Best p s all) e (select-Best p s all) in
          let above = All-find_first (IsBelow p s k) (is_slot g) all below found a in
          let yields =
            All-upsert (Yields p s g) (is_slot g) g grants (λ _. inl (is_slot_self g)) y in
          let same = in_slot k above (All-get_elem? (Yields p s g) all i yields at fits) in
          let is_g =
            only_in_slot all i g k (IsUnique-upsert is_slot-IsSame g grants u) found at same in
          (i, e ∙ ap (λ h. some (h, i)) is_g)
    ]
  where
    in_slot :
        (k : Grant)
        → priority g.scope ≤ priority k.scope
        → (is_slot g k ≡ true) ⊎ (priority k.scope < priority g.scope)
        → is_slot g k ≡ true
    in_slot k le (inl h) = h
    in_slot k le (inr lt) = absurd (omega arith)

module _ (permission_hash : RequestedPermission → String) where
  granted-is_current :
      (request : Request) (g : Grant) (id : String)
      → IsGranted permission_hash request.permissions g.permission_hashes id
      → is_current permission_hash request.permissions g id ≡ true
  unfolding is_current
  granted-is_current request g id (q, e, n, h) =
      rw (e, is_current) ((eq_iff (hash_at g.permission_hashes id) (permission_hash q)).1 h)

  authorize_with-granted :
      (store : Store) (p s scope : String) (allowed : List String) (g : Grant)
      (v : Answers permission_hash store p s scope allowed g)
      → (a : Authorization) × (authorize_with permission_hash p s v.request g ≡ ok a)
        × (a.permissions ≡ g.permissions)
        × (a.scope ≡ g.scope)
  unfolding authorize_with
  authorize_with-granted store p s scope allowed g v =
      let whole = keep_all (is_current permission_hash v.request.permissions g) g.permissions (
        All-mono {P = IsGranted permission_hash v.request.permissions g.permission_hashes}
          {Q = λ id. is_current permission_hash v.request.permissions g id ≡ true}
          (granted-is_current v.request g) g.permissions v.granted) in
      let names : unique_sorted (current_ids permission_hash v.request g) ≡ g.permissions =
        ap unique_sorted whole ∙ ap unique_sorted v.ids ∙ unique_sorted_idem allowed ∙ sym v.ids in
      let wakes = ap (λ l. contains l runtime_wake) names ∙ v.wakes in
      (authorization permission_hash p s v.request g, rw wakes, names, refl)

  grant_permissions-ok :
      (now audited : String) (store : Store) (p s scope : String) (allowed : List String)
      (g : Grant)
      → (grant_permissions permission_hash now audited store p s scope allowed).0 ≡ ok g
      → (granting permission_hash now store p s scope allowed ≡ ok g)
        × (grant_permissions permission_hash now audited store p s scope allowed
            ≡ (ok g, put_grant audited store g))
  unfolding grant_permissions
  grant_permissions-ok now audited store p s scope allowed g h =
      elim (Result-cases (granting permission_hash now store p s scope allowed)) [
        | inl (g', e) ↦
            let same = ok-injective (rw (e, grant_permissions) at h) in
            (
              e ∙ ap ok same,
              rw (e, grant_permissions) (ap (λ x. (ok x, put_grant audited store x)) same),
            )
        | inr (c, e) ↦ absurd (cc (rw (e, grant_permissions) at h))
      ]

  authorize_of :
      (first second : String) (store : Store) (p s : String) (consume_once : Bool)
      (request : Request) (g : Grant) (i : ℕ) (a : Authorization)
      → get_request store p s ≡ some request
      → select p s none 0 store.grants ≡ some (g, i)
      → authorize_with permission_hash p s request g ≡ ok a
      → (authorize permission_hash first second store p s consume_once).0 ≡ ok a
  unfolding authorize
  authorize_of first second store p s consume_once request g i a e f h = ground (arith, e, f, h)

  applies_of_Answers :
      (store : Store) (p s scope : String) (allowed : List String) (g : Grant)
      → Answers permission_hash store p s scope allowed g
      → applies p s g ≡ true
  applies_of_Answers store p s scope allowed g v =
      ground (arith, v.names.0, v.names.1, eq_iff g.provider p, eq_iff g.session_id s)

  put_grant_reads :
      (audited : String) (store : Store) (g : Grant) (p s : String)
      → ((put_grant audited store g).grants ≡ upsert (is_slot g) g store.grants)
        × (get_request (put_grant audited store g) p s ≡ get_request store p s)
  unfolding put_grant append_audit get_request
  put_grant_reads audited store g p s = (refl, refl)

  -- A grant takes effect. After a successful `GrantPermissions` in a valid store, where every other
  -- grant that applies to the session has a lower priority, `Authorize` of that session succeeds
  -- with exactly the granted permissions, in the granted scope.
  pub grant_takes_effect :
      (now audited first second : String) (store : Store) (p s scope : String)
      (allowed : List String) (g : Grant) (consume_once : Bool)
      → IsValid store
      → (grant_permissions permission_hash now audited store p s scope allowed).0 ≡ ok g
      → All (Yields p s g) store.grants
      → (a : Authorization) × ((authorize permission_hash first second
            (grant_permissions permission_hash now audited store p s scope allowed).1
            p
            s
            consume_once).0
          ≡ ok a)
        × (a.permissions ≡ g.permissions)
        × (a.scope ≡ g.scope)
  grant_takes_effect now audited first second store p s scope allowed g consume_once v h y =
      let (made, whole) = grant_permissions-ok now audited store p s scope allowed g h in
      let ans = granting-Answers permission_hash now store p s scope allowed g made in
      let (a, auth, names, in_scope) = authorize_with-granted store p s scope allowed g ans in
      let (grants, asked) = put_grant_reads audited store g p s in
      let (i, selected) =
        select-put p s g store.grants v.grants (applies_of_Answers store p s scope allowed g ans)
          y in
      (
        a,
        rw whole (
            authorize_of first second (put_grant audited store g) p s consume_once ans.request g i a
              (asked ∙ ans.asked) (ap (select p s none 0) grants ∙ selected) auth),
        names,
        in_scope,
      )

  once_Yields :
      (p s : String) (g h : Grant) → applies p s g ≡ true → g.scope ≡ scope_once → Yields p s g h
  once_Yields p s g h a e = λ b. elim (Bool-cases (h.scope == scope_once)) [
    | inl t ↦ inl (once-slot permission_hash p s g h a b e ((eq_iff h.scope scope_once).0 t))
    | inr t ↦ inr (rw e (priority-lt_once h.scope t))
  ]

  -- A grant for one use always takes effect: whatever else is granted, after a successful
  -- `GrantPermissions` with scope `once` in a valid store the next `Authorize` of that session
  -- succeeds with exactly its permissions.
  pub once_takes_effect :
      (now audited first second : String) (store : Store) (p s : String) (allowed : List String)
      (g : Grant) (consume_once : Bool)
      → IsValid store
      → (grant_permissions permission_hash now audited store p s scope_once allowed).0 ≡ ok g
      → (a : Authorization) × ((authorize permission_hash first second
            (grant_permissions permission_hash now audited store p s scope_once allowed).1
            p
            s
            consume_once).0
          ≡ ok a)
        × (a.permissions ≡ g.permissions)
        × (a.scope ≡ scope_once)
  once_takes_effect now audited first second store p s allowed g consume_once v h =
      let (made, _) = grant_permissions-ok now audited store p s scope_once allowed g h in
      let ans = granting-Answers permission_hash now store p s scope_once allowed g made in
      let once : g.scope ≡ scope_once = ans.names.2 in
      let (a, auth, names, in_scope) =
        grant_takes_effect now audited first second store p s scope_once allowed g consume_once v h
          (All_of
            (λ k. once_Yields p s g k (applies_of_Answers store p s scope_once allowed g ans) once)
            store.grants) in
      (a, auth, names, in_scope ∙ once)
