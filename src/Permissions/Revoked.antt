-- ===== src/Permissions/Revoked.antt =====
-- internal/permissions/store.go: what `Revoke` takes away, and what it leaves.
use awp.Common.{
  String, Bool, true, false, some, List, [], ◌∷◌, ok, err, ◌≡◌, inl, inr, refl, sym, ◌∙◌, ap, subst,
  arith, eq_iff, All, All-get_elem?, get_elem?, keep, is_empty, not, Bool-cases,
}
use awp.Permissions.{RequestedPermission, Grant, Store, Authorization, Error}
use awp.Permissions.Names.{
  contains, unique_sorted, contains_of_All, unique_sorted-nil, IsTrimmed, Comes,
}
use awp.Permissions.Authorize.{applies, authorize}
use awp.Permissions.Authorize.Sound.{IsCurrent, authorize-Rests, authorize_cases}
use awp.Permissions.Authorize.Selection.{Best, select-Best}
use awp.Permissions.Revocation.{is_revoked, revoke_grants, revoke}
use awp.Permissions.Slots.{IsValid, IdsTrimmed}
use awp.Permissions.Slots.Revoke.{
  revoke-IsValid, revoke_grants_cases, grants-revoke, requests-revoke,
}

module _ (p s scope : String) (ids : List String) where
  -- What the loop leaves of the grants that it is about.
  abbrev pub IsStripped : Grant → Type 0
  IsStripped g =
      is_revoked p s scope g ≡ true
      → (is_empty ids ≡ false)
        × ((id : String) → contains ids id ≡ true → contains g.permissions id ≡ false)

  contains-keep-not :
      (xs : List String) (id : String)
      → contains ids id ≡ true
      → contains (keep (λ x. not (contains ids x)) xs) id ≡ false
  unfolding contains
  contains-keep-not [] id h = refl
  contains-keep-not (x ∷ xs) id h =
      let rest = contains-keep-not xs id h in
      elim (Bool-cases (contains ids x)) [
        | inl e ↦ rw e rest
        | inr e ↦ rw e (ground (arith, rest, eq_iff x id))
      ]

  pub revoke_grants-IsStripped :
      (gs : List Grant) → All IsStripped (revoke_grants p s scope ids gs).0
  revoke_grants-IsStripped [] = unfold revoke_grants in tt
  revoke_grants-IsStripped (g ∷ gs) =
      let rest = revoke_grants-IsStripped gs in
      elim (revoke_grants_cases p s scope ids g gs) [
        | inl (e, r) ↦ rw r ((λ t. absurd (cc)), rest)
        | inr (inl (e, r)) ↦ rw r rest
        | inr (inr (e, f, r)) ↦ rw r ((λ t. (f, contains-keep-not g.permissions)), rest)
      ]

abbrev pub is_spared : String → String → String → Grant → Bool
is_spared p s scope g = not (is_revoked p s scope g)

spared_grants :
    (p s scope : String) (ids : List String) (gs : List Grant)
    → keep (is_spared p s scope) (revoke_grants p s scope ids gs).0 ≡ keep (is_spared p s scope) gs
spared_grants p s scope ids [] = unfold revoke_grants in refl
spared_grants p s scope ids (g ∷ gs) =
    let rest = spared_grants p s scope ids gs in
    elim (revoke_grants_cases p s scope ids g gs) [
      | inl (e, r) ↦ rw (r, e) (ap (◌∷◌ g) rest)
      | inr (inl (e, r)) ↦ rw (r, e) rest
      | inr (inr (e, f, r)) ↦ rw (r, e) rest
    ]

-- `Revoke` leaves every grant that is not of the session, or not of the scope, as it was and where
-- it was, and it leaves the requests.
pub revoke_spares :
    (now : String) (store : Store) (p s scope : String) (ids : List String)
    → let store' = (revoke now store p s scope ids).1 in
      (keep (is_spared p s scope) store'.grants ≡ keep (is_spared p s scope) store.grants)
      × (store'.requests ≡ store.requests)
revoke_spares now store p s scope ids = (
  rw grants-revoke (spared_grants p s scope (unique_sorted ids) store.grants),
  requests-revoke now store p s scope ids,
)

applies-is_revoked : (p s : String) (g : Grant) → applies p s g ≡ true → is_revoked p s "" g ≡ true
applies-is_revoked p s g h = ground arith

module _ (permission_hash : RequestedPermission → String) where
  -- After `Revoke` of some ids, in every scope, no `Authorize` of that session names one of them. This
  -- is for a valid store, as any sequence of calls on an empty one leaves: with one request for
  -- each session, one grant for each slot, and trimmed ids in the grants.
  pub revoke_denies :
      (now first second : String) (store : Store) (p s : String) (ids : List String)
      (consume_once : Bool) (a : Authorization) (id : String)
      → IsValid store
      → contains (unique_sorted ids) id ≡ true
      → (authorize permission_hash first second (revoke now store p s "" ids).1 p s consume_once).0
        ≡ ok a
      → contains a.permissions id ≡ false
  revoke_denies now first second store p s ids consume_once a id v h k =
      elim (Bool-cases (contains a.permissions id)) [
        | inr absent ↦ absent
        | inl named ↦
            let names = unique_sorted ids in
            let r = authorize-Rests permission_hash first second _ p s consume_once k in
            let c =
              contains_of_All (Comes (IsCurrent permission_hash r.request r.grant)) a.permissions id
                r.current named in
            let clean =
              All-get_elem? IdsTrimmed (revoke now store p s "" ids).1.grants r.index
                (revoke-IsValid now store p s "" ids v).trimmed r.held in
            let x = c.1.0 in
            let cx = c.1.2.0 in
            let bare : x ≡ id =
              sym (contains_of_All IsTrimmed r.grant.permissions x clean cx) ∙ c.1.1 in
            let held =
              subst (λ l. get_elem? l r.index ≡ some r.grant) (grants-revoke now store p s "" ids)
                r.held in
            let stripped =
              All-get_elem? (IsStripped p s "" names) (revoke_grants p s "" names store.grants).0
                r.index (revoke_grants-IsStripped p s "" names store.grants) held
                (applies-is_revoked p s r.grant r.for_session) in
            cc (stripped.1 id h, cx, bare)
      ]

  -- After `Revoke` of all of a session's grants, its `Authorize` fails.
  pub revoke_all_denies :
      (now first second : String) (store : Store) (p s : String) (consume_once : Bool)
      → (e : Error) × (let store' = (revoke now store p s "" []).1 in
          authorize permission_hash first second store' p s consume_once ≡ (err e, store'))
  revoke_all_denies now first second store p s consume_once =
      elim (authorize_cases permission_hash first second (revoke now store p s "" []).1 p s
        consume_once) [
          | inl r ↦ r
          | inr (request, g, i, a, e, f, w, r) ↦
              let held =
                subst (λ l. get_elem? l i ≡ some g) (grants-revoke now store p s "" [])
                  (subst (Best p s _) f (select-Best p s _)).0 in
              let fits =
                (subst (Best p s _) f (select-Best p s (revoke now store p s "" []).1.grants)).1 in
              let stripped =
                All-get_elem? (IsStripped p s "" (unique_sorted []))
                  (revoke_grants p s "" (unique_sorted []) store.grants).0 i
                  (revoke_grants-IsStripped p s "" (unique_sorted []) store.grants) held
                  (applies-is_revoked p s g fits) in
              absurd (cc (stripped.0, ap is_empty unique_sorted-nil))
        ]
