-- ===== src/Permissions/Slots.antt =====
-- internal/permissions/store.go: one request for each session, and one grant for each slot:
-- provider, session and scope. The calls that add to the store, and `Authorize`.
pub mod Once
pub mod Revoke
use awp.Common.{
  String, Bool, true, false, some, List, [], ◌∷◌, ok, ◌≡◌, ◌≢◌, ◌⊎◌, inl, inr, refl, sym, ◌∙◌,
  subst, arith, eq_iff, All, All-remove_at, All-keep_fst, All-get_elem?, get_elem?, remove_at,
  is_empty, ◌==◌, ◌&&◌, Bool-cases, Result-cases,
}
use awp.Common.Keyed.{
  IsSame, All-upsert, IsUnique, IsUnique-upsert, IsUnique-others, IsUnique-remove_at,
}
use awp.Permissions.{
  RequestedPermission, Request, Grant, Store, Authorization, new_store, scope_once, scope_provider,
  append_audit, is_for,
}
use awp.Permissions.Names.{unique_sorted, IsTrimmed, unique_sorted-IsTrimmed}
use awp.Permissions.Requests.{validated, put_request, record_request}
use awp.Permissions.Grants.{is_slot, put_grant, granting, grant_permissions}
use awp.Permissions.Granted.{granting-Answers}
use awp.Permissions.Authorize.{applies, authorize}
use awp.Permissions.Authorize.Sound.{
  authorize-Rests, authorize_consumes, authorize_cases, grants-consume, requests-consume,
}
use awp.Permissions.Authorize.Selection.{Best, select-Best}
use awp.Permissions.Revocation.{is_revoked, without_ids, revoke_one, revoke_grants, revoke}

abbrev pub same_request : Request → Request → Bool
same_request a b = is_for a.provider a.session_id b

same_request-IsSame : IsSame same_request
same_request-IsSame = record {
  symm = λ x y h. ground (
    arith,
    eq_iff y.provider x.provider,
    eq_iff x.provider y.provider,
    eq_iff y.session_id x.session_id,
    eq_iff x.session_id y.session_id,
  );
  trans = λ x y z h k. ground (
    arith,
    eq_iff y.provider x.provider,
    eq_iff z.provider y.provider,
    eq_iff z.provider x.provider,
    eq_iff y.session_id x.session_id,
    eq_iff z.session_id y.session_id,
    eq_iff z.session_id x.session_id,
  );
}

pub slot-parts :
    (a b : Grant)
    → is_slot a b ≡ true
    → (b.provider ≡ a.provider) × (b.session_id ≡ a.session_id) × (b.scope ≡ a.scope)
slot-parts a b h =
    ground (
      arith,
      eq_iff b.provider a.provider,
      eq_iff b.session_id a.session_id,
      eq_iff b.scope a.scope,
    )

pub slot_of_eq :
    (a b : Grant)
    → b.provider ≡ a.provider
    → b.session_id ≡ a.session_id
    → b.scope ≡ a.scope
    → is_slot a b ≡ true
slot_of_eq a b e f g =
    ground (
      arith,
      eq_iff b.provider a.provider,
      eq_iff b.session_id a.session_id,
      eq_iff b.scope a.scope,
    )

pub is_slot-IsSame : IsSame is_slot
is_slot-IsSame = record {
  symm = λ x y h. let (e, f, g) = slot-parts x y h in slot_of_eq y x (sym e) (sym f) (sym g);
  trans = λ x y z h k.
      let (e, f, g) = slot-parts x y h in
      let (e', f', g') = slot-parts y z k in slot_of_eq x z (e' ∙ e) (f' ∙ f) (g' ∙ g);
}

-- The ids of a grant have no blanks at their ends.
abbrev pub IdsTrimmed : Grant → Type 0
IdsTrimmed g = All IsTrimmed g.permissions

pub record IsValid (store : Store) : Type 0 where
  pub requests : IsUnique same_request store.requests
  pub grants : IsUnique is_slot store.grants
  pub trimmed : All IdsTrimmed store.grants

pub new_store-IsValid : IsValid new_store
new_store-IsValid = record { requests = tt; grants = tt; trimmed = tt }

pub record_request-IsValid :
    (now audited : String) (store : Store) (request : Request)
    → IsValid store
    → IsValid (record_request now audited store request).1
unfolding record_request put_request append_audit
record_request-IsValid now audited store request v = elim (Result-cases (validated now request)) [
  | inl (r, e) ↦
      rw (e, record_request)
        (record {
          requests = IsUnique-upsert same_request-IsSame r store.requests v.requests;
          grants = v.grants;
          trimmed = v.trimmed;
        })
  | inr (c, e) ↦ rw (e, record_request) v
]

module _ (permission_hash : RequestedPermission → String) where
  pub grant_permissions-IsValid :
      (now audited : String) (store : Store) (p s scope : String) (allowed : List String)
      → IsValid store
      → IsValid (grant_permissions permission_hash now audited store p s scope allowed).1
  unfolding grant_permissions put_grant append_audit
  grant_permissions-IsValid now audited store p s scope allowed v =
      elim (Result-cases (granting permission_hash now store p s scope allowed)) [
        | inl (g, e) ↦
            rw (e, grant_permissions)
              (record {
                requests = v.requests;
                grants = IsUnique-upsert is_slot-IsSame g store.grants v.grants;
                trimmed =
                    All-upsert IdsTrimmed (is_slot g) g store.grants
                      (rw ((granting-Answers permission_hash now store p s scope allowed g e).ids)
                        (unique_sorted-IsTrimmed allowed))
                      v.trimmed;
              })
        | inr (c, e) ↦ rw (e, grant_permissions) v
      ]

  pub authorize-IsValid :
      (first second : String) (store : Store) (p s : String) (consume_once : Bool)
      → IsValid store
      → IsValid (authorize permission_hash first second store p s consume_once).1
  authorize-IsValid first second store p s consume_once v =
      elim (authorize_cases permission_hash first second store p s consume_once) [
        | inl (e, r) ↦ rw r v
        | inr (request, g, i, a, e, f, w, r) ↦ rw r (record {
          requests =
              rw (requests-consume permission_hash first second store p s consume_once a i)
                v.requests;
          grants =
              rw (grants-consume permission_hash first second store p s consume_once a a i refl)
                (elim (Bool-cases (consume_once && (a.scope == scope_once))) [
                  | inl t ↦ rw t (IsUnique-remove_at is_slot i store.grants v.grants)
                  | inr t ↦ rw t v.grants
                ]);
          trimmed =
              rw (grants-consume permission_hash first second store p s consume_once a a i refl)
                (elim (Bool-cases (consume_once && (a.scope == scope_once))) [
                  | inl t ↦ rw t (All-remove_at IdsTrimmed i store.grants v.trimmed)
                  | inr t ↦ rw t v.trimmed
                ]);
        })
      ]
