-- ===== src/Permissions/Slots/Revoke.antt =====
-- internal/permissions/store.go: the slots after `Revoke`.
use awp.Common.{
  String, true, false, List, [], ◌∷◌, ◌≡◌, ◌⊎◌, inl, inr, arith, All, All-keep_fst, is_empty,
  Bool-cases,
}
use awp.Common.Keyed.{IsUnique}
use awp.Permissions.{Grant, Store, append_audit}
use awp.Permissions.Names.{unique_sorted, IsTrimmed}
use awp.Permissions.Grants.{is_slot}
use awp.Permissions.Revocation.{is_revoked, without_ids, revoke_one, revoke_grants, revoke}
use awp.Permissions.Slots.{IdsTrimmed, IsValid}

pub grants-revoke :
    (now : String) (store : Store) (p s scope : String) (ids : List String)
    → (revoke now store p s scope ids).1.grants
      ≡ (revoke_grants p s scope (unique_sorted ids) store.grants).0
unfolding revoke append_audit
grants-revoke now store p s scope ids = ground arith

pub requests-revoke :
    (now : String) (store : Store) (p s scope : String) (ids : List String)
    → (revoke now store p s scope ids).1.requests ≡ store.requests
unfolding revoke append_audit
requests-revoke now store p s scope ids = ground arith

-- The loop of `Revoke` on one more grant, in front of the rest: it goes, it stays, or it stays
-- without the ids.
pub revoke_grants_cases :
    (p s scope : String) (ids : List String) (g : Grant) (gs : List Grant)
    → let rest = (revoke_grants p s scope ids gs).0 in
      let all = (revoke_grants p s scope ids (g ∷ gs)).0 in
      ((is_revoked p s scope g ≡ false) × (all ≡ g ∷ rest))
      ⊎ (((is_revoked p s scope g ≡ true) × (all ≡ rest))
          ⊎ ((is_revoked p s scope g ≡ true)
              × (is_empty ids ≡ false)
              × (all ≡ without_ids ids g ∷ rest)))
unfolding revoke_grants revoke_one
revoke_grants_cases p s scope ids g gs = elim (Bool-cases (is_revoked p s scope g)) [
  | inl e ↦ elim (Bool-cases (is_empty ids)) [
    | inl f ↦ inr (inl (e, ground arith))
    | inr f ↦ elim (Bool-cases (is_empty (without_ids ids g).permissions)) [
      | inl h ↦ inr (inl (e, ground arith))
      | inr h ↦ inr (inr (e, f, ground arith))
    ]
  ]
  | inr e ↦ inl (e, ground arith)
]

module _ (p s scope : String) (ids : List String) where
  pub All-revoke_grants {ℓ} :
      (P : Grant → Type ℓ) (gs : List Grant)
      → ((g : Grant) → P g → P (without_ids ids g))
      → All P gs
      → All P (revoke_grants p s scope ids gs).0
  All-revoke_grants P [] closed h = unfold revoke_grants in tt
  All-revoke_grants P (g ∷ gs) closed h =
      let rest = All-revoke_grants P gs closed h.1 in
      elim (revoke_grants_cases p s scope ids g gs) [
        | inl (e, r) ↦ rw r (h.0, rest)
        | inr (inl (e, r)) ↦ rw r rest
        | inr (inr (e, f, r)) ↦ rw r (closed g h.0, rest)
      ]

  IsUnique-revoke_grants :
      (gs : List Grant) → IsUnique is_slot gs → IsUnique is_slot (revoke_grants p s scope ids gs).0
  IsUnique-revoke_grants [] u = unfold revoke_grants in tt
  IsUnique-revoke_grants (g ∷ gs) u =
      let rest = IsUnique-revoke_grants gs u.1 in
      let first = All-revoke_grants (λ h. is_slot g h ≡ false) gs (λ h e. e) u.0 in
      elim (revoke_grants_cases p s scope ids g gs) [
        | inl (e, r) ↦ rw r (first, rest)
        | inr (inl (e, r)) ↦ rw r rest
        | inr (inr (e, f, r)) ↦ rw r (first, rest)
      ]

pub revoke-IsValid :
    (now : String) (store : Store) (p s scope : String) (ids : List String)
    → IsValid store
    → IsValid (revoke now store p s scope ids).1
revoke-IsValid now store p s scope ids v = record {
  requests = rw (requests-revoke now store p s scope ids) v.requests;
  grants =
      rw (grants-revoke now store p s scope ids)
        (IsUnique-revoke_grants p s scope (unique_sorted ids) store.grants v.grants);
  trimmed = rw (grants-revoke now store p s scope ids) (
      All-revoke_grants p s scope (unique_sorted ids) IdsTrimmed store.grants
        (λ g t. All-keep_fst IsTrimmed _ g.permissions t) v.trimmed);
}
