-- ===== src/Permissions/Revocation.antt =====
-- internal/permissions/store.go: `Revoke`.
use awp.Common.{
  String, Bool, true, false, List, [], ◌∷◌, keep, is_empty, ◌==◌, ◌&&◌, ◌||◌, not, if◌then◌else◌,
}
use awp.Permissions.{Grant, Store, append_audit, audit_entry, scope_provider}
use awp.Permissions.Names.{contains, unique_sorted}

-- The grants that the loop does not skip.
abbrev pub is_revoked : String → String → String → Grant → Bool
is_revoked provider session_id scope g =
    g.provider == provider
    && (scope == "" || g.scope == scope)
    && (g.scope == scope_provider || g.session_id == session_id)

-- The grant without the ids, and without their hashes.
abbrev pub without_ids : List String → Grant → Grant
without_ids ids g = record g {
  permissions = keep (λ id. not (contains ids id)) g.permissions;
  permission_hashes =
      keep (λ e. not (contains ids e.0 && contains g.permissions e.0)) g.permission_hashes;
}

abbrev pub has_one_of : List String → List String → Bool
has_one_of ids [] = false
has_one_of ids (x ∷ xs) = contains ids x || has_one_of ids xs

-- One round on a grant that is not skipped, before the grants `rest`.
unfoldable pub revoke_one : List String → Grant → List Grant → Bool → List Grant × Bool
revoke_one ids g rest changed =
    if is_empty ids
    then (rest, true)
    else let g' = without_ids ids g in
      (if is_empty g'.permissions then rest else g' ∷ rest, changed || has_one_of ids g.permissions)

-- The loop, from the last grant to the first; the flag is `changed`.
unfoldable pub revoke_grants :
    String → String → String → List String → List Grant → List Grant × Bool
revoke_grants provider session_id scope ids [] = ([], false)
revoke_grants provider session_id scope ids (g ∷ gs) =
    let (rest, changed) = revoke_grants provider session_id scope ids gs in
    if is_revoked provider session_id scope g
    then revoke_one ids g rest changed
    else (g ∷ rest, changed)

-- `Revoke`: whether it changed the store, and the store
unfoldable pub revoke : String → Store → String → String → String → List String → Bool × Store
revoke now store provider session_id scope ids =
    let names = unique_sorted ids in
    let (grants, changed) = revoke_grants provider session_id scope names store.grants in
    let store' = record store { grants = grants } in
    (
      changed,
      if changed
          then append_audit now store' (audit_entry "grant.revoked" provider session_id scope names)
          else store',
    )
