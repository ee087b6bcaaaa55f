-- ===== src/Permissions/Authorize.antt =====
-- internal/permissions/store.go: `Authorize`.
pub mod Selection
pub mod Sound
use awp.Common.{
  ℕ, suc, String, Bool, true, false, Option, some, none, List, [], ◌∷◌, ◌++◌, Result, ok, err, keep,
  remove_at, ltb, ◌==◌, ◌&&◌, ◌||◌, not, if◌then◌else◌,
}
use awp.Permissions.{
  RequestedPermission, Request, Grant, Store, Error, Outcome, Authorization, request_pending,
  wake_not_granted, wake_changed, runtime_wake, scope_once, scope_binding, scope_provider,
  append_audit, audit_entry, get_request,
}
use awp.Permissions.Names.{contains, unique_sorted}
use awp.Permissions.Grants.{requested, hash_at}

abbrev pub priority : String → ℕ
priority scope =
    if scope == scope_provider
    then 1
    else if scope == scope_binding
    then 2
    else if scope == scope_once
    then 3
    else 0

-- The grants that the loop does not skip.
abbrev pub applies : String → String → Grant → Bool
applies provider session_id g =
    g.provider == provider && (g.scope == scope_provider || g.session_id == session_id)

abbrev pub prefer : Option (Grant × ℕ) → Grant → ℕ → Option (Grant × ℕ)
prefer none g i = some (g, i)
prefer (some (h, j)) g i =
    if ltb (priority h.scope) (priority g.scope) then some (g, i) else some (h, j)

abbrev pub select_step : String → String → Option (Grant × ℕ) → Grant → ℕ → Option (Grant × ℕ)
select_step provider session_id selected g i =
    if applies provider session_id g then prefer selected g i else selected

-- The loop: `selected`, with its index.
unfoldable pub select : String → String → Option (Grant × ℕ) → ℕ → List Grant → Option (Grant × ℕ)
select provider session_id selected i [] = selected
select provider session_id selected i (g ∷ gs) =
    select provider session_id (select_step provider session_id selected g i) (suc i) gs

module _ (permission_hash : RequestedPermission → String) where
  -- The granted id is still requested, with the hash that the user saw.
  unfoldable pub is_current : List RequestedPermission → Grant → String → Bool
  is_current ps g id = elim (requested ps id) [
    | none ↦ false
    | some p ↦ hash_at g.permission_hashes id == permission_hash p
  ]

  abbrev tools_of : Option RequestedPermission → List String
  tools_of none = []
  tools_of (some p) = p.mcp_tools

  -- `tools` as the loop gathers it, over the ids that it keeps
  unfoldable pub gather_tools : List RequestedPermission → List String → List String
  gather_tools ps [] = []
  gather_tools ps (id ∷ ids) = tools_of (requested ps id) ++ gather_tools ps ids

  abbrev pub current_ids : Request → Grant → List String
  current_ids request g = keep (is_current request.permissions g) g.permissions

  abbrev pub authorization : String → String → Request → Grant → Authorization
  authorization provider session_id request g =
      let ids = current_ids request g in
      record {
        provider = provider;
        session_id = session_id;
        scope = g.scope;
        permissions = unique_sorted ids;
        mcp_tools = unique_sorted (gather_tools request.permissions ids);
      }

  -- The authorization under the selected grant, or the failure.
  unfoldable pub authorize_with : String → String → Request → Grant → Result Error Authorization
  authorize_with provider session_id request g =
      let a = authorization provider session_id request g in
      if contains a.permissions runtime_wake then ok a else err (wake_changed provider session_id)

  -- What `consumeOnce` does to the store.
  unfoldable pub consume : String → String → Store → Authorization → ℕ → Store
  consume first second store a i =
      let store₁ =
        append_audit first store
          (audit_entry "runtime.authorized" a.provider a.session_id a.scope a.permissions) in
      if a.scope == scope_once
      then append_audit second (record store₁ { grants = remove_at i store₁.grants })
          (audit_entry "grant.consumed" a.provider a.session_id scope_once a.permissions)
      else store₁

  -- `Authorize`; `first` and `second` are the times of its audit entries
  unfoldable pub authorize :
      String → String → Store → String → String → Bool → Outcome Authorization
  authorize first second store provider session_id consume_once =
      elim (get_request store provider session_id) [
        | none ↦ (err (request_pending provider session_id), store)
        | some request ↦ elim (select provider session_id none 0 store.grants) [
          | none ↦ (err (wake_not_granted provider session_id), store)
          | some (g, i) ↦ elim (authorize_with provider session_id request g) [
            | err e ↦ (err e, store)
            | ok a ↦ (ok a, if consume_once then consume first second store a i else store)
          ]
        ]
      ]
