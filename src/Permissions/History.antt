-- ===== src/Permissions/History.antt =====
-- internal/permissions/store.go: histories of calls on the permission store, from the command line,
-- the MCP server and the daemon, in any order; and what every reachable store has.
use awp.Common.{
  ℕ, String, Bool, List, [], ◌∷◌, ◌++◌, ◌-◌, ◌≤◌, inl, inr, arith, length, length-drop, ltb, ◌==◌,
  Bool-cases, Result-cases,
}
use awp.Permissions.{
  RequestedPermission, Request, Store, AuditEntry, Authorization, new_store, max_audit, scope_once,
  append_audit,
}
use awp.Permissions.Names.{unique_sorted}
use awp.Permissions.Requests.{validated, put_request, record_request, request_local}
use awp.Permissions.Grants.{put_grant, granting, grant_permissions}
use awp.Permissions.Authorize.{consume, authorize}
use awp.Permissions.Authorize.Sound.{authorize_cases}
use awp.Permissions.Revocation.{revoke_grants, revoke}
use awp.Permissions.Slots.{
  IsValid, new_store-IsValid, record_request-IsValid, grant_permissions-IsValid, authorize-IsValid,
}
use awp.Permissions.Slots.Revoke.{revoke-IsValid}

-- One call, with what its clock reads.
pub data Call : Type 0 where
  asks : String → String → Request → Call
  asks_local : String → String → String → String → List String → List String → Call
  grants : String → String → String → String → String → List String → Call
  authorizes : String → String → String → String → Bool → Call
  revokes : String → String → String → String → List String → Call

module _ (permission_hash : RequestedPermission → String) where
  unfoldable pub step : Call → Store → Store
  step (asks now audited request) store = (record_request now audited store request).1
  step (asks_local now audited p s allow mcp_tools) store =
      (request_local now audited store p s allow mcp_tools).1
  step (grants now audited p s scope allowed) store =
      (grant_permissions permission_hash now audited store p s scope allowed).1
  step (authorizes first second p s consume_once) store =
      (authorize permission_hash first second store p s consume_once).1
  step (revokes now p s scope ids) store = (revoke now store p s scope ids).1

  unfoldable pub replay : List Call → Store → Store
  replay [] store = store
  replay (c ∷ cs) store = replay cs (step c store)

  step-IsValid : (c : Call) (store : Store) → IsValid store → IsValid (step c store)
  unfolding step request_local
  step-IsValid (asks now audited request) store v =
      record_request-IsValid now audited store request v
  step-IsValid (asks_local now audited p s allow mcp_tools) store v =
      record_request-IsValid now audited store _ v
  step-IsValid (grants now audited p s scope allowed) store v =
      grant_permissions-IsValid permission_hash now audited store p s scope allowed v
  step-IsValid (authorizes first second p s consume_once) store v =
      authorize-IsValid permission_hash first second store p s consume_once v
  step-IsValid (revokes now p s scope ids) store v = revoke-IsValid now store p s scope ids v

  replay_from-IsValid : (cs : List Call) (store : Store) → IsValid store → IsValid (replay cs store)
  unfolding replay
  replay_from-IsValid [] store v = v
  replay_from-IsValid (c ∷ cs) store v =
      replay_from-IsValid cs (step c store) (step-IsValid c store v)

  -- After any history of calls from the empty store, in any order and with any arguments, a
  -- session has one request at most, a slot (provider, session and scope) has one grant at most,
  -- and no id of a grant has a blank at its ends.
  pub replay-IsValid : (cs : List Call) → IsValid (replay cs new_store)
  replay-IsValid cs = replay_from-IsValid cs new_store new_store-IsValid

  abbrev IsBounded : Store → Type 0
  IsBounded store = length store.audit ≤ max_audit

  append_audit-IsBounded :
      (now : String) (store : Store) (entry : AuditEntry) → IsBounded (append_audit now store entry)
  unfolding append_audit
  append_audit-IsBounded now store entry =
      let audit = store.audit ++ record entry { timestamp = now } ∷ [] in
      elim (Bool-cases (ltb max_audit (length audit))) [
        | inl e ↦ rw e (omega (arith, length-drop (length audit - max_audit) audit))
        | inr e ↦ rw e (ground (arith, e))
      ]

  record_request-IsBounded :
      (now audited : String) (store : Store) (request : Request)
      → IsBounded store
      → IsBounded (record_request now audited store request).1
  unfolding record_request put_request
  record_request-IsBounded now audited store request b =
      elim (Result-cases (validated now request)) [
        | inl (r, e) ↦ rw (e, record_request) (append_audit-IsBounded audited _ _)
        | inr (c, e) ↦ rw (e, record_request) b
      ]

  grant_permissions-IsBounded :
      (now audited : String) (store : Store) (p s scope : String) (allowed : List String)
      → IsBounded store
      → IsBounded (grant_permissions permission_hash now audited store p s scope allowed).1
  unfolding grant_permissions put_grant
  grant_permissions-IsBounded now audited store p s scope allowed b =
      elim (Result-cases (granting permission_hash now store p s scope allowed)) [
        | inl (g, e) ↦ rw (e, grant_permissions) (append_audit-IsBounded audited _ _)
        | inr (c, e) ↦ rw (e, grant_permissions) b
      ]

  consume-IsBounded :
      (first second : String) (store : Store) (a : Authorization) (i : ℕ)
      → IsBounded (consume permission_hash first second store a i)
  unfolding consume
  consume-IsBounded first second store a i = elim (Bool-cases (a.scope == scope_once)) [
    | inl e ↦ rw e (append_audit-IsBounded second _ _)
    | inr e ↦ rw e (append_audit-IsBounded first _ _)
  ]

  authorize-IsBounded :
      (first second : String) (store : Store) (p s : String) (consume_once : Bool)
      → IsBounded store
      → IsBounded (authorize permission_hash first second store p s consume_once).1
  authorize-IsBounded first second store p s consume_once b =
      elim (authorize_cases permission_hash first second store p s consume_once) [
        | inl (e, r) ↦ rw r b
        | inr (request, g, i, a, e, f, w, r) ↦ rw r (elim (Bool-cases consume_once) [
          | inl t ↦ rw t (consume-IsBounded first second store a i)
          | inr t ↦ rw t b
        ])
      ]

  revoke-IsBounded :
      (now : String) (store : Store) (p s scope : String) (ids : List String)
      → IsBounded store
      → IsBounded (revoke now store p s scope ids).1
  unfolding revoke
  revoke-IsBounded now store p s scope ids b =
      elim (Bool-cases (revoke_grants p s scope (unique_sorted ids) store.grants).1) [
        | inl e ↦ rw e (append_audit-IsBounded now _ _)
        | inr e ↦ rw e b
      ]

  step-IsBounded : (c : Call) (store : Store) → IsBounded store → IsBounded (step c store)
  unfolding step request_local
  step-IsBounded (asks now audited request) store b =
      record_request-IsBounded now audited store request b
  step-IsBounded (asks_local now audited p s allow mcp_tools) store b =
      record_request-IsBounded now audited store _ b
  step-IsBounded (grants now audited p s scope allowed) store b =
      grant_permissions-IsBounded now audited store p s scope allowed b
  step-IsBounded (authorizes first second p s consume_once) store b =
      authorize-IsBounded first second store p s consume_once b
  step-IsBounded (revokes now p s scope ids) store b = revoke-IsBounded now store p s scope ids b

  replay_from-IsBounded :
      (cs : List Call) (store : Store) → IsBounded store → IsBounded (replay cs store)
  unfolding replay
  replay_from-IsBounded [] store b = b
  replay_from-IsBounded (c ∷ cs) store b =
      replay_from-IsBounded cs (step c store) (step-IsBounded c store b)

  -- After any history of calls from the empty store the audit has `max_audit` entries at most.
  pub length-audit-replay : (cs : List Call) → length (replay cs new_store).audit ≤ max_audit
  length-audit-replay cs = replay_from-IsBounded cs new_store (omega arith)
