-- ===== src/Mcp/Grants/Each.antt =====
-- internal/mcpserver/server.go: what each tool does to the user's grants.
use awp.Common.{
  String, Option, some, none, List, [], ◌∷◌, ok, ◌≡◌, inl, inr, ◌∙◌, ap, arith, Result-cases,
}
use awp.Permissions.{append_audit, Grant}
use awp.Permissions.Requests.{validated, put_request, record_request}
use awp.Permissions as Permissions
use awp.Sessions.{Binding}
use awp.Config.{Url}
use awp.Daemon.{PermissionRequestData, request_from_protocol}
use awp.Mcp.{Machine, Io, Heard, requests, other}
use awp.Common.Steps.Rules.{Leaves-next, Leaves, Leaves-next}
use awp.Mcp.Waking.{
  SetAwpArgs, target, wake_context, list_pending_events, list_sessions, pause_session,
  resume_session, set_awp,
}
use awp.Mcp.Providing.{
  wait_for_request, asking, ConfigureArgs, configure_provider, request_permissions, receive_request,
  listen, captured,
}
use awp.Mcp.Granting.{start_daemon, stop_daemon, daemon_status}

-- The user's grants are these.
abbrev pub HasGrants : List Grant → Machine → Type 0
HasGrants gs m = m.permissions.grants ≡ gs

pub record_request-grants :
    (now audited : String) (store : Permissions.Store) (r : Permissions.Request)
    → (record_request now audited store r).1.grants ≡ store.grants
unfolding record_request put_request append_audit
record_request-grants now audited store r = elim (Result-cases (validated now r)) [
  | inl (q, e) ↦ rw (e, record_request)
  | inr (x, e) ↦ rw (e, record_request)
]

module _ (absolute : String → Option String) (workspace : String) (io : Io) (gs : List Grant)
    (m : Machine) (has : HasGrants gs m) where
  pub wake_context-grants :
      (p s : String) → Leaves (HasGrants gs) (wake_context absolute workspace io p s) m
  unfolding wake_context target
  wake_context-grants p s = ground arith

  pub list_pending_events-grants :
      (p s : String) → Leaves (HasGrants gs) (list_pending_events absolute workspace io p s) m
  unfolding list_pending_events target
  list_pending_events-grants p s = ground arith

  pub list_sessions-grants : Leaves (HasGrants gs) (list_sessions absolute workspace io) m
  unfolding list_sessions
  list_sessions-grants = ground arith

  pub pause_session-grants :
      (p s reason : String)
      → Leaves (HasGrants gs) (pause_session absolute workspace io p s reason) m
  unfolding pause_session target
  pause_session-grants p s reason = ground arith

  pub resume_session-grants :
      (p s : String) → Leaves (HasGrants gs) (resume_session absolute workspace io p s) m
  unfolding resume_session target
  resume_session-grants p s = ground arith

  pub set_awp-grants :
      (args : SetAwpArgs) → Leaves (HasGrants gs) (set_awp absolute workspace io args) m
  unfolding set_awp
  set_awp-grants args = ground arith

pub receive_request-grants :
    (io : Io) (p : String) (b : Binding) (store : Permissions.Store)
    (request : Option PermissionRequestData) (r : Permissions.Request × Permissions.Store)
    → receive_request io p b store request ≡ ok r
    → r.1.grants ≡ store.grants
unfolding receive_request
receive_request-grants io p b store none r h = absurd (cc)
receive_request-grants io p b store (some q) r h =
    ground (arith, h, record_request-grants io.first io.second store (request_from_protocol p q))

pub listen-grants :
    (io : Io) (p : String) (b : Binding) (store : Permissions.Store) (ms : List Heard)
    (r : Permissions.Request × Permissions.Store)
    → listen io p b store ms ≡ ok (some r)
    → r.1.grants ≡ store.grants
unfolding listen
listen-grants io p b store [] r h = absurd (ground (arith, h))
listen-grants io p b store (other ∷ ms) r h = listen-grants io p b store ms r h
listen-grants io p b store (requests request ∷ ms) r h =
    elim (Result-cases (receive_request io p b store request)) [
      | inl (a, e) ↦ receive_request-grants io p b store request r (ground (arith, e, h))
      | inr (x, e) ↦ absurd (ground (arith, e, h))
    ]

-- What `request_permissions` saves is what the connection brought.
pub saved_request-grants :
    (io : Io) (p : String) (b : Binding) (store : Permissions.Store)
    (r : Permissions.Request × Permissions.Store)
    {heard : Option (Permissions.Request × Permissions.Store)}
    → listen io p b store io.heard ≡ ok heard
    → captured heard ≡ ok r
    → r.1.grants ≡ store.grants
saved_request-grants io p b store r {heard = none} h k = absurd (cc)
saved_request-grants io p b store r {heard = some q} h k =
    listen-grants io p b store io.heard r (h ∙ ap (λ x. ok (some x)) (ground (arith, k)))

module _ (parse_url : String → Option Url) (to_upper : String → String) (io : Io) (gs : List Grant)
    (m : Machine) (has : HasGrants gs m) where
  pub configure_provider-grants :
      (args : ConfigureArgs)
      → Leaves (HasGrants gs) (configure_provider parse_url to_upper io args) m
  unfolding configure_provider
  configure_provider-grants args = ground arith

module _ (workspace : String) (io : Io) (gs : List Grant) where
  pub asking-grants :
      (p s : String) (m : Machine)
      → HasGrants gs m
      → Leaves (HasGrants gs) (asking workspace io p s) m
  unfolding asking target
  asking-grants p s m has = ground arith

  pub wait_for_request-grants :
      (p : String) (b : Binding) (m : Machine)
      → HasGrants gs m
      → Leaves (HasGrants gs) (wait_for_request io p b) m
  unfolding wait_for_request
  wait_for_request-grants p b m has = elim (Result-cases (listen io p b m.permissions io.heard)) [
    | inr (x, l) ↦ ground (arith, l, has)
    | inl (h, l) ↦ elim (Result-cases (captured h)) [
      | inr (x, c) ↦ ground (arith, l, c, has)
      | inl (r, c) ↦ ground (arith, l, c, has, saved_request-grants io p b m.permissions r l c)
    ]
  ]

  pub request_permissions-grants :
      (p s : String) (m : Machine)
      → HasGrants gs m
      → Leaves (HasGrants gs) (request_permissions workspace io p s) m
  unfolding request_permissions
  request_permissions-grants p s m has =
      Leaves-next (HasGrants gs) (asking workspace io p s m) _ (asking-grants p s m has)
        (λ a m' e has'. wait_for_request-grants a.0 a.1 m' has')

module _ (io : Io) (gs : List Grant) (m : Machine) (has : HasGrants gs m) where
  pub start_daemon-grants : Leaves (HasGrants gs) (start_daemon io) m
  unfolding start_daemon
  start_daemon-grants = ground arith

  pub stop_daemon-grants : Leaves (HasGrants gs) (stop_daemon io) m
  unfolding stop_daemon
  stop_daemon-grants = ground arith

  pub daemon_status-grants : Leaves (HasGrants gs) (daemon_status io) m
  unfolding daemon_status
  daemon_status-grants = ground arith
