-- ===== src/Mcp/Grants.antt =====
-- internal/mcpserver/server.go: which calls change the user's grants.
pub mod Each
use awp.Common.{
  String, Option, some, none, List, [], ◌∷◌, ok, ◌==◌, ◌≡◌, ◌≢◌, inl, inr, refl, sym, ◌∙◌, ap,
  subst, arith, eq_iff, All, Bool-cases, Option-cases, Result-cases,
}
use awp.Common.Text.{trim_space}
use awp.Permissions.{append_audit, Grant}
use awp.Permissions.Requests.{validated, put_request, record_request}
use awp.Permissions as Permissions
use awp.Sessions.{Binding}
use awp.Config.{Url}
use awp.Daemon.{PermissionRequestData, request_from_protocol}
use awp.Mcp.{Machine, Io, Heard, requests, other, Value}
use awp.Mcp.Steps.{Tool}
use awp.Common.Steps.Rules.{Leaves-next, Leaves, Leaves-next}
use awp.Mcp.Waking.{
  SetAwpArgs, target, wake_context, list_pending_events, list_sessions, pause_session,
  resume_session, set_awp,
}
use awp.Mcp.Providing.{
  wait_for_request, asking, ConfigureArgs, configure_provider, request_permissions, receive_request,
  listen, captured,
}
use awp.Mcp.Granting.{start_daemon, stop_daemon, daemon_status}
use awp.Mcp.Server.{
  Outside, Request, Call, switch, tools, tool, handle_tool_call, handle_request, serve, run,
}
use awp.Mcp.Grants.Each.{
  HasGrants, record_request-grants, wake_context-grants, list_pending_events-grants,
  list_sessions-grants, pause_session-grants, resume_session-grants, set_awp-grants,
  receive_request-grants, listen-grants, saved_request-grants, configure_provider-grants,
  asking-grants, wait_for_request-grants, request_permissions-grants, start_daemon-grants,
  stop_daemon-grants, daemon_status-grants,
}

switch-All {ℓ κ} :
    {A : Type ℓ} (P : A → Type κ) (except name : String) (cases : List (String × A)) {a : A}
    → name ≢ except
    → All (λ (e : String × A). e.0 ≢ except → P e.1) cases
    → switch name cases ≡ some a
    → P a
unfolding switch
switch-All P except name [] n h e = absurd (ground (arith, e))
switch-All {A} P except name ((label, b) ∷ rest) n h e = elim (Bool-cases (name == label)) [
  | inl k ↦
      let same : label ≡ name = sym ((eq_iff name label).0 k) in
      subst P (ground (arith, rw k at e)) (h.0 (λ x. n (sym same ∙ x)))
  | inr k ↦ switch-All P except name rest n h.1 (rw k at e)
]

module _ (o : Outside) (io : Io) (gs : List Grant) (m : Machine) (has : HasGrants gs m) where
  tools-grants :
      (c : Call)
      → All
          (λ (e : String × Tool Value). e.0 ≢ "grant_permissions" → Leaves (HasGrants gs) e.1 m)
          (tools o io c)
  tools-grants c =
      let a = o.session_args c.arguments in
      let b = o.pause_args c.arguments in
      (
        λ n. wake_context-grants o.absolute o.workspace io gs m has a.provider a.session_id,
        (
          λ n.
              list_pending_events-grants o.absolute o.workspace io gs m has a.provider a.session_id,
          (
            λ n. list_sessions-grants o.absolute o.workspace io gs m has,
            (
              λ n.
                  pause_session-grants o.absolute o.workspace io gs m has b.provider b.session_id
                    b.reason,
              (
                λ n.
                    resume_session-grants o.absolute o.workspace io gs m has a.provider
                      a.session_id,
                (
                  λ n.
                      set_awp-grants o.absolute o.workspace io gs m has
                        (o.set_awp_args c.arguments),
                  (
                    λ n.
                        configure_provider-grants o.parse_url o.to_upper io gs m has
                          (o.configure_args c.arguments),
                    (
                      λ n.
                          request_permissions-grants o.workspace io gs a.provider a.session_id m
                            has,
                      (
                        λ n. absurd (n refl),
                        (
                          λ n. start_daemon-grants io gs m has,
                          (
                            λ n. stop_daemon-grants io gs m has,
                            (λ n. daemon_status-grants io gs m has, tt),
                          ),
                        ),
                      ),
                    ),
                  ),
                ),
              ),
            ),
          ),
        ),
      )

  tool-grants :
      (c : Call) (t : Tool Value)
      → c.name ≢ "grant_permissions"
      → tool o io c ≡ some t
      → Leaves (HasGrants gs) t m
  tool-grants c t n h =
      switch-All (λ (u : Tool Value). Leaves (HasGrants gs) u m) "grant_permissions" c.name
        (tools o io c) n (tools-grants c) h

  handle_tool_call-grants :
      (r : Request)
      → ((c : Call) → o.call_of r.params ≡ some c → c.name ≢ "grant_permissions")
      → HasGrants gs (handle_tool_call o io r m).1
  unfolding handle_tool_call
  handle_tool_call-grants r spares = elim (Option-cases (o.call_of r.params)) [
    | inl e ↦ rw (e, handle_tool_call) has
    | inr (c, e) ↦ elim (Option-cases (tool o io c)) [
      | inl f ↦ rw (e, f, handle_tool_call) has
      | inr (t, f) ↦ rw (e, f, handle_tool_call) (tool-grants c t (spares c e) f)
    ]
  ]

-- The line is no call of grant_permissions.
abbrev pub GrantsNothing : Outside → Io × String → Type 0
GrantsNothing o line =
    (r : Request) (c : Call)
    → o.request_of (trim_space line.1) ≡ some r
    → r.method ≡ "tools/call"
    → o.call_of r.params ≡ some c
    → c.name ≢ "grant_permissions"

handle_request-grants :
    (o : Outside) (io : Io) (gs : List Grant) (m : Machine) (r : Request)
    → (r.method ≡ "tools/call"
        → (c : Call) → o.call_of r.params ≡ some c
        → c.name ≢ "grant_permissions")
    → HasGrants gs m
    → HasGrants gs (handle_request o io r m).1
unfolding handle_request
handle_request-grants o io gs m r spares has = elim (Bool-cases (r.method == "tools/call")) [
  | inl e ↦ ground (
    arith,
    has,
    handle_tool_call-grants o io gs m has r (spares ((eq_iff r.method "tools/call").0 e)),
  )
  | inr e ↦ ground (arith, e, has)
]

serve-grants :
    (o : Outside) (io : Io) (text : String) (gs : List Grant) (m : Machine)
    → GrantsNothing o (io, text)
    → HasGrants gs m
    → HasGrants gs (serve o io text m).1
unfolding serve
serve-grants o io text gs m spares has = elim (Bool-cases (trim_space text == "")) [
  | inl e ↦ rw (e, serve) has
  | inr e ↦ elim (Option-cases (o.request_of (trim_space text))) [
    | inl f ↦ rw (e, f, serve) has
    | inr (r, f) ↦ rw (e, f, serve) (handle_request-grants o io gs m r (λ t c. spares r c f t) has)
  ]
]

-- Nothing but grant_permissions grants. Over any run of the server in which no line calls that
-- tool, whatever else is called and whatever the files do, the user's grants stay as they are.
pub run-grants :
    (o : Outside) (lines : List (Io × String)) (m : Machine)
    → All (GrantsNothing o) lines
    → (run o lines m).1.permissions.grants ≡ m.permissions.grants
unfolding run
run-grants o [] m spares = refl
run-grants o ((io, text) ∷ lines) m spares =
    run-grants o lines (serve o io text m).1 spares.1
    ∙ serve-grants o io text m.permissions.grants m spares.0 refl
