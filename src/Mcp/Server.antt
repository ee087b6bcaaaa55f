-- ===== src/Mcp/Server.antt =====
-- internal/mcpserver/server.go: `handleToolCall`, `handleRequest` and `Run`. The JSON decoders and the
-- encoder of a tool's value are parameters; an `Unmarshal` of arguments that fails leaves what its
-- decoder gives. A request without an id has the empty id.
use awp.Common.{
  String, Bool, Option, some, none, List, [], ◌∷◌, Result, ok, err, ◌==◌, ◌||◌, not, if◌then◌else◌,
}
use awp.Common.Text.{trim_space}
use awp.Config.{Url}
use awp.Permissions.{RequestedPermission}
use awp.Mcp.{Machine, Io, Error, Value}
use awp.Mcp.Steps.{Tool}
use awp.Mcp.Waking.{
  SetAwpArgs, wake_context, list_pending_events, list_sessions, pause_session, resume_session,
  set_awp,
}
use awp.Mcp.Providing.{ConfigureArgs, configure_provider, request_permissions}
use awp.Mcp.Granting.{GrantArgs, grant, start_daemon, stop_daemon, daemon_status}

-- `rpcRequest`; absent params are the empty text.
pub record Request : Type 0 where
  pub id : String
  pub method : String
  pub params : String

-- `toolCallParams`
pub record Call : Type 0 where
  pub name : String
  pub arguments : String

-- `sessionArgs`
pub record SessionArgs : Type 0 where
  pub provider : String
  pub session_id : String

-- `pauseArgs`
pub record PauseArgs : Type 0 where
  pub provider : String
  pub session_id : String
  pub reason : String

-- What the server is run with.
pub record Outside : Type 0 where
  pub permission_hash : RequestedPermission → String
  pub absolute : String → Option String
  pub parse_url : String → Option Url
  pub to_upper : String → String
  pub workspace : String
  pub request_of : String → Option Request
  pub call_of : String → Option Call
  pub session_args : String → SessionArgs
  pub pause_args : String → PauseArgs
  pub set_awp_args : String → SetAwpArgs
  pub configure_args : String → ConfigureArgs
  pub grant_args : String → GrantArgs
  pub encode : Value → Option String

pub data Body : Type 0 where
  initialized pong tool_definitions : Body
  parse_error invalid_params : Body
  unknown_method unknown_tool : String → Body
  tool_text : String → Body
  tool_failed : Error → Body
  not_encoded : Body

pub record Response : Type 0 where
  pub id : String
  pub body : Body

abbrev pub is_notification : String → Bool
is_notification method =
    method == "notifications/initialized" || method == "notifications/cancelled"

abbrev pub answer : Request → Body → Option Response
answer r body = some (record { id = r.id; body = body })

-- A switch on a text.
unfoldable pub switch {ℓ} : {A : Type ℓ} → String → List (String × A) → Option A
switch name [] = none
switch name ((label, a) ∷ rest) = if name == label then some a else switch name rest

module _ (o : Outside) (io : Io) where
  -- The tools by their names, with their arguments decoded.
  abbrev pub tools : Call → List (String × Tool Value)
  tools c =
      let args = o.session_args c.arguments in
      let pause = o.pause_args c.arguments in
      ("wake_context", wake_context o.absolute o.workspace io args.provider args.session_id)
      ∷ (
        "list_pending_events",
        list_pending_events o.absolute o.workspace io args.provider args.session_id,
      )
      ∷ ("list_sessions", list_sessions o.absolute o.workspace io)
      ∷ (
        "pause_session",
        pause_session o.absolute o.workspace io pause.provider pause.session_id pause.reason,
      )
      ∷ ("resume_session", resume_session o.absolute o.workspace io args.provider args.session_id)
      ∷ ("set_awp", set_awp o.absolute o.workspace io (o.set_awp_args c.arguments))
      ∷ (
        "configure_provider",
        configure_provider o.parse_url o.to_upper io (o.configure_args c.arguments),
      )
      ∷ ("request_permissions", request_permissions o.workspace io args.provider args.session_id)
      ∷ ("grant_permissions", grant o.permission_hash o.workspace io (o.grant_args c.arguments))
      ∷ ("start_daemon", start_daemon io)
      ∷ ("stop_daemon", stop_daemon io)
      ∷ ("daemon_status", daemon_status io)
      ∷ []

  -- The switch on the tool's name.
  abbrev pub tool : Call → Option (Tool Value)
  tool c = switch c.name (tools c)

  -- `respondToolResult`
  abbrev pub tool_body : Result Error Value → Body
  tool_body (err e) = tool_failed e
  tool_body (ok v) = elim (o.encode v) [ none ↦ not_encoded | some text ↦ tool_text text ]

  -- `handleToolCall`
  unfoldable pub handle_tool_call : Request → Machine → Body × Machine
  handle_tool_call r m = elim (o.call_of r.params) [
    | none ↦ (invalid_params, m)
    | some c ↦ elim (tool c) [
      | none ↦ (unknown_tool c.name, m)
      | some t ↦ (tool_body (t m).0, (t m).1)
    ]
  ]

  -- `handleRequest`
  unfoldable pub handle_request : Request → Machine → Option Response × Machine
  handle_request r m =
      if r.method == "initialize"
      then (answer r initialized, m)
      else if is_notification r.method
      then (none, m)
      else if r.method == "ping"
      then (answer r pong, m)
      else if r.method == "tools/list"
      then (answer r tool_definitions, m)
      else if r.method == "tools/call"
      then (answer r (handle_tool_call r m).0, (handle_tool_call r m).1)
      else if not (r.id == "")
      then (answer r (unknown_method r.method), m)
      else (none, m)

  -- One line of the input in `Run`.
  unfoldable pub serve : String → Machine → Option Response × Machine
  serve text m =
      let line = trim_space text in
      if line == "" then (none, m) else elim (o.request_of line) [
        | none ↦ (some (record { id = ""; body = parse_error }), m)
        | some r ↦ handle_request r m
      ]

abbrev pub written : Option Response → List Response → List Response
written none rest = rest
written (some r) rest = r ∷ rest

-- `Run` on the lines that it reads before its input ends or its context is cancelled: what it
-- writes, and the machine that it leaves.
unfoldable pub run : Outside → List (Io × String) → Machine → List Response × Machine
run o [] m = ([], m)
run o ((io, text) ∷ lines) m =
    let r = serve o io text m in let rest = run o lines r.1 in (written r.0 rest.0, rest.1)
