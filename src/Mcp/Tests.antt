-- ===== src/Mcp/Tests.antt =====
-- Calls of the tools and runs of the server, and their theorems at concrete machines. The decoders
-- here read a few fixed lines.
use awp.Common.{
  eq_iff, arith, String, true, false, Option, some, none, List, [], ◌∷◌, ok, err, ◌==◌,
  if◌then◌else◌, ◌≡◌, ◌≢◌, ◌⊎◌, inl, refl,
}
use awp.Common.Text.{is_space, trim_left, trim_right, trim_space, contains_any, all_chars}
use awp.Common.Sort.{insert_by, sort_by}
use awp.Common.Keyed.{find_first, replace_first, upsert}
use awp.Config.{
  Config, Provider, Url, is_bare_toml_key, check_url, validate_provider, validate_all, validate,
  set_provider,
}
use awp.Daemon.{works, Delivery, Times, Disks, State, handle}
use awp.Daemonctl.{Calls, wrote}
use awp.Permissions.{
  RequestedPermission, Grant, Authorization, append_audit, get_request, new_store, runtime_wake,
}
use awp.Permissions.Names.{contains, unique_sorted}
use awp.Permissions.Requests.{
  any_bad_tool, normalised, check_permission, check_permissions, validated, put_request,
  record_request, request_local,
}
use awp.Permissions.Grants.{
  requested, hash_at, set_hash, put_grant, check_allowed, granting_for, granting, grant_permissions,
}
use awp.Permissions.Authorize.{authorize}
use awp.Permissions.Slots.{new_store-IsValid}
use awp.Sessions.{
  Binding, Registry, new_registry, list, any_newline, resolve_workspace, checked, put, bind,
}
use awp.Wake.{ensure_session, write_session}
use awp.Wake.Changes.{with_status, pause, resume}
use awp.Wake.Views.{pending}
use awp.Wake.History.{delivers}
use awp.Wake.History as Woken
use awp.Mcp.{Machine, Io, session, not_bound, several_bound, Value, configured, granted}
use awp.Mcp.Waking.{
  only_one, resolve_session, target, wake_context, list_pending_events, list_sessions,
  pause_session, resume_session, set_awp,
}
use awp.Mcp.Providing.{
  ConfigureArgs, provider_of, load_provider_token, receive_request, listen, asking,
  wait_for_request, request_permissions, configure_provider,
}
use awp.Mcp.Granting.{GrantArgs, with_request, grant, start_daemon, stop_daemon, daemon_status}
use awp.Mcp.Server.{
  Outside, initialized, parse_error, tool_text, switch, handle_tool_call, handle_request, serve,
  run,
}
use awp.Mcp.Resolve.{IsOnly, resolve_session-IsOnly}
use awp.Mcp.Grants.{run-grants}
use awp.Mcp.Granted.{grant-authorize}
use awp.Mcp.Paused.{pause_session-quiet}
use awp.Mcp.Configured.{configured_token}
use awp.Wake as Wake

program : Unit {0}
unfolding is_space trim_left trim_right trim_space contains_any all_chars insert_by sort_by
    find_first replace_first upsert is_bare_toml_key check_url validate_provider validate_all
    validate set_provider append_audit get_request contains unique_sorted any_bad_tool normalised
    check_permission check_permissions validated put_request record_request request_local requested
    hash_at set_hash put_grant check_allowed granting_for granting grant_permissions list
    any_newline resolve_workspace checked put bind ensure_session write_session with_status pause
    resume pending Wake.get only_one resolve_session target wake_context list_pending_events
    list_sessions pause_session resume_session set_awp load_provider_token receive_request listen
    asking wait_for_request request_permissions configure_provider with_request grant start_daemon
    stop_daemon daemon_status switch handle_tool_call handle_request serve run Woken.run Woken.step
program = tt

abbrev daemon_calls : Calls
daemon_calls = record {
  reads = true;
  opens_log = true;
  spawn = some 42;
  makes_directory = true;
  write = wrote;
  signals = true;
  removes = true;
}

abbrev io : Io
io = record {
  registry = works;
  registry_again = works;
  events = works;
  permissions = works;
  config = works;
  has_config_path = true;
  reads_token = true;
  saves_token = true;
  environment = λ name. "";
  host_name = "host";
  has_pid_path = true;
  has_executable = true;
  daemon = daemon_calls;
  heard = [];
  ending = none;
  first = "t1";
  second = "t2";
  third = "t3";
  fourth = "t4";
}

abbrev machine : Machine
machine = record {
  registry = new_registry;
  events = Wake.new_store;
  permissions = new_store;
  config = none;
  tokens = λ p. none;
  system = record { pid_file = none; answers = λ p. false; daemons = [] };
}

abbrev binding : String → String → Binding
binding session_id workspace = record {
  provider = "work";
  session_id = session_id;
  adapter = "a";
  runtime_session_id = "r";
  workspace = workspace;
  metadata = [];
  resume_command = "x" ∷ [];
  created_at = "t0";
  updated_at = "t0";
}

abbrev two : Registry
two = record new_registry { bindings = binding "b" "/w" ∷ binding "a" "/v" ∷ [] }

resolves :
    (resolve_session "/w" works two "" "" ≡ ok ("work", "b"))
    × (resolve_session "" works two "" "" ≡ err (several_bound "" ("work/a" ∷ "work/b" ∷ [])))
    × (resolve_session "/x" works two "" "" ≡ err (not_bound "/x"))
unfolding program
resolves = (refl, refl, refl)

resolve_session-IsOnly_example :
    (◌≢◌ {A = String} "" ""
      × ◌≢◌ {A = String} "" ""
      × ◌≡◌ {A = String} "work" ""
      × ◌≡◌ {A = String} "b" "")
    ⊎ IsOnly "/w" "" "" two "work" "b"
resolve_session-IsOnly_example = resolve_session-IsOnly "/w" works two "" "" "work" "b" resolves.0

abbrev grant_args : GrantArgs
grant_args = record {
  provider = "work";
  session_id = "b";
  allow = runtime_wake ∷ [];
  scope = "";
  mcp_tools = [];
}

abbrev hash : RequestedPermission → String
hash p = p.id

abbrev parse : String → Option Url
parse s = some (record { scheme = "wss"; host = s; hostname = s })

abbrev upper : String → String
upper s = "WORK"

abbrev outside : Outside
outside = record {
  permission_hash = hash;
  absolute = some;
  parse_url = parse;
  to_upper = upper;
  workspace = "/w";
  request_of = λ line.
      if line == "init"
      then some (record { id = "1"; method = "initialize"; params = "" })
      else if line == "note"
      then some (record { id = ""; method = "notifications/initialized"; params = "" })
      else if line == "pause"
      then some (record { id = "2"; method = "tools/call"; params = "pause_session" })
      else if line == "grant"
      then some (record { id = "3"; method = "tools/call"; params = "grant_permissions" })
      else none;
  call_of = λ params. some (record { name = params; arguments = "" });
  session_args = λ text. record { provider = "work"; session_id = "b" };
  pause_args = λ text. record { provider = "work"; session_id = "b"; reason = "busy" };
  set_awp_args = λ text. record {
    provider = "work";
    session_id = "b";
    adapter = "";
    runtime_session_id = "r";
    resume_command = "x" ∷ [];
    workspace = "";
    metadata = [];
  };
  configure_args =
      λ text. record { provider = "work"; service_url = "wss://a"; token = "t"; mcp_server = "" };
  grant_args = λ text. grant_args;
  encode = λ v. some "v";
}

abbrev lines : List (Io × String)
lines = (io, "init") ∷ (io, " ") ∷ (io, "note") ∷ (io, "pause ") ∷ (io, "x") ∷ []

answers :
    (run outside lines machine).0
    ≡ record { id = "1"; body = initialized }
      ∷ record { id = "2"; body = tool_text "v" }
      ∷ record { id = ""; body = parse_error }
      ∷ []
unfolding program
answers = refl

grants_something :
    (run outside ((io, "grant") ∷ []) machine).1.permissions.grants ≢ machine.permissions.grants
unfolding program
grants_something = cc

run-grants_example : (run outside lines machine).1.permissions.grants ≡ machine.permissions.grants
unfolding program
run-grants_example = run-grants outside lines machine (
  (λ r c h t k e. ground (arith, h, t, k, e, eq_iff "initialize" "tools/call")),
  (
    (λ r c h t k e. absurd (cc h)),
    (
      (λ r c h t k e. ground (arith, h, t, k, e, eq_iff "notifications/initialized" "tools/call")),
      (
        (λ r c h t k e. ground (arith, h, t, k, e, eq_iff "pause_session" "grant_permissions")),
        ((λ r c h t k e. absurd (cc h)), tt),
      ),
    ),
  ),
)

abbrev the_grant : Grant
the_grant = record {
  provider = "work";
  session_id = "b";
  source_session_id = "b";
  request_id = "local";
  scope = "binding";
  permissions = runtime_wake ∷ [];
  permission_hashes = (runtime_wake, runtime_wake) ∷ [];
  granted_at = "t3";
  granted_by = "interactive_cli";
}

abbrev after_grant : Machine
after_grant = (grant hash "/w" io grant_args machine).1

grants_it : grant hash "/w" io grant_args machine ≡ (ok (granted the_grant), after_grant)
unfolding program
grants_it = refl

grant-authorize_example :
    (a : Authorization) × ((authorize hash "t5" "t6" after_grant.permissions "work" "b" true).0
      ≡ ok a)
    × (a.permissions ≡ runtime_wake ∷ [])
    × (a.scope ≡ "binding")
unfolding resolve_session
grant-authorize_example =
    grant-authorize hash "/w" io grant_args machine after_grant the_grant "work" "b" "t5" "t6" true
      refl grants_it new_store-IsValid tt

abbrev after_pause : Machine
after_pause = (pause_session some "/w" io "work" "b" "busy" machine).1

abbrev state : State
state = record {
  events = Woken.run (delivers "t4" "work" "c" "e9" "d9" "{}" ∷ []) after_pause.events;
  permissions = after_grant.permissions;
  saved = after_grant.permissions;
}

abbrev times : Times
times = record {
  delivered = "t5";
  first = "t6";
  second = "t7";
  permitted = "t8";
  event_ended = "t9";
  ended = "t9";
  crashed = "t9";
}

abbrev disks : Disks
disks = record {
  recording = works;
  saves_permissions = true;
  failing = works;
  permitting = works;
  ending = works;
}

abbrev delivery : Delivery
delivery = record { delivery_id = "d1"; event_id = "e1"; target = some "b"; event = "{}" }

abbrev paused_value : Value
paused_value = session (pause "t1" Wake.new_store "work" "b" "busy").0

pauses_it : pause_session some "/w" io "work" "b" "busy" machine ≡ (ok paused_value, after_pause)
unfolding program
pauses_it = refl

pause_session-quiet_example :
    (handle hash "work" times disks
      (record { before = []; while_running = [] })
      (λ a. none)
      (λ s. some (binding "b" "/w"))
      delivery
      state).0.woken
    ≡ none
unfolding trim_space resolve_session
pause_session-quiet_example =
    pause_session-quiet some "/w" io "work" "b" "busy" "work" "b" machine after_pause paused_value
      (delivers "t4" "work" "c" "e9" "d9" "{}" ∷ []) hash times disks
      (record { before = []; while_running = [] }) (λ a. none) (λ s. some (binding "b" "/w"))
      delivery state refl pauses_it refl refl (inl refl, tt) refl refl

abbrev configure_args : ConfigureArgs
configure_args = record {
  provider = " work";
  service_url = "wss://a";
  token = "secret\n";
  mcp_server = "";
}

abbrev after_configure : Machine
after_configure = (configure_provider parse upper io configure_args machine).1

configures_it :
    configure_provider parse upper io configure_args machine
    ≡ (ok (configured "work"), after_configure)
unfolding program
configures_it = refl

configured_token_example :
    (c : Config) × (p : Provider) × (after_configure.config ≡ some c)
    × (validate parse c ≡ ok tt)
    × (provider_of c "work" ≡ some p)
    × (p.service_url ≡ "wss://a")
    × (load_provider_token io "work" p after_configure ≡ ok "secret")
unfolding trim_space
configured_token_example =
    configured_token parse upper io io configure_args machine after_configure "work" configures_it
      refl refl
