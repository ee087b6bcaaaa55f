-- ===== src/Cli/Tests.antt =====
-- Runs of the commands, and their theorems at concrete machines.
use awp.Common.{
  String, true, false, Option, some, none, [], ◌∷◌, ok, err, ◌≡◌, ◌≢◌, refl, arith, eq_iff, ◌==◌,
  if◌then◌else◌,
}
use awp.Common.Text.{is_space, trim_left, trim_right, trim_space, contains_any, all_chars}
use awp.Common.Sort.{insert_by, sort_by}
use awp.Common.Split.{split}
use awp.Common.Keyed.{find_first, replace_first, upsert}
use awp.Config.{
  Url, is_bare_toml_key, check_url, validate_provider, validate_all, validate, set_provider,
}
use awp.Daemon.{works}
use awp.Daemonctl.{wrote}
use awp.Permissions.{
  RequestedPermission, Authorization, append_audit, get_request, new_store, runtime_wake,
}
use awp.Permissions.Names.{contains, unique_sorted}
use awp.Permissions.Requests.{
  any_bad_tool, normalised, check_permission, check_permissions, validated, put_request,
  record_request, request_local,
}
use awp.Permissions.Grants.{
  requested, hash_at, set_hash, put_grant, check_allowed, granting_for, granting, grant_permissions,
}
use awp.Permissions.Authorize.{is_current, gather_tools, select, authorize_with, consume, authorize}
use awp.Sessions.{Binding, get, list, remove_first, remove}
use awp.Wake as Wake
use awp.Mcp.{Machine}
use awp.Mcp as Mcp
use awp.Mcp.Granting.{with_request, grant}
use awp.Cli.{Io, removed_all, plainly}
use awp.Cli.Bindings.{remove_each, run_remove_all}
use awp.Cli.Permitting.{GrantArgs, split_csv, run_grant}
use awp.Cli.Configuring.{run_config_remove}
use awp.Cli.Doctor.{valid_config, permission_checks, state_checks, run_doctor}
use awp.Cli.Connecting.{Permitted, Run, ran}
use awp.Cli.Emptied.{run_remove_all-empties}
use awp.Cli.Agreement.{Agrees, tool_args, run_grant-grant}
use awp.Cli.Repeated.{Turn, connect_handles, connect_handles-ran}
use awp.Cli.Healthy.{IsReady, run_doctor-IsReady}

program : Unit {0}
unfolding is_space trim_left trim_right trim_space contains_any all_chars insert_by sort_by split
    find_first replace_first upsert is_bare_toml_key check_url validate_provider validate_all
    validate set_provider append_audit get_request contains unique_sorted any_bad_tool normalised
    check_permission check_permissions validated put_request record_request request_local requested
    hash_at set_hash put_grant check_allowed granting_for granting grant_permissions is_current
    gather_tools select authorize_with consume authorize get list remove_first remove with_request
    grant remove_each run_remove_all split_csv run_grant run_config_remove valid_config
    permission_checks state_checks run_doctor
program = tt

abbrev io : Io
io = record {
  files = record {
    registry = works;
    registry_again = works;
    events = works;
    permissions = works;
    config = works;
    has_config_path = true;
    reads_token = true;
    saves_token = true;
    environment = λ name. "t";
    host_name = "host";
    has_pid_path = true;
    has_executable = true;
    daemon = record {
      reads = true;
      opens_log = true;
      spawn = some 42;
      makes_directory = true;
      write = wrote;
      signals = true;
      removes = true;
    };
    heard = [];
    ending = none;
    first = "t1";
    second = "t2";
    third = "t3";
    fourth = "t4";
  };
  has_registry_path = true;
  has_permissions_path = true;
  has_events_path = true;
  token_file = none;
  has_codex = true;
  has_claude = false;
}

abbrev binding : String → String → Binding
binding provider session_id = record {
  provider = provider;
  session_id = session_id;
  adapter = "codex";
  runtime_session_id = "r";
  workspace = "/w";
  metadata = [];
  resume_command = [];
  created_at = "t0";
  updated_at = "t0";
}

abbrev machine : Machine
machine = record {
  registry = record { version = "0.1"; bindings = binding "work" "a" ∷ binding "work" "a" ∷ [] };
  events = Wake.new_store;
  permissions = new_store;
  config = some (record {
    version = "0.2";
    device_id = "d";
    providers = ("work", record { service_url = "wss://a"; token_env = "T"; mcp_server = "" }) ∷ [];
  });
  tokens = λ p. none;
  system = record { pid_file = none; answers = λ p. false; daemons = [] };
}

abbrev grant_args : String → GrantArgs
grant_args scope = record {
  provider = "work";
  session_id = "a";
  allow = "runtime.wake,read";
  mcp_tools = "";
  scope = scope;
}

abbrev hash : RequestedPermission → String
hash p = p.id

abbrev parse : String → Option Url
parse s = some (record { scheme = "wss"; host = s; hostname = s })

abbrev emptied : Machine
emptied = (run_remove_all io "work" "" machine).1

empties :
    run_remove_all io "work" "" machine
    ≡ (ok (removed_all (("work", "a") ∷ ("work", "a") ∷ [])), emptied)
unfolding program
empties = refl

abbrev after_grant : Machine
after_grant = (run_grant hash io (grant_args "binding") machine).1

healthy :
    ((run_doctor parse hash io machine).0 ≡ false)
    × ((run_doctor parse hash io after_grant).0 ≡ true)
    × ((run_config_remove parse io "work" machine).0 ≡ err (plainly "last_provider"))
unfolding program
healthy = (refl, refl, refl)

abbrev authorization : Authorization
authorization = record {
  provider = "work";
  session_id = "a";
  scope = "binding";
  permissions = "read" ∷ runtime_wake ∷ [];
  mcp_tools = [];
}

abbrev permitted : Permitted
permitted = record { memory = after_grant.permissions; file = after_grant.permissions }

wakes : (authorize hash "t5" "t6" permitted.memory "work" "a" true).0 ≡ ok authorization
unfolding program
wakes = refl

run_remove_all-empties_example :
    (list emptied.registry "work" ≡ [])
    × ((p s : String)
        → ◌≢◌ {A = String} "work" ""
        → p ≢ "work"
        → get emptied.registry p s ≡ get machine.registry p s)
run_remove_all-empties_example =
    run_remove_all-empties io "work" "" machine emptied
      (removed_all (("work", "a") ∷ ("work", "a") ∷ [])) empties

works_not_blank : ◌≢◌ {A = String} "work" ""
works_not_blank e = ground (arith, eq_iff "work" "")

a_not_blank : ◌≢◌ {A = String} "a" ""
a_not_blank e = ground (arith, eq_iff "a" "")

allow_not_blank : trim_space "runtime.wake,read" ≢ ""
unfolding program
allow_not_blank e = ground (arith, eq_iff "runtime.wake,read" "")

is_bound : get machine.registry "work" "a" ≡ some (binding "work" "a")
unfolding program
is_bound = refl

scope_plain : Mcp.Granting.scope_of "binding" ≡ "binding"
unfolding program
scope_plain = refl

run_grant-grant_example :
    Agrees
      (run_grant hash io (grant_args "binding") machine)
      (grant hash "/w" io.files (tool_args (grant_args "binding")) machine)
run_grant-grant_example =
    run_grant-grant hash "/w" io (grant_args "binding") (binding "work" "a") machine works_not_blank
      a_not_blank allow_not_blank scope_plain refl refl refl is_bound

not_once : ◌≢◌ {A = String} "binding" "once"
not_once e = ground (arith, eq_iff "binding" "once")

abbrev turn : String → Turn
turn event_id = record {
  first = "t5";
  second = "t6";
  saves = true;
  delivery = record { delivery_id = "d1"; event_id = event_id; target = ""; event = "" };
}

abbrev adapter : Run
adapter a d =
    if d.event_id == "e1" then none else some (record { text = "no"; is_unusable = false })

connect_handles-ran_example :
    connect_handles hash "work" "a" adapter (turn "e1" ∷ turn "e1" ∷ turn "e2" ∷ []) permitted
    ≡ ran authorization none
      ∷ ran authorization none
      ∷ ran authorization (some (record { text = "no"; is_unusable = false }))
      ∷ []
connect_handles-ran_example =
    connect_handles-ran hash "work" "a" adapter "t5" "t6" (turn "e1" ∷ turn "e1" ∷ turn "e2" ∷ [])
      permitted authorization wakes not_once (refl, (refl, (refl, tt)))

run_doctor-IsReady_example : IsReady parse hash io after_grant
run_doctor-IsReady_example = run_doctor-IsReady parse hash io after_grant healthy.1
