-- ===== src/Mcp.antt =====
-- internal/mcpserver/server.go: the tools that an agent calls. Each tool loads the files that it
-- needs, calls the stores' operations and saves what they changed. What the files and the other
-- calls on the operating system do in one call is an argument, `Io`; so are the arguments that the
-- JSON decoder finds. Paths are not modelled: a machine has one file of each kind.
pub mod Steps
pub mod Waking
pub mod Providing
pub mod Granting
pub mod Server
pub mod Resolve
pub mod Grants
pub mod Granted
pub mod Paused
pub mod Configured
mod Tests
use awp.Common.{ℕ, String, Bool, true, false, Option, List, Result, ◌==◌}
use awp.Daemon.{Disk, PermissionRequestData, works, load_fails, save_fails}
use awp.Wake.{SessionState, EventRecord, Lifecycle}
use awp.Permissions as Permissions
use awp.Sessions as Sessions
use awp.Wake as Wake
use awp.Config as Config
use awp.Daemonctl as Daemonctl

-- The files, and the processes. A provider's token file is none where it does not exist.
pub record Machine : Type 0 where
  pub registry : Sessions.Registry
  pub events : Wake.Store
  pub permissions : Permissions.Store
  pub config : Option Config.Config
  pub tokens : String → Option String
  pub system : Daemonctl.System

abbrev pub loads : Disk → Bool
loads works = true
loads load_fails = false
loads save_fails = true

abbrev pub saves : Disk → Bool
saves works = true
saves load_fails = false
saves save_fails = false

-- What `client.Run` hands to `Receive`: a permission request, whose data may not decode, or another
-- message.
pub data Heard : Type 0 where
  requests : Option PermissionRequestData → Heard
  other : Heard

-- What the outside does in one tool call. The registry may be read twice; `times` are the readings
-- of the clock, in order. `heard` is what a connection to the provider brings, and `ending` the
-- error with which it ends if no permission request comes.
pub record Io : Type 0 where
  pub registry : Disk
  pub registry_again : Disk
  pub events : Disk
  pub permissions : Disk
  pub config : Disk
  pub has_config_path : Bool
  pub reads_token : Bool
  pub saves_token : Bool
  pub environment : String → String
  pub host_name : String
  pub has_pid_path : Bool
  pub has_executable : Bool
  pub daemon : Daemonctl.Calls
  pub heard : List Heard
  pub ending : Option String
  pub first : String
  pub second : String
  pub third : String
  pub fourth : String

pub data Error : Type 0 where
  not_bound : String → Error
  several_bound : String → List String → Error
  target_required : Error → Error
  registry_unread registry_unwritten events_unread events_unwritten : Error
  permissions_unread permissions_unwritten config_unread config_unwritten token_unwritten : Error
  resume_command_required runtime_session_required provider_required service_url_required : Error
  token_required allow_required no_config_path no_pid_path no_executable : Error
  not_configured : String → Error
  no_token : String → String → Error
  session_unbound : String → String → Error
  wake_failed : Wake.Error → Error
  not_stored : Sessions.Error → Error
  bad_config : Config.Error → Error
  not_requested not_granted not_recorded : Permissions.Error → Error
  not_connected : Error → Error
  not_decoded : Error
  unexpected_session : String → Error
  connection_failed : String → Error
  nothing_requested : Error
  daemon_failed : Daemonctl.Error → Error

-- `wakeContextResult`
pub record WakeContext : Type 0 where
  pub provider : String
  pub session_id : String
  pub created_at : String
  pub lifecycle : Lifecycle
  pub pending_events : List EventRecord
  pub permissions : List String

-- What a tool returns.
pub data Value : Type 0 where
  context : WakeContext → Value
  pending_events : String → String → List EventRecord → Value
  sessions : List Sessions.Binding → Value
  session : SessionState → Value
  bound : Sessions.Binding → Value
  configured : String → Value
  requested : Permissions.Request → Value
  granted : Permissions.Grant → Value
  started : ℕ → Value
  not_started : Daemonctl.Error → Value
  stopped running : Option ℕ → Value
