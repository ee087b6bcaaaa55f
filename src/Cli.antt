-- ===== src/Cli.antt =====
-- internal/cli: the commands on the stores, which act on the same files as the tools of the MCP
-- server: their state is the same machine. A command loads the files that it needs, calls the stores'
-- operations and saves what they changed. Flags are parsed already, and paths are not modelled; what a
-- command prints is a value.
pub mod Bindings
pub mod Permitting
pub mod Configuring
pub mod Doctor
pub mod Background
pub mod Connecting
pub mod Rules
pub mod Repeated
pub mod Healthy
mod Tests
pub mod Emptied
pub mod Agreement
use awp.Common.{ℕ, String, Bool, true, false, Option, some, none, List, Result, ok, err, not}
use awp.Common.Steps.{Step, ◌>>=◌, ◌>>◌, return, fail_if, read, try}
use awp.Wake.{SessionState, EventRecord}
use awp.Config.{Config}
use awp.Mcp.{Machine, loads}
use awp.Mcp as Mcp
use awp.Permissions as Permissions
use awp.Sessions as Sessions
use awp.Wake as Wake
use awp.Config as Config
use awp.Daemonctl as Daemonctl

-- What the outside does in one command. `files` are the files, the clock, the environment and the
-- network, as for a tool; then whether the paths of the stores can be made, the text of --token-file (if
-- the flag is given, and if the file can be read), and the executables that are in PATH.
pub record Io : Type 0 where
  pub files : Mcp.Io
  pub has_registry_path : Bool
  pub has_permissions_path : Bool
  pub has_events_path : Bool
  pub token_file : Option (Option String)
  pub has_codex : Bool
  pub has_claude : Bool

-- The error that a command prints beside its code.
pub data Cause : Type 0 where
  plain : Cause
  of_permissions : Permissions.Error → Cause
  of_sessions : Sessions.Error → Cause
  of_wake : Wake.Error → Cause
  of_config : Config.Error → Cause
  of_daemon : Daemonctl.Error → Cause
  of_connection : Mcp.Error → Cause

-- What `commandError` prints; the exit code is 1.
pub record Failure : Type 0 where
  pub code : String
  pub cause : Cause

abbrev pub plainly : String → Failure
plainly code = record { code = code; cause = plain }

-- What a command prints.
pub data Value : Type 0 where
  bound : Sessions.Binding → Value
  bindings : List Sessions.Binding → Value
  removed_all : List (String × String) → Value
  removed : Bool → Value
  session : SessionState → Value
  state : SessionState → List EventRecord → Value
  requested : Permissions.Request → Value
  pending : List Permissions.Request → Value
  granted : Permissions.Grant → Value
  grants : List Permissions.Grant → Value
  revoked : Bool → Value
  audit : List Permissions.AuditEntry → Value
  config : Config → Value
  started : ℕ → List String → Value
  stopped running : Option ℕ → Value

abbrev pub Command : Type 0 → Type 0
Command A = Step Machine Failure A

abbrev pub or_fails : {A : Type 0} → Failure → Option A → Result Failure A
or_fails e none = err e
or_fails e (some a) = ok a

abbrev pub same : Failure → Failure
same e = e

module _ (io : Io) where
  -- `config.Path` and `config.Load`: a file that does not exist is an error
  abbrev pub load_config : Command Config
  load_config = do
    fail_if (not io.files.has_config_path) (plainly "config_path")
    fail_if (not (loads io.files.config)) (plainly "config_read")
    found ← read (λ m. m.config)
    try same (or_fails (plainly "config_read") found)

  -- `sessions.Path` and `sessions.Load`
  abbrev pub load_registry : Command Sessions.Registry
  load_registry = do
    fail_if (not io.has_registry_path) (plainly "registry_path")
    fail_if (not (loads io.files.registry)) (plainly "registry_read")
    read (λ m. m.registry)

  -- `loadPermissionStore`
  abbrev pub load_permissions : Command Permissions.Store
  load_permissions = do
    fail_if (not io.has_permissions_path) (plainly "permissions_read")
    fail_if (not (loads io.files.permissions)) (plainly "permissions_read")
    read (λ m. m.permissions)

  -- `wake.Path` and `wake.Load`
  abbrev pub load_events : Command Wake.Store
  load_events = do
    fail_if (not io.files.has_config_path) (plainly "config_path")
    fail_if (not io.has_events_path) (plainly "events_path")
    fail_if (not (loads io.files.events)) (plainly "events_read")
    read (λ m. m.events)
