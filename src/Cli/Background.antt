-- ===== src/Cli/Background.antt =====
-- internal/cli/daemonctl.go: `awp daemon start`, `stop` and `status`.
use awp.Common.{String, List, [], ◌∷◌, ◌++◌, ◌==◌, not, if◌then◌else◌}
use awp.Common.Steps.{◌>>=◌, ◌>>◌, return, fail_if, read, try}
use awp.Daemonctl.{start, stop, already_running}
use awp.Daemonctl as Daemonctl
use awp.Cli.{Io, of_daemon, Failure, plainly, Value, started, stopped, running, Command}

-- The flags of `awp daemon start` that go to the daemon; a duration is its text.
pub record StartArgs : Type 0 where
  pub config : String
  pub store : String
  pub token_dir : String
  pub permissions_store : String
  pub events_store : String
  pub provider : String
  pub reconnect_initial : String
  pub reconnect_max : String

-- The loop over the pairs: a flag without a value is left out.
unfoldable pub given_flags : List (String × String) → List String
given_flags [] = []
given_flags ((flag, value) ∷ rest) =
    let others = given_flags rest in if value == "" then others else flag ∷ value ∷ others

-- The arguments of the daemon.
unfoldable pub daemon_args : StartArgs → List String
daemon_args a =
    ("daemon"
      ∷ given_flags (
          ("--config", a.config)
          ∷ ("--store", a.store)
          ∷ ("--token-dir", a.token_dir)
          ∷ ("--permissions-store", a.permissions_store)
          ∷ ("--events-store", a.events_store)
          ∷ ("--provider", a.provider)
          ∷ []))
    ++ ("--reconnect-initial" ∷ a.reconnect_initial ∷ "--reconnect-max" ∷ a.reconnect_max ∷ [])

abbrev pub start_failed : Daemonctl.Error → Failure
start_failed (already_running pid) = record {
  code = "already_running";
  cause = of_daemon (already_running pid);
}
start_failed e = record { code = "spawn_failed"; cause = of_daemon e }

abbrev pub daemon_failed : String → Daemonctl.Error → Failure
daemon_failed code e = record { code = code; cause = of_daemon e }

module _ (io : Io) where
  -- `runDaemonStart`
  unfoldable pub run_daemon_start : StartArgs → Command Value
  run_daemon_start args = do
    fail_if (not io.files.has_pid_path) (plainly "pid_path")
    fail_if (not io.files.has_executable) (plainly "executable")
    r ← read (λ m. start io.files.daemon m.system)
    pid ← (λ m. try start_failed r.0 (record m { system = r.1 }))
    return (started pid (daemon_args args))

  -- `runDaemonStop`
  unfoldable pub run_daemon_stop : Command Value
  run_daemon_stop = do
    fail_if (not io.files.has_pid_path) (plainly "pid_path")
    r ← read (λ m. stop io.files.daemon m.system)
    pid ← (λ m. try (daemon_failed "stop_failed") r.0 (record m { system = r.1 }))
    return (stopped pid)

  -- `runDaemonStatus`
  unfoldable pub run_daemon_status : Command Value
  run_daemon_status = do
    fail_if (not io.files.has_pid_path) (plainly "pid_path")
    r ← read (λ m. Daemonctl.status io.files.daemon m.system)
    pid ← try (daemon_failed "pid_read") r
    return (running pid)
