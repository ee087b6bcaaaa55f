-- ===== src/Updater/Commands.antt =====
-- internal/cli/update.go: the commands of `awp update`, and the automatic update that the daemon makes.
-- Flags are parsed already; what is printed is a value.
use awp.Common.{
  ℕ, String, Bool, true, false, Option, some, none, List, [], ◌∷◌, ◌++◌, Result, ok, err, leb, ◌==◌,
  not, if◌then◌else◌,
}
use awp.Common.Numbers.{bias}
use awp.Files as Files
use awp.Files.{Disk, Opened, other_error}
use awp.Files.Stores.{opened}
use awp.Updater.Release.{
  Web, Client, Formats, Status, Error, no_executable, no_policy_path, bad_interval, check,
}
use awp.Updater.Install as Install
use awp.Updater.Install.{Platform, install}
use awp.Updater.Policy.{Policy, load_policy, save_policy, due}

-- What stays the same from call to call: the platform, `DefaultClient` and the formats.
pub record Program : Type 0 where
  pub formats : Formats
  pub platform : Platform
  pub client : Client
  pub encode : Policy → String
  pub decode : String → Option Policy
  pub parse_time : String → Option ℕ
  pub format_time : ℕ → String

-- What one command finds: the path of the policy (`PolicyPath`), whether it opens, the answers of the
-- server, the other calls on the operating system, and the two readings of the clock.
pub record Io : Type 0 where
  pub policy_path : Option String
  pub opens : Bool
  pub web : Web
  pub install : Install.Calls
  pub install_temp : String
  pub save : Files.Calls
  pub policy_temp : String
  pub now : ℕ
  pub checked_at : ℕ

-- What a command prints, with its exit code: 2 for `usage`, 1 for `failed`, else 0.
pub data Outcome : Type 0 where
  usage : Outcome
  failed : String → Error → Outcome
  checked : Status → Outcome
  up_to_date : Outcome
  installed : String → String → Outcome
  auto : Policy → Outcome

-- The disk after the last of some states.
abbrev pub newest : Disk → List Disk → Disk
newest disk [] = disk
newest disk (d ∷ ds) = d

abbrev pub installed_or_failed :
    String → String → Result Error (Unit {0}) × List Disk → Outcome × List Disk
installed_or_failed version executable (err e, states) = (failed "update_install_failed" e, states)
installed_or_failed version executable (ok u, states) = (installed version executable, states)

abbrev pub saved_policy : Policy → Result Error (Unit {0}) × List Disk → Outcome × List Disk
saved_policy policy (err e, states) = (failed "policy_write" e, states)
saved_policy policy (ok u, states) = (auto policy, states)

abbrev pub installed_version :
    String → Result Error (Unit {0}) × List Disk → Result Error (Option String) × List Disk
installed_version version (err e, states) = (err e, states)
installed_version version (ok u, states) = (ok (some version), states)

-- What `runAutomaticUpdate` prints: the version that it installed, and an error.
abbrev pub Report : Type 0
Report = Option String × Option Error

-- The error of the check comes before that of the save.
abbrev pub report : Result Error (Option String) → Result Error (Unit {0}) → Report
report (err e) saved = (none, some e)
report (ok version) (err e) = (version, some e)
report (ok version) (ok u) = (version, none)

-- The version that the latest one is compared with.
abbrev pub base_version : String → Policy → String
base_version current policy =
    if policy.last_installed_version == "" then current else policy.last_installed_version

module _ (program : Program) (io : Io) where
  -- Whether the policy file opens, and what is in it.
  abbrev pub opened_policy : Disk → String → Opened
  opened_policy disk path = if io.opens then opened disk path else other_error

  -- `runUpdateCheck`
  unfoldable pub run_update_check : String → Outcome
  run_update_check version = elim (check program.formats io.web program.client version) [
    | err e ↦ failed "update_check_failed" e
    | ok status ↦ checked status
  ]

  abbrev pub install_latest : String → String → Disk → Result Error (Unit {0}) × List Disk
  install_latest version executable disk =
      install program.formats io.web program.platform program.client io.install version executable
        io.install_temp disk

  -- `runUpdateInstall`, with the value of --executable
  unfoldable pub run_update_install : String → String → Disk → Outcome × List Disk
  run_update_install version executable disk =
      elim (check program.formats io.web program.client version) [
        | err e ↦ (failed "update_check_failed" e, disk ∷ [])
        | ok status ↦
            if not status.update_available
            then (up_to_date, disk ∷ [])
            else elim (if executable == "" then io.install.executable else some executable) [
              | none ↦ (failed "executable_path" no_executable, disk ∷ [])
              | some target ↦
                  installed_or_failed status.latest_version target
                    (install_latest status.latest_version target disk)
            ]
      ]

  -- The switch of `runUpdateAuto` and what follows it
  unfoldable pub change_policy : String → ℕ → String → Policy → Disk → Outcome × List Disk
  change_policy command interval path policy disk =
      let enabled = record policy { enabled = true; interval_hours = interval } in
      let disabled = record policy { enabled = false } in
      if command == "enable"
      then (if leb interval bias
          then (failed "invalid_interval" bad_interval, disk ∷ [])
          else saved_policy enabled
              (save_policy program.encode io.save path io.policy_temp enabled disk))
      else if command == "disable"
      then saved_policy disabled
          (save_policy program.encode io.save path io.policy_temp disabled disk)
      else if command == "status"
      then (auto policy, disk ∷ [])
      else (usage, disk ∷ [])

  abbrev pub auto_with : String → ℕ → String → Disk → Result Error Policy → Outcome × List Disk
  auto_with command interval path disk (err e) = (failed "policy_read" e, disk ∷ [])
  auto_with command interval path disk (ok policy) = change_policy command interval path policy disk

  abbrev pub auto_at : String → ℕ → Disk → Option String → Outcome × List Disk
  auto_at command interval disk none = (failed "policy_path" no_policy_path, disk ∷ [])
  auto_at command interval disk (some path) =
      auto_with command interval path disk (load_policy program.decode (opened_policy disk path))

  -- `runUpdateAuto`, with the value of --interval-hours
  unfoldable pub run_update_auto : String → ℕ → Disk → Outcome × List Disk
  run_update_auto command interval disk = auto_at command interval disk io.policy_path

  abbrev pub install_newer :
      Disk → Option String → Result Error Status → Result Error (Option String) × List Disk
  install_newer disk executable (err e) = (err e, disk ∷ [])
  install_newer disk none (ok status) =
      if not status.update_available then (ok none, disk ∷ []) else (err no_executable, disk ∷ [])
  install_newer disk (some target) (ok status) =
      if not status.update_available
      then (ok none, disk ∷ [])
      else installed_version status.latest_version
          (install_latest status.latest_version target disk)

  -- The check and the installation of `runAutomaticUpdate`: the version that was installed, if any.
  unfoldable pub check_and_install : String → Disk → Result Error (Option String) × List Disk
  check_and_install base disk =
      install_newer disk io.install.executable (check program.formats io.web program.client base)

  -- The policy after a check.
  abbrev pub checked_policy : Result Error (Option String) → Policy → Policy
  checked_policy (ok (some version)) policy = record policy {
    last_checked_at = program.format_time io.checked_at;
    last_installed_version = version;
  }
  checked_policy (ok none) policy = record policy {
    last_checked_at = program.format_time io.checked_at;
  }
  checked_policy (err e) policy = record policy {
    last_checked_at = program.format_time io.checked_at;
  }

  -- `runAutomaticUpdate` where a check is due.
  unfoldable pub update_now : String → Policy → String → Disk → Report × List Disk
  update_now path policy base disk =
      let (result, states) = check_and_install base disk in
      let (saved, later) =
        save_policy program.encode io.save path io.policy_temp (checked_policy result policy)
          (newest disk states) in
      (report result saved, later ++ states)

  -- `runAutomaticUpdate` with the policy that it has loaded.
  abbrev pub update_if_due : String → String → Disk → Result Error Policy → Report × List Disk
  update_if_due current path disk (err e) = ((none, some e), disk ∷ [])
  update_if_due current path disk (ok policy) =
      if not (due program.parse_time policy io.now)
      then ((none, none), disk ∷ [])
      else update_now path policy (base_version current policy) disk

  abbrev pub update_by_policy : String → Disk → Option String → Report × List Disk
  update_by_policy current disk none = ((none, some no_policy_path), disk ∷ [])
  update_by_policy current disk (some path) =
      update_if_due current path disk (load_policy program.decode (opened_policy disk path))

  -- `runAutomaticUpdate`
  unfoldable pub run_automatic_update : String → Disk → Report × List Disk
  run_automatic_update current disk = update_by_policy current disk io.policy_path
