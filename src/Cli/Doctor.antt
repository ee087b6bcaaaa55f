-- ===== src/Cli/Doctor.antt =====
-- internal/cli/cli.go: `awp doctor`, which reads the files and changes none.
use Prim.Native.String.{◌++◌ as concat}
use awp.Common.{
  String, Bool, true, false, Option, some, none, List, [], ◌∷◌, ◌++◌, Result, ok, err, map,
  is_empty, ◌==◌, ◌&&◌, ◌||◌, not, if◌then◌else◌,
}
use awp.Config.{Config, Provider, Url, validate}
use awp.Permissions.{RequestedPermission, Store}
use awp.Permissions.Authorize.{authorize}
use awp.Sessions.{Binding, list}
use awp.Mcp.{Machine, loads}
use awp.Cli.{Io}

-- A check: its name, and whether it has passed. Its message is not modelled.
pub record Check : Type 0 where
  pub name : String
  pub passed : Bool

abbrev pub is_ok {ℓ κ} : {E : Type ℓ} {A : Type κ} → Result E A → Bool
is_ok (err e) = false
is_ok (ok a) = true

module _ (parse_url : String → Option Url) (io : Io) where
  -- The configuration, if it loads and is valid.
  abbrev pub valid_or_none : Option Config → Option Config
  valid_or_none none = none
  valid_or_none (some c) = if is_ok (validate parse_url c) then some c else none

  unfoldable pub valid_config : Machine → Option Config
  valid_config m =
      if not io.files.has_config_path || not (loads io.files.config)
      then none
      else valid_or_none m.config

  -- The check of a provider's token.
  abbrev pub provider_check : String × Provider → Check
  provider_check (name, p) = record {
    name = concat "provider:" name;
    passed = not (io.files.environment p.token_env == "");
  }

module _ (permission_hash : RequestedPermission → String) (io : Io) where
  -- The loop over the bindings; `Authorize` returns the store with which it goes on.
  unfoldable pub permission_checks : Store → List Binding → List Check
  permission_checks store [] = []
  permission_checks store (b ∷ bs) =
      let (result, next) =
        authorize permission_hash io.files.first io.files.second store b.provider b.session_id
          false in
      record {
        name = concat "permission:" (concat b.provider (concat "/" b.session_id));
        passed = is_ok result;
      }
      ∷ permission_checks next bs

  -- The checks of the local state.
  unfoldable pub state_checks : Machine → List Check
  state_checks m =
      if not io.has_registry_path
        || not io.has_permissions_path
        || not (loads io.files.registry)
        || not (loads io.files.permissions)
      then record { name = "permissions"; passed = false } ∷ []
      else permission_checks m.permissions (list m.registry "")

abbrev pub all_passed : List Check → Bool
all_passed [] = true
all_passed (c ∷ cs) = c.passed && all_passed cs

module _ (parse_url : String → Option Url) (permission_hash : RequestedPermission → String)
    (io : Io) where
  -- The checks before those of the executables: without a configuration there are no others.
  abbrev pub checks_of : Machine → Option Config → List Check
  checks_of m none = record { name = "config"; passed = false } ∷ []
  checks_of m (some c) =
      (record { name = "config"; passed = true } ∷ map (provider_check parse_url io) c.providers)
      ++ (if c.version == "" then [] else state_checks permission_hash io m)

  abbrev pub any_provider : Option Config → Bool
  any_provider none = false
  any_provider (some c) = not (is_empty c.providers)

  -- `runDoctor`: whether all is well, and the checks
  unfoldable pub run_doctor : Machine → Bool × List Check
  run_doctor m =
      let found = valid_config parse_url io m in
      let checks = checks_of m found in
      (
        all_passed checks && any_provider found && (io.has_codex || io.has_claude),
        checks
            ++ (record { name = "codex"; passed = io.has_codex }
                ∷ record { name = "claude"; passed = io.has_claude }
                ∷ []),
      )
