-- ===== src/Cli/Configuring.antt =====
-- internal/cli/cli.go: `awp config`. `config.Save` validates before it writes.
use awp.Common.{
  String, Bool, true, false, Option, some, is_some, is_empty, keep, ◌==◌, not, if◌then◌else◌,
}
use awp.Common.Steps.{◌>>=◌, ◌>>◌, return, fail_if, read, try, save}
use awp.Config.{Config, Provider, Url, validate, set_provider}
use awp.Mcp.{loads, saves}
use awp.Mcp.Providing.{loaded_or_default, provider_of}
use awp.Config as Config
use awp.Cli.{Io, of_config, Failure, plainly, Value, removed, config, Command, load_config}

abbrev pub config_failed : String → Config.Error → Failure
config_failed code e = record { code = code; cause = of_config e }

-- `delete(cfg.Providers, name)`
abbrev pub without : String → Config → Config
without name c = record c {
  providers = keep (λ (e : String × Provider). not (e.0 == name)) c.providers;
}

module _ (parse_url : String → Option Url) (io : Io) where
  -- `config.Save`
  abbrev pub save_config : String → Config → Command (Unit {0})
  save_config code c = do
    try (config_failed code) (validate parse_url c)
    save (saves io.files.config) (plainly code) (λ m. record m { config = some c })

  -- `runConfigSet`, with the values of --provider and --device-id and the provider
  unfoldable pub run_config_set : String → String → Provider → Command Value
  run_config_set name device_id provider = do
    fail_if (not io.files.has_config_path) (plainly "config_path")
    fail_if (not (loads io.files.config)) (plainly "config_read")
    found ← read (λ m. m.config)
    let loaded = loaded_or_default found
    let named = if device_id == "" then loaded else record loaded { device_id = device_id }
    changed ← try (config_failed "invalid_provider") (set_provider parse_url named name provider)
    save_config "invalid_config" changed
    return (config changed)

  -- `runConfigShow`
  unfoldable pub run_config_show : Command Value
  run_config_show = do c ← load_config io; return (config c)

  -- The save of `runConfigRemove`.
  abbrev pub save_removed : Bool → Config → Command (Unit {0})
  save_removed false c = return tt
  save_removed true c = do
    fail_if (is_empty c.providers) (plainly "last_provider")
    save_config "config_write" c

  -- `runConfigRemove`
  unfoldable pub run_config_remove : String → Command Value
  run_config_remove name = do
    fail_if (name == "") (plainly "provider_required")
    c ← load_config io
    save_removed (is_some (provider_of c name)) (without name c)
    return (removed (is_some (provider_of c name)))
