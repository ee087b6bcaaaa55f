-- ===== src/Config/Tests.antt =====
-- Configurations, and the theorems of them at one with a provider.
use awp.Common.{
  String, Option, some, false, none, [], ◌∷◌, ok, err, ◌==◌, if◌then◌else◌, is_empty, All, ◌≡◌, ◌≢◌,
  refl,
}
use awp.Common.Text.{trim_space, contains_any, all_chars}
use awp.Common.Keyed.{upsert}
use awp.Config.{
  Provider, Config, Url, version, default, is_bare_toml_key, check_url, validate_provider,
  validate_all, validate, set_provider, insecure, not_bare_key, bad_name, unsupported_version,
  device_required,
}
use awp.Config.Secure.{IsSecure, validate-IsSecure}

abbrev parse : String → Option Url
parse s =
    if s == "wss://a"
    then some (record { scheme = "wss"; host = "a"; hostname = "a" })
    else if s == "ws://a"
    then some (record { scheme = "ws"; host = "a"; hostname = "a" })
    else none

abbrev provider : Provider
provider = record { service_url = "wss://a"; token_env = "TOKEN"; mcp_server = "" }

abbrev config : Config
config = record { version = "0.2"; device_id = "laptop"; providers = ("work", provider) ∷ [] }

program : Unit {0}
unfolding is_bare_toml_key check_url validate_provider validate_all validate set_provider trim_space
    contains_any all_chars upsert
program = tt

runs :
    (validate parse config ≡ ok tt)
    × (validate parse default ≡ err device_required)
    × (validate parse (record config { version = "0.1" }) ≡ err (unsupported_version "0.1"))
    × (validate_provider parse "work" (record provider { service_url = "ws://a" })
        ≡ err (insecure "work"))
    × (validate_provider parse "a.b" provider ≡ err (not_bare_key "a.b"))
    × (set_provider parse config "a/b" provider ≡ err bad_name)
unfolding program
runs = (refl, refl, refl, refl, refl, refl)

validate-IsSecure_example :
    ("0.2" ≡ version)
    × (trim_space "laptop" ≢ "")
    × (is_empty config.providers ≡ false)
    × All (IsSecure parse) config.providers
validate-IsSecure_example = validate-IsSecure parse config runs.0

abbrev other : Provider
other = record { service_url = "wss://a"; token_env = "OTHER"; mcp_server = "none" }

abbrev both : Config
both = record config { providers = ("work", provider) ∷ ("home", other) ∷ [] }

sets : set_provider parse config "home" other ≡ ok both
unfolding program
sets = refl
