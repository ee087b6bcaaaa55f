-- ===== src/Config.antt =====
-- internal/config/config.go: the configuration and what makes it valid. A map of providers is an
-- association list, in the order in which a loop over it runs. `url.Parse` is a parameter.
pub mod Secure
mod Tests
use Prim.Native.Char.{Char, code}
use awp.Common.{
  ℕ, String, Bool, true, false, Option, some, none, List, [], ◌∷◌, Result, ok, err, ◌>>=◌, ◌>>◌,
  fail_if, is_empty, leb, eqb, ◌==◌, ◌&&◌, ◌||◌, not, if◌then◌else◌,
}
use awp.Common.Text.{trim_space, contains_any, all_chars}
use awp.Common.Keyed.{find_first, upsert}

abbrev pub version : String
version = "0.2"

pub record Provider : Type 0 where
  pub service_url : String
  pub token_env : String
  pub mcp_server : String

pub record Config : Type 0 where
  pub version : String
  pub device_id : String
  pub providers : List (String × Provider)

abbrev pub default : Config
default = record { version = version; device_id = ""; providers = [] }

-- What the program reads of a parsed URL.
pub record Url : Type 0 where
  pub scheme : String
  pub host : String
  pub hostname : String

pub data Error : Type 0 where
  unsupported_version : String → Error
  device_required provider_required bad_name : Error
  token_env_required bad_token_env bad_mcp_server not_bare_key bad_url bad_scheme insecure :
      String → Error

abbrev pub is_bare_char : Char → Bool
is_bare_char c =
    (leb 97 (code c) && leb (code c) 122)
    || (leb 65 (code c) && leb (code c) 90)
    || (leb 48 (code c) && leb (code c) 57)
    || eqb (code c) 95
    || eqb (code c) 45

-- `isBareTOMLKey`
unfoldable pub is_bare_toml_key : String → Bool
is_bare_toml_key value = not (value == "") && all_chars is_bare_char value

abbrev pub server_name : String → Provider → String
server_name name p = if p.mcp_server == "" then name else p.mcp_server

abbrev pub is_local : String → Bool
is_local hostname = hostname == "localhost" || hostname == "127.0.0.1" || hostname == "::1"

module _ (parse_url : String → Option Url) where
  -- The checks of the service's URL.
  unfoldable pub check_url : String → Provider → Result Error (Unit {0})
  check_url name p = elim (parse_url p.service_url) [
    | none ↦ err (bad_url name)
    | some u ↦
        fail_if (u.host == "") (bad_url name)
        >> (fail_if (not (u.scheme == "wss") && not (u.scheme == "ws")) (bad_scheme name)
            >> fail_if (u.scheme == "ws" && not (is_local u.hostname)) (insecure name))
  ]

  -- `ValidateProvider`
  unfoldable pub validate_provider : String → Provider → Result Error (Unit {0})
  validate_provider name p = do
    fail_if (trim_space name == "" || contains_any name " /\\\t\r\n") bad_name
    fail_if (trim_space p.token_env == "") (token_env_required name)
    fail_if (contains_any p.token_env "= \t\r\n") (bad_token_env name)
    fail_if (not (p.mcp_server == "") && contains_any p.mcp_server "\r\n") (bad_mcp_server name)
    fail_if (not (server_name name p == "none") && not (is_bare_toml_key (server_name name p)))
        (not_bare_key name)
    check_url name p

  -- The loop of `Validate`.
  unfoldable pub validate_all : List (String × Provider) → Result Error (Unit {0})
  validate_all [] = ok tt
  validate_all ((name, p) ∷ ps) = validate_provider name p >> validate_all ps

  -- `Validate`
  unfoldable pub validate : Config → Result Error (Unit {0})
  validate c = do
    fail_if (not (c.version == version)) (unsupported_version c.version)
    fail_if (trim_space c.device_id == "") device_required
    fail_if (is_empty c.providers) provider_required
    validate_all c.providers

  -- `SetProvider`: the error, or the configuration that it leaves
  unfoldable pub set_provider : Config → String → Provider → Result Error Config
  set_provider c name p =
      validate_provider name p
      >> ok (record c {
        version = if c.version == "" then version else c.version;
        providers = upsert (λ (e : String × Provider). e.0 == name) (name, p) c.providers;
      })
