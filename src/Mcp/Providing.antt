-- ===== src/Mcp/Providing.antt =====
-- internal/mcpserver/server.go: `configureProvider`, `loadProviderToken` and `requestPermissions`.
-- `strings.ToUpper` is a parameter, as is `url.Parse`; so is the device's name that is made of the
-- host's.
use Prim.Native.String.{◌++◌ as concat}
use mathlib.Core.Option.{get_or}
use awp.Common.{
  String, Option, some, none, List, [], ◌∷◌, Result, ok, err, ◌==◌, ◌&&◌, not, if◌then◌else◌,
}
use awp.Common.Text.{trim_space}
use awp.Common.Keyed.{find_first}
use awp.Files.Tokens.{token_text}
use awp.Config.{Config, Provider, Url, default, validate, set_provider}
use awp.Daemon.{PermissionRequestData, request_from_protocol}
use awp.Sessions.{Binding, get}
use awp.Permissions.{Request, Store}
use awp.Permissions.Requests.{record_request}
use awp.Mcp.{
  Machine, Io, Heard, requests, other, loads, saves, Error, registry_unread, permissions_unread,
  permissions_unwritten, config_unread, config_unwritten, token_unwritten, provider_required,
  service_url_required, token_required, no_config_path, not_configured, no_token, session_unbound,
  bad_config, not_recorded, not_decoded, unexpected_session, not_connected, connection_failed,
  nothing_requested, Value, configured, requested,
}
use awp.Mcp.Steps.{Tool, ◌>>=◌, ◌>>◌, return, fail_if, read, try, save}
use awp.Mcp.Waking.{target}

-- The arguments of `configure_provider`.
pub record ConfigureArgs : Type 0 where
  pub provider : String
  pub service_url : String
  pub token : String
  pub mcp_server : String

-- `config.Load`, where a missing file stands for `config.Default()`
abbrev pub loaded_or_default : Option Config → Config
loaded_or_default none = default
loaded_or_default (some c) = c

-- The device's id, if the configuration has none yet.
abbrev pub with_device : String → Config → Config
with_device host_name c =
    if trim_space c.device_id == ""
    then record c { device_id = concat "dev_" (if host_name == "" then "awp" else host_name) }
    else c

-- What `SaveToken` leaves where it works.
abbrev pub put_token : String → String → (String → Option String) → String → Option String
put_token provider token tokens = λ p. if p == provider then some (token_text token) else tokens p

-- `config.Providers[provider]`
abbrev pub provider_of : Config → String → Option Provider
provider_of c name = elim (find_first (λ (e : String × Provider). e.0 == name) c.providers) [
  | none ↦ none
  | some e ↦ some e.1
]

-- `os.ReadFile`, if it succeeds
abbrev pub token_file : Io → String → Machine → Option String
token_file io provider m = if io.has_config_path && io.reads_token then m.tokens provider else none

-- `loadProviderToken`: the protected file first, then the environment.
unfoldable pub load_provider_token : Io → String → Provider → Machine → Result Error String
load_provider_token io provider p m =
    let from_file = trim_space (get_or (token_file io provider m) "") in
    let from_environment = trim_space (io.environment p.token_env) in
    if not (from_file == "")
    then ok from_file
    else if from_environment == ""
    then err (no_token provider p.token_env)
    else ok from_environment

-- What `Receive` does with a permission request for the session of `b`.
unfoldable pub receive_request :
    Io → String → Binding → Store → Option PermissionRequestData → Result Error (Request × Store)
receive_request io provider b store none = err not_decoded
receive_request io provider b store (some request) =
    if not (request.session_id == b.session_id)
    then err (unexpected_session request.session_id)
    else let r = record_request io.first io.second store (request_from_protocol provider request) in
      elim r.0 [ err e ↦ err (not_recorded e) | ok q ↦ ok (q, r.1) ]

-- `client.Run` with `StopAfterPermissionRequest`: none where it ends without an error and without a
-- request.
unfoldable pub listen :
    Io → String → Binding → Store → List Heard → Result Error (Option (Request × Store))
listen io provider b store [] = elim io.ending [
  | none ↦ ok none
  | some text ↦ err (connection_failed text)
]
listen io provider b store (other ∷ ms) = listen io provider b store ms
listen io provider b store (requests request ∷ ms) =
    elim (receive_request io provider b store request) [ err e ↦ err e | ok r ↦ ok (some r) ]

-- The session's request as `listen` brought it, if it came.
abbrev pub captured : Option (Request × Store) → Result Error (Request × Store)
captured none = err nothing_requested
captured (some r) = if r.0.request_id == "" then err nothing_requested else ok r

abbrev pub found_or : {A : Type 0} → Error → Option A → Result Error A
found_or e none = err e
found_or e (some a) = ok a

abbrev pub as_is : Error → Error
as_is e = e

module _ (parse_url : String → Option Url) (to_upper : String → String) (io : Io) where
  -- `configureProvider`; `config.Save` validates, and `config.SaveToken` trims.
  unfoldable pub configure_provider : ConfigureArgs → Tool Value
  configure_provider args = do
    let provider = trim_space args.provider
    fail_if (provider == "") provider_required
    fail_if (trim_space args.service_url == "") service_url_required
    fail_if (trim_space args.token == "") token_required
    fail_if (not io.has_config_path) no_config_path
    fail_if (not (loads io.config)) config_unread
    found ← read (λ m. m.config)
    let config = with_device io.host_name (loaded_or_default found)
    changed ← try bad_config (
        set_provider parse_url config provider (record {
          service_url = args.service_url;
          token_env = concat (to_upper provider) "_AWP_TOKEN";
          mcp_server = args.mcp_server;
        }))
    try bad_config (validate parse_url changed)
    save (saves io.config) config_unwritten (λ m. record m { config = some changed })
    save io.saves_token token_unwritten
        (λ m. record m { tokens = put_token provider args.token m.tokens })
    return (configured provider)

-- `requestPermissions` up to the load of the permissions: the provider's name and the binding.
unfoldable pub asking : String → Io → String → String → Tool (String × Binding)
asking workspace io provider session_id = do
  t ← target workspace io provider session_id
  fail_if (not io.has_config_path) no_config_path
  fail_if (not (loads io.config)) config_unread
  found ← read (λ m. m.config)
  config ← try as_is (found_or config_unread found)
  p ← try as_is (found_or (not_configured t.0) (provider_of config t.0))
  token ← (λ m. try as_is (load_provider_token io t.0 p m) m)
  fail_if (not (loads io.registry_again)) registry_unread
  binding ← read (λ m. get m.registry t.0 t.1)
  b ← try as_is (found_or (session_unbound t.0 t.1) binding)
  return (t.0, b)

-- `requestPermissions` from there on.
unfoldable pub wait_for_request : Io → String → Binding → Tool Value
wait_for_request io provider b = do
  fail_if (not (loads io.permissions)) permissions_unread
  store ← read (λ m. m.permissions)
  heard ← try not_connected (listen io provider b store io.heard)
  r ← try as_is (captured heard)
  save (saves io.permissions) permissions_unwritten (λ m. record m { permissions = r.1 })
  return (requested r.0)

-- `requestPermissions`
unfoldable pub request_permissions : String → Io → String → String → Tool Value
request_permissions workspace io provider session_id = do
  a ← asking workspace io provider session_id
  wait_for_request io a.0 a.1
