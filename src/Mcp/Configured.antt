-- ===== src/Mcp/Configured.antt =====
-- internal/mcpserver/server.go: what `configureProvider` leaves, and what `loadProviderToken` then finds.
use Prim.Native.String.{◌++◌ as concat}
use awp.Common.{
  String, true, false, Option, some, ok, ◌==◌, not, ◌≡◌, ◌≢◌, refl, ap, subst, arith, eq_iff,
  eq_refl, >>-eq-ok, ok-injective,
}
use awp.Common.Text.{trim_space, trim_space-line}
use awp.Common.Keyed.{find_first-upsert_self}
use awp.Config.{Config, Provider, Url, validate, validate_provider, set_provider}
use awp.Mcp.{Machine, Io, configured, loads, saves, bad_config}
use awp.Common.Steps.Rules.{fail_if-ok, try-ok, save-ok}
use awp.Mcp.Providing.{
  ConfigureArgs, loaded_or_default, with_device, put_token, provider_of, token_file,
  load_provider_token, configure_provider,
}

module _ (parse_url : String → Option Url) (to_upper : String → String) where
  abbrev provider_from : ConfigureArgs → String → Provider
  provider_from args name = record {
    service_url = args.service_url;
    token_env = concat (to_upper name) "_AWP_TOKEN";
    mcp_server = args.mcp_server;
  }

  set_provider-provider_of :
      (c c' : Config) (name : String) (p : Provider)
      → set_provider parse_url c name p ≡ ok c'
      → provider_of c' name ≡ some p
  unfolding set_provider
  set_provider-provider_of c c' name p h =
      let (_, valid, set) = >>-eq-ok (validate_provider parse_url name p) _ h in
      subst (λ (d : Config). provider_of d name ≡ some p) (ok-injective set)
        (ground (
          arith,
          find_first-upsert_self (λ (e : String × Provider). e.0 == name) (name, p) c.providers
              (eq_refl name),
        ))

  -- What a successful call of configure_provider has done.
  pub record IsConfigured (args : ConfigureArgs) (name : String) (m' : Machine) : Type 0 where
    pub trimmed : name ≡ trim_space args.provider
    pub token_given : trim_space args.token ≢ ""
    pub config : Config
    pub saved : m'.config ≡ some config
    pub valid : validate parse_url config ≡ ok tt
    pub provider : provider_of config name ≡ some (provider_from args name)
    pub token : m'.tokens name ≡ some (concat (trim_space args.token) "\n")

  configure_provider-IsConfigured :
      (io : Io) (args : ConfigureArgs) (m m' : Machine) (name : String)
      → configure_provider parse_url to_upper io args m ≡ (ok (configured name), m')
      → IsConfigured args name m'
  unfolding configure_provider
  configure_provider-IsConfigured io args m m' name h₀ =
      let n = trim_space args.provider in
      let c = with_device io.host_name (loaded_or_default m.config) in
      let (_, h₁) = fail_if-ok (n == "") _ _ h₀ in
      let (_, h₂) = fail_if-ok (trim_space args.service_url == "") _ _ h₁ in
      let (given, h₃) = fail_if-ok (trim_space args.token == "") _ _ h₂ in
      let (_, h₄) = fail_if-ok (not io.has_config_path) _ _ h₃ in
      let (_, h₅) = fail_if-ok (not (loads io.config)) _ _ h₄ in
      let (c', set, h₆) =
        try-ok bad_config (set_provider parse_url c n (provider_from args n)) _ h₅ in
      let (_, valid, h₇) = try-ok bad_config (validate parse_url c') _ h₆ in
      let (_, h₈) = save-ok (saves io.config) _ _ _ h₇ in
      let (_, h₉) = save-ok io.saves_token _ _ _ h₈ in
      let name_eq : n ≡ name = ground (arith, h₉) in
      let put : put_token n args.token m.tokens n ≡ some (concat (trim_space args.token) "\n") =
        ground (arith, eq_refl n) in
      subst (λ k. IsConfigured args k m') name_eq
        (subst (IsConfigured args n) (ap (λ r. r.1) h₉) (record {
          trimmed = refl;
          token_given = ground (arith, given, eq_iff (trim_space args.token) "");
          config = c';
          saved = refl;
          valid = valid;
          provider = set_provider-provider_of c c' n (provider_from args n) set;
          token = put;
        }))

  -- A token that was handed in is found again. After a call of configure_provider
  -- that succeeds, the saved configuration is valid and has the provider, and a later call that can
  -- read the provider's token file connects with the given token, trimmed, whatever the environment
  -- has.
  pub configured_token :
      (io later : Io) (args : ConfigureArgs) (m m' : Machine) (name : String)
      → configure_provider parse_url to_upper io args m ≡ (ok (configured name), m')
      → later.has_config_path ≡ true
      → later.reads_token ≡ true
      → (c : Config) × (p : Provider) × (m'.config ≡ some c)
        × (validate parse_url c ≡ ok tt)
        × (provider_of c name ≡ some p)
        × (p.service_url ≡ args.service_url)
        × (load_provider_token later name p m' ≡ ok (trim_space args.token))
  unfolding load_provider_token
  configured_token io later args m m' name h a b =
      let done = configure_provider-IsConfigured io args m m' name h in
      let file : token_file later name m' ≡ some (concat (trim_space args.token) "\n") =
        rw (a, b) done.token in
      let line = trim_space-line args.token done.token_given in
      let full : (trim_space args.token == "") ≡ false =
        ground (arith, done.token_given, eq_iff (trim_space args.token) "") in
      (
        done.config,
        provider_from args name,
        done.saved,
        done.valid,
        done.provider,
        refl,
        rw (file, line, full),
      )
