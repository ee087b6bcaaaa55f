-- ===== src/Cli/Healthy.antt =====
-- internal/cli/cli.go: what `awp doctor` promises when it finds nothing wrong.
use awp.Common.{
  String, Bool, true, false, Option, some, none, List, [], ◌∷◌, ◌++◌, Result, ok, err, ◌≡◌, ◌≢◌,
  ◌⊎◌, inl, inr, refl, sym, ap, ◌∙◌, subst, arith, eq_iff, Bool-cases, Option-cases, Result-cases,
  and_parts, fail_if-then, All, map, is_empty, ◌==◌, ◌&&◌, ◌||◌, not, if◌then◌else◌,
}
use awp.Config.{Config, Provider, Url, version, unsupported_version, validate}
use awp.Permissions.{RequestedPermission, Authorization, Store, get_request}
use awp.Permissions.Authorize.{select, authorize_with, authorize}
use awp.Sessions.{Binding, list}
use awp.Mcp.{Machine, loads}
use awp.Cli.{Io}
use awp.Cli.Doctor.{
  Check, is_ok, valid_or_none, valid_config, provider_check, permission_checks, state_checks,
  all_passed, checks_of, any_provider, run_doctor,
}
use awp.Cli.Repeated.{authorize-answer}

-- A session may be woken, whenever the daemon asks.
abbrev pub MayWake : (RequestedPermission → String) → Store → Binding → Type 0
MayWake permission_hash store b =
    (first second : String)
    → (a : Authorization) × ((authorize permission_hash first second store b.provider b.session_id
          true).0
        ≡ ok a)

all_passed-append :
    (xs ys : List Check)
    → all_passed (xs ++ ys) ≡ true
    → (all_passed xs ≡ true) × (all_passed ys ≡ true)
all_passed-append [] ys h = (refl, h)
all_passed-append (x ∷ xs) ys h =
    let (x_passed, rest) = and_parts x.passed (all_passed (xs ++ ys)) h in
    let (xs_passed, ys_passed) = all_passed-append xs ys rest in
    (ground (arith, x_passed, xs_passed), ys_passed)

is_ok-ok : {E A : Type 0} (r : Result E A) → is_ok r ≡ true → (a : A) × (r ≡ ok a)
is_ok-ok (err e) h = absurd (cc)
is_ok-ok (ok a) h = (a, refl)

module _ (permission_hash : RequestedPermission → String) (io : Io) where
  -- `Authorize` that does not consume leaves the store.
  authorize-peek :
      (first second p s : String) (store : Store)
      → (authorize permission_hash first second store p s false).1 ≡ store
  unfolding authorize
  authorize-peek first second p s store = elim (Option-cases (get_request store p s)) [
    | inl r ↦ rw (r, authorize) refl
    | inr (request, r) ↦ elim (Option-cases (select p s none 0 store.grants)) [
      | inl g ↦ rw (r, g, authorize) refl
      | inr (x, g) ↦ elim (Result-cases (authorize_with permission_hash p s request x.0)) [
        | inr (e, w) ↦ rw (r, g, w, authorize) refl
        | inl (a, w) ↦ rw (r, g, w, authorize) refl
      ]
    ]
  ]

  permission_checks-MayWake :
      (store : Store) (bs : List Binding)
      → all_passed (permission_checks permission_hash io store bs) ≡ true
      → All (MayWake permission_hash store) bs
  unfolding permission_checks
  permission_checks-MayWake store [] h = tt
  permission_checks-MayWake store (b ∷ bs) h =
      let r =
        authorize permission_hash io.files.first io.files.second store b.provider b.session_id
          false in
      let (this, rest) =
        and_parts (is_ok r.0) (all_passed (permission_checks permission_hash io r.1 bs)) h in
      let (a, granted) = is_ok-ok r.0 this in
      let same = authorize-peek io.files.first io.files.second b.provider b.session_id store in
      (
        (λ first second. (
          a,
          authorize-answer permission_hash first second b.provider b.session_id true store
              ∙ sym (
                  authorize-answer permission_hash io.files.first io.files.second b.provider
                    b.session_id false store)
              ∙ granted,
        )),
        permission_checks-MayWake store bs
            (ap (λ s. all_passed (permission_checks permission_hash io s bs)) (sym same) ∙ rest),
      )

  state_checks-MayWake :
      (m : Machine)
      → all_passed (state_checks permission_hash io m) ≡ true
      → All (MayWake permission_hash m.permissions) (list m.registry "")
  unfolding state_checks
  state_checks-MayWake m h =
      elim (Bool-cases (
        not io.has_registry_path
        || not io.has_permissions_path
        || not (loads io.files.registry)
        || not (loads io.files.permissions))) [
          | inl e ↦ absurd (ground (arith, e, h))
          | inr e ↦
              permission_checks-MayWake m.permissions (list m.registry "") (ground (arith, e, h))
        ]

module _ (parse_url : String → Option Url) (permission_hash : RequestedPermission → String)
    (io : Io) where
  -- What a machine has that is ready for the daemon.
  pub record IsReady (m : Machine) : Type 0 where
    pub config : Config
    pub loaded : m.config ≡ some config
    pub valid : is_ok (validate parse_url config) ≡ true
    pub provided : is_empty config.providers ≡ false
    pub tokens :
        All (λ (e : String × Provider). io.files.environment e.1.token_env ≢ "") config.providers
    pub may_wake : All (MayWake permission_hash m.permissions) (list m.registry "")
    pub runtime : (io.has_codex ≡ true) ⊎ (io.has_claude ≡ true)

  provider_checks-tokens :
      (ps : List (String × Provider))
      → all_passed (map (provider_check parse_url io) ps) ≡ true
      → All (λ (e : String × Provider). io.files.environment e.1.token_env ≢ "") ps
  provider_checks-tokens [] h = tt
  provider_checks-tokens ((name, p) ∷ ps) h =
      let (this, rest) =
        and_parts (not (io.files.environment p.token_env == ""))
          (all_passed (map (provider_check parse_url io) ps)) h in
      (
        λ e. ground (arith, this, e, eq_iff (io.files.environment p.token_env) ""),
        provider_checks-tokens ps rest,
      )

  valid_or_none-some :
      (o : Option Config) (c : Config)
      → valid_or_none parse_url io o ≡ some c
      → (o ≡ some c) × (is_ok (validate parse_url c) ≡ true)
  valid_or_none-some none c h = absurd (cc)
  valid_or_none-some (some d) c h = elim (Bool-cases (is_ok (validate parse_url d))) [
    | inl e ↦
        let same : ◌≡◌ {A = Option Config} (some d) (some c) = ground (arith, e, h) in
        let inside : d ≡ c = cc in (same, subst (λ x. is_ok (validate parse_url x) ≡ true) inside e)
    | inr e ↦ absurd (ground (arith, e, h))
  ]

  valid-version : (c : Config) → is_ok (validate parse_url c) ≡ true → (c.version == "") ≡ false
  unfolding validate
  valid-version c h =
      let (u, v) = is_ok-ok (validate parse_url c) h in
      let (known, _) =
        fail_if-then (not (c.version == version)) (unsupported_version c.version) _ v in
      ground (arith, known, eq_iff c.version version, eq_iff c.version "", eq_iff version "")

  valid_config-loaded :
      (m : Machine) (c : Config)
      → valid_config parse_url io m ≡ some c
      → (m.config ≡ some c) × (is_ok (validate parse_url c) ≡ true)
  unfolding valid_config
  valid_config-loaded m c h =
      elim (Bool-cases (not io.files.has_config_path || not (loads io.files.config))) [
        | inl e ↦ absurd (ground (arith, e, h))
        | inr e ↦ valid_or_none-some m.config c (ground (arith, e, h))
      ]

  -- `awp doctor` is right. If it finds nothing wrong, then the configuration loads, is valid and has a
  -- provider, each provider's token is set, codex or claude is in PATH, and for each session that
  -- is bound `Authorize` allows the wake, at any times, from the permissions in the file.
  pub run_doctor-IsReady :
      (m : Machine) → (run_doctor parse_url permission_hash io m).0 ≡ true → IsReady m
  unfolding run_doctor
  run_doctor-IsReady m h = found (valid_config parse_url io m) refl h
    where
      either : (a b : Bool) → (a || b) ≡ true → (a ≡ true) ⊎ (b ≡ true)
      either true b h = inl refl
      either false b h = inr h

      found :
          (c : Option Config)
          → valid_config parse_url io m ≡ c
          → (all_passed (checks_of parse_url permission_hash io m c)
              && any_provider parse_url permission_hash io c
              && (io.has_codex || io.has_claude))
            ≡ true
          → IsReady m
      found none v h = absurd (ground arith)
      found (some c) v h =
          let (loaded, valid) = valid_config-loaded m c v in
          let providers = map (provider_check parse_url io) c.providers in
          let states = if c.version == "" then [] else state_checks permission_hash io m in
          let all = all_passed (checks_of parse_url permission_hash io m (some c)) in
          let some_provider = not (is_empty c.providers) in
          let (both, runtime) =
            and_parts (all && some_provider) (io.has_codex || io.has_claude) h in
          let (checks, provided) = and_parts all some_provider both in
          let (configured, local) =
            all_passed-append (record { name = "config"; passed = true } ∷ providers) states
              checks in
          let state : all_passed (state_checks permission_hash io m) ≡ true =
            ground (arith, valid-version c valid, local) in
          record {
            config = c;
            loaded = loaded;
            valid = valid;
            provided = ground (arith, provided);
            tokens = provider_checks-tokens c.providers configured;
            may_wake = state_checks-MayWake permission_hash io m state;
            runtime = either io.has_codex io.has_claude runtime;
          }
