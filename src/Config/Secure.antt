-- ===== src/Config/Secure.antt =====
-- internal/config/config.go: `Validate` and `SetProvider` on configurations.
use awp.Common.{
  subst, String, Bool, true, false, Option, some, List, [], ◌∷◌, ok, fail_if, fail_if-then,
  >>-eq-ok, ok-injective, is_empty, ◌==◌, ◌&&◌, ◌||◌, not, if◌then◌else◌, ◌≡◌, ◌≢◌, ◌⊎◌, inl, inr,
  refl, ap, arith, eq_iff, eq_refl, All, Bool-cases, Option-cases,
}
use awp.Common.Text.{trim_space, contains_any}
use awp.Common.Keyed.{
  upsert_miss, upsert_hit, find_first, upsert, All-upsert, find_first-upsert_self,
}
use awp.Config.{
  Provider, Config, Url, Error, version, is_local, is_bare_toml_key, server_name, check_url,
  validate_provider, validate_all, validate, set_provider,
}

module _ (parse_url : String → Option Url) where
  -- The provider's URL is encrypted, or stays on this machine; and its names are usable.
  pub record IsSecure (e : String × Provider) : Type 0 where
    pub url : Url
    pub parses : parse_url e.1.service_url ≡ some url
    pub encrypted : (url.scheme ≡ "wss") ⊎ ((url.scheme ≡ "ws") × (is_local url.hostname ≡ true))
    pub named : (contains_any e.0 " /\\\t\r\n" ≡ false) × (trim_space e.0 ≢ "")
    pub server : (server_name e.0 e.1 ≡ "none") ⊎ (is_bare_toml_key (server_name e.0 e.1) ≡ true)

  encrypted_cases :
      (scheme hostname : String)
      → (not (scheme == "wss") && not (scheme == "ws")) ≡ false
      → (scheme == "ws" && not (is_local hostname)) ≡ false
      → (scheme ≡ "wss") ⊎ ((scheme ≡ "ws") × (is_local hostname ≡ true))
  encrypted_cases scheme hostname e f = elim (Bool-cases (scheme == "wss")) [
    | inl t ↦ inl ((eq_iff scheme "wss").0 t)
    | inr t ↦ inr (ground (arith, e, t, eq_iff scheme "ws"), ground (arith, e, t, f))
  ]

  check_url-ok :
      (name : String) (p : Provider) {u : Unit {0}}
      → check_url parse_url name p ≡ ok u
      → (url : Url) × (parse_url p.service_url ≡ some url)
        × ((url.scheme ≡ "wss") ⊎ ((url.scheme ≡ "ws") × (is_local url.hostname ≡ true)))
  unfolding check_url
  check_url-ok name p {u} h = elim (Option-cases (parse_url p.service_url)) [
    | inl e ↦ absurd (cc (rw (e, check_url) at h))
    | inr (url, e) ↦
        let (_, h₁) = fail_if-then (url.host == "") _ _ (rw (e, check_url) at h) in
        let (f, h₂) = fail_if-then (not (url.scheme == "wss") && not (url.scheme == "ws")) _ _ h₁ in
        (url, e, encrypted_cases url.scheme url.hostname f (passed _ _ h₂))
  ]
    where
      passed : (b : Bool) (e : Error) {v : Unit {0}} → fail_if b e ≡ ok v → b ≡ false
      passed true e k = absurd (cc)
      passed false e k = refl

  validate_provider-IsSecure :
      (name : String) (p : Provider) {u : Unit {0}}
      → validate_provider parse_url name p ≡ ok u
      → IsSecure (name, p)
  unfolding validate_provider
  validate_provider-IsSecure name p {u} h₀ =
      let (a, h₁) = fail_if-then (trim_space name == "" || contains_any name " /\\\t\r\n") _ _ h₀ in
      let (_, h₂) = fail_if-then (trim_space p.token_env == "") _ _ h₁ in
      let (_, h₃) = fail_if-then (contains_any p.token_env "= \t\r\n") _ _ h₂ in
      let (_, h₄) =
        fail_if-then (not (p.mcp_server == "") && contains_any p.mcp_server "\r\n") _ _ h₃ in
      let (b, h₅) =
        fail_if-then
          (not (server_name name p == "none") && not (is_bare_toml_key (server_name name p))) _ _
          h₄ in
      let (url, parses, safe) = check_url-ok name p h₅ in
      record {
        url = url;
        parses = parses;
        encrypted = safe;
        named = (ground (arith, a), ground (arith, a, eq_iff (trim_space name) ""));
        server = usable (server_name name p) b;
      }
    where
      usable :
          (s : String)
          → (not (s == "none") && not (is_bare_toml_key s)) ≡ false
          → (s ≡ "none") ⊎ (is_bare_toml_key s ≡ true)
      usable s e = elim (Bool-cases (s == "none")) [
        | inl t ↦ inl ((eq_iff s "none").0 t)
        | inr t ↦ inr (ground (arith, e, t))
      ]

  abbrev Passes : String × Provider → Type 0
  Passes e = validate_provider parse_url e.0 e.1 ≡ ok tt

  validate_all-Passes :
      (ps : List (String × Provider)) → validate_all parse_url ps ≡ ok tt → All Passes ps
  unfolding validate_all
  validate_all-Passes [] h = tt
  validate_all-Passes ((name, p) ∷ ps) h =
      let (_, first, rest) = >>-eq-ok (validate_provider parse_url name p) _ h in
      (first, validate_all-Passes ps rest)

  Passes-validate_all :
      (ps : List (String × Provider)) → All Passes ps → validate_all parse_url ps ≡ ok tt
  unfolding validate_all
  Passes-validate_all [] a = refl
  Passes-validate_all ((name, p) ∷ ps) a = rw a.0 (Passes-validate_all ps a.1)

  -- A configuration that `Validate` accepts has the version of this program, an id of the device
  -- that is not blank and at least one provider; and each provider's URL is encrypted or leads to
  -- this machine, its name is not blank and without slashes and spaces, and the name of its MCP
  -- server is a bare TOML key or "none".
  pub validate-IsSecure :
      (c : Config)
      → validate parse_url c ≡ ok tt
      → (c.version ≡ version)
        × (trim_space c.device_id ≢ "")
        × (is_empty c.providers ≡ false)
        × All IsSecure c.providers
  unfolding validate
  validate-IsSecure c h₀ =
      let (a, h₁) = fail_if-then (not (c.version == version)) _ _ h₀ in
      let (b, h₂) = fail_if-then (trim_space c.device_id == "") _ _ h₁ in
      let (d, h₃) = fail_if-then (is_empty c.providers) _ _ h₂ in
      (
        ground (arith, a, eq_iff c.version version),
        ground (arith, b, eq_iff (trim_space c.device_id) ""),
        d,
        secure c.providers (validate_all-Passes c.providers h₃),
      )
    where
      secure : (ps : List (String × Provider)) → All Passes ps → All IsSecure ps
      secure [] p = tt
      secure (e ∷ es) (p, ps) = (validate_provider-IsSecure e.0 e.1 p, secure es ps)

  Passes-validate :
      (c : Config)
      → (c.version == version) ≡ true
      → (trim_space c.device_id == "") ≡ false
      → is_empty c.providers ≡ false
      → All Passes c.providers
      → validate parse_url c ≡ ok tt
  unfolding validate
  Passes-validate c v d e a = rw (v, d, e, Passes-validate_all c.providers a)

  is_empty-upsert :
      (q : String × Provider → Bool) (e : String × Provider) (ps : List (String × Provider))
      → is_empty (upsert q e ps) ≡ false
  is_empty-upsert q e [] = unfold upsert in refl
  is_empty-upsert q e (x ∷ xs) = elim (Bool-cases (q x)) [
    | inl t ↦ ap is_empty (upsert_hit q e x xs t)
    | inr t ↦ ap is_empty (upsert_miss q e x xs t)
  ]

  -- `SetProvider` on a configuration that `Validate` accepts, if it succeeds, leaves one that
  -- `Validate` accepts, in which the name leads to the provider that was given.
  pub set_provider-validate :
      (c c' : Config) (name : String) (p : Provider)
      → validate parse_url c ≡ ok tt
      → set_provider parse_url c name p ≡ ok c'
      → (validate parse_url c' ≡ ok tt)
        × (find_first (λ (e : String × Provider). e.0 == name) c'.providers ≡ some (name, p))
  unfolding validate set_provider
  set_provider-validate c c' name p h₀ k =
      let (a, h₁) = fail_if-then (not (c.version == version)) _ _ h₀ in
      let (b, h₂) = fail_if-then (trim_space c.device_id == "") _ _ h₁ in
      let (_, h₃) = fail_if-then (is_empty c.providers) _ _ h₂ in
      let (_, valid, set) = >>-eq-ok (validate_provider parse_url name p) _ k in
      let named = (λ (e : String × Provider). e.0 == name) in
      let kept =
        All-upsert Passes named (name, p) c.providers valid (validate_all-Passes c.providers h₃) in
      subst (λ d. (validate parse_url d ≡ ok tt) × (find_first named d.providers ≡ some (name, p)))
        (ok-injective set)
        (
          Passes-validate _ (kept_version c.version a) b
              (is_empty-upsert named (name, p) c.providers) kept,
          find_first-upsert_self named (name, p) c.providers (eq_refl name),
        )
    where
      kept_version :
          (s : String)
          → not (s == version) ≡ false
          → ((if s == "" then version else s) == version) ≡ true
      kept_version s e = elim (Bool-cases (s == "")) [
        | inl t ↦ rw t refl
        | inr t ↦ rw t (ground (arith, e))
      ]
