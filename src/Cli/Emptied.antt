-- ===== src/Cli/Emptied.antt =====
-- internal/cli/sessions.go: what `awp sessions remove --all` leaves.
use awp.Common.{
  ℕ, suc, ◌-◌, ◌≤◌, String, true, false, List, [], ◌∷◌, ok, ◌≡◌, ◌≢◌, ◌⊎◌, inl, inr, refl, sym, ap,
  ◌∙◌, arith, eq_iff, Bool-cases, keep, is_empty, ◌==◌, ◌||◌, not, if◌then◌else◌, is_some, All,
  All-keep, All-mono, All_of,
}
use awp.Common.Sort.{insert_by, sort_by, All-sort_by}
use awp.Common.Keyed.{find_first}
use awp.Sessions.{Binding, Registry, is_key, get, binding_lt, list, remove_first, remove}
use awp.Sessions.Lookup.Removed.{remove_first_others}
use awp.Mcp.{Machine, saves}
use awp.Common.Steps.{◌>>◌, return}
use awp.Common.Steps.Rules.{fail_if-ok, save-ok}
use awp.Cli.{Io, Value, removed_all}
use awp.Cli.Rules.{load_registry-ok}
use awp.Cli.Bindings.{remove_each, save_registry_if, run_remove_all}

-- How often a session stands in a list of bindings.
abbrev count : String → String → List Binding → ℕ
count p s [] = 0
count p s (b ∷ bs) = if is_key p s b then suc (count p s bs) else count p s bs

module _ (p s : String) where
  count-insert_by :
      (b : Binding) (bs : List Binding) → count p s (insert_by binding_lt b bs) ≡ count p s (b ∷ bs)
  unfolding insert_by
  count-insert_by b [] = refl
  count-insert_by b (c ∷ bs) =
      let rest = count-insert_by b bs in
      elim (Bool-cases (binding_lt c b)) [ inl e ↦ rw e (ground (arith, rest)) | inr e ↦ rw e refl ]

  count-sort_by : (bs : List Binding) → count p s (sort_by binding_lt bs) ≡ count p s bs
  unfolding sort_by
  count-sort_by [] = refl
  count-sort_by (b ∷ bs) =
      let rest = count-sort_by bs in
      count-insert_by b (sort_by binding_lt bs) ∙ ground (arith, rest)

  count-keep :
      (provider : String) (bs : List Binding)
      → (provider ≡ "") ⊎ (p ≡ provider)
      → count p s (keep (λ b. provider == "" || b.provider == provider) bs) ≡ count p s bs
  count-keep provider [] h = refl
  count-keep provider (b ∷ bs) h =
      let rest = count-keep provider bs h in
      elim (Bool-cases (provider == "" || b.provider == provider)) [
        | inl e ↦ rw e (ground (arith, rest))
        | inr e ↦
            let other : is_key p s b ≡ false = elim h [
              | inl any ↦ absurd (ground (arith, e, any, eq_iff provider ""))
              | inr named ↦
                  ground (arith, e, named, eq_iff b.provider p, eq_iff b.provider provider)
            ] in
            rw (e, other) rest
      ]

  count-remove_first : (bs : List Binding) → count p s (remove_first p s bs) ≡ count p s bs - 1
  unfolding remove_first
  count-remove_first [] = refl
  count-remove_first (b ∷ bs) = let rest = count-remove_first bs in ground (arith, rest)

  count-remove_first_le :
      (p' s' : String) (bs : List Binding) → count p s (remove_first p' s' bs) ≤ count p s bs
  unfolding remove_first
  count-remove_first_le p' s' [] = omega arith
  count-remove_first_le p' s' (b ∷ bs) =
      let rest = count-remove_first_le p' s' bs in ground (arith, rest)

  -- A candidate for each binding of the session is enough.
  remove_each-count :
      (cs : List Binding) (registry : Registry)
      → count p s registry.bindings ≤ count p s cs
      → count p s (remove_each cs registry).1.bindings ≡ 0
  unfolding remove_each remove
  remove_each-count [] registry h = omega (arith, h)
  remove_each-count (c ∷ cs) registry h =
      let bs = registry.bindings in
      let next = record registry { bindings = remove_first c.provider c.session_id bs } in
      remove_each-count cs next (elim (Bool-cases (is_key p s c)) [
        | inl e ↦
            (let of_provider : c.provider ≡ p =
                ground (arith, e, eq_iff c.provider p, eq_iff c.session_id s) in
              let of_session : c.session_id ≡ s =
                ground (arith, e, eq_iff c.provider p, eq_iff c.session_id s) in
              let one_less : count p s next.bindings ≡ count p s bs - 1 =
                ap (λ x. count p s (remove_first x c.session_id bs)) of_provider
                ∙ ap (λ x. count p s (remove_first p x bs)) of_session
                ∙ count-remove_first bs in
              ground (arith, e, h, one_less))
        | inr e ↦
            (let fewer = count-remove_first_le c.provider c.session_id bs in
              ground (arith, e, h, fewer))
      ])

-- A list in which each binding's session stands as often as never.
keep-nothing :
    (provider : String) (bs : List Binding)
    → ((p s : String) → (provider ≡ "") ⊎ (p ≡ provider) → count p s bs ≡ 0)
    → keep (λ b. provider == "" || b.provider == provider) bs ≡ []
keep-nothing provider [] h = refl
keep-nothing provider (b ∷ bs) h = elim (Bool-cases (provider == "" || b.provider == provider)) [
  | inl e ↦
      let here = h b.provider b.session_id (named e) in
      absurd (ground (arith, here, eq_iff b.provider b.provider, eq_iff b.session_id b.session_id))
  | inr e ↦ rw e (keep-nothing provider bs (λ p s n. later p s (h p s n)))
]
  where
    named :
        (provider == "" || b.provider == provider) ≡ true
        → (provider ≡ "") ⊎ (b.provider ≡ provider)
    named e = elim (Bool-cases (provider == "")) [
      | inl f ↦ inl (ground (arith, f, eq_iff provider ""))
      | inr f ↦ inr (ground (arith, e, f, eq_iff b.provider provider))
    ]

    later : (p s : String) → count p s (b ∷ bs) ≡ 0 → count p s bs ≡ 0
    later p s z = ground (arith, z)

list-remove_each :
    (provider : String) (registry : Registry)
    → list (remove_each (list registry provider) registry).1 provider ≡ []
unfolding list
list-remove_each provider registry = ap (sort_by binding_lt) nothing ∙ unfold sort_by in refl
  where
    nothing :
        keep
          (λ b. provider == "" || b.provider == provider)
          (remove_each (list registry provider) registry).1.bindings
        ≡ []
    nothing = keep-nothing provider _ (λ p s n.
        remove_each-count p s (list registry provider) registry (
          let as_often = count-sort_by p s _ ∙ count-keep p s provider registry.bindings n in
          omega (arith, as_often)))

-- The sessions of other providers are found as before.
remove_each_others :
    (p s : String) (cs : List Binding) (registry : Registry)
    → All (λ c. c.provider ≢ p) cs
    → get (remove_each cs registry).1 p s ≡ get registry p s
unfolding remove_each remove get
remove_each_others p s [] registry a = refl
remove_each_others p s (c ∷ cs) registry a =
    remove_each_others p s cs
      (record registry { bindings = remove_first c.provider c.session_id registry.bindings }) a.1
    ∙ remove_first_others c.provider c.session_id p s registry.bindings (inl a.0)

remove_first_absent :
    (p s : String) (bs : List Binding)
    → is_some (find_first (is_key p s) bs) ≡ false
    → remove_first p s bs ≡ bs
unfolding find_first remove_first
remove_first_absent p s [] h = refl
remove_first_absent p s (b ∷ bs) h = elim (Bool-cases (is_key p s b)) [
  | inl e ↦ absurd (ground arith)
  | inr e ↦ let rest = remove_first_absent p s bs (ground arith) in rw e (ap (λ l. b ∷ l) rest)
]

-- Where nothing was removed the registry is as before.
remove_each_none :
    (cs : List Binding) (registry : Registry)
    → (remove_each cs registry).0 ≡ []
    → (remove_each cs registry).1.bindings ≡ registry.bindings
unfolding remove_each remove
remove_each_none [] registry h = refl
remove_each_none (c ∷ cs) registry h =
    elim (Bool-cases (is_some (find_first (is_key c.provider c.session_id) registry.bindings))) [
      | inl e ↦ absurd (ground arith)
      | inr e ↦
          (let later : (remove_each cs (record registry {
            bindings = remove_first c.provider c.session_id registry.bindings;
          })).0
                ≡ [] =
              ground arith in
            remove_each_none cs _ later
            ∙ remove_first_absent c.provider c.session_id registry.bindings e)
    ]

list-others :
    (provider p : String) (registry : Registry)
    → provider ≢ ""
    → p ≢ provider
    → All (λ c. c.provider ≢ p) (list registry provider)
unfolding list
list-others provider p registry some_provider other =
    All-sort_by binding_lt (λ c. c.provider ≢ p) _
      (All-mono {P = λ c. Unit {0} × ((provider == "" || c.provider == provider) ≡ true)}
        {Q = λ c. c.provider ≢ p} apart _
        (All-keep (λ c. Unit {0}) _ registry.bindings (All_of (λ c. tt) registry.bindings)))
  where
    eq_false : (x y : String) → x ≢ y → (x == y) ≡ false
    eq_false x y n = elim (Bool-cases (x == y)) [
      | inl e ↦ absurd (n (ground (arith, e, eq_iff x y)))
      | inr e ↦ e
    ]

    apart :
        (c : Binding)
        → Unit {0} × ((provider == "" || c.provider == provider) ≡ true)
        → c.provider ≢ p
    apart c h e =
        let none_given : (provider == "") ≡ false = eq_false provider "" some_provider in
        other (sym e ∙ ground (arith, h.1, none_given, eq_iff c.provider provider))

list-bindings :
    (r r' : Registry) (provider : String)
    → r.bindings ≡ r'.bindings
    → list r provider ≡ list r' provider
unfolding list
list-bindings r r' provider e =
    ap (λ bs. sort_by binding_lt (keep (λ b. provider == "" || b.provider == provider) bs)) e

-- What the command leaves in the file.
run_remove_all-registry :
    (io : Io) (provider session_id : String) (m m' : Machine) (v : Value)
    → run_remove_all io provider session_id m ≡ (ok v, m')
    → let r = remove_each (list m.registry provider) m.registry in
      ((r.0 ≡ []) × (m'.registry ≡ m.registry)) ⊎ (m'.registry ≡ r.1)
unfolding run_remove_all
run_remove_all-registry io provider session_id m m' v h₀ =
    let (_, h₁) = fail_if-ok (not (session_id == "")) _ _ h₀ in
    let h₂ = load_registry-ok io m _ h₁ in
    saved (remove_each (list m.registry provider) m.registry) h₂
  where
    saved :
        (r : List (String × String) × Registry)
        → (save_registry_if io (not (is_empty r.0)) r.1 >> return (removed_all r.0)) m ≡ (ok v, m')
        → ((r.0 ≡ []) × (m'.registry ≡ m.registry)) ⊎ (m'.registry ≡ r.1)
    saved ([], registry) h = inl (refl, ground (arith, h))
    saved (name ∷ names, registry) h =
        let (_, k) = save-ok (saves io.files.registry) _ _ _ h in inr (ground (arith, k))

-- `awp sessions remove --all` leaves no session of the provider, and no session at all where none is
-- named: `List` finds none in the registry that it leaves, if it succeeds, also where a session had
-- stood there twice. The sessions of other providers are found as before.
pub run_remove_all-empties :
    (io : Io) (provider session_id : String) (m m' : Machine) (v : Value)
    → run_remove_all io provider session_id m ≡ (ok v, m')
    → (list m'.registry provider ≡ [])
      × ((p s : String) → provider ≢ "" → p ≢ provider → get m'.registry p s ≡ get m.registry p s)
run_remove_all-empties io provider session_id m m' v h =
    elim (run_remove_all-registry io provider session_id m m' v h) [
      | inr e ↦ (
        ap (λ r. list r provider) e ∙ list-remove_each provider m.registry,
        λ p s n o.
            ap (λ r. get r p s) e
            ∙ remove_each_others p s (list m.registry provider) m.registry
                (list-others provider p m.registry n o),
      )
      | inl (none_removed, e) ↦ (
        ap (λ r. list r provider) e
            ∙ sym (list_same none_removed)
            ∙ list-remove_each provider m.registry,
        λ p s n o. ap (λ r. get r p s) e,
      )
    ]
  where
    list_same :
        (remove_each (list m.registry provider) m.registry).0 ≡ []
        → list (remove_each (list m.registry provider) m.registry).1 provider
          ≡ list m.registry provider
    list_same n =
        list-bindings _ m.registry provider
          (remove_each_none (list m.registry provider) m.registry n)
