-- ===== src/Permissions/Granted.antt =====
-- What a successful `GrantPermissions` stores.
use awp.Common.{
  String, true, some, List, [], ◌∷◌, ok, ok-injective, fail_if-then, >>=-eq-ok, ◌≡◌, ◌≢◌, inl, inr,
  refl, sym, ◌∙◌, ap, subst, arith, eq_iff, eq_refl, All, is_empty, ◌==◌, not, Option-cases,
}
use awp.Common.Sort.{IsDistinct}
use awp.Common.Keyed.{find_first-upsert_self, find_first-upsert_ne}
use awp.Permissions.{
  RequestedPermission, Request, Grant, Hashes, Store, runtime_wake, delegation_interactive_only,
  get_request,
}
use awp.Permissions.Names.{
  contains, unique_sorted, unique_sorted-IsAscending, IsAscending-IsDistinct,
}
use awp.Permissions.Grants.{
  requested, hash_at, set_hash, is_scope, grant_session, scope_or_binding, check_allowed,
  granting_for, granting,
}

hash_at-set_hash_self : (m : Hashes) (id hash : String) → hash_at (set_hash m id hash) id ≡ hash
unfolding hash_at set_hash
hash_at-set_hash_self m id hash =
    rw (find_first-upsert_self (λ (e : String × String). e.0 == id) (id, hash) m (eq_refl id))

hash_at-set_hash_ne :
    (m : Hashes) (id j hash : String) → j ≢ id → hash_at (set_hash m id hash) j ≡ hash_at m j
unfolding hash_at set_hash
hash_at-set_hash_ne m id j hash n = rw (
    find_first-upsert_ne (λ (e : String × String). e.0 == id) (λ (e : String × String). e.0 == j)
      (id, hash) m (ground (arith, eq_iff id j))
      (λ e h. ground (arith, eq_iff e.0 id, eq_iff e.0 j)))

module _ (permission_hash : RequestedPermission → String) where
  -- A requested permission that may be delegated, and its hash.
  abbrev pub IsGranted : List RequestedPermission → Hashes → String → Type 0
  IsGranted ps hashes id =
      (q : RequestedPermission) × (requested ps id ≡ some q)
      × (q.delegation ≢ delegation_interactive_only)
      × (hash_at hashes id ≡ permission_hash q)

  module _ (p : String) (ps : List RequestedPermission) where
    check_allowed_step :
        (id : String) (ids : List String) (m : Hashes) {h : Hashes}
        → check_allowed permission_hash p ps (id ∷ ids) m ≡ ok h
        → (q : RequestedPermission) × (requested ps id ≡ some q)
          × (q.delegation ≢ delegation_interactive_only)
          × (check_allowed permission_hash p ps ids (set_hash m id (permission_hash q)) ≡ ok h)
    unfolding check_allowed
    check_allowed_step id ids m {h} e = elim (Option-cases (requested ps id)) [
      | inl f ↦ absurd (cc (rw (f, check_allowed) at e))
      | inr (q, f) ↦
          let e' = rw (f, check_allowed) at e in
          (
            q,
            f,
            ground (arith, e', eq_iff q.delegation delegation_interactive_only),
            ground (arith, e'),
          )
    ]

    check_allowed-nil :
        (m : Hashes) {h : Hashes} → check_allowed permission_hash p ps [] m ≡ ok h → m ≡ h
    unfolding check_allowed
    check_allowed-nil m e = ok-injective e

    check_allowed-other :
        (ids : List String) (m : Hashes) {h : Hashes} (j : String)
        → All (λ y. j ≢ y) ids
        → check_allowed permission_hash p ps ids m ≡ ok h
        → hash_at h j ≡ hash_at m j
    check_allowed-other [] m j a e = ap (λ x. hash_at x j) (sym (check_allowed-nil m e))
    check_allowed-other (id ∷ ids) m j a e =
        let (q, _, _, rest) = check_allowed_step id ids m e in
        check_allowed-other ids (set_hash m id (permission_hash q)) j a.1 rest
        ∙ hash_at-set_hash_ne m id j (permission_hash q) a.0

    check_allowed-IsGranted :
        (ids : List String) (m : Hashes) {h : Hashes}
        → IsDistinct ids
        → check_allowed permission_hash p ps ids m ≡ ok h
        → All (IsGranted ps h) ids
    check_allowed-IsGranted [] m d e = tt
    check_allowed-IsGranted (id ∷ ids) m d e =
        let (q, f, n, rest) = check_allowed_step id ids m e in
        let m' = set_hash m id (permission_hash q) in
        (
          (
            q,
            f,
            n,
            check_allowed-other ids m' id d.0 rest ∙ hash_at-set_hash_self m id (permission_hash q),
          ),
          check_allowed-IsGranted ids m' d.1 rest,
        )

  -- What a grant says, and the request that it answers.
  pub record Answers (store : Store) (p s scope : String) (allowed : List String) (g : Grant)
      : Type 0 where
    pub request : Request
    pub asked : get_request store p s ≡ some request
    pub known_scope : is_scope g.scope ≡ true
    pub names :
        (g.provider ≡ p)
        × (g.session_id ≡ grant_session g.scope s)
        × (g.scope ≡ scope_or_binding scope)
        × (g.request_id ≡ request.request_id)
    pub ids : g.permissions ≡ unique_sorted allowed
    pub granted : All (IsGranted request.permissions g.permission_hashes) g.permissions
    pub wakes : contains g.permissions runtime_wake ≡ true

  granting_for-Answers :
      (now : String) (store : Store) (p s scope : String) (allowed : List String)
      (request : Request) (g : Grant)
      → get_request store p s ≡ some request
      → granting_for permission_hash now p s request
          (scope_or_binding scope)
          (unique_sorted allowed)
        ≡ ok g
      → Answers store p s scope allowed g
  unfolding granting_for
  granting_for-Answers now store p s scope allowed request g asked h =
      let ids = unique_sorted allowed in
      let (known, h₁) = fail_if-then (not (is_scope (scope_or_binding scope))) _ _ h in
      let (_, h₂) = fail_if-then (is_empty ids) _ _ h₁ in
      let (hashes, checked, h₃) = >>=-eq-ok _ _ h₂ in
      let (wakes, made) = fail_if-then (not (contains ids runtime_wake)) _ _ h₃ in
      let distinct = IsAscending-IsDistinct ids (unique_sorted-IsAscending allowed) in
      subst (Answers store p s scope allowed) (ok-injective made) (record {
        request = request;
        asked = asked;
        known_scope = ground arith;
        names = (refl, refl, refl, refl);
        ids = refl;
        granted = check_allowed-IsGranted p request.permissions ids [] distinct checked;
        wakes = ground arith;
      })

  -- A grant is stored only of permissions that the session's request has and lets be delegated,
  -- never of an interactive-only one, each with the hash of what was asked; it includes
  -- `runtime.wake`, and has exactly the ids allowed, sorted, in a known scope.
  pub granting-Answers :
      (now : String) (store : Store) (p s scope : String) (allowed : List String) (g : Grant)
      → granting permission_hash now store p s scope allowed ≡ ok g
      → Answers store p s scope allowed g
  unfolding granting
  granting-Answers now store p s scope allowed g h = elim (Option-cases (get_request store p s)) [
    | inl e ↦ absurd (cc (rw (e, granting) at h))
    | inr (request, e) ↦
        granting_for-Answers now store p s scope allowed request g e (rw (e, granting) at h)
  ]
