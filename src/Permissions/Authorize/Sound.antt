-- ===== src/Permissions/Authorize/Sound.antt =====
-- internal/permissions/store.go: what a successful `Authorize` rests on.
use awp.Common.{
  ℕ, String, Bool, true, some, none, List, [], ◌∷◌, ok, err, ◌≡◌, ◌⊎◌, inl, inr, refl, sym, ◌∙◌, ap,
  subst, arith, eq_iff, All, All-append, All-mono, get_elem?, All-keep, ◌==◌, ◌&&◌, if◌then◌else◌,
  Option-cases, Bool-cases, Result-cases, ok-injective, remove_at,
}
use awp.Permissions.{
  RequestedPermission, Request, Grant, Store, Error, Authorization, request_pending,
  wake_not_granted, runtime_wake, scope_once, append_audit, get_request,
}
use awp.Permissions.Names.{contains, unique_sorted, contains_each, Comes, All-unique_sorted}
use awp.Permissions.Grants.{requested, hash_at}
use awp.Permissions.Authorize.{
  applies, select, authorization, is_current, gather_tools, current_ids, authorize_with, consume,
  authorize,
}
use awp.Permissions.Authorize.Selection.{IsBelow, Best, select-Best}

module _ (permission_hash : RequestedPermission → String) where
  -- The grant names the id, and it is still requested as the user saw it.
  abbrev pub IsCurrent : Request → Grant → String → Type 0
  IsCurrent request g id =
      (contains g.permissions id ≡ true)
      × ((q : RequestedPermission) × (requested request.permissions id ≡ some q)
          × (hash_at g.permission_hashes id ≡ permission_hash q))

  -- A tool of a permission that is current.
  abbrev pub IsTool : Request → Grant → String → Type 0
  IsTool request g tool =
      (id : String) × (q : RequestedPermission) × IsCurrent request g id
      × (requested request.permissions id ≡ some q)
      × (contains q.mcp_tools tool ≡ true)

  is_current-true :
      (ps : List RequestedPermission) (g : Grant) (id : String)
      → is_current permission_hash ps g id ≡ true
      → (q : RequestedPermission) × (requested ps id ≡ some q)
        × (hash_at g.permission_hashes id ≡ permission_hash q)
  unfolding is_current
  is_current-true ps g id h = elim (Option-cases (requested ps id)) [
    | inl e ↦ absurd (ground (arith, e))
    | inr (q, e) ↦ (
      q,
      e,
      (eq_iff (hash_at g.permission_hashes id) (permission_hash q)).0 (rw (e, is_current) at h),
    )
  ]

  current_ids-IsCurrent :
      (request : Request) (g : Grant)
      → All (IsCurrent request g) (current_ids permission_hash request g)
  current_ids-IsCurrent request g =
      All-mono
        {P = λ id.
          (contains g.permissions id ≡ true)
          × (is_current permission_hash request.permissions g id ≡ true)}
        {Q = IsCurrent request g} (λ id h. (h.0, is_current-true request.permissions g id h.1))
        (current_ids permission_hash request g)
        (All-keep (λ id. contains g.permissions id ≡ true)
          (is_current permission_hash request.permissions g) g.permissions
          (contains_each g.permissions))

  gather_tools-IsTool :
      (request : Request) (g : Grant) (ids : List String)
      → All (IsCurrent request g) ids
      → All (IsTool request g) (gather_tools permission_hash request.permissions ids)
  unfolding gather_tools
  gather_tools-IsTool request g [] h = tt
  gather_tools-IsTool request g (id ∷ ids) h =
      let (q, e, _) = h.0.1 in
      rw (e, gather_tools)
        (All-append (IsTool request g) q.mcp_tools _
          (All-mono {P = λ t. contains q.mcp_tools t ≡ true} {Q = IsTool request g}
            (λ t c. (id, q, h.0, e, c)) q.mcp_tools (contains_each q.mcp_tools))
          (gather_tools-IsTool request g ids h.1))

  -- What an authorization rests on: a request, and the grant at an index.
  pub record Rests (store : Store) (p s : String) (a : Authorization) : Type 0 where
    pub request : Request
    pub grant : Grant
    pub index : ℕ
    pub asked : get_request store p s ≡ some request
    pub held : get_elem? store.grants index ≡ some grant
    pub for_session : applies p s grant ≡ true
    pub best : All (IsBelow p s grant) store.grants
    pub names : (a.provider ≡ p) × (a.session_id ≡ s) × (a.scope ≡ grant.scope)
    pub current : All (Comes (IsCurrent request grant)) a.permissions
    pub tools : All (Comes (IsTool request grant)) a.mcp_tools
    pub wakes : contains a.permissions runtime_wake ≡ true

  authorize_with-ok :
      (p s : String) (request : Request) (g : Grant) {a : Authorization}
      → authorize_with permission_hash p s request g ≡ ok a
      → (contains (unique_sorted (current_ids permission_hash request g)) runtime_wake ≡ true)
        × (authorization permission_hash p s request g ≡ a)
  unfolding authorize_with
  authorize_with-ok p s request g h =
      elim (Bool-cases
        (contains (unique_sorted (current_ids permission_hash request g)) runtime_wake)) [
          | inl e ↦ (e, ok-injective (rw e at h))
          | inr e ↦ absurd (cc (rw e at h))
        ]

  authorize_with-Rests :
      (store : Store) (p s : String) (request : Request) (g : Grant) (i : ℕ) (a : Authorization)
      → get_request store p s ≡ some request
      → select p s none 0 store.grants ≡ some (g, i)
      → authorize_with permission_hash p s request g ≡ ok a
      → Rests store p s a
  authorize_with-Rests store p s request g i a e f h =
      let (w, same) = authorize_with-ok p s request g h in
      let (at, fits, best) = subst (Best p s store.grants) f (select-Best p s store.grants) in
      let ids = current_ids permission_hash request g in
      let mine = current_ids-IsCurrent request g in
      subst (Rests store p s) same (record {
        request = request;
        grant = g;
        index = i;
        asked = e;
        held = at;
        for_session = fits;
        best = best;
        names = (refl, refl, refl);
        current = All-unique_sorted (IsCurrent request g) ids mine;
        tools = All-unique_sorted (IsTool request g) _ (gather_tools-IsTool request g ids mine);
        wakes = w;
      })

  module _ (first second : String) (store : Store) (p s : String) (consume_once : Bool) where
    -- `Authorize` fails and changes nothing, or it authorizes under the selected grant.
    pub authorize_cases :
        let r = authorize permission_hash first second store p s consume_once in
        ((e : Error) × (r ≡ (err e, store)))
        ⊎ ((request : Request) × (g : Grant) × (i : ℕ) × (a : Authorization) × (get_request store p
                s
              ≡ some request)
            × (select p s none 0 store.grants ≡ some (g, i))
            × (authorize_with permission_hash p s request g ≡ ok a)
            × (r ≡ (
              ok a,
              if consume_once then consume permission_hash first second store a i else store,
            )))
    unfolding authorize
    authorize_cases = elim (Option-cases (get_request store p s)) [
      | inl e ↦ inl (request_pending p s, rw (e, authorize))
      | inr (request, e) ↦ elim (Option-cases (select p s none 0 store.grants)) [
        | inl f ↦ inl (wake_not_granted p s, ground arith)
        | inr ((g, i), f) ↦ elim (Result-cases (authorize_with permission_hash p s request g)) [
          | inl (a, h) ↦ inr (request, g, i, a, e, f, h, ground arith)
          | inr (c, h) ↦ inl (c, ground arith)
        ]
      ]
    ]

    pub grants-consume :
        (a b : Authorization) (i : ℕ)
        → b.scope ≡ a.scope
        → (if consume_once then consume permission_hash first second store b i else store).grants
          ≡ (if consume_once && (a.scope == scope_once)
              then remove_at i store.grants
              else store.grants)
    unfolding consume append_audit
    grants-consume a b i e = elim (Bool-cases (b.scope == scope_once)) [
      | inl t ↦ ground (arith, t)
      | inr t ↦ ground (arith, t)
    ]

    pub requests-consume :
        (b : Authorization) (i : ℕ)
        → (if consume_once then consume permission_hash first second store b i else store).requests
          ≡ store.requests
    unfolding consume append_audit
    requests-consume b i = ground arith

    -- A successful `Authorize` rests on the session's request and on the grant of the greatest
    -- priority that applies to it. It names only permissions that the grant names and that are
    -- still requested with the hash that was granted, `runtime.wake` among them, and only tools of
    -- such permissions.
    pub authorize-Rests :
        {a : Authorization}
        → (authorize permission_hash first second store p s consume_once).0 ≡ ok a
        → Rests store p s a
    authorize-Rests {a} h = elim authorize_cases [
      | inl (e, r) ↦ absurd (ground (arith, r))
      | inr (request, g, i, b, e, f, w, r) ↦
          subst (Rests store p s) (ok-injective (rw r at h))
            (authorize_with-Rests store p s request g i b e f w)
    ]

    -- Without `consumeOnce` the store is unchanged; with it the grant that was used goes if its
    -- scope is `once`, and stays otherwise, as do all others; and the requests are kept.
    pub authorize_consumes :
        {a : Authorization}
        → (authorize permission_hash first second store p s consume_once).0 ≡ ok a
        → let store' = (authorize permission_hash first second store p s consume_once).1 in
          (i : ℕ) × (g : Grant) × (select p s none 0 store.grants ≡ some (g, i))
          × (a.scope ≡ g.scope)
          × (store'.grants ≡ (
              if consume_once && (a.scope == scope_once)
              then remove_at i store.grants
              else store.grants))
          × (store'.requests ≡ store.requests)
    authorize_consumes {a} h = elim authorize_cases [
      | inl (e, r) ↦ absurd (ground (arith, r))
      | inr (request, g, i, b, e, f, w, r) ↦
          let same = ok-injective (rw r at h) in
          let (_, made) = authorize_with-ok p s request g w in
          (
            i,
            g,
            f,
            ap (λ c. c.scope) (sym (made ∙ same)),
            rw r (grants-consume a b i (ap (λ c. c.scope) same)),
            rw r (requests-consume b i),
          )
    ]
