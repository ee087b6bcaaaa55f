-- ===== src/Permissions/Requested.antt =====
-- internal/permissions/store.go: what `RecordRequest` accepts, stores and reads back.
use awp.Common.{
  String, Bool, true, false, some, List, [], ◌∷◌, ok, err, ok-injective, fail_if-then, >>=-eq-ok,
  ◌≡◌, ◌≢◌, ◌⊎◌, inl, inr, refl, ap, subst, arith, eq_iff, All, All-mono, is_empty, map, ◌==◌, ◌&&◌,
  ◌||◌, not, Result-cases,
}
use awp.Common.Text.{trim_space}
use awp.Common.Sort.{IsDistinct}
use awp.Common.Keyed.{find_first-upsert_self}
use awp.Permissions.{
  RequestedPermission, Request, Store, Error, runtime_wake, delegation_background, append_audit,
  is_for, get_request,
}
use awp.Permissions.Names.{contains}
use awp.Permissions.Requests.{
  is_risk, is_delegation, any_bad_tool, normalised, check_permission, check_permissions, validated,
  put_request, record_request,
}

-- A permission that may be stored.
pub record IsAllowed (q : RequestedPermission) : Type 0 where
  pub named : (q.id ≢ "") × (q.title ≢ "")
  pub known : (is_risk q.risk ≡ true) × (is_delegation q.delegation ≡ true)
  pub tools : any_bad_tool q.mcp_tools ≡ false
  pub wake :
      q.id ≡ runtime_wake
      → (is_empty q.mcp_tools ≡ true)
        × (q.risk ≡ "runtime")
        × (q.delegation ≡ delegation_background)

check_permission-IsAllowed :
    (seen : List String) (q : RequestedPermission) {u : Unit {0}}
    → check_permission seen q ≡ ok u
    → IsAllowed q × (contains seen q.id ≡ false)
unfolding check_permission
check_permission-IsAllowed seen q {u} h₀ =
    let (a, h₁) = fail_if-then (q.id == "" || q.title == "") _ _ h₀ in
    let (b, h₂) = fail_if-then (contains seen q.id) _ _ h₁ in
    let (c, h₃) = fail_if-then (not (is_risk q.risk)) _ _ h₂ in
    let (d, h₄) = fail_if-then (not (is_delegation q.delegation)) _ _ h₃ in
    let (e, h₅) = fail_if-then (any_bad_tool q.mcp_tools) _ _ h₄ in
    let (f, h₆) = fail_if-then (q.id == runtime_wake && not (is_empty q.mcp_tools)) _ _ h₅ in
    (
      record {
        named = (ground (arith, eq_iff q.id ""), ground (arith, eq_iff q.title ""));
        known = (ground arith, ground arith);
        tools = e;
        wake = λ k. (
          ground (arith, eq_iff q.id runtime_wake),
          ground (arith, h₆, eq_iff q.id runtime_wake, eq_iff q.risk "runtime"),
          ground (arith, h₆, eq_iff q.id runtime_wake, eq_iff q.delegation delegation_background),
        );
      },
      b,
    )

-- The ids of the permissions, in their order.
abbrev pub ids_of : List RequestedPermission → List String
ids_of ps = map (λ q. q.id) ps

-- What the loop has checked when it ends.
pub record Checked (seen : List String) (wake : Bool) (ps qs : List RequestedPermission)
    (wake' : Bool) : Type 0 where
  pub same : qs ≡ map normalised ps
  pub allowed : All IsAllowed qs
  pub distinct : IsDistinct (ids_of qs)
  pub new : All (λ id. contains seen id ≡ false) (ids_of qs)
  pub wakes : wake' ≡ (wake || contains (ids_of qs) runtime_wake)

Checked-cons :
    (seen : List String) (wake : Bool) (p : RequestedPermission) (ps qs : List RequestedPermission)
    (wake' : Bool)
    → let q = normalised p in
      IsAllowed q
      → contains seen q.id ≡ false
      → Checked (q.id ∷ seen) (wake || q.id == runtime_wake) ps qs wake'
      → Checked seen wake (p ∷ ps) (q ∷ qs) wake'
unfolding contains
Checked-cons seen wake p ps qs wake' mine fresh rest =
    let q = normalised p in
    record {
      same = ap (◌∷◌ q) rest.same;
      allowed = (mine, rest.allowed);
      distinct = (
        All-mono {P = λ id. contains (q.id ∷ seen) id ≡ false} {Q = λ id. q.id ≢ id}
            (λ id k. ground (arith, eq_iff q.id id)) (ids_of qs) rest.new,
        rest.distinct,
      );
      new = (
        fresh,
        All-mono {P = λ id. contains (q.id ∷ seen) id ≡ false} {Q = λ id. contains seen id ≡ false}
            (λ id k. ground arith) (ids_of qs) rest.new,
      );
      wakes = ground (arith, rest.wakes);
    }

check_permissions-Checked :
    (seen : List String) (wake : Bool) (ps : List RequestedPermission)
    (r : List RequestedPermission × Bool)
    → check_permissions seen wake ps ≡ ok r
    → Checked seen wake ps r.0 r.1
unfolding check_permissions
check_permissions-Checked seen wake [] r h =
    subst (λ z. Checked seen wake [] z.0 z.1) (ok-injective h)
      (record {
        same = refl;
        allowed = tt;
        distinct = tt;
        new = tt;
        wakes = unfold contains in ground arith;
      })
check_permissions-Checked seen wake (p ∷ ps) r h =
    let q = normalised p in
    let (_, checked, h₁) = >>=-eq-ok (check_permission seen q) _ h in
    let (t, looped, h₂) = >>=-eq-ok _ _ h₁ in
    let (mine, fresh) = check_permission-IsAllowed seen q checked in
    let rest = check_permissions-Checked (q.id ∷ seen) (wake || q.id == runtime_wake) ps t looped in
    subst (λ z. Checked seen wake (p ∷ ps) z.0 z.1) (ok-injective h₂)
      (Checked-cons seen wake p ps t.0 t.1 mine fresh rest)

-- A request that may be stored: what was asked, trimmed, and with nothing wrong in it.
pub record IsRequest (now : String) (asked r : Request) : Type 0 where
  pub names :
      (r.provider ≡ trim_space asked.provider)
      × (r.session_id ≡ trim_space asked.session_id)
      × (r.request_id ≡ trim_space asked.request_id)
      × (r.requested_at ≡ now)
  pub named : (r.provider ≢ "") × (r.session_id ≢ "") × (r.request_id ≢ "")
  pub same : r.permissions ≡ map normalised asked.permissions
  pub allowed : All IsAllowed r.permissions
  pub distinct : IsDistinct (ids_of r.permissions)
  pub wakes : contains (ids_of r.permissions) runtime_wake ≡ true

validated-IsRequest :
    (now : String) (asked r : Request) → validated now asked ≡ ok r → IsRequest now asked r
unfolding validated
validated-IsRequest now asked r h₀ =
    let p = trim_space asked.provider in
    let s = trim_space asked.session_id in
    let i = trim_space asked.request_id in
    let (a, h₁) = fail_if-then (p == "" || s == "" || i == "") _ _ h₀ in
    let np : p ≢ "" = ground (arith, a, eq_iff p "") in
    let ns : s ≢ "" = ground (arith, a, eq_iff s "") in
    let ni : i ≢ "" = ground (arith, a, eq_iff i "") in
    let (_, h₂) = fail_if-then (is_empty asked.permissions) _ _ h₁ in
    let (t, looped, h₃) = >>=-eq-ok _ _ h₂ in
    let (w, h₄) = fail_if-then (not t.1) _ _ h₃ in
    let c = check_permissions-Checked [] false asked.permissions t looped in
    subst (IsRequest now asked) (ok-injective h₄) (record {
      names = (refl, refl, refl, refl);
      named = (np, ns, ni);
      same = c.same;
      allowed = c.allowed;
      distinct = c.distinct;
      wakes = ground (arith, c.wakes, w);
    })

put_request-reads :
    (audited : String) (store : Store) (q : Request)
    → get_request (put_request audited store q) q.provider q.session_id ≡ some q
unfolding get_request put_request append_audit
put_request-reads audited store q =
    find_first-upsert_self (is_for q.provider q.session_id) q store.requests
      (ground (arith, eq_iff q.provider q.provider, eq_iff q.session_id q.session_id))

-- `RecordRequest` fails and changes nothing, or it stores the request that it returns, so that
-- `GetRequest` then reads it: the one that was asked, trimmed, with three identifiers that are not
-- blank, every permission allowed, no id twice, and `runtime.wake` among them.
pub record_request-IsRequest :
    (now audited : String) (store : Store) (asked : Request)
    → let r = record_request now audited store asked in
      ((e : Error) × (r ≡ (err e, store)))
      ⊎ ((q : Request) × (r.0 ≡ ok q)
          × IsRequest now asked q
          × (get_request r.1 q.provider q.session_id ≡ some q))
unfolding record_request
record_request-IsRequest now audited store asked = elim (Result-cases (validated now asked)) [
  | inl (q, e) ↦ inr (
    q,
    rw (e, record_request),
    validated-IsRequest now asked q e,
    rw (e, record_request) (put_request-reads audited store q),
  )
  | inr (c, e) ↦ inl (c, rw (e, record_request))
]
