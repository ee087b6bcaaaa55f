-- ===== src/Mcp/Resolve.antt =====
-- internal/mcpserver/server.go: what `resolveSession` resolves a call to.
use mathlib.Core.List.{Mem, mem-cons_self, mem-singleton}
use mathlib.Core.List.Perm
use mathlib.Core.HLevel.{hedberg}
use awp.Common.{
  String, Bool, true, List, [], ◌∷◌, Result, ok, keep, ◌==◌, ◌&&◌, ◌||◌, not, ◌≡◌, ◌≢◌, ◌⊎◌, inl,
  inr, refl, arith, eq_iff, Bool-cases,
}
use awp.Common.Members.{mem_of_mem-keep, passes_of_mem-keep, mem-keep}
use awp.Daemon.{Disk}
use awp.Sessions.{Binding, Registry, list}
use awp.Sessions.Listing.{list-IsSorted}
use awp.Mcp.{loads, Error}
use awp.Mcp.Waking.{is_candidate, only_one, resolve_session}

-- The binding is the one that the call can mean: of the provider and the session, where they are
-- given, and of the server's workspace, if it has one.
abbrev pub is_meant : String → String → String → Binding → Bool
is_meant workspace provider session_id b =
    (provider == "" || b.provider == provider) && is_candidate workspace session_id b

-- `b` is the binding that is resolved to.
pub record IsOnly (workspace provider session_id : String) (registry : Registry) (p s : String)
    : Type 0 where
  pub binding : Binding
  pub bound : Mem binding registry.bindings
  pub meant : is_meant workspace provider session_id binding ≡ true
  pub named : (binding.provider ≡ p) × (binding.session_id ≡ s)
  pub only :
      (c : Binding)
      → Mem c registry.bindings
      → is_meant workspace provider session_id c ≡ true
      → c ≡ binding

and_intro : (a b : Bool) → a ≡ true → b ≡ true → (a && b) ≡ true
and_intro a b h k = ground arith

and_elim : (a b : Bool) → (a && b) ≡ true → (a ≡ true) × (b ≡ true)
and_elim a b h = ground arith

String-discrete : Discrete String
String-discrete s t = elim (Bool-cases (s == t)) [
  | inl e ↦ yes ((eq_iff s t).0 e)
  | inr e ↦ no (λ h. absurd (ground (arith, e, h, eq_iff s t)))
]

String-set : IsSet String
String-set = hedberg String-discrete

Binding-set : IsSet Binding
Binding-set = hlevel String-set

only_one-ok :
    (workspace : String) (bs : List Binding) (p s : String)
    → only_one workspace bs ≡ ok (p, s)
    → (b : Binding) × (bs ≡ b ∷ []) × (b.provider ≡ p) × (b.session_id ≡ s)
unfolding only_one
only_one-ok workspace [] p s h = absurd (cc)
only_one-ok workspace (b ∷ []) p s h = (b, refl, ground (arith, h), ground (arith, h))
only_one-ok workspace (b ∷ b' ∷ bs) p s h = absurd (cc)

only_one-IsOnly :
    (workspace provider session_id : String) (registry : Registry) (p s : String)
    → only_one workspace (keep (is_candidate workspace session_id) (list registry provider))
      ≡ ok (p, s)
    → IsOnly workspace provider session_id registry p s
only_one-IsOnly workspace provider session_id registry p s h =
    let of_provider = λ (b : Binding). provider == "" || b.provider == provider in
    let candidate = is_candidate workspace session_id in
    let listed = list registry provider in
    let (b, alone, provided, identified) = only_one-ok workspace (keep candidate listed) p s h in
    let perm = (list-IsSorted registry provider).0 in
    let here : Mem b (keep candidate listed) = rw alone mem-cons_self in
    let there = (Perm.mem_iff perm).0 (mem_of_mem-keep candidate listed here) in
    record {
      binding = b;
      bound = mem_of_mem-keep of_provider registry.bindings there;
      meant =
          and_intro (of_provider b) (candidate b)
            (passes_of_mem-keep of_provider registry.bindings there)
            (passes_of_mem-keep candidate listed here);
      named = (provided, identified);
      only = λ c m q.
          let (q₀, q₁) = and_elim (of_provider c) (candidate c) q in
          let found : Mem c (keep candidate listed) =
            mem-keep candidate listed
              ((Perm.mem_iff perm).1 (mem-keep of_provider registry.bindings m q₀)) q₁ in
          (mem-singleton Binding-set).0 (rw alone at found);
    }

-- `resolveSession` never guesses. If it succeeds, the call named both the provider and the session,
-- and it answers with these; or it answers with the one binding of the registry that the call can
-- mean: any other binding has another provider or session than a given one, or another workspace.
pub resolve_session-IsOnly :
    (workspace : String) (disk : Disk) (registry : Registry) (provider session_id p s : String)
    → resolve_session workspace disk registry provider session_id ≡ ok (p, s)
    → ((provider ≢ "") × (session_id ≢ "") × (p ≡ provider) × (s ≡ session_id))
      ⊎ IsOnly workspace provider session_id registry p s
unfolding resolve_session
resolve_session-IsOnly workspace disk registry provider session_id p s h =
    elim (Bool-cases (not (provider == "") && not (session_id == ""))) [
      | inl e ↦
          let same : ◌≡◌ {A = Result Error (String × String)} (ok (provider, session_id))
              (ok (p, s)) =
            rw (e, resolve_session) at h in
          inl (
            ground (arith, e, eq_iff provider ""),
            ground (arith, e, eq_iff session_id ""),
            ground (arith, same),
            ground (arith, same),
          )
      | inr e ↦ elim (Bool-cases (not (loads disk))) [
        | inl f ↦ absurd (cc (rw (e, f, resolve_session) at h))
        | inr f ↦ inr (
            only_one-IsOnly workspace provider session_id registry p s
              (rw (e, f, resolve_session) at h))
      ]
    ]
