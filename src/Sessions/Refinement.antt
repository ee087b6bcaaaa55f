-- ===== src/Sessions/Refinement.antt =====
-- internal/sessions/registry.go: the registry as a map from sessions to bindings.
use awp.Common.{
  String, Bool, Option, some, none, List, [], ◌∷◌, Result, ok, err, ◌≡◌, ◌⊎◌, inl, inr, refl, sym,
  ap, ◌∙◌, subst, arith, eq_iff, Bool-cases, Result-cases, is_some, ◌==◌, ◌&&◌, if◌then◌else◌,
}
use awp.Common.Keyed.{find_first, IsUnique}
use awp.Sessions.{Error, Binding, Registry, new_registry, get, stamped, checked, put, bind, remove}
use awp.Sessions.Lookup.{IsOther, same_key}
use awp.Sessions.Lookup.Bound.{put-get}
use awp.Sessions.Lookup.Removed.{remove-get}
use awp.Sessions.History.{put-IsUnique, IsUnique-remove_first}

-- A call on the registry, and what it returns.
pub data Op : Type 0 where
  bind_of : String → Binding → Op
  remove_of : String → String → Op
  get_of : String → String → Op

pub data Answer : Type 0 where
  binds_to : Result Error Binding → Answer
  removes : Bool → Answer
  finds_to : Option Binding → Answer

-- The specification: each session has a binding or none.
abbrev pub Bindings : Type 0
Bindings = String → String → Option Binding

abbrev pub update : String → String → Option Binding → Bindings → Bindings
update p s b m p' s' = if p' == p && s' == s then b else m p' s'

module _ (absolute : String → Option String) where
  abbrev pub specified_bind : String → Result Error Binding → Bindings → Answer × Bindings
  specified_bind now (err e) m = (binds_to (err e), m)
  specified_bind now (ok c) m =
      let b = stamped now (m c.provider c.session_id) c in
      (binds_to (ok b), update c.provider c.session_id (some b) m)

  abbrev pub specified : Op → Bindings → Answer × Bindings
  specified (bind_of now b) m = specified_bind now (checked absolute b) m
  specified (remove_of p s) m = (removes (is_some (m p s)), update p s none m)
  specified (get_of p s) m = (finds_to (m p s), m)

  -- The registry.
  abbrev pub performed : Op → Registry → Answer × Registry
  performed (bind_of now b) r = let (result, r') = bind absolute now r b in (binds_to result, r')
  performed (remove_of p s) r = let (found, r') = remove r p s in (removes found, r')
  performed (get_of p s) r = (finds_to (get r p s), r)

  abbrev pub answers : List Op → Registry → List Answer
  answers [] r = []
  answers (o ∷ os) r = (performed o r).0 ∷ answers os (performed o r).1

  abbrev pub specified_answers : List Op → Bindings → List Answer
  specified_answers [] m = []
  specified_answers (o ∷ os) m = (specified o m).0 ∷ specified_answers os (specified o m).1

  -- The registry has each session once, and the bindings of the specification.
  pub record Refines (r : Registry) (m : Bindings) : Type 0 where
    pub unique : IsUnique same_key r.bindings
    pub finds : (p s : String) → get r p s ≡ m p s

  update-other :
      (p s p' s' : String) (b : Option Binding) (m : Bindings)
      → IsOther p s p' s'
      → update p s b m p' s' ≡ m p' s'
  update-other p s p' s' b m (inl n) = elim (Bool-cases (p' == p)) [
    | inl e ↦ absurd (n (sym (ground (arith, e, eq_iff p' p))))
    | inr e ↦ ground (arith, e)
  ]
  update-other p s p' s' b m (inr n) = elim (Bool-cases (s' == s)) [
    | inl e ↦ absurd (n (sym (ground (arith, e, eq_iff s' s))))
    | inr e ↦ ground (arith, e)
  ]

  update-same : (p s : String) (b : Option Binding) (m : Bindings) → update p s b m p s ≡ b
  update-same p s b m = ground (arith, eq_iff p p, eq_iff s s)

  same_or_IsOther : (p s p' s' : String) → ((p' ≡ p) × (s' ≡ s)) ⊎ IsOther p s p' s'
  same_or_IsOther p s p' s' = elim (Bool-cases (p' == p)) [
    | inr e ↦ inr (inl (λ q. absurd (ground (arith, e, sym q, eq_iff p' p))))
    | inl e ↦ elim (Bool-cases (s' == s)) [
      | inr f ↦ inr (inr (λ q. absurd (ground (arith, f, sym q, eq_iff s' s))))
      | inl f ↦ inl (ground (arith, e, eq_iff p' p), ground (arith, f, eq_iff s' s))
    ]
  ]

  -- A binding that is found where it was put, and nothing else that has changed.
  update-Refines :
      (p s : String) (b : Option Binding) (r r' : Registry) (m : Bindings)
      → Refines r m
      → IsUnique same_key r'.bindings
      → get r' p s ≡ b
      → ((p' s' : String) → IsOther p s p' s' → get r' p' s' ≡ get r p' s')
      → Refines r' (update p s b m)
  update-Refines p s b r r' m h u here others = record {
    unique = u;
    finds = λ p' s'. elim (same_or_IsOther p s p' s') [
      | inl (e, f) ↦
          subst (λ k. get r' k s' ≡ update p s b m k s') (sym e)
            (subst (λ k. get r' p k ≡ update p s b m p k) (sym f)
              (here ∙ sym (update-same p s b m)))
      | inr o ↦ others p' s' o ∙ h.finds p' s' ∙ sym (update-other p s p' s' b m o)
    ];
  }

  -- One call.
  performed-specified :
      (o : Op) (r : Registry) (m : Bindings)
      → Refines r m
      → ((performed o r).0 ≡ (specified o m).0) × Refines (performed o r).1 (specified o m).1
  unfolding bind put get remove find_first
  performed-specified (bind_of now b) r m h = elim (Result-cases (checked absolute b)) [
    | inr (x, e) ↦ rw (e, bind) (refl, h)
    | inl (c, e) ↦
        let (found, others) = put-get absolute now r c in
        let old = h.finds c.provider c.session_id in
        rw (e, bind)
          (
            ap (λ o. binds_to (ok (stamped now o c))) old,
            update-Refines c.provider c.session_id _ r (put absolute now r c).1 m h
                (put-IsUnique absolute now r c h.unique)
                (found ∙ ap (λ o. some (stamped now o c)) old) others,
          )
  ]
  performed-specified (remove_of p s) r m h =
      let (_, gone, others) = remove-get r p s h.unique in
      (
        ap (λ o. removes (is_some o)) (h.finds p s),
        update-Refines p s none r (remove r p s).1 m h
            (IsUnique-remove_first p s r.bindings h.unique) gone others,
      )
  performed-specified (get_of p s) r m h = (ap finds_to (h.finds p s), h)

  answers_from :
      (os : List Op) (r : Registry) (m : Bindings)
      → Refines r m
      → answers os r ≡ specified_answers os m
  answers_from [] r m h = refl
  answers_from (o ∷ os) r m h =
      let (same, next) = performed-specified o r m h in
      ap (λ a. a ∷ answers os (performed o r).1) same
      ∙ ap (λ l. (specified o m).0 ∷ l) (answers_from os (performed o r).1 (specified o m).1 next)

  -- The registry is a map. Any calls of `Bind`, `Remove` and `Get`, one after the other from the empty
  -- registry, return what they return on a map from providers and sessions to bindings, in which
  -- `Bind` puts a binding that passes its checks, with the creation time of the one before it, and
  -- `Remove` takes it out: nobody sees the order of the list.
  pub answers-specified :
      (os : List Op) → answers os new_registry ≡ specified_answers os (λ p s. none)
  answers-specified os =
      answers_from os new_registry (λ p s. none)
        (record { unique = tt; finds = λ p s. unfold get find_first in refl })
