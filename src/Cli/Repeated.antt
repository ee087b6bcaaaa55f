-- ===== src/Cli/Repeated.antt =====
-- internal/cli/cli.go: the deliveries that `awp connect` handles one after the other.
use awp.Common.{
  List, [], ◌∷◌, map, All, ℕ, Result, inl, inr, ok-injective, String, Bool, true, false, Option,
  some, none, ok, err, ◌≡◌, ◌≢◌, refl, sym, ap, ◌∙◌, arith, eq_iff, Bool-cases, Option-cases,
  Result-cases, ◌==◌,
}
use awp.Common.Keyed.{find_first}
use awp.Permissions as Permissions
use awp.Permissions.{
  Request, Grant, is_for, request_pending, wake_not_granted, RequestedPermission, Authorization,
  Store, append_audit, get_request, scope_once,
}
use awp.Permissions.Authorize.{select, authorize_with, consume, authorize}
use awp.Client.Connection.{DeliveryData}
use awp.Cli.Connecting.{Permitted, Run, Woke, ran, handled, connect_handle}

-- A delivery that comes in, the times at which it is handled, and whether the save works.
pub record Turn : Type 0 where
  pub first : String
  pub second : String
  pub saves : Bool
  pub delivery : DeliveryData

module _ (permission_hash : RequestedPermission → String) where
  -- What `Authorize` returns, which depends on the requests and the grants only.
  abbrev answer :
      String → String → Option Request → Option (Grant × ℕ) → Result Permissions.Error Authorization
  answer p s none g = err (request_pending p s)
  answer p s (some request) none = err (wake_not_granted p s)
  answer p s (some request) (some g) = authorize_with permission_hash p s request g.0

  pub authorize-answer :
      (first second p s : String) (once : Bool) (store : Store)
      → (authorize permission_hash first second store p s once).0
        ≡ answer p s (get_request store p s) (select p s none 0 store.grants)
  unfolding authorize
  authorize-answer first second p s once store = elim (Option-cases (get_request store p s)) [
    | inl r ↦ rw (r, authorize) refl
    | inr (request, r) ↦ elim (Option-cases (select p s none 0 store.grants)) [
      | inl g ↦ rw (r, g, authorize) refl
      | inr (x, g) ↦ elim (Result-cases (authorize_with permission_hash p s request x.0)) [
        | inr (e, w) ↦ rw (r, g, w, authorize) refl
        | inl (a, w) ↦ rw (r, g, w, authorize) refl
      ]
    ]
  ]

  -- The store after an authorization that is not for once.
  authorize-keeps :
      (first second p s : String) (store : Store) (a : Authorization)
      → (authorize permission_hash first second store p s true).0 ≡ ok a
      → a.scope ≢ scope_once
      → let next = (authorize permission_hash first second store p s true).1 in
        (next.requests ≡ store.requests) × (next.grants ≡ store.grants)
  unfolding authorize consume append_audit
  authorize-keeps first second p s store a h n = elim (Option-cases (get_request store p s)) [
    | inl r ↦ rw (r, authorize) (refl, refl)
    | inr (request, r) ↦ elim (Option-cases (select p s none 0 store.grants)) [
      | inl g ↦ rw (r, g, authorize) (refl, refl)
      | inr (x, g) ↦ elim (Result-cases (authorize_with permission_hash p s request x.0)) [
        | inr (e, w) ↦ rw (r, g, w, authorize) (refl, refl)
        | inl (b, w) ↦
            let same : b ≡ a = ok-injective (sym w ∙ sym (authorize-is r g) ∙ h) in
            let other : (b.scope == scope_once) ≡ false = not_once b same in
            rw (r, g, w, authorize) (rw other (refl, refl))
      ]
    ]
  ]
    where
      authorize-is :
          {request : Request} {x : Grant × ℕ}
          → get_request store p s ≡ some request
          → select p s none 0 store.grants ≡ some x
          → (authorize permission_hash first second store p s true).0
            ≡ authorize_with permission_hash p s request x.0
      authorize-is {request = request} {x = x} r g =
          authorize-answer first second p s true store
          ∙ ap (λ q. answer p s q (select p s none 0 store.grants)) r
          ∙ ap (answer p s (some request)) g

      not_once : (b : Authorization) → b ≡ a → (b.scope == scope_once) ≡ false
      not_once b same = elim (Bool-cases (b.scope == scope_once)) [
        | inl e ↦
            absurd (n (ap (λ c. c.scope) (sym same) ∙ ground (arith, e, eq_iff b.scope scope_once)))
        | inr e ↦ e
      ]

  -- An authorization that is not for once is given again.
  authorize-again :
      (first second first' second' p s : String) (store : Store) (a : Authorization)
      → (authorize permission_hash first second store p s true).0 ≡ ok a
      → a.scope ≢ scope_once
      → (authorize permission_hash first' second'
          (authorize permission_hash first second store p s true).1
          p
          s
          true).0
        ≡ ok a
  unfolding get_request
  authorize-again first second first' second' p s store a h n =
      let next = (authorize permission_hash first second store p s true).1 in
      let (requests, grants) = authorize-keeps first second p s store a h n in
      authorize-answer first' second' p s true next
      ∙ ap (λ q. answer p s (find_first (is_for p s) q) (select p s none 0 next.grants)) requests
      ∙ ap (λ g. answer p s (get_request store p s) (select p s none 0 g)) grants
      ∙ sym (authorize-answer first second p s true store)
      ∙ h

  module _ (p s : String) (adapter : Run) where
    -- What `handle` does with deliveries, one after the other.
    abbrev pub connect_handles : List Turn → Permitted → List Woke
    connect_handles [] st = []
    connect_handles (t ∷ ts) st =
        let r = connect_handle permission_hash t.first t.second t.saves p s adapter t.delivery st in
        r.0 ∷ connect_handles ts r.1

    handled_ok :
        (saves : Bool) (d : DeliveryData) (r : Permissions.Outcome Authorization) (st : Permitted)
        (a : Authorization)
        → saves ≡ true
        → r.0 ≡ ok a
        → ((handled saves adapter d r st).0 ≡ ran a (adapter a d))
          × ((handled saves adapter d r st).1.memory ≡ r.1)
    handled_ok true d (err x, store) st a e h = absurd (cc)
    handled_ok true d (ok b, store) st a e h = (cc, refl)
    handled_ok false d r st a e h = absurd (cc)

    -- `awp connect` runs the adapter once for every delivery that it handles, one that it has handled
    -- before included. In any sequence of deliveries where each save works, and with permissions that
    -- authorize the session, not for once: each of them runs the adapter with that delivery, under
    -- the same authorization.
    pub connect_handles-ran :
        (first second : String) (ts : List Turn) (st : Permitted) (a : Authorization)
        → (authorize permission_hash first second st.memory p s true).0 ≡ ok a
        → a.scope ≢ scope_once
        → All (λ (t : Turn). t.saves ≡ true) ts
        → connect_handles ts st ≡ map (λ (t : Turn). ran a (adapter a t.delivery)) ts
    unfolding connect_handle
    connect_handles-ran first second [] st a h n works = refl
    connect_handles-ran first second (t ∷ ts) st a h n (work, works) =
        let now : (authorize permission_hash t.first t.second st.memory p s true).0 ≡ ok a =
          authorize-answer t.first t.second p s true st.memory
          ∙ sym (authorize-answer first second p s true st.memory)
          ∙ h in
        let (here, left) =
          handled_ok t.saves t.delivery
            (authorize permission_hash t.first t.second st.memory p s true) st a work now in
        let next =
          connect_handle permission_hash t.first t.second t.saves p s adapter t.delivery st in
        let again : (authorize permission_hash first second next.1.memory p s true).0 ≡ ok a =
          ap (λ m. (authorize permission_hash first second m p s true).0) left
          ∙ authorize-again t.first t.second first second p s st.memory a now n in
        ap (λ w. w ∷ connect_handles ts next.1) here
        ∙ ap (λ l. ran a (adapter a t.delivery) ∷ l)
            (connect_handles-ran first second ts next.1 a again n works)
