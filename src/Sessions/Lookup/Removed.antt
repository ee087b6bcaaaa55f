-- ===== src/Sessions/Lookup/Removed.antt =====
-- internal/sessions/registry.go: what `Remove` does to what `Get` finds.
use awp.Common.{
  String, true, false, Option, some, none, List, [], ◌∷◌, ◌≡◌, ◌↔◌, is_some, inl, inr, refl, arith,
  eq_iff, Bool-cases, All,
}
use awp.Common.Keyed.{find_first, IsUnique}
use awp.Sessions.{Binding, Registry, is_key, get, remove_first, remove}
use awp.Sessions.Lookup.{IsOther, same_key}

remove_first-get :
    (p s : String) (bs : List Binding)
    → IsUnique same_key bs
    → find_first (is_key p s) (remove_first p s bs) ≡ none
unfolding find_first remove_first
remove_first-get p s [] u = refl
remove_first-get p s (b ∷ bs) u = elim (Bool-cases (is_key p s b)) [
  | inl e ↦ rw e (gone e bs u.0)
  | inr e ↦ rw e (rw e (remove_first-get p s bs u.1))
]
  where
    gone :
        is_key p s b ≡ true
        → (xs : List Binding) → All (λ y. same_key b y ≡ false) xs
        → find_first (is_key p s) xs ≡ none
    gone e [] a = refl
    gone e (x ∷ xs) a =
        let rest = gone e xs a.1 in
        ground (
          arith,
          rest,
          eq_iff b.provider p,
          eq_iff b.session_id s,
          eq_iff x.provider p,
          eq_iff x.session_id s,
          eq_iff x.provider b.provider,
          eq_iff x.session_id b.session_id,
        )

pub remove_first_others :
    (p s p' s' : String) (bs : List Binding)
    → IsOther p s p' s'
    → find_first (is_key p' s') (remove_first p s bs) ≡ find_first (is_key p' s') bs
unfolding find_first remove_first
remove_first_others p s p' s' [] o = refl
remove_first_others p s p' s' (b ∷ bs) o =
    let rest = remove_first_others p s p' s' bs o in
    elim (Bool-cases (is_key p s b)) [
      | inl e ↦
          let apart : is_key p' s' b ≡ false = ground (
            arith,
            eq_iff b.provider p,
            eq_iff b.session_id s,
            eq_iff b.provider p',
            eq_iff b.session_id s',
          ) in
          rw (e, apart)
      | inr e ↦ rw e (rw rest)
    ]

-- `Remove` reports whether the session was bound. In a registry with one binding for each session
-- `Get` then finds none for it, and for any other session what it found before.
pub remove-get :
    (registry : Registry) (p s : String)
    → IsUnique same_key registry.bindings
    → let r = remove registry p s in
      ((r.0 ≡ false) ↔ (get registry p s ≡ none))
      × (get r.1 p s ≡ none)
      × ((p' s' : String) → IsOther p s p' s' → get r.1 p' s' ≡ get registry p' s')
unfolding remove get
remove-get registry p s u = (
  absent (find_first (is_key p s) registry.bindings),
  remove_first-get p s registry.bindings u,
  λ p' s' o. remove_first_others p s p' s' registry.bindings o,
)
  where
    absent : (o : Option Binding) → (is_some o ≡ false) ↔ (o ≡ none)
    absent none = ((λ _. refl), (λ _. refl))
    absent (some b) = ((λ h. cc), (λ h. cc))
