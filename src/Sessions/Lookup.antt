-- ===== src/Sessions/Lookup.antt =====
-- internal/sessions/registry.go: the keys under which `Get` finds a binding.
pub mod Bound
pub mod Removed
use awp.Common.{
  String, Bool, true, false, Option, some, none, List, [], ◌∷◌, ok, err, fail_if-then, ok-injective,
  ◌≡◌, ◌≢◌, ◌⊎◌, ◌↔◌, is_some, inl, inr, refl, sym, ◌∙◌, ap, subst, arith, eq_iff, is_empty, ◌==◌,
  ◌&&◌, not, Bool-cases, Option-cases, Result-cases, All,
}
use awp.Common.Text.{trim_space}
use awp.Common.Keyed.{find_first, find_first-upsert_self, find_first-upsert_ne, IsUnique, IsSame}
use awp.Sessions.{
  Binding, Registry, Error, is_key, any_newline, get, stamped, resolve_workspace, checked, put,
  bind, remove_first, remove,
}

-- Another session.
abbrev pub IsOther : String → String → String → String → Type 0
IsOther p s p' s' = (p ≢ p') ⊎ (s ≢ s')

abbrev pub same_key : Binding → Binding → Bool
same_key a b = is_key a.provider a.session_id b

pub same_key-IsSame : IsSame same_key
same_key-IsSame = record {
  symm = λ x y h. ground (
    arith,
    eq_iff y.provider x.provider,
    eq_iff x.provider y.provider,
    eq_iff y.session_id x.session_id,
    eq_iff x.session_id y.session_id,
  );
  trans = λ x y z h k. ground (
    arith,
    eq_iff y.provider x.provider,
    eq_iff z.provider y.provider,
    eq_iff z.provider x.provider,
    eq_iff y.session_id x.session_id,
    eq_iff z.session_id y.session_id,
    eq_iff z.session_id x.session_id,
  );
}

pub stamped-key :
    (now : String) (old : Option Binding) (b : Binding)
    → ((stamped now old b).provider ≡ b.provider) × ((stamped now old b).session_id ≡ b.session_id)
stamped-key now none b = (refl, refl)
stamped-key now (some old) b = (refl, refl)

pub is_key_self :
    (now : String) (old : Option Binding) (b : Binding)
    → is_key b.provider b.session_id (stamped now old b) ≡ true
is_key_self now old b =
    let (e, f) = stamped-key now old b in
    ground (
      arith,
      e,
      f,
      eq_iff (stamped now old b).provider b.provider,
      eq_iff (stamped now old b).session_id b.session_id,
    )
