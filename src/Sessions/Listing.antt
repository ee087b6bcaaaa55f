-- ===== src/Sessions/Listing.antt =====
-- internal/sessions/registry.go, `List`: its order, and what it lists.
use mathlib.Core.List.{Perm}
use awp.Common.{String, keep, ◌==◌, ◌||◌}
use awp.Common.Order.{pair_lt_asym, pair_lt_neg_trans}
use awp.Common.Sort.{IsSorted, sort_by-IsSorted, sort_by-perm}
use awp.Sessions.{Registry, binding_lt, list}

-- `List` has exactly the bindings of the provider, or of all providers for the empty name, and they
-- stand in order of their provider and session.
pub list-IsSorted :
    (registry : Registry) (provider : String)
    → Perm
        (list registry provider)
        (keep (λ b. provider == "" || b.provider == provider) registry.bindings)
      × IsSorted binding_lt (list registry provider)
unfolding list
list-IsSorted registry provider = (
  sort_by-perm binding_lt _,
  sort_by-IsSorted binding_lt (λ a b. pair_lt_asym a.provider a.session_id b.provider b.session_id)
      (λ a b c.
        pair_lt_neg_trans a.provider a.session_id b.provider b.session_id c.provider c.session_id)
      _,
)
