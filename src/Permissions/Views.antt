-- ===== src/Permissions/Views.antt =====
-- internal/permissions/store.go: `ListRequests` and `ListGrants`.
use awp.Common.{String, Bool, List, keep, ◌==◌, ◌||◌, if◌then◌else◌}
use awp.Common.Order.{text_lt}
use awp.Common.Sort.{sort_by}
use awp.Permissions.{Request, Grant, Store}

abbrev pub request_lt : Request → Request → Bool
request_lt a b =
    if a.provider == b.provider
    then text_lt a.session_id b.session_id
    else text_lt a.provider b.provider

abbrev pub grant_lt : Grant → Grant → Bool
grant_lt a b =
    if a.provider == b.provider
    then (if a.session_id == b.session_id
        then text_lt a.scope b.scope
        else text_lt a.session_id b.session_id)
    else text_lt a.provider b.provider

-- `ListRequests`
unfoldable pub list_requests : Store → String → List Request
list_requests store provider =
    sort_by request_lt (keep (λ r. provider == "" || r.provider == provider) store.requests)

-- `ListGrants`
unfoldable pub list_grants : Store → String → List Grant
list_grants store provider =
    sort_by grant_lt (keep (λ g. provider == "" || g.provider == provider) store.grants)
