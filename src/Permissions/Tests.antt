-- ===== src/Permissions/Tests.antt =====
-- Runs of the permission store, and its theorems at concrete stores. The hash of a permission is
-- here the text of its id, risk and tools.
use Prim.Native.String.{◌++◌ as concat}
use awp.Common.{String, true, false, List, [], ◌∷◌, ok, ◌≡◌, ◌≢◌, refl}
use awp.Common.Order.{text_lt}
use awp.Common.Text.{trim_space, contains_any}
use awp.Common.Sort.{IsAscending, insert_by, sort_by}
use awp.Common.Keyed.{find_first, replace_first, upsert}
use awp.Permissions.{
  RequestedPermission, Request, Grant, Store, Authorization, runtime_wake, scope_once, append_audit,
  get_request, new_store,
}
use awp.Permissions.Names.{contains, unique_sorted}
use awp.Permissions.Requests.{
  any_bad_tool, normalised, check_permission, check_permissions, validated, put_request,
  record_request, request_local,
}
use awp.Permissions.Grants.{
  requested, hash_at, set_hash, put_grant, check_allowed, granting_for, granting, grant_permissions,
}
use awp.Permissions.Authorize.{select, is_current, gather_tools, authorize_with, consume, authorize}
use awp.Permissions.Authorize.Sound.{Rests, authorize-Rests}
use awp.Permissions.Slots.{IsValid}
use awp.Permissions.Slots.Once.{once_is_once}
use awp.Permissions.RoundTrip.{grant_takes_effect}
use awp.Permissions.Revoked.{revoke_denies}
use awp.Permissions.History.{Call, asks_local, grants, revokes, step, replay, replay-IsValid}
use awp.Permissions.Names.{unique_sorted-IsAscending}
use awp.Permissions.Names.Idempotent.{unique_sorted_idem}
use awp.Permissions.Revocation.{revoke_one, revoke_grants, revoke}

program : Unit {0}
unfolding contains_any insert_by sort_by find_first replace_first upsert trim_space append_audit
    get_request contains unique_sorted any_bad_tool normalised check_permission check_permissions
    validated put_request record_request request_local requested hash_at set_hash put_grant
    check_allowed granting_for granting grant_permissions select is_current gather_tools
    authorize_with consume authorize revoke_one revoke_grants revoke step replay
program = tt

unfoldable join : List String → String
join [] = ""
join (x ∷ xs) = concat x (concat "," (join xs))

abbrev sample_hash : RequestedPermission → String
sample_hash p = concat p.id (concat p.risk (join p.mcp_tools))

abbrev ask : Call
ask = asks_local "t0" "t0" "sinores" "chat-1" (" read_feed " ∷ "read_feed" ∷ []) ("feed" ∷ [])

abbrev allow : String → Call
allow scope = grants "t1" "t1" "sinores" "chat-1" scope (runtime_wake ∷ "read_feed" ∷ [])

abbrev asked : Store
asked = replay sample_hash (ask ∷ []) new_store

abbrev granted : Store
granted = replay sample_hash (ask ∷ allow "once" ∷ []) new_store

abbrev bound_once : Store
bound_once = replay sample_hash (ask ∷ allow "" ∷ allow "once" ∷ []) new_store

abbrev granted-IsValid : IsValid granted
granted-IsValid = replay-IsValid sample_hash (ask ∷ allow "once" ∷ [])

abbrev used : Store
used = (authorize sample_hash "t2" "t2" granted "sinores" "chat-1" true).1

abbrev authorized : String → Authorization
authorized scope = record {
  provider = "sinores";
  session_id = "chat-1";
  scope = scope;
  permissions = "read_feed" ∷ "runtime.wake" ∷ [];
  mcp_tools = "feed" ∷ [];
}

abbrev the_grant : String → Grant
the_grant scope = record {
  provider = "sinores";
  session_id = "chat-1";
  source_session_id = "chat-1";
  request_id = "local";
  scope = scope;
  permissions = "read_feed" ∷ "runtime.wake" ∷ [];
  permission_hashes =
      ("read_feed", "read_feedreadfeed,") ∷ ("runtime.wake", "runtime.wakeruntime") ∷ [];
  granted_at = "t1";
  granted_by = "interactive_cli";
}

stores :
    (granted.grants ≡ the_grant "once" ∷ [])
    × (bound_once.grants ≡ the_grant "binding" ∷ the_grant "once" ∷ [])
    × (used.grants ≡ [])
unfolding program join
stores = (refl, refl, refl)

authorize_run :
    ((authorize sample_hash "t2" "t2" granted "sinores" "chat-1" true).0 ≡ ok (authorized "once"))
    × ((authorize sample_hash "t2" "t2" bound_once "sinores" "chat-1" true).0
        ≡ ok (authorized "once"))
unfolding program join
authorize_run = (refl, refl)

authorize-Rests_example : Rests sample_hash granted "sinores" "chat-1" (authorized "once")
unfolding program join
authorize-Rests_example =
    authorize-Rests sample_hash "t2" "t2" granted "sinores" "chat-1" true {a = authorized "once"}
      refl

grant_takes_effect_example :
    (a : Authorization) × ((authorize sample_hash "t2" "t2"
        (grant_permissions sample_hash "t1" "t1" asked "sinores" "chat-1" ""
          (runtime_wake ∷ "read_feed" ∷ [])).1
        "sinores"
        "chat-1"
        false).0
      ≡ ok a)
    × (a.permissions ≡ "read_feed" ∷ "runtime.wake" ∷ [])
    × (a.scope ≡ "binding")
unfolding program join
grant_takes_effect_example =
    grant_takes_effect sample_hash "t1" "t1" "t2" "t2" asked "sinores" "chat-1" ""
      (runtime_wake ∷ "read_feed" ∷ []) (the_grant "binding") false
      (replay-IsValid sample_hash (ask ∷ [])) refl tt

once_is_once_example : "binding" ≢ scope_once
unfolding program join
once_is_once_example =
    once_is_once sample_hash "t2" "t2" "t3" "t3" bound_once "sinores" "chat-1" true
      (authorized "once") (authorized "binding")
      (replay-IsValid sample_hash (ask ∷ allow "" ∷ allow "once" ∷ [])) refl refl refl

revoke_denies_example : contains (runtime_wake ∷ []) "read_feed" ≡ false
unfolding program join
revoke_denies_example =
    revoke_denies sample_hash "t2" "t3" "t3" granted "sinores" "chat-1" ("read_feed" ∷ []) true
      (record (authorized "once") { permissions = runtime_wake ∷ []; mcp_tools = [] }) "read_feed"
      granted-IsValid refl refl

replay-IsValid_example :
    IsValid (
      replay sample_hash
        (ask ∷ allow "once" ∷ revokes "t4" "sinores" "chat-1" "" [] ∷ [])
        new_store)
replay-IsValid_example =
    replay-IsValid sample_hash (ask ∷ allow "once" ∷ revokes "t4" "sinores" "chat-1" "" [] ∷ [])

abbrev spaced_request : Request
spaced_request = record {
  provider = " sinores ";
  session_id = "chat-1";
  request_id = "r1";
  permissions =
      record {
        id = " runtime.wake ";
        title = "Wake";
        description = "";
        risk = "runtime";
        delegation = "background";
        mcp_tools = [];
      }
      ∷ [];
  requested_at = "";
}

unique_sorted-IsAscending_example : IsAscending text_lt (unique_sorted ("b" ∷ " a" ∷ "b " ∷ []))
unique_sorted-IsAscending_example = unique_sorted-IsAscending ("b" ∷ " a" ∷ "b " ∷ [])

unique_sorted_idem_example :
    unique_sorted (unique_sorted ("b" ∷ " a" ∷ [])) ≡ unique_sorted ("b" ∷ " a" ∷ [])
unique_sorted_idem_example = unique_sorted_idem ("b" ∷ " a" ∷ [])
