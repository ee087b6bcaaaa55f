-- ===== src/Cli/Agreement.antt =====
-- internal/cli/permissions.go and internal/mcpserver/server.go: the two ways to grant permissions.
use Prim.Native.Char.{Char, code}
use Prim.Native.String.{[] as no_text, ◌∷◌ as char}
use awp.Common.{
  ℕ, eqb, String, Bool, true, false, some, List, [], ◌∷◌, Result, ok, err, ◌≡◌, ◌≢◌, inl, inr, refl,
  ap, ◌∙◌, arith, eq_iff, Bool-cases, is_empty, ◌==◌, ◌&&◌, ◌||◌, not, if◌then◌else◌,
}
use awp.Common.Text.{trim_space}
use awp.Common.Split.{push, split}
use awp.Common.Steps.{◌>>=◌, ◌>>◌, return, try, save}
use awp.Permissions.{RequestedPermission, Grant, Store}
use awp.Permissions.Grants.{grant_permissions}
use awp.Permissions as Permissions
use awp.Sessions.{Binding, get}
use awp.Mcp.{
  Machine, loads, saves, permissions_unread, permissions_unwritten, not_requested, not_granted,
}
use awp.Mcp.Waking.{resolve_session, target}
use awp.Mcp.Granting.{with_request, scope_of, grant}
use awp.Mcp.Granting as Granting
use awp.Mcp as Mcp
use awp.Cli.{Io, Failure, plainly, Value, Command, or_fails, same}
use awp.Cli.Permitting.{GrantArgs, split_csv, run_grant}
use awp.Cli as Cli

-- Both fail, or both return the same grant.
abbrev pub SameGrant : Result Failure Cli.Value → Result Mcp.Error Mcp.Value → Type 0
SameGrant (ok (Cli.granted g)) (ok (Mcp.granted g')) = g ≡ g'
SameGrant (err e) (err e') = Unit
SameGrant _ _ = ⊥

abbrev pub Agrees :
    Result Failure Cli.Value × Machine → Result Mcp.Error Mcp.Value × Machine → Type 0
Agrees (r, m) (r', m') = (m ≡ m') × SameGrant r r'

grant_saved :
    (s : Bool) (r : Result Permissions.Error Grant × Store) (e : Permissions.Error → Failure)
    (f : Failure) (m : Machine)
    → Agrees
        ((do g ← try e r.0; save s f (λ m. record m { permissions = r.1 }); return (Cli.granted g))
          m)
        ((do
          g ← try not_granted r.0
          save s permissions_unwritten (λ m. record m { permissions = r.1 })
          return (Mcp.granted g))
          m)
grant_saved s (err x, store) e f m = (refl, tt)
grant_saved false (ok g, store) e f m = (refl, tt)
grant_saved true (ok g, store) e f m = (refl, refl)

-- From the request on.
grant_requested :
    (s : Bool) (w : Result Permissions.Error Store)
    (k : Store → Result Permissions.Error Grant × Store) (e e' : Permissions.Error → Failure)
    (f : Failure) (m : Machine)
    → Agrees
        ((do
          store ← try e w
          g ← try e' (k store).0
          save s f (λ m. record m { permissions = (k store).1 })
          return (Cli.granted g))
          m)
        ((do
          store ← try not_requested w
          g ← try not_granted (k store).0
          save s permissions_unwritten (λ m. record m { permissions = (k store).1 })
          return (Mcp.granted g))
          m)
grant_requested s (err x) k e e' f m = (refl, tt)
grant_requested s (ok store) k e e' f m = grant_saved s (k store) e' f m

split-some : (sep : ℕ) (text : String) → is_empty (split sep text) ≡ false
unfolding split
split-some sep no_text = refl
split-some sep (char c text) = pushed c text (split sep text)
  where
    pushed :
        (c : Char) (text : String) (rest : List String)
        → is_empty (if eqb (code c) sep then no_text ∷ rest else push c rest) ≡ false
    pushed c text [] = ground arith
    pushed c text (r ∷ rs) = ground arith

split_csv-some : (text : String) → trim_space text ≢ "" → is_empty (split_csv text) ≡ false
unfolding split_csv
split_csv-some text n = elim (Bool-cases (trim_space text == "")) [
  | inl e ↦ absurd (n (ground (arith, e, eq_iff (trim_space text) "")))
  | inr e ↦ rw e (split-some 44 text)
]

-- The arguments of the tool for the flags of the command.
abbrev pub tool_args : GrantArgs → Granting.GrantArgs
tool_args args = record {
  provider = args.provider;
  session_id = args.session_id;
  allow = split_csv args.allow;
  scope = args.scope;
  mcp_tools = split_csv args.mcp_tools;
}

-- `awp permissions grant` and the tool grant_permissions do the same. For a session that is bound, with
-- both names and permissions given, a scope without blanks at its ends, and a registry and a permission
-- file that have paths, of which the registry loads: called with the same arguments on the same files,
-- both fail, or both return the same grant, and they leave the same files.
pub run_grant-grant :
    (permission_hash : RequestedPermission → String) (workspace : String) (io : Io)
    (args : GrantArgs) (b : Binding) (m : Machine)
    → args.provider ≢ ""
    → args.session_id ≢ ""
    → trim_space args.allow ≢ ""
    → scope_of args.scope ≡ args.scope
    → io.has_registry_path ≡ true
    → loads io.files.registry ≡ true
    → io.has_permissions_path ≡ true
    → get m.registry args.provider args.session_id ≡ some b
    → Agrees
        (run_grant permission_hash io args m)
        (grant permission_hash workspace io.files (tool_args args) m)
unfolding run_grant grant target
run_grant-grant permission_hash workspace io args b m np ns na scope rp rl pp bound =
    let some_ids = split_csv-some args.allow na in
    let ids = split_csv args.allow in
    let w =
      with_request io.files.first io.files.second m.permissions args.provider args.session_id ids
        (split_csv args.mcp_tools) in
    let k = λ (store : Store).
      grant_permissions permission_hash io.files.third io.files.fourth store args.provider
        args.session_id args.scope ids in
    let given : (args.provider == "" || args.session_id == "" || args.allow == "") ≡ false =
      ground
        (arith, eq_iff args.provider "", eq_iff args.session_id "", allow_given args.allow na) in
    let named : (not (args.provider == "") && not (args.session_id == "")) ≡ true =
      ground (arith, eq_iff args.provider "", eq_iff args.session_id "") in
    let to : resolve_session workspace io.files.registry m.registry args.provider args.session_id
        ≡ ok (args.provider, args.session_id) =
      unfold resolve_session in rw named refl in
    elim (Bool-cases (loads io.files.permissions)) [
      | inr l ↦ rw (given, rp, rl, bound, pp, some_ids, to, l) (refl, tt)
      | inl l ↦
          rw (given, rp, rl, bound, pp, some_ids, to, l, scope)
            (grant_requested (saves io.files.permissions) w k _ _ _ m)
    ]
  where
    allow_given : (text : String) → trim_space text ≢ "" → (text == "") ≡ false
    allow_given text n = elim (Bool-cases (text == "")) [
      | inl e ↦
          let empty : text ≡ "" = ground (arith, e, eq_iff text "") in
          absurd (n (ap trim_space empty ∙ unfold trim_space in refl))
      | inr e ↦ e
    ]
