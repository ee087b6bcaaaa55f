-- ===== src/Sessions.antt =====
-- internal/sessions/registry.go: the local bindings of provider sessions to agent runtimes.
-- `filepath.Abs`, which may fail, is a parameter of the operation that calls it.
pub mod Lookup
pub mod History
pub mod Refinement
pub mod Listing
mod Tests
use awp.Common.{
  String, Bool, true, false, Option, some, none, List, [], ◌∷◌, Result, ok, err, ◌>>=◌, ◌>>◌,
  fail_if, is_some, is_empty, remove_at, keep, ◌==◌, ◌&&◌, ◌||◌, not, if◌then◌else◌,
}
use awp.Common.Text.{trim_space, contains_any}
use awp.Common.Order.{text_lt}
use awp.Common.Sort.{sort_by}
use awp.Common.Keyed.{find_first, upsert}

abbrev pub version : String
version = "0.2"

-- A metadata value is a JSON text.
pub record Binding : Type 0 where
  pub provider : String
  pub session_id : String
  pub adapter : String
  pub runtime_session_id : String
  pub workspace : String
  pub metadata : List (String × String)
  pub resume_command : List String
  pub created_at : String
  pub updated_at : String

pub record Registry : Type 0 where
  pub version : String
  pub bindings : List Binding

abbrev pub new_registry : Registry
new_registry = record { version = version; bindings = [] }

pub data Error : Type 0 where
  provider_required session_required adapter_required newline runtime_session_required : Error
  unsupported_adapter : String → Error
  bad_workspace : Error

abbrev pub is_key : String → String → Binding → Bool
is_key provider session_id b = b.provider == provider && b.session_id == session_id

unfoldable pub any_newline : List String → Bool
any_newline [] = false
any_newline (token ∷ tokens) = contains_any token "\r\n" || any_newline tokens

-- `Get`
unfoldable pub get : Registry → String → String → Option Binding
get registry provider session_id = find_first (is_key provider session_id) registry.bindings

-- The binding as it is stored: a binding that replaces one keeps its `created_at`.
abbrev pub stamped : String → Option Binding → Binding → Binding
stamped now none b = record b { created_at = now; updated_at = now }
stamped now (some old) b = record b { created_at = old.created_at; updated_at = now }

module _ (absolute : String → Option String) where
  unfoldable pub resolve_workspace : Binding → Result Error Binding
  resolve_workspace b = if b.workspace == "" then ok b else elim (absolute b.workspace) [
    | none ↦ err bad_workspace
    | some path ↦ ok (record b { workspace = path })
  ]

  -- The checks of `Bind`, and the binding with its workspace resolved.
  unfoldable pub checked : Binding → Result Error Binding
  checked b = do
    fail_if (trim_space b.provider == "") provider_required
    fail_if (trim_space b.session_id == "") session_required
    fail_if (trim_space b.adapter == "") adapter_required
    fail_if (is_empty b.resume_command && not (b.adapter == "codex"))
        (unsupported_adapter b.adapter)
    fail_if (any_newline b.resume_command) newline
    fail_if (trim_space b.runtime_session_id == "") runtime_session_required
    resolve_workspace b

  -- The loop over `registry.Bindings`, and the append behind it.
  unfoldable pub put : String → Registry → Binding → Binding × Registry
  put now registry b =
      let b' = stamped now (get registry b.provider b.session_id) b in
      (
        b',
        record registry { bindings = upsert (is_key b.provider b.session_id) b' registry.bindings },
      )

  -- `Bind`
  unfoldable pub bind : String → Registry → Binding → Result Error Binding × Registry
  bind now registry b = elim (checked b) [
    | err e ↦ (err e, registry)
    | ok c ↦ let (b', registry') = put now registry c in (ok b', registry')
  ]

-- The bindings without the first one that has the key.
unfoldable pub remove_first : String → String → List Binding → List Binding
remove_first provider session_id [] = []
remove_first provider session_id (b ∷ bs) =
    let rest = remove_first provider session_id bs in
    if is_key provider session_id b then bs else b ∷ rest

-- `Remove`
unfoldable pub remove : Registry → String → String → Bool × Registry
remove registry provider session_id = (
  is_some (find_first (is_key provider session_id) registry.bindings),
  record registry { bindings = remove_first provider session_id registry.bindings },
)

abbrev pub binding_lt : Binding → Binding → Bool
binding_lt a b =
    if a.provider == b.provider
    then text_lt a.session_id b.session_id
    else text_lt a.provider b.provider

-- `List`
unfoldable pub list : Registry → String → List Binding
list registry provider =
    sort_by binding_lt (keep (λ b. provider == "" || b.provider == provider) registry.bindings)
