-- ===== src/Adapters/Tests.antt =====
-- Adapters of bindings, and the theorem of them at a history.
use awp.Common.{[], ◌∷◌, ok, err, ◌≡◌, refl}
use awp.Sessions.{Binding}
use awp.Adapters.{command, codex, unsupported_adapter, resolve}

abbrev binding : Binding
binding = record {
  provider = "work";
  session_id = "s";
  adapter = "codex";
  runtime_session_id = "r";
  workspace = "";
  metadata = [];
  resume_command = [];
  created_at = "";
  updated_at = "";
}

runs :
    (resolve binding ≡ ok codex)
    × (resolve (record binding { adapter = "x"; resume_command = "x" ∷ [] }) ≡ ok command)
    × (resolve (record binding { adapter = "x" }) ≡ err (unsupported_adapter "x"))
unfolding resolve
runs = (refl, refl, refl)
