-- ===== src/Adapters.antt =====
-- internal/adapters/adapter.go: which adapter runs a binding. What an adapter then does is not
-- modelled.
pub mod Bound
mod Tests
use awp.Common.{String, Result, ok, err, is_empty, not, ◌==◌, if◌then◌else◌}
use awp.Sessions.{Binding}

pub data Adapter : Type 0 where
  command codex : Adapter

pub data Error : Type 0 where
  unsupported_adapter : String → Error

-- `Resolve`
unfoldable pub resolve : Binding → Result Error Adapter
resolve b =
    if not (is_empty b.resume_command)
    then ok command
    else if b.adapter == "codex"
    then ok codex
    else err (unsupported_adapter b.adapter)
