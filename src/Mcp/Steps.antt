-- ===== src/Mcp/Steps.antt =====
-- internal/mcpserver/server.go: a tool as a chain of steps on the machine.
use awp.Mcp.{Machine, Error}
use awp.Common.Steps.{Step}
pub use awp.Common.Steps.{next, ◌>>=◌, ◌>>◌, return, fail_if, read, try, save}

abbrev pub Tool : Type 0 → Type 0
Tool A = Step Machine Error A
