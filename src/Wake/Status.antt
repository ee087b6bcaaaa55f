-- ===== src/Wake/Status.antt =====
-- The status texts of internal/wake/store.go: of a session's lifecycle, and of an event.
use awp.Common.{String}

abbrev pub idle : String
idle = "idle"

abbrev pub running : String
running = "running"

abbrev pub completed : String
completed = "completed"

abbrev pub failed : String
failed = "failed"

abbrev pub paused : String
paused = "paused"

abbrev pub waiting_approval : String
waiting_approval = "waiting_approval"

abbrev pub crashed : String
crashed = "crashed"

-- an event's status; the texts of the two terminal ones are `completed` and `failed`
abbrev pub pending : String
pending = "pending"
