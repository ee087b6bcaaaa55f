-- ===== src/Daemonctl.antt =====
-- internal/daemonctl/daemonctl.go: the daemon as a background process, and the file with its PID. An
-- `int` is the native number that is 2^63 greater. What each call on the operating system does is an
-- argument. `os.FindProcess` never fails on the systems that the daemon runs on. An operation is one
-- step: no lock keeps two processes out of `Start` at once, and what they do in turns is not modelled.
pub mod Single
pub mod Recorded
pub mod Overlap
mod Tests
use awp.Common.{
  ℕ, suc, ◌+◌, String, Bool, true, false, Option, some, none, List, [], ◌∷◌, Result, ok, err, eqb,
  ◌||◌, ◌&&◌, not, if◌then◌else◌, keep,
}
use awp.Common.Text.{trim_space}
use awp.Common.Numbers.{bias, atoi, decimal}

-- The PID file, if it exists; the processes that take signal 0; and those of them that are daemons
-- which `Start` has launched.
pub record System : Type 0 where
  pub pid_file : Option String
  pub answers : ℕ → Bool
  pub daemons : List ℕ

pub data Error : Type 0 where
  unreadable invalid_pid no_log not_spawned no_directory not_written not_signalled : Error
  already_running : ℕ → Error

-- `os.WriteFile`: it writes the whole text, or it fails and leaves this.
pub data Write : Type 0 where
  wrote : Write
  left : Option String → Write

-- What the calls of one operation do. `spawn` is the PID of the process that is started, if one is.
pub record Calls : Type 0 where
  pub reads : Bool
  pub opens_log : Bool
  pub spawn : Option ℕ
  pub makes_directory : Bool
  pub write : Write
  pub signals : Bool
  pub removes : Bool

-- The process that a PID file names, if it is alive.
abbrev pub alive : (ℕ → Bool) → Option ℕ → Result Error (Option ℕ)
alive answers none = err invalid_pid
alive answers (some pid) = ok (if answers pid then some pid else none)

-- `RunningPID`: none for a file that is not there, or names no live process
unfoldable pub running_pid : Calls → System → Result Error (Option ℕ)
running_pid calls s =
    if not calls.reads
    then err unreadable
    else elim s.pid_file [ none ↦ ok none | some text ↦ alive s.answers (atoi (trim_space text)) ]

abbrev pub pid_text : ℕ → String
pid_text pid = decimal (suc pid) pid "\n"

-- A new process, a daemon.
abbrev pub launched : ℕ → System → System
launched pid s = record s {
  answers = λ p. eqb p (bias + pid) || s.answers p;
  daemons = (bias + pid) ∷ s.daemons;
}

-- `Start` from the write of the PID file on.
unfoldable pub record_pid : Write → ℕ → System → Result Error ℕ × System
record_pid wrote pid s = (ok (bias + pid), record s { pid_file = some (pid_text pid) })
record_pid (left text) pid s = (err not_written, record s { pid_file = text })

-- `Start` where no daemon is alive.
unfoldable pub launch : Calls → System → Result Error ℕ × System
launch calls s = if not calls.opens_log then (err no_log, s) else elim calls.spawn [
  | none ↦ (err not_spawned, s)
  | some pid ↦
      if not calls.makes_directory
      then (err no_directory, launched pid s)
      else record_pid calls.write pid (launched pid s)
]

-- `Start`
unfoldable pub start : Calls → System → Result Error ℕ × System
start calls s = elim (running_pid calls s) [
  | err e ↦ (err e, s)
  | ok (some pid) ↦ (err (already_running pid), s)
  | ok none ↦ launch calls s
]

-- `_ = os.Remove(pidPath)`
abbrev pub removed : Calls → System → System
removed calls s = if calls.removes then record s { pid_file = none } else s

-- `Stop`: the process that it sent SIGTERM, if it was alive. The process ends later, if at all.
unfoldable pub stop : Calls → System → Result Error (Option ℕ) × System
stop calls s = elim (running_pid calls s) [
  | err e ↦ (err e, s)
  | ok none ↦ (ok none, removed calls s)
  | ok (some pid) ↦
      if not calls.signals then (err not_signalled, s) else (ok (some pid), removed calls s)
]

-- `Status`
abbrev pub status : Calls → System → Result Error (Option ℕ)
status = running_pid

-- The process of a PID ends.
unfoldable pub ended : ℕ → System → System
ended pid s = record s {
  answers = λ p. not (eqb p pid) && s.answers p;
  daemons = keep (λ d. not (eqb d pid)) s.daemons;
}

-- Somebody else starts a process, which is given this PID.
unfoldable pub appeared : ℕ → System → System
appeared pid s = record s { answers = λ p. eqb p pid || s.answers p }
