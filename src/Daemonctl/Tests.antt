-- ===== src/Daemonctl/Tests.antt =====
-- Starts and stops of a daemon, and the theorems of them at concrete systems.
use awp.Common.{ℕ, ◌+◌, true, false, some, none, List, [], ◌∷◌, ok, err, ◌≡◌, refl, arith}
use awp.Common.Text.{is_space, trim_left, trim_right, trim_space}
use awp.Common.Numbers.{bias, digits, atoi, decimal}
use awp.Daemonctl.{
  System, Calls, wrote, left, not_written, invalid_pid, already_running, running_pid, record_pid,
  launch, start, removed, stop, status, ended, appeared,
}
use awp.Daemonctl.Recorded.{Event, ends, appears, others, start_found}
use awp.Daemonctl.Single.{starts, stops, step, run, Reported, single_daemon}
use awp.Daemonctl.Single as Single
use awp.Daemonctl.Overlap.{start_unrecorded, stop_then_start}

program : Unit {0}
unfolding is_space trim_left trim_right trim_space digits atoi decimal running_pid record_pid launch
    start stop ended appeared step run
program = tt

abbrev empty : System
empty = record { pid_file = none; answers = λ p. false; daemons = [] }

abbrev calls : ℕ → Calls
calls pid = record {
  reads = true;
  opens_log = true;
  spawn = some pid;
  makes_directory = true;
  write = wrote;
  signals = true;
  removes = true;
}

abbrev no_write : Calls
no_write = record (calls 42) { write = left none }

abbrev started : System
started = (start (calls 42) empty).1

runs :
    ((start (calls 42) empty).0 ≡ ok (bias + 42))
    × (started.pid_file ≡ some "42\n")
    × (status (calls 1) started ≡ ok (some (bias + 42)))
    × ((start (calls 7) started).0 ≡ err (already_running (bias + 42)))
    × ((stop (calls 7) started).0 ≡ ok (some (bias + 42)))
    × ((stop (calls 7) (ended (bias + 42) started)).0 ≡ ok none)
    × (status (calls 1) (record empty { pid_file = some "x" }) ≡ err invalid_pid)
unfolding program
runs = (refl, refl, refl, refl, refl, refl, refl)

abbrev events : List Event
events = appears 5 ∷ ends 5 ∷ []

start_found_example :
    let t = others events started in
    (◌≡◌ {A = ℕ} (bias + 42) (bias + 42))
    × (status (calls 1) t ≡ ok (some (bias + 42)))
    × (start (calls 1) t ≡ (err (already_running (bias + 42)), t))
    × (stop (calls 1) t ≡ (ok (some (bias + 42)), removed (calls 1) t))
unfolding program
start_found_example =
    start_found (calls 42) (calls 1) events empty started 42 (bias + 42) refl (omega arith) refl
      (tt, (omega arith, tt)) refl refl

abbrev history : List Single.Event
history =
    starts (calls 42)
    ∷ starts (calls 43)
    ∷ stops (calls 1)
    ∷ Single.appears (bias + 42)
    ∷ starts (calls 44)
    ∷ []

single_daemon_example : Reported (run history empty).daemons (run history empty)
single_daemon_example = single_daemon history empty refl (
  (refl, refl, omega arith),
  ((refl, refl, omega arith), (tt, (tt, ((refl, refl, omega arith), tt)))),
)

start_unrecorded_example :
    let r = start no_write empty in
    (r.0 ≡ err not_written)
    × (r.1.daemons ≡ (bias + 42) ∷ [])
    × ((start (calls 43) r.1).0 ≡ ok (bias + 43))
    × ((start (calls 43) r.1).1.daemons ≡ (bias + 43) ∷ (bias + 42) ∷ [])
start_unrecorded_example =
    start_unrecorded no_write (calls 43) empty 42 43
      (record { readable = refl; logged = refl; spawned = refl })
      (record { readable = refl; logged = refl; spawned = refl }) refl refl refl refl refl

stop_then_start_example :
    let r = stop (calls 1) started in
    (r.0 ≡ ok (some (bias + 42)))
    × (r.1.answers (bias + 42) ≡ true)
    × ((start (calls 43) r.1).0 ≡ ok (bias + 43))
    × ((start (calls 43) r.1).1.daemons ≡ (bias + 43) ∷ started.daemons)
unfolding program
stop_then_start_example =
    stop_then_start (calls 1) (calls 43) started 42 43 (omega arith)
      (record { file = refl; answers = refl }) refl refl refl
      (record { readable = refl; logged = refl; spawned = refl }) refl refl
