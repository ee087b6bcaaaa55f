-- ===== src/Daemonctl/Overlap.antt =====
-- internal/daemonctl/daemonctl.go: histories in which `Start` launches a daemon beside another one.
use awp.Common.{ℕ, ◌+◌, ◌<◌, true, some, none, ◌∷◌, ok, err, ◌≡◌, refl}
use awp.Common.Numbers.{bias}
use awp.Daemonctl.{
  System, Calls, wrote, left, not_written, running_pid, launched, record_pid, launch, start, stop,
}
use awp.Daemonctl.Recorded.{IsRecorded, IsRecorded-running}

-- The calls up to the new process succeed.
pub record Launches (pid : ℕ) (calls : Calls) : Type 0 where
  pub readable : calls.reads ≡ true
  pub logged : calls.opens_log ≡ true
  pub spawned : calls.spawn ≡ some pid

start-no_file :
    (calls : Calls) (s : System) (pid : ℕ)
    → Launches pid calls
    → s.pid_file ≡ none
    → calls.makes_directory ≡ true
    → start calls s ≡ record_pid calls.write pid (launched pid s)
unfolding start running_pid launch
start-no_file calls s pid l f m =
    let idle : running_pid calls s ≡ ok none = rw (l.readable, f, running_pid) in
    rw (idle, start) (rw (l.logged, l.spawned, m, launch))

-- A `Start` that cannot write its PID file leaves a daemon that the next one does not see. If there was
-- no PID file, and `Start` launches the process, but the write of the file fails and leaves none, then
-- it returns an error with the daemon running; and a second `Start`, all of whose calls succeed,
-- launches another daemon beside the first.
pub start_unrecorded :
    (calls later : Calls) (s : System) (pid pid' : ℕ)
    → Launches pid calls
    → Launches pid' later
    → s.pid_file ≡ none
    → calls.makes_directory ≡ true
    → calls.write ≡ left none
    → later.makes_directory ≡ true
    → later.write ≡ wrote
    → let r = start calls s in
      (r.0 ≡ err not_written)
      × (r.1.daemons ≡ (bias + pid) ∷ s.daemons)
      × ((start later r.1).0 ≡ ok (bias + pid'))
      × ((start later r.1).1.daemons ≡ (bias + pid') ∷ (bias + pid) ∷ s.daemons)
unfolding record_pid
start_unrecorded calls later s pid pid' l l' f m w m' w' =
    let first = start-no_file calls s pid l f m in
    let second =
      start-no_file later (record (launched pid s) { pid_file = none }) pid' l' refl m' in
    rw (first, w) (refl, refl, rw (second, w'), rw (second, w'))

-- `Stop` removes the PID file at once, while the daemon that it has signalled may still be running:
-- a `Start` before that one ends launches another daemon beside it.
pub stop_then_start :
    (calls later : Calls) (s : System) (pid pid' : ℕ)
    → pid < bias
    → IsRecorded pid s
    → calls.reads ≡ true
    → calls.signals ≡ true
    → calls.removes ≡ true
    → Launches pid' later
    → later.makes_directory ≡ true
    → later.write ≡ wrote
    → let r = stop calls s in
      (r.0 ≡ ok (some (bias + pid)))
      × (r.1.answers (bias + pid) ≡ true)
      × ((start later r.1).0 ≡ ok (bias + pid'))
      × ((start later r.1).1.daemons ≡ (bias + pid') ∷ s.daemons)
unfolding record_pid stop
stop_then_start calls later s pid pid' h k r q d l m w =
    let running = IsRecorded-running calls s pid h r k in
    let second = start-no_file later (record s { pid_file = none }) pid' l refl m in
    rw (running, q, d, stop) (refl, k.answers, rw (second, w), rw (second, w))
