-- ===== src/Daemonctl/Recorded.antt =====
-- internal/daemonctl/daemonctl.go: the PID file of a daemon that `Start` has launched.
use awp.Common.{
  ℕ, ◌+◌, ◌<◌, true, some, none, List, [], ◌∷◌, ok, err, if◌then◌else◌, ◌≡◌, ◌≢◌, ◌⊎◌, sym, ◌∙◌, ap,
  subst, arith, inl, inr, Bool-cases, Result-cases, All,
}
use awp.Common.Numbers.{bias, atoi-trim_space-decimal}
use awp.Daemonctl.{
  System, Calls, already_running, unreadable, Write, wrote, left, alive, running_pid, pid_text,
  launched, record_pid, launch, start, removed, stop, status, ended, appeared,
}

pub running_pid-pid_text :
    (calls : Calls) (s : System) (pid : ℕ)
    → pid < bias
    → calls.reads ≡ true
    → s.pid_file ≡ some (pid_text pid)
    → running_pid calls s ≡ ok (if s.answers (bias + pid) then some (bias + pid) else none)
unfolding running_pid
running_pid-pid_text calls s pid h r e =
    rw (r, e, running_pid) (ap (alive s.answers) (atoi-trim_space-decimal pid h))

-- What other processes do.
pub data Event : Type 0 where
  ends appears : ℕ → Event

abbrev pub others : List Event → System → System
others [] s = s
others (ends p ∷ es) s = others es (ended p s)
others (appears p ∷ es) s = others es (appeared p s)

abbrev pub Spares : ℕ → Event → Type 0
Spares pid (ends p) = p ≢ pid
Spares pid (appears p) = Unit

-- The PID file names `pid`, and its process is alive.
pub record IsRecorded (pid : ℕ) (s : System) : Type 0 where
  pub file : s.pid_file ≡ some (pid_text pid)
  pub answers : s.answers (bias + pid) ≡ true

others-IsRecorded :
    (pid : ℕ) (es : List Event) (s : System)
    → All (Spares (bias + pid)) es
    → IsRecorded pid s
    → IsRecorded pid (others es s)
unfolding ended appeared
others-IsRecorded pid [] s a r = r
others-IsRecorded pid (ends p ∷ es) s a r =
    others-IsRecorded pid es (ended p s) a.1
      (record { file = r.file; answers = ground (arith, a.0, r.answers) })
others-IsRecorded pid (appears p ∷ es) s a r =
    others-IsRecorded pid es (appeared p s) a.1
      (record { file = r.file; answers = ground (arith, r.answers) })

pub IsRecorded-running :
    (calls : Calls) (s : System) (pid : ℕ)
    → pid < bias
    → calls.reads ≡ true
    → IsRecorded pid s
    → running_pid calls s ≡ ok (some (bias + pid))
IsRecorded-running calls s pid h r k = running_pid-pid_text calls s pid h r k.file ∙ rw k.answers

pub IsRecorded-running_or_unreadable :
    (calls : Calls) (s : System) (pid : ℕ)
    → pid < bias
    → IsRecorded pid s
    → (running_pid calls s ≡ ok (some (bias + pid))) ⊎ (running_pid calls s ≡ err unreadable)
unfolding running_pid
IsRecorded-running_or_unreadable calls s pid h k = elim (Bool-cases calls.reads) [
  | inl r ↦ inl (IsRecorded-running calls s pid h r k)
  | inr r ↦ inr (rw (r, running_pid))
]

pub launch-IsRecorded :
    (calls : Calls) (s s' : System) (pid n : ℕ)
    → calls.spawn ≡ some pid
    → launch calls s ≡ (ok n, s')
    → (n ≡ bias + pid) × IsRecorded pid s'
unfolding launch record_pid
launch-IsRecorded calls s s' pid n e h = elim (Bool-cases calls.opens_log) [
  | inr f ↦ absurd (ground (arith, f, h))
  | inl f ↦ elim (Bool-cases calls.makes_directory) [
    | inr g ↦ absurd (ground (arith, e, f, g, h))
    | inl g ↦ written calls.write (rw (e, f, g, launch) at h)
  ]
]
  where
    written :
        (w : Write)
        → record_pid w pid (launched pid s) ≡ (ok n, s')
        → (n ≡ bias + pid) × IsRecorded pid s'
    written wrote k = ground (arith, k)
    written (left t) k = absurd (cc)

-- A daemon that `Start` has launched, with a PID that fits an `int`, is found. Whatever processes
-- end and appear, as long as its own does not end, `Status` reports it, another `Start` is refused
-- and changes nothing, and `Stop` signals it, if the PID file can be read and the signal can be
-- sent.
pub start_found :
    (calls later : Calls) (es : List Event) (s s' : System) (pid n : ℕ)
    → calls.spawn ≡ some pid
    → pid < bias
    → start calls s ≡ (ok n, s')
    → All (Spares n) es
    → later.reads ≡ true
    → later.signals ≡ true
    → let t = others es s' in
      (n ≡ bias + pid)
      × (status later t ≡ ok (some n))
      × (start later t ≡ (err (already_running n), t))
      × (stop later t ≡ (ok (some n), removed later t))
unfolding start stop
start_found calls later es s s' pid n e h k a r q = elim (Result-cases (running_pid calls s)) [
  | inr (x, f) ↦ absurd (cc (rw (f, start) at k))
  | inl (some p, f) ↦ absurd (cc (rw (f, start) at k))
  | inl (none, f) ↦
      let (same, recorded) = launch-IsRecorded calls s s' pid n e (rw (f, start) at k) in
      let spared = subst (λ m. All (Spares m) es) same a in
      let found =
        IsRecorded-running later (others es s') pid h r
          (others-IsRecorded pid es s' spared recorded) in
      let found' : running_pid later (others es s') ≡ ok (some n) =
        found ∙ ap (λ m. ok (some m)) (sym same) in
      (same, found', rw (found', start), rw (found', stop) (rw q))
]
