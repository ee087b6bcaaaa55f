-- ===== src/Daemonctl/Single.antt =====
-- internal/daemonctl/daemonctl.go: how many daemons are alive, over histories of `Start`, `Stop` and
-- of processes that end and appear.
use awp.Common.{
  ℕ, ◌+◌, ◌<◌, true, Option, some, none, List, [], ◌∷◌, Result, ok, err, eqb, ◌≡◌, refl, sym, ◌∙◌,
  subst, arith, inl, inr, Bool-cases, Option-cases, Result-cases, All,
}
use awp.Common.Numbers.{bias}
use awp.Daemonctl.{
  System, Calls, Error, wrote, running_pid, record_pid, launch, start, removed, stop, status, ended,
  appeared,
}
use awp.Daemonctl.Recorded.{IsRecorded, IsRecorded-running, IsRecorded-running_or_unreadable}

-- `stops` is a `Stop` whose process has ended before the next event.
pub data Event : Type 0 where
  starts stops : Calls → Event
  ends appears : ℕ → Event

abbrev pub stopped : Result Error (Option ℕ) × System → System
stopped (err e, s) = s
stopped (ok none, s) = s
stopped (ok (some pid), s) = ended pid s

unfoldable pub step : Event → System → System
step (starts calls) s = (start calls s).1
step (stops calls) s = stopped (stop calls s)
step (ends p) s = ended p s
step (appears p) s = appeared p s

unfoldable pub run : List Event → System → System
run [] s = s
run (e ∷ es) s = run es (step e s)

abbrev pub Fits : Option ℕ → Type 0
Fits none = Unit
Fits (some pid) = pid < bias

-- A `Start` can write its PID file, and its PID fits an `int`.
abbrev pub IsOrderly : Event → Type 0
IsOrderly (starts calls) = (calls.makes_directory ≡ true) × (calls.write ≡ wrote) × Fits calls.spawn
IsOrderly (stops calls) = Unit
IsOrderly (ends p) = Unit
IsOrderly (appears p) = Unit

-- No daemon is alive, or one is, and the PID file names it.
pub data IsSingle (s : System) : Type 0 where
  idle : s.daemons ≡ [] → IsSingle s
  one : (pid : ℕ) → pid < bias → s.daemons ≡ (bias + pid) ∷ [] → IsRecorded pid s → IsSingle s

launch-IsSingle :
    (calls : Calls) (s : System)
    → s.daemons ≡ []
    → IsOrderly (starts calls)
    → IsSingle (launch calls s).1
unfolding launch record_pid
launch-IsSingle calls s d o = elim (Bool-cases calls.opens_log) [
  | inr f ↦ rw (f, launch) (idle d)
  | inl f ↦ elim (Option-cases calls.spawn) [
    | inl e ↦ rw (f, e, launch) (idle d)
    | inr (pid, e) ↦
        rw (f, e, o.0, o.1, launch)
          (one pid (rw e at o.2) (rw d) (record { file = refl; answers = ground arith }))
  ]
]

start-IsSingle :
    (calls : Calls) (s : System)
    → IsOrderly (starts calls)
    → IsSingle s
    → IsSingle (start calls s).1
unfolding start
start-IsSingle calls s o v = elim (Result-cases (running_pid calls s)) [
  | inr (x, f) ↦ rw (f, start) v
  | inl (some p, f) ↦ rw (f, start) v
  | inl (none, f) ↦ rw (f, start) (free v f)
]
  where
    free : IsSingle s → running_pid calls s ≡ ok none → IsSingle (launch calls s).1
    free (idle d) f = launch-IsSingle calls s d o
    free (one pid h d r) f = elim (IsRecorded-running_or_unreadable calls s pid h r) [
      | inl e ↦ absurd (cc (e, f))
      | inr e ↦ absurd (cc (e, f))
    ]

-- A daemon that ends leaves none.
ended-IsSingle : (p : ℕ) (s : System) → IsSingle s → IsSingle (ended p s)
unfolding ended
ended-IsSingle p s (idle d) = idle (rw d)
ended-IsSingle p s (one pid h d r) = elim (Bool-cases (eqb (bias + pid) p)) [
  | inl e ↦ idle (rw (d, e))
  | inr e ↦ one pid h (rw (d, e)) (record { file = r.file; answers = ground (arith, e, r.answers) })
]

ended-none : (pid : ℕ) (s : System) → s.daemons ≡ pid ∷ [] → (ended pid s).daemons ≡ []
unfolding ended
ended-none pid s d = rw d (ground arith)

removed-daemons : (calls : Calls) (s : System) → (removed calls s).daemons ≡ s.daemons
removed-daemons calls s = ground arith

stop-IsSingle : (calls : Calls) (s : System) → IsSingle s → IsSingle (stopped (stop calls s))
unfolding stop
stop-IsSingle calls s (one pid h d r) = elim (IsRecorded-running_or_unreadable calls s pid h r) [
  | inr e ↦ rw (e, stop) (one pid h d r)
  | inl e ↦ elim (Bool-cases calls.signals) [
    | inl f ↦
        rw (e, f, stop)
          (idle (ended-none (bias + pid) (removed calls s) (removed-daemons calls s ∙ d)))
    | inr f ↦ rw (e, f, stop) (one pid h d r)
  ]
]
stop-IsSingle calls s (idle d) = elim (Result-cases (running_pid calls s)) [
  | inr (x, e) ↦ rw (e, stop) (idle d)
  | inl (none, e) ↦ rw (e, stop) (idle (removed-daemons calls s ∙ d))
  | inl (some p, e) ↦ elim (Bool-cases calls.signals) [
    | inl f ↦
        rw (e, f, stop) (ended-IsSingle p (removed calls s) (idle (removed-daemons calls s ∙ d)))
    | inr f ↦ rw (e, f, stop) (idle d)
  ]
]

appeared-IsSingle : (p : ℕ) (s : System) → IsSingle s → IsSingle (appeared p s)
unfolding appeared
appeared-IsSingle p s (idle d) = idle d
appeared-IsSingle p s (one pid h d r) =
    one pid h d (record { file = r.file; answers = ground (arith, r.answers) })

step-IsSingle : (e : Event) (s : System) → IsOrderly e → IsSingle s → IsSingle (step e s)
unfolding step
step-IsSingle (starts calls) s o v = start-IsSingle calls s o v
step-IsSingle (stops calls) s o v = stop-IsSingle calls s v
step-IsSingle (ends p) s o v = ended-IsSingle p s v
step-IsSingle (appears p) s o v = appeared-IsSingle p s v

run-IsSingle : (es : List Event) (s : System) → All IsOrderly es → IsSingle s → IsSingle (run es s)
unfolding run
run-IsSingle [] s o v = v
run-IsSingle (e ∷ es) s o v = run-IsSingle es (step e s) o.1 (step-IsSingle e s o.0 v)

-- What `Status` reports of the daemons that are alive.
abbrev pub Reported : List ℕ → System → Type 0
Reported [] s = Unit
Reported (d ∷ []) s = (calls : Calls) → calls.reads ≡ true → status calls s ≡ ok (some d)
Reported (d ∷ d' ∷ ds) s = ⊥

IsSingle-Reported : (s : System) → IsSingle s → Reported s.daemons s
IsSingle-Reported s (idle d) = subst (λ ds. Reported ds s) (sym d) tt
IsSingle-Reported s (one pid h d r) =
    subst (λ ds. Reported ds s) (sym d) (λ calls k. IsRecorded-running calls s pid h k r)

-- There is never a second daemon. Start with no daemon, whatever the PID file then says, and let
-- there be any history of `Start`, `Stop` and of processes that end and appear, PIDs used again
-- included. If each `Start` can write its PID file, each PID fits an `int`, and each `Stop` is followed by the end of the
-- process before anything else happens, then at most one daemon is alive, and if one is, `Status`
-- reports it whenever the PID file can be read.
pub single_daemon :
    (es : List Event) (s : System)
    → s.daemons ≡ []
    → All IsOrderly es
    → Reported (run es s).daemons (run es s)
single_daemon es s d o = IsSingle-Reported (run es s) (run-IsSingle es s o (idle d))
