-- ===== src/Updater/Waits.antt =====
-- internal/cli/update.go and internal/updater/updater.go: when the next automatic check is due.
use awp.Common.{
  ℕ, ◌+◌, ◌-◌, ◌*◌, ◌^◌, ◌≤◌, ◌<◌, String, true, false, Option, some, none, List, ◌∷◌, ◌++◌, Result,
  ok, err, ◌≡◌, ◌≢◌, refl, ap, ◌∙◌, arith, eq_iff, eq_refl, leb,
}
use awp.Common.Numbers.{bias}
use awp.Files as Files
use awp.Files.{
  File, Disk, Opened, contents_of, not_exist, other_error, put, replace, fill, atomic_write,
}
use awp.Files.Stores.{opened_file, opened}
use awp.Updater.Release.{Error}
use awp.Updater.Policy.{
  Policy, default_policy, is_invalid, load_policy, save_policy, hours_duration, elapsed, due,
}
use awp.Updater.Commands.{
  Program, Io, opened_policy, newest, check_and_install, checked_policy, update_now, base_version,
  run_automatic_update,
}

-- The calls of a `Save` none of which fails.
abbrev pub working : String → ℕ → Files.Calls
working written before_chmod = record {
  mkdir = true;
  create = true;
  chmod = true;
  encode = true;
  sync = true;
  close = true;
  rename = true;
  removes = true;
  written = written;
  before_chmod = before_chmod;
}

hour : (h : ℕ) → h * 3600000000000 < 2 ^ 63 → hours_duration (bias + h) ≡ bias + h * 3600000000000
unfolding hours_duration
hour h small = omega arith

long : (h : ℕ) → 2562048 ≤ h → h ≤ 5124095 → hours_duration (bias + h) < bias
unfolding hours_duration
long h low high = omega arith

-- The target after a `Save` none of whose calls fails.
atomic_write-working :
    (written path temp text : String) (mode : ℕ) (disk : Disk)
    → temp ≢ path
    → (d : Disk) × (ds : List Disk) × (atomic_write (working written mode) path temp text disk
        ≡ (ok tt, d ∷ ds))
      × (d path ≡ some (record { contents = text; mode = 0o600 }))
unfolding atomic_write fill replace
atomic_write-working written path temp text mode disk apart =
    (_, _, refl, ground (arith, eq_iff path temp, eq_refl path))

module _ (program : Program) where
  pub load_policy-valid :
      (o : Opened) (policy : Policy)
      → load_policy program.decode o ≡ ok policy
      → is_invalid policy ≡ false
  unfolding load_policy default_policy
  load_policy-valid not_exist policy h = cc
  load_policy-valid other_error policy h = absurd (cc)
  load_policy-valid (contents_of text) policy h = ground arith

  in_interval :
      (h checked later : ℕ)
      → h * 3600000000000 < 2 ^ 63
      → checked ≤ later
      → later - checked < h * 3600000000000
      → leb (bias + h * 3600000000000) (elapsed later checked) ≡ false
  unfolding elapsed
  in_interval h checked later small le lt = ground arith

  not_due :
      (policy : Policy) (h checked later : ℕ)
      → policy.interval_hours ≡ bias + h
      → h * 3600000000000 < 2 ^ 63
      → program.parse_time policy.last_checked_at ≡ some checked
      → checked ≤ later
      → later - checked < h * 3600000000000
      → due program.parse_time policy later ≡ false
  unfolding due
  not_due policy h checked later i small p le lt =
      rw (i, p, hour h small, in_interval h checked later small le lt) (ground arith)

  -- An interval of more than about 292 years is taken for a negative one: the conversion to a
  -- `time.Duration` wraps around, so that a check is due at any time after the last one. This holds of
  -- any enabled policy with an interval between 2,562,048 and 5,124,095 hours, and a time of the last
  -- check that is not in the future.
  pub due-long :
      (policy : Policy) (h last now : ℕ)
      → policy.enabled ≡ true
      → policy.interval_hours ≡ bias + h
      → 2562048 ≤ h
      → h ≤ 5124095
      → program.parse_time policy.last_checked_at ≡ some last
      → last ≤ now
      → due program.parse_time policy now ≡ true
  unfolding due elapsed
  due-long policy h last now enabled i low high p le =
      rw (i, p, enabled) (ground (arith, long h low high))

module _ (program : Program) (io : Io) where
  -- The policy after a check: when it was made, and the settings of before.
  abbrev pub Keeps : Policy → Policy → Type 0
  Keeps policy q =
      (q.last_checked_at ≡ program.format_time io.checked_at)
      × (q.interval_hours ≡ policy.interval_hours)
      × (q.enabled ≡ policy.enabled)
      × (q.version ≡ policy.version)

  checked_policy-Keeps :
      (r : Result Error (Option String)) (policy : Policy)
      → Keeps policy (checked_policy program io r policy)
  checked_policy-Keeps (ok (some v)) policy = (refl, refl, refl, refl)
  checked_policy-Keeps (ok none) policy = (refl, refl, refl, refl)
  checked_policy-Keeps (err e) policy = (refl, refl, refl, refl)

  module _ (path written : String) (mode : ℕ) (working_save : io.save ≡ working written mode)
      (apart : io.policy_temp ≢ path) where
    pub save_policy-loads :
        (q : Policy) (first disk : Disk) (states : List Disk)
        → program.decode (program.encode q) ≡ some q
        → is_invalid q ≡ false
        → load_policy program.decode (
            opened
              (newest first
                ((save_policy program.encode io.save path io.policy_temp q disk).1 ++ states))
              path)
          ≡ ok q
    unfolding save_policy load_policy
    save_policy-loads q first disk states codec valid =
        let (d, ds, run, file) =
          atomic_write-working written path io.policy_temp (program.encode q) mode disk apart in
        let saved : (save_policy program.encode io.save path io.policy_temp q disk).1 ≡ d ∷ ds =
          ap (λ c. (save_policy program.encode c path io.policy_temp q disk).1) working_save
          ∙ rw (valid, run) refl in
        ap (λ l. load_policy program.decode (opened (newest first (l ++ states)) path)) saved
        ∙ ap (λ f. load_policy program.decode (opened_file f)) file
        ∙ rw (codec, valid) refl

    -- After a check has been made, none is due until the interval is over.
    update_now-waits :
        (policy : Policy) (base : String) (disk : Disk)
        → ((q : Policy) → Keeps policy q → program.decode (program.encode q) ≡ some q)
        → is_invalid policy ≡ false
        → (q : Policy) × (load_policy program.decode
              (opened (newest disk (update_now program io path policy base disk).1) path)
            ≡ ok q)
          × Keeps policy q
    unfolding update_now
    update_now-waits policy base disk codec valid =
        let q = checked_policy program io (check_and_install program io base disk).0 policy in
        let keeps = checked_policy-Keeps (check_and_install program io base disk).0 policy in
        let states = (check_and_install program io base disk).1 in
        (
          q,
          save_policy-loads q disk (newest disk states) states (codec q keeps)
              (rw (keeps.1, keeps.3) valid),
          keeps,
        )

    -- The automatic update keeps to its interval. Where a check is due and no call of the save that
    -- follows it fails, then, whatever the check and the installation do, the policy file has a policy
    -- with the same settings, and no check is due before the interval since the check is over. This
    -- is for an interval of h hours that fits a `time.Duration`, a codec that reads back from
    -- their texts the policies with these settings, a format that reads back the time of the check, and a temporary file that is not the
    -- policy file.
    pub run_automatic_update-waits :
        (current : String) (policy : Policy) (disk : Disk) (h later : ℕ)
        → ((q : Policy) → Keeps policy q → program.decode (program.encode q) ≡ some q)
        → io.policy_path ≡ some path
        → load_policy program.decode (opened_policy program io disk path) ≡ ok policy
        → due program.parse_time policy io.now ≡ true
        → policy.interval_hours ≡ bias + h
        → h * 3600000000000 < 2 ^ 63
        → program.parse_time (program.format_time io.checked_at) ≡ some io.checked_at
        → io.checked_at ≤ later
        → later - io.checked_at < h * 3600000000000
        → (q : Policy) × (load_policy program.decode
              (opened (newest disk (run_automatic_update program io current disk).1) path)
            ≡ ok q)
          × (q.enabled ≡ policy.enabled)
          × (q.interval_hours ≡ policy.interval_hours)
          × (due program.parse_time q later ≡ false)
    unfolding run_automatic_update
    run_automatic_update-waits current policy disk h later codec found loaded now i small format le
          lt =
        let valid = load_policy-valid program _ policy loaded in
        let base = base_version current policy in
        let (q, reloaded, (checked, interval, enabled, _)) =
          update_now-waits policy base disk codec valid in
        let same : run_automatic_update program io current disk
            ≡ update_now program io path policy base disk =
          rw (found, loaded, now) refl in
        (
          q,
          ap (λ r. load_policy program.decode (opened (newest disk r.1) path)) same ∙ reloaded,
          enabled,
          interval,
          not_due program q h io.checked_at later (interval ∙ i) small
              (ap program.parse_time checked ∙ format) le lt,
        )
