-- ===== src/Updater/Policy.antt =====
-- internal/updater/updater.go: the policy of automatic updates, its file, and when a check is due. A
-- Go `int` is the native number that is 2^63 greater; an instant is a number of nanoseconds since a
-- time before all that can be written. The JSON codec and the format of times are parameters.
use awp.Common.{
  ℕ, ◌+◌, ◌-◌, ◌*◌, ◌%◌, ◌^◌, String, Bool, true, false, Option, some, none, List, [], ◌∷◌, Result,
  ok, err, leb, ltb, ◌==◌, ◌||◌, not, if◌then◌else◌,
}
use awp.Common.Numbers.{bias}
use awp.Files as Files
use awp.Files.{Disk, Opened, contents_of, not_exist, other_error, atomic_write}
use awp.Updater.Release.{Error, policy_unread, policy_undecoded, invalid_policy, policy_unwritten}

-- `PolicyVersion`
abbrev pub version : String
version = "0.1"

pub record Policy : Type 0 where
  pub version : String
  pub enabled : Bool
  pub interval_hours : ℕ
  pub last_checked_at : String
  pub last_installed_version : String

-- `DefaultPolicy`
unfoldable pub default_policy : Policy
default_policy = record {
  version = version;
  enabled = false;
  interval_hours = bias + 24;
  last_checked_at = "";
  last_installed_version = "";
}

-- `IntervalHours < 1`, or another version
abbrev pub is_invalid : Policy → Bool
is_invalid p = not (p.version == version) || leb p.interval_hours bias

-- `LoadPolicy`; the decoder starts from the default policy
unfoldable pub load_policy : (String → Option Policy) → Opened → Result Error Policy
load_policy decode not_exist = ok default_policy
load_policy decode other_error = err policy_unread
load_policy decode (contents_of text) = elim (decode text) [
  | none ↦ err policy_undecoded
  | some policy ↦ if is_invalid policy then err invalid_policy else ok policy
]

abbrev pub unwritten {ℓ} : {A : Type ℓ} → Result Files.Error A → Result Error A
unwritten (err e) = err (policy_unwritten e)
unwritten (ok a) = ok a

-- `SavePolicy`
unfoldable pub save_policy :
    (Policy → String)
    → Files.Calls
    → String
    → String
    → Policy
    → Disk
    → Result Error (Unit {0}) × List Disk
save_policy encode calls path temp policy disk =
    let (result, states) = atomic_write calls path temp (encode policy) disk in
    if is_invalid policy then (err invalid_policy, disk ∷ []) else (unwritten result, states)

abbrev pub word : ℕ
word = 2 ^ 64

-- `time.Duration(hours) * time.Hour`, which wraps around
unfoldable pub hours_duration : ℕ → ℕ
hours_duration hours = ((hours + bias) % word * 3600000000000 + bias) % word

-- `now.Sub(last)`, which stops at the ends of `time.Duration`
unfoldable pub elapsed : ℕ → ℕ → ℕ
elapsed now last =
    if leb last now
    then (if ltb (now - last) bias then bias + (now - last) else bias + (bias - 1))
    else bias - (last - now)

abbrev pub due_since : ℕ → ℕ → Option ℕ → Bool
due_since hours now none = true
due_since hours now (some last) = leb (hours_duration hours) (elapsed now last)

-- `Due`
unfoldable pub due : (String → Option ℕ) → Policy → ℕ → Bool
due parse_time policy now =
    if not policy.enabled
    then false
    else due_since policy.interval_hours now (parse_time policy.last_checked_at)
