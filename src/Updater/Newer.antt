-- ===== src/Updater/Newer.antt =====
-- internal/cli/update.go: which version `runAutomaticUpdate` installs.
use awp.Common.{
  ℕ, String, true, Option, some, none, List, Result, ok, err, ◌≡◌, ◌⊎◌, inl, inr, refl, ap, ◌∙◌,
  subst, arith, >>=-eq-ok, fail_if-then, ok-injective, Bool-cases, ◌==◌, not, eq_iff, is_some,
}
use awp.Files.{Bytes, Disk}
use awp.Updater.{Comparison, less, equal, greater, parse_version, compare_versions}
use awp.Updater.Fields.{trim_v, has_suffix}
use awp.Updater.Release.{
  Client, Web, Formats, Error, Status, bad_version, latest, check, available, is_greater,
}
use awp.Updater.Install.{verified, target, install_binary, install}
use awp.Updater.Policy.{Policy, load_policy, due}
use awp.Updater.Commands.{
  Program, Io, opened_policy, install_latest, installed_version, install_newer, check_and_install,
  update_now, report, base_version, update_if_due, update_by_policy, run_automatic_update,
}
use awp.Updater.Verified.{IsVerified, verified-IsVerified}

-- Newer than a version, unless that is a development version or unknown.
abbrev pub IsNewer : String → String → Type 0
IsNewer base version =
    (base ≡ "")
    ⊎ ((has_suffix base "-dev" ≡ true) ⊎ (compare_versions version (trim_v base) ≡ some greater))

is_greater-ok : (c : Option Comparison) → is_greater c ≡ ok true → c ≡ some greater
is_greater-ok none h = absurd (cc)
is_greater-ok (some less) h = absurd (cc)
is_greater-ok (some equal) h = absurd (cc)
is_greater-ok (some greater) h = refl

available-IsNewer :
    (base version : String) → available base version ≡ ok true → IsNewer base version
unfolding available
available-IsNewer base version h = elim (Bool-cases (base == "")) [
  | inl e ↦ inl (ground (arith, eq_iff base ""))
  | inr e ↦ elim (Bool-cases (has_suffix base "-dev")) [
    | inl d ↦ inr (inl d)
    | inr d ↦ inr (inr (is_greater-ok (compare_versions version (trim_v base)) (ground arith)))
  ]
]

check-IsNewer :
    (formats : Formats) (web : Web) (client : Client) (base : String) (status : Status)
    → check formats web client base ≡ ok status
    → status.update_available ≡ true
    → IsNewer base status.latest_version
unfolding check
check-IsNewer formats web client base status h a =
    let (release, _, h1) = >>=-eq-ok (latest formats web client) _ h in
    let version = trim_v release.tag_name in
    let (_, h2) = fail_if-then (not (is_some (parse_version version))) (bad_version version) _ h1 in
    let (newer, v, h3) = >>=-eq-ok (available base version) _ h2 in
    let same = ok-injective h3 in
    let flag : newer ≡ true = ap (λ s. s.update_available) same ∙ a in
    subst (IsNewer base) (ap (λ s. s.latest_version) same)
      (available-IsNewer base version (v ∙ ap ok flag))

module _ (program : Program) (io : Io) where
  -- The version of a release whose archive the program has downloaded and checked.
  abbrev pub Downloaded : String → Type 0
  Downloaded version =
      (binary : Bytes) × IsVerified program.formats io.web program.platform program.client
        (trim_v version) binary

  install_binary-ok :
      (version temp : String) (disk : Disk) (b : Result Error Bytes) (path : Result Error String)
      → verified program.formats io.web program.platform program.client version ≡ b
      → (install_binary io.install temp disk b path).0 ≡ ok tt
      → Downloaded version
  install_binary-ok version temp disk (err e) path v h = absurd (cc)
  install_binary-ok version temp disk (ok binary) path v h = (
    binary,
    verified-IsVerified program.formats io.web program.platform program.client version binary v,
  )

  install-Downloaded :
      (version executable temp : String) (disk : Disk)
      → (install program.formats io.web program.platform program.client io.install version
          executable temp disk).0
        ≡ ok tt
      → Downloaded version
  unfolding install
  install-Downloaded version executable temp disk h =
      install_binary-ok version temp disk _ (target io.install executable) refl h

  installed_version-ok :
      (version v : String) (r : Result Error (Unit {0}) × List Disk)
      → (installed_version version r).0 ≡ ok (some v)
      → (r.0 ≡ ok tt) × (version ≡ v)
  installed_version-ok version v (err e, states) h = absurd (cc)
  installed_version-ok version v (ok u, states) h = (refl, cc)

  -- What is true of a version that was installed over another one.
  abbrev pub Updates : String → String → Type 0
  Updates base version = IsNewer base version × Downloaded version

  install_newer-Updates :
      (base v : String) (disk : Disk) (executable : Option String) (c : Result Error Status)
      → check program.formats io.web program.client base ≡ c
      → (install_newer program io disk executable c).0 ≡ ok (some v)
      → Updates base v
  install_newer-Updates base v disk executable (err e) g h = absurd (cc)
  install_newer-Updates base v disk none (ok status) g h = absurd (ground arith)
  install_newer-Updates base v disk (some path) (ok status) g h =
      elim (Bool-cases status.update_available) [
        | inr a ↦ absurd (ground arith)
        | inl a ↦
            let r = install_latest program io status.latest_version path disk in
            let done : (installed_version status.latest_version r).0 ≡ ok (some v) = ground arith in
            let (installed, same) = installed_version-ok status.latest_version v r done in
            (
              subst (IsNewer base) same
                  (check-IsNewer program.formats io.web program.client base status g a),
              subst Downloaded same
                  (install-Downloaded status.latest_version path io.install_temp disk installed),
            )
      ]

  report-installed :
      (r : Result Error (Option String)) (saved : Result Error (Unit {0})) (v : String)
      → (report r saved).0 ≡ some v
      → r ≡ ok (some v)
  report-installed (err e) saved v h = absurd (cc)
  report-installed (ok version) (err e) v h = ap ok h
  report-installed (ok version) (ok u) v h = ap ok h

  -- What `runAutomaticUpdate` has found when it installs a version.
  pub record IsAutomatic (current v : String) (disk : Disk) : Type 0 where
    pub path : String
    pub policy : Policy
    pub found : io.policy_path ≡ some path
    pub loaded : load_policy program.decode (opened_policy program io disk path) ≡ ok policy
    pub wanted : policy.enabled ≡ true
    pub in_time : due program.parse_time policy io.now ≡ true
    pub newer : IsNewer (base_version current policy) v
    pub downloaded : Downloaded v

  due-enabled :
      (policy : Policy) (now : ℕ) → due program.parse_time policy now ≡ true → policy.enabled ≡ true
  unfolding due
  due-enabled policy now h = ground arith

  update_if_due-IsAutomatic :
      (current v path : String) (disk : Disk) (p : Result Error Policy)
      → io.policy_path ≡ some path
      → load_policy program.decode (opened_policy program io disk path) ≡ p
      → (update_if_due program io current path disk p).0.0 ≡ some v
      → IsAutomatic current v disk
  unfolding update_now check_and_install
  update_if_due-IsAutomatic current v path disk (err e) f l h = absurd (cc)
  update_if_due-IsAutomatic current v path disk (ok policy) f l h =
      elim (Bool-cases (due program.parse_time policy io.now)) [
        | inr d ↦ absurd (ground arith)
        | inl d ↦
            let base = base_version current policy in
            let done : (update_now program io path policy base disk).0.0 ≡ some v = ground arith in
            let (newer, downloaded) =
              install_newer-Updates base v disk io.install.executable _ refl
                (report-installed _ _ v done) in
            record {
              path = path;
              policy = policy;
              found = f;
              loaded = l;
              wanted = due-enabled policy io.now d;
              in_time = d;
              newer = newer;
              downloaded = downloaded;
            }
      ]

  update_by_policy-IsAutomatic :
      (current v : String) (disk : Disk) (path : Option String)
      → io.policy_path ≡ path
      → (update_by_policy program io current disk path).0.0 ≡ some v
      → IsAutomatic current v disk
  update_by_policy-IsAutomatic current v disk none f h = absurd (cc)
  update_by_policy-IsAutomatic current v disk (some path) f h =
      update_if_due-IsAutomatic current v path disk _ f refl h

  -- What the automatic update installs was allowed, due and verified. If a run of it reports that it has
  -- installed a version, then the policy could be loaded, allows it, and a check was due; the version
  -- is newer in the order of `CompareVersions` than the one that the policy says it installed last,
  -- whichever is running, or than the running one if the policy names none, unless the one that it is
  -- compared with is a development version or unknown; and the binary is the only entry of an archive
  -- whose SHA-256 stands in the checksums of the release.
  pub run_automatic_update-IsAutomatic :
      (current v : String) (disk : Disk)
      → (run_automatic_update program io current disk).0.0 ≡ some v
      → IsAutomatic current v disk
  unfolding run_automatic_update
  run_automatic_update-IsAutomatic current v disk h =
      update_by_policy-IsAutomatic current v disk io.policy_path refl h
