-- ===== src/Updater/Disabled.antt =====
-- internal/cli/update.go: `awp update auto disable`, and the automatic update after it.
use awp.Common.{
  ℕ, String, true, false, some, none, List, [], ◌∷◌, ◌++◌, Result, ok, err, ◌≡◌, ◌≢◌, refl, sym, ap,
  ◌∙◌,
}
use awp.Files.{Disk}
use awp.Files.Stores.{opened}
use awp.Updater.Release.{Error}
use awp.Updater.Policy.{Policy, is_invalid, load_policy, save_policy, due}
use awp.Updater.Commands.{
  Program, Io, opened_policy, newest, saved_policy, change_policy, run_update_auto,
  run_automatic_update, update_if_due, update_by_policy,
}
use awp.Updater.Waits.{working, load_policy-valid, save_policy-loads}

saved_policy-states :
    (policy : Policy) (r : Result Error (Unit {0}) × List Disk) → (saved_policy policy r).1 ≡ r.1
saved_policy-states policy (err e, states) = refl
saved_policy-states policy (ok u, states) = refl

newest-append : (disk : Disk) (states : List Disk) → newest disk (states ++ []) ≡ newest disk states
newest-append disk [] = refl
newest-append disk (d ∷ ds) = refl

module _ (program : Program) (io next : Io) (path written : String) (mode : ℕ)
    (working_save : io.save ≡ working written mode) (apart : io.policy_temp ≢ path) where
  -- Disabled updates stay off. Once `awp update auto disable` has run, with a policy file that could be
  -- loaded and a save none of whose calls fails, the automatic update does nothing: it reports no
  -- version and no error, and leaves the disk as it is, whatever the server answers. This is for a
  -- codec that reads back the policy with the updates disabled from its text, a temporary file that
  -- is not the policy file, and a later run that finds the same path for the policy and can open it.
  pub disable-quiet :
      (policy : Policy) (interval : ℕ) (current : String) (disk : Disk)
      → program.decode (program.encode (record policy { enabled = false }))
        ≡ some (record policy { enabled = false })
      → io.policy_path ≡ some path
      → load_policy program.decode (opened_policy program io disk path) ≡ ok policy
      → next.policy_path ≡ some path
      → next.opens ≡ true
      → run_automatic_update program next current
          (newest disk (run_update_auto program io "disable" interval disk).1)
        ≡ ((none, none), newest disk (run_update_auto program io "disable" interval disk).1 ∷ [])
  unfolding run_automatic_update run_update_auto change_policy
  disable-quiet policy interval current disk codec found loaded again opens =
      let off = record policy { enabled = false } in
      let valid : is_invalid off ≡ false = load_policy-valid program _ policy loaded in
      let r = save_policy program.encode io.save path io.policy_temp off disk in
      let d = newest disk (run_update_auto program io "disable" interval disk).1 in
      let saves : d ≡ newest disk r.1 =
        rw (found, loaded) (ap (newest disk) (saved_policy-states off r)) in
      let reloaded : load_policy program.decode (opened_policy program next d path) ≡ ok off =
        rw opens (
          ap (λ e. load_policy program.decode (opened e path))
            (saves ∙ sym (newest-append disk r.1))
          ∙ save_policy-loads program io path written mode working_save apart off disk disk [] codec
              valid) in
      ap (update_by_policy program next current d) again
      ∙ ap (update_if_due program next current path d) reloaded
      ∙ unfold due in refl
