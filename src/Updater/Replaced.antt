-- ===== src/Updater/Replaced.antt =====
-- internal/updater/updater.go: the executable that `Install` replaces.
use awp.Common.{
  String, none, some, [], ◌∷◌, ok, err, ◌≡◌, ◌≢◌, ◌⊎◌, inl, inr, refl, sym, subst, Result-cases,
  not,
}
use awp.Files.{Bytes, File, Disk, put}
use awp.Files.Whole.{Promises, Same, IsWhole, put-Same, Same-IsWhole, failed, replaced, if-Promises}
use awp.Updater.Fields.{trim_v}
use awp.Updater.Release.{
  Client, Web, Formats, Error, not_created, not_written, not_executable, not_synced, not_closed,
  not_replaced,
}
use awp.Updater.Install.{
  Platform, Calls, executable_mode, verified, target, replace_executable, install,
}
use awp.Updater.Verified.{IsVerified, verified-IsVerified}

-- The new executable.
abbrev pub executable_file : Bytes → File
executable_file binary = record { contents = binary; mode = executable_mode }

module _ (calls : Calls) (path temp : String) (binary : Bytes) (disk : Disk) (apart : temp ≢ path)
    (fresh : disk temp ≡ none) where
  abbrev file : File
  file = executable_file binary

  abbrev created_disk : Disk
  created_disk = put temp (some (record { contents = ""; mode = calls.created_mode })) disk

  abbrev written_disk : Disk
  written_disk = put temp (some (record { contents = binary; mode = calls.created_mode })) disk

  abbrev complete_disk : Disk
  complete_disk = put temp (some file) disk

  kept-IsWhole : (d : Disk) → Same path temp file disk d → IsWhole path temp file disk d
  kept-IsWhole = Same-IsWhole path temp file disk apart

  replace_executable-Promises :
      Promises path temp file disk calls.removes (replace_executable calls path temp binary disk)
  unfolding replace_executable
  replace_executable-Promises =
      let start : Same path temp file disk disk = λ other n. refl in
      let whole = kept-IsWhole disk start in
      let created =
        put-Same path temp file disk (some (record { contents = ""; mode = calls.created_mode }))
          disk start in
      let written =
        put-Same path temp file disk
          (some (record { contents = binary; mode = calls.created_mode })) disk start in
      let partial =
        put-Same path temp file disk
          (some (record { contents = calls.written; mode = calls.created_mode })) disk start in
      let complete = put-Same path temp file disk (some file) disk start in
      let fails = λ (e : Error). failed path temp file disk apart calls.removes e in
      let branch = if-Promises path temp file disk apart calls.removes in
      branch (not calls.create) _ _ ((whole, tt), inl fresh, inr ((not_created, refl), refl))
        (branch (not calls.write) _ _
          (fails not_written _ (created_disk ∷ disk ∷ []) partial
            (kept-IsWhole _ created, (whole, tt)))
          (branch (not calls.chmod) _ _
            (fails not_executable _ (created_disk ∷ disk ∷ []) written
              (kept-IsWhole _ created, (whole, tt)))
            (branch (not calls.sync) _ _
              (fails not_synced _ (written_disk ∷ created_disk ∷ disk ∷ []) complete
                (kept-IsWhole _ written, (kept-IsWhole _ created, (whole, tt))))
              (branch (not calls.close) _ _
                (fails not_closed _ (written_disk ∷ created_disk ∷ disk ∷ []) complete
                  (kept-IsWhole _ written, (kept-IsWhole _ created, (whole, tt))))
                (branch (not calls.rename) _ _
                  (fails not_replaced _ (written_disk ∷ created_disk ∷ disk ∷ []) complete
                    (kept-IsWhole _ written, (kept-IsWhole _ created, (whole, tt))))
                  (replaced path temp file disk apart calls.removes Error complete_disk
                    (complete_disk ∷ written_disk ∷ created_disk ∷ disk ∷ []) complete
                    (
                      kept-IsWhole _ complete,
                      (kept-IsWhole _ written, (kept-IsWhole _ created, (whole, tt))),
                    )))))))

-- The update installs what the release has, or nothing. Either `Install` fails and has not touched the
-- disk; or the bytes that it writes are the only entry of the archive that the server has for this
-- version and platform, of at most 64 MiB, and the SHA-256 of that archive stands in the checksums of
-- the release beside the archive's name, and in every state of the disk on the way, whichever call
-- fails, the executable is the old one or the whole new one with mode 0755, and no other file but the
-- temporary one has changed; in the end the executable is the new one if there is no error and the old
-- one if there is, and the temporary file is gone, unless the deferred `os.Remove` has failed as well
-- as one of the other calls. This is for a temporary file that is new and is not the executable.
pub install-IsVerified :
    (formats : Formats) (web : Web) (platform : Platform) (client : Client) (calls : Calls)
    (version executable temp : String) (disk : Disk)
    → ((path : String) → target calls executable ≡ ok path → temp ≢ path)
    → disk temp ≡ none
    → ((e : Error) × (install formats web platform client calls version executable temp disk
          ≡ (err e, disk ∷ [])))
      ⊎ ((path : String) × (binary : Bytes) × (target calls executable ≡ ok path)
          × IsVerified formats web platform client (trim_v version) binary
          × Promises path temp
              (executable_file binary)
              disk
              calls.removes
              (install formats web platform client calls version executable temp disk))
unfolding install
install-IsVerified formats web platform client calls version executable temp disk apart fresh =
    elim (Result-cases (verified formats web platform client version)) [
      | inr (e, v) ↦ rw v (inl (e, refl))
      | inl (binary, v) ↦ elim (Result-cases (target calls executable)) [
        | inr (e, t) ↦ rw (v, t) (inl (e, refl))
        | inl (path, t) ↦
            let whole =
              replace_executable-Promises calls path temp binary disk (apart path t) fresh in
            let same : install formats web platform client calls version executable temp disk
                ≡ replace_executable calls path temp binary disk =
              rw (v, t) refl in
            inr (
              path,
              binary,
              t,
              verified-IsVerified formats web platform client version binary v,
              subst (Promises path temp (executable_file binary) disk calls.removes) (sym same)
                  whole,
            )
      ]
    ]
