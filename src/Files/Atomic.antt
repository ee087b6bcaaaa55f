-- ===== src/Files/Atomic.antt =====
-- `Save` of the stores, while it runs: the contents of the target and of the temporary file.
use awp.Common.{String, List, some, none, [], ◌∷◌, err, ◌≡◌, ◌≢◌, inl, inr, refl, All, not}
use awp.Files.{
  File, Disk, put, Calls, Error, no_directory, no_temporary, not_secured, not_encoded, not_synced,
  not_closed, not_replaced, private_mode, Trace, replace, fill, atomic_write,
}
use awp.Files.Whole as Whole
use awp.Files.Whole.{failed, if-Promises, put-Same, Same-IsWhole, replaced}

module _ (calls : Calls) (path temp text : String) (disk : Disk) where
  abbrev pub new_file : File
  new_file = record { contents = text; mode = private_mode }

  abbrev Same : Disk → Type 0
  Same = Whole.Same path temp new_file disk

  abbrev pub IsWhole : Disk → Type 0
  IsWhole = Whole.IsWhole path temp new_file disk

  -- What a trace of `Save` promises.
  abbrev pub Promises : Trace → Type 0
  Promises = Whole.Promises path temp new_file disk calls.removes

  module _ (apart : temp ≢ path) where
    replace-Promises :
        (d : Disk) (passed : List Disk)
        → Same d
        → All IsWhole passed
        → Promises (replace calls path temp new_file d passed)
    unfolding replace
    replace-Promises d passed s a =
        if-Promises path temp new_file disk apart calls.removes calls.rename _ _
          (replaced path temp new_file disk apart calls.removes Error d passed s a)
          (failed path temp new_file disk apart calls.removes not_replaced d passed s a)

    fill-Promises :
        (d : Disk) (passed : List Disk)
        → Same d
        → All IsWhole passed
        → Promises (fill calls path temp text d passed)
    unfolding fill
    fill-Promises d passed s a =
        let full = put temp (some new_file) d in
        let s' = put-Same path temp new_file disk (some new_file) d s in
        if-Promises path temp new_file disk apart calls.removes (not calls.encode) _ _
          (failed path temp new_file disk apart calls.removes not_encoded _ passed
            (put-Same path temp new_file disk _ d s) a)
          (if-Promises path temp new_file disk apart calls.removes (not calls.sync) _ _
            (failed path temp new_file disk apart calls.removes not_synced full passed s' a)
            (if-Promises path temp new_file disk apart calls.removes (not calls.close) _ _
              (failed path temp new_file disk apart calls.removes not_closed full passed s' a)
              (replace-Promises full (full ∷ passed) s'
                (Same-IsWhole path temp new_file disk apart full s', a))))

    -- `Save` is atomic. In every state of the disk that it passes, whichever of its calls fail, the
    -- target has its old contents or the complete new ones with mode 0600, and every file but the
    -- target and the temporary one is as it was. When it returns, the target is the new one if there
    -- is no error and the old one if there is, and the temporary file is gone, unless the deferred
    -- `os.Remove` has failed as well as one of the other calls. This is for a temporary file that is
    -- new, and is not the target.
    pub atomic_write-Promises : disk temp ≡ none → Promises (atomic_write calls path temp text disk)
    unfolding atomic_write
    atomic_write-Promises fresh =
        let start : Same disk = λ other n. refl in
        let whole = Same-IsWhole path temp new_file disk apart disk start in
        let unchanged : (e : Error) → Promises (err e, disk ∷ []) =
          λ e. ((whole, tt), inl fresh, inr ((e, refl), refl)) in
        let empty = put temp (some (record { contents = ""; mode = calls.before_chmod })) disk in
        let s =
          put-Same path temp new_file disk
            (some (record { contents = ""; mode = calls.before_chmod })) disk start in
        let secured =
          put-Same path temp new_file disk (some (record { contents = ""; mode = private_mode }))
            disk start in
        if-Promises path temp new_file disk apart calls.removes (not calls.mkdir) _ _
          (unchanged no_directory)
          (if-Promises path temp new_file disk apart calls.removes (not calls.create) _ _
            (unchanged no_temporary)
            (if-Promises path temp new_file disk apart calls.removes (not calls.chmod) _ _
              (failed path temp new_file disk apart calls.removes not_secured empty (disk ∷ []) s
                (whole, tt))
              (fill-Promises _ (empty ∷ disk ∷ []) secured
                (Same-IsWhole path temp new_file disk apart empty s, (whole, tt)))))
