-- ===== src/Files/Whole.antt =====
-- A file that is replaced through a temporary one: what holds of the target and the temporary file in
-- the states on the way. `Save` of the stores and the update of the executable both work so.
use awp.Common.{
  String, Bool, true, false, Option, some, none, List, [], ◌∷◌, Result, ok, err, ◌≡◌, ◌≢◌, ◌⊎◌, inl,
  inr, refl, sym, arith, eq_iff, eq_refl, All, if◌then◌else◌,
}
use awp.Files.{File, Disk, put, clean}

module _ (path temp : String) (new_file : File) (disk : Disk) where
  -- A state in which the target is old or new, and all files but the target and the temporary one
  -- are as they were.
  abbrev pub IsWhole : Disk → Type 0
  IsWhole d =
      ((d path ≡ disk path) ⊎ (d path ≡ some new_file))
      × ((other : String) → other ≢ path → other ≢ temp → d other ≡ disk other)

  -- What a trace promises, `removes` says whether the removal of the temporary file works: it is
  -- whole throughout; the newest state has no temporary file, unless both the removal and
  -- another call have failed, and has the new target if there is no error, else the old one.
  abbrev pub Promises : Bool → {E : Type 0} → Result E (Unit {0}) × List Disk → Type 0
  Promises removes {E = E} (r, []) = ⊥
  Promises removes {E = E} (r, d ∷ ds) =
      All IsWhole (d ∷ ds)
      × ((d temp ≡ none) ⊎ ((removes ≡ false) × ((e : E) × (r ≡ err e))))
      × (((r ≡ ok tt) × (d path ≡ some new_file))
          ⊎ (((e : E) × (r ≡ err e)) × (d path ≡ disk path)))

  -- A state that differs from the first one in the temporary file only.
  abbrev pub Same : Disk → Type 0
  Same d = (other : String) → other ≢ temp → d other ≡ disk other

  pub put-Same : (f : Option File) (d : Disk) → Same d → Same (put temp f d)
  put-Same f d s other n = ground (arith, s other n, eq_iff other temp)

  module _ (apart : temp ≢ path) where
    pub Same-IsWhole : (d : Disk) → Same d → IsWhole d
    Same-IsWhole d s = (inl (s path (λ e. apart (sym e))), λ other n m. s other m)

    pub failed :
        (removes : Bool) {E : Type 0} (e : E) (d : Disk) (passed : List Disk)
        → Same d
        → All IsWhole passed
        → Promises removes (err e, clean removes temp d passed)
    failed false e d passed s a =
        ((Same-IsWhole d s, a), inr (refl, (e, refl)), inr ((e, refl), s path (λ q. apart (sym q))))
    failed true e d passed s a =
        let s' = put-Same none d s in
        (
          (Same-IsWhole _ s', (Same-IsWhole d s, a)),
          inl (ground (arith, eq_refl temp)),
          inr ((e, refl), s' path (λ q. apart (sym q))),
        )

    pub if-Promises :
        (removes : Bool) {E : Type 0} (b : Bool) (x y : Result E (Unit {0}) × List Disk)
        → Promises removes x
        → Promises removes y
        → Promises removes (if b then x else y)
    if-Promises removes true x y h k = h
    if-Promises removes false x y h k = k

    pub replaced-IsWhole :
        (d : Disk) → Same d → IsWhole (put path (some new_file) (put temp none d))
    replaced-IsWhole d s = (
      inr (ground (arith, eq_refl path)),
      λ other n m. ground (arith, eq_iff other path, eq_iff other temp, s other m),
    )

    pub cleaned-IsWhole :
        (d : Disk) → Same d → IsWhole (put temp none (put path (some new_file) (put temp none d)))
    cleaned-IsWhole d s = (
      inr (ground (arith, eq_refl path, eq_iff path temp)),
      λ other n m. ground (arith, eq_iff other path, eq_iff other temp, s other m),
    )

    pub replaced :
        (removes : Bool) (E : Type 0) (d : Disk) (passed : List Disk)
        → Same d
        → All IsWhole passed
        → Promises removes {E = E}
            (ok tt, clean removes temp (put path (some new_file) (put temp none d)) passed)
    replaced false E d passed s a = (
      (replaced-IsWhole d s, a),
      inl (ground (arith, eq_iff temp path, eq_refl temp)),
      inl (refl, ground (arith, eq_refl path)),
    )
    replaced true E d passed s a = (
      (cleaned-IsWhole d s, (replaced-IsWhole d s, a)),
      inl (ground (arith, eq_refl temp)),
      inl (refl, ground (arith, eq_refl path, eq_iff path temp)),
    )
