-- ===== src/Files/Stores.antt =====
-- `Load` and `Save` of internal/permissions/store.go, internal/wake/store.go and
-- internal/sessions/registry.go.
use awp.Common.{
  String, Option, some, none, [], ◌∷◌, Result, ok, err, ◌≡◌, ◌≢◌, ◌⊎◌, inl, inr, refl, ap, arith,
  eq_iff, All, All-mono, ◌==◌, not, if◌then◌else◌, Bool-cases,
}
use awp.Files.{
  File, Disk, Calls, Error, unsupported_version, not_opened, bad_json, multiple_values, Trace,
  atomic_write, Decoded, value, no_value, more_values, Opened, contents_of, not_exist, other_error,
}
use awp.Files.Atomic.{Promises, IsWhole, atomic_write-Promises}
use awp.Permissions as Permissions
use awp.Wake as Wake
use awp.Sessions as Sessions

module _ {ℓ} {A : Type ℓ} (version : String) (version_of : A → String) where
  -- `Save`
  unfoldable pub save : (A → String) → Calls → String → String → A → Disk → Trace
  save encode calls path temp store disk =
      if not (version_of store == version)
      then (err (unsupported_version (version_of store)), disk ∷ [])
      else atomic_write calls path temp (encode store) disk

  -- `Load`; `new` is what a missing file stands for
  unfoldable pub load : A → (String → Decoded A) → Opened → Result Error A
  load new decode not_exist = ok new
  load new decode other_error = err not_opened
  load new decode (contents_of text) = elim (decode text) [
    | no_value ↦ err bad_json
    | more_values ↦ err multiple_values
    | value store ↦
        if not (version_of store == version)
        then err (unsupported_version (version_of store))
        else ok store
  ]

-- `permissions.Save` and `permissions.Load`
abbrev pub save_permissions :
    (Permissions.Store → String) → Calls → String → String → Permissions.Store → Disk → Trace
save_permissions = save Permissions.version (λ s. s.version)

abbrev pub load_permissions :
    (String → Decoded Permissions.Store) → Opened → Result Error Permissions.Store
load_permissions = load Permissions.version (λ s. s.version) Permissions.new_store

-- `wake.Save` and `wake.Load`
abbrev pub save_events : (Wake.Store → String) → Calls → String → String → Wake.Store → Disk → Trace
save_events = save Wake.version (λ s. s.version)

abbrev pub load_events : (String → Decoded Wake.Store) → Opened → Result Error Wake.Store
load_events = load Wake.version (λ s. s.version) Wake.new_store

-- `sessions.Save` and `sessions.Load`
abbrev pub save_registry :
    (Sessions.Registry → String) → Calls → String → String → Sessions.Registry → Disk → Trace
save_registry = save Sessions.version (λ s. s.version)

abbrev pub load_registry :
    (String → Decoded Sessions.Registry) → Opened → Result Error Sessions.Registry
load_registry = load Sessions.version (λ s. s.version) Sessions.new_registry

-- Opening a file of a disk.
abbrev pub opened_file : Option File → Opened
opened_file none = not_exist
opened_file (some file) = contents_of file.contents

abbrev pub opened : Disk → String → Opened
opened disk path = opened_file (disk path)

module _ {ℓ} {A : Type ℓ} (version : String) (version_of : A → String) (new : A)
    (encode : A → String) (decode : String → Decoded A) where
  abbrev pub loads : Disk → String → Result Error A
  loads disk path = load version version_of new decode (opened disk path)

  -- What a trace of `Save` of `store` promises to a later `Load`.
  abbrev pub Reloads : String → A → Disk → Trace → Type ℓ
  Reloads path store disk (r, []) = Unit
  Reloads path store disk (r, d ∷ ds) =
      All (λ e. (loads e path ≡ loads disk path) ⊎ (loads e path ≡ ok store)) (d ∷ ds)
      × (((r ≡ ok tt) × (loads d path ≡ ok store))
          ⊎ (((e : Error) × (r ≡ err e)) × (loads d path ≡ loads disk path)))

  loads-of : (d disk : Disk) (path : String) → d path ≡ disk path → loads d path ≡ loads disk path
  loads-of d disk path h = ap (λ f. load version version_of new decode (opened_file f)) h

  loads-new :
      (d : Disk) (path : String) (store : A)
      → decode (encode store) ≡ value store
      → version_of store ≡ version
      → d path ≡ some (record { contents = encode store; mode = 0o600 })
      → loads d path ≡ ok store
  unfolding load
  loads-new d path store h v e =
      rw (e, load) (rw h (ground (arith, eq_iff (version_of store) version)))

  promised :
      (calls : Calls) (path temp : String) (store : A) (disk : Disk) (t : Trace)
      → decode (encode store) ≡ value store
      → version_of store ≡ version
      → Promises calls path temp (encode store) disk t
      → Reloads path store disk t
  promised calls path temp store disk (r, []) h v p = tt
  promised calls path temp store disk (r, d ∷ ds) h v (whole, _, o) = (
    All-mono {P = IsWhole calls path temp (encode store) disk}
        {Q = λ e. (loads e path ≡ loads disk path) ⊎ (loads e path ≡ ok store)} (λ e w. state e w.0)
        (d ∷ ds) whole,
    ending o,
  )
    where
      state :
          (e : Disk)
          → (e path ≡ disk path)
            ⊎ (e path ≡ some (record { contents = encode store; mode = 0o600 }))
          → (loads e path ≡ loads disk path) ⊎ (loads e path ≡ ok store)
      state e (inl s) = inl (loads-of e disk path s)
      state e (inr s) = inr (loads-new e path store h v s)

      ending :
          ((r ≡ ok tt) × (d path ≡ some (record { contents = encode store; mode = 0o600 })))
            ⊎ (((e : Error) × (r ≡ err e)) × (d path ≡ disk path))
          → ((r ≡ ok tt) × (loads d path ≡ ok store))
            ⊎ (((e : Error) × (r ≡ err e)) × (loads d path ≡ loads disk path))
      ending (inl (f, s)) = inl (f, loads-new d path store h v s)
      ending (inr (f, s)) = inr (f, loads-of d disk path s)

  -- What was saved is what is loaded. For a codec that reads back the store from its text, and a
  -- temporary file that is new and is not the target: after a `Save` without an error `Load` finds
  -- the store, after one with an error it finds what it found before, and in any state on the way,
  -- where the program may stop, it finds one of the two.
  pub load-save :
      (calls : Calls) (path temp : String) (store : A) (disk : Disk)
      → decode (encode store) ≡ value store
      → temp ≢ path
      → disk temp ≡ none
      → Reloads path store disk (save version version_of encode calls path temp store disk)
  unfolding save
  load-save calls path temp store disk h apart fresh =
      elim (Bool-cases (not (version_of store == version))) [
        | inl e ↦ rw e ((inl refl, tt), inr ((unsupported_version (version_of store), refl), refl))
        | inr e ↦ rw e (
            promised calls path temp store disk _ h
              (ground (arith, e, eq_iff (version_of store) version))
              (atomic_write-Promises calls path temp (encode store) disk apart fresh))
      ]
