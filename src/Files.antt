-- ===== src/Files.antt =====
-- The file behind each store: `Load` and `Save` of internal/permissions/store.go,
-- internal/wake/store.go and internal/sessions/registry.go, which are written alike. A disk maps
-- names to files. Each call on the operating system may fail; an operation's states, one for each
-- call, are kept, so that a crash between two calls can be seen. The JSON codec is a parameter.
pub mod Whole
pub mod Atomic
pub mod Stores
pub mod Tokens
mod Tests
use Prim.Native.String.{[] as no_bytes, ◌∷◌ as byte}
use awp.Common.{
  ℕ, ◌+◌, String, Bool, true, false, Option, some, none, List, [], ◌∷◌, Result, ok, err, ◌==◌, not,
  if◌then◌else◌,
}

-- Bytes are a text with one character for each of them, whose code is the byte. Where a file holds a
-- text, its contents are that text.
abbrev pub Bytes : Type 0
Bytes = String

-- `len` of bytes
unfoldable pub size_of : Bytes → ℕ
size_of no_bytes = 0
size_of (byte c s) = 1 + size_of s

pub record File : Type 0 where
  pub contents : Bytes
  pub mode : ℕ

abbrev pub Disk : Type 0
Disk = String → Option File

abbrev pub put : String → Option File → Disk → Disk
put name file disk = λ other. if other == name then file else disk other

-- What the calls of one `Save` do: true where a call succeeds. `written` is what a failing write
-- has put in the file, `before_chmod` the mode that the new file has at first.
pub record Calls : Type 0 where
  pub mkdir : Bool
  pub create : Bool
  pub chmod : Bool
  pub encode : Bool
  pub sync : Bool
  pub close : Bool
  pub rename : Bool
  pub removes : Bool
  pub written : String
  pub before_chmod : ℕ

pub data Error : Type 0 where
  unsupported_version : String → Error
  no_directory no_temporary not_secured not_encoded not_synced not_closed not_replaced : Error
  not_opened bad_json multiple_values empty_token : Error

-- The protected mode, `0o600`
abbrev pub private_mode : ℕ
private_mode = 0o600

-- The states of the disk that an operation passes, the newest first, and its result.
abbrev pub Trace : Type 0
Trace = Result Error (Unit {0}) × List Disk

-- `os.Remove(temporaryName)`, deferred, whose error is ignored: the states with it. The flag is false
-- where it leaves a file that is there; behind a rename there is none, and it changes nothing.
abbrev pub clean : Bool → String → Disk → List Disk → List Disk
clean true temp disk passed = put temp none disk ∷ disk ∷ passed
clean false temp disk passed = disk ∷ passed

-- From the rename on.
unfoldable pub replace : Calls → String → String → File → Disk → List Disk → Trace
replace calls path temp file disk passed =
    if calls.rename
    then (ok tt, clean calls.removes temp (put path (some file) (put temp none disk)) passed)
    else (err not_replaced, clean calls.removes temp disk passed)

-- From the write on: the file is complete once the write has succeeded.
unfoldable pub fill : Calls → String → String → String → Disk → List Disk → Trace
fill calls path temp text disk passed =
    let file : File = record { contents = text; mode = private_mode } in
    let full = put temp (some file) disk in
    if not calls.encode
    then (
      err not_encoded,
      clean calls.removes temp (put temp (some (record file { contents = calls.written })) disk)
          passed,
    )
    else if not calls.sync
    then (err not_synced, clean calls.removes temp full passed)
    else if not calls.close
    then (err not_closed, clean calls.removes temp full passed)
    else replace calls path temp file full (full ∷ passed)

-- The steps of `Save` behind the check of the version: a temporary file beside the target is
-- made, secured, written, synced, closed and renamed to the target.
unfoldable pub atomic_write : Calls → String → String → String → Disk → Trace
atomic_write calls path temp text disk =
    if not calls.mkdir
    then (err no_directory, disk ∷ [])
    else if not calls.create
    then (err no_temporary, disk ∷ [])
    else let empty = put temp (some (record { contents = ""; mode = calls.before_chmod })) disk in
      if not calls.chmod
      then (err not_secured, clean calls.removes temp empty (disk ∷ []))
      else let secured = put temp (some (record { contents = ""; mode = private_mode })) disk in
        fill calls path temp text secured (empty ∷ disk ∷ [])

-- What the decoder finds in a file.
pub data Decoded {ℓ} (A : Type ℓ) : Type ℓ where
  value : A → Decoded A
  no_value more_values : Decoded A

-- What `os.Open` says of the path, and the contents.
pub data Opened : Type 0 where
  contents_of : String → Opened
  not_exist other_error : Opened
