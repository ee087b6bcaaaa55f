-- ===== src/Updater/Install.antt =====
-- internal/updater/updater.go: `Install`. The platform, the paths and what the calls on the operating
-- system do are arguments.
use Prim.Native.String.{◌++◌ as concat}
use awp.Common.{
  ℕ, String, Bool, Option, some, none, List, [], ◌∷◌, Result, ok, err, fail_if, ◌>>=◌, ◌>>◌,
  is_some, ◌==◌, ◌||◌, not, if◌then◌else◌,
}
use awp.Files.{Bytes, File, Disk, put, clean}
use awp.Updater.{parse_version}
use awp.Updater.Fields.{trim_v, trim_slashes}
use awp.Updater.Release.{
  Client, Web, Formats, Error, bad_version, checksum_mismatch, unsupported_system,
  unsupported_architecture, no_executable, not_absolute, not_created, not_written, not_executable,
  not_synced, not_closed, not_replaced, or_error, download, find_checksum, extract_binary,
}

-- `runtime.GOOS` and `runtime.GOARCH`
pub record Platform : Type 0 where
  pub system : String
  pub architecture : String

-- What the calls on the operating system do: `os.Executable`, `filepath.Abs`, and those that replace
-- the executable. `written` is what a failing write has put in the new file, `created_mode` the mode
-- that it has at first.
pub record Calls : Type 0 where
  pub executable : Option String
  pub absolute : String → Option String
  pub create : Bool
  pub write : Bool
  pub chmod : Bool
  pub sync : Bool
  pub close : Bool
  pub rename : Bool
  pub removes : Bool
  pub written : Bytes
  pub created_mode : ℕ

abbrev pub executable_mode : ℕ
executable_mode = 0o755

abbrev pub archive_name : Platform → String → String
archive_name platform version = concat "awp_" (
    concat version
      (concat "_" (concat platform.system (concat "_" (concat platform.architecture ".tar.gz")))))

abbrev pub checksum_name : String → String
checksum_name version = concat "awp_" (concat version "_checksums.txt")

-- The URL of a file of a release.
abbrev pub asset_url : Client → String → String → String
asset_url client version name = concat (trim_slashes client.download_base) (
    concat "/"
      (concat client.repository (concat "/releases/download/v" (concat version (concat "/" name)))))

-- `Install` up to the binary: what is downloaded and passes every check.
unfoldable pub verified : Formats → Web → Platform → Client → String → Result Error Bytes
verified formats web platform client version = do
  fail_if (not (platform.system == "darwin" || platform.system == "linux"))
      (unsupported_system platform.system)
  fail_if (not (platform.architecture == "amd64" || platform.architecture == "arm64"))
      (unsupported_architecture platform.architecture)
  fail_if (not (is_some (parse_version (trim_v version)))) (bad_version (trim_v version))
  let name = archive_name platform (trim_v version)
  archive ← download formats web (asset_url client (trim_v version) name)
  checksums ←
      download formats web (asset_url client (trim_v version) (checksum_name (trim_v version)))
  expected ← find_checksum formats.text_of checksums name
  fail_if (not (formats.sha256 archive == expected)) checksum_mismatch
  extract_binary formats archive

-- The executable to replace.
unfoldable pub target : Calls → String → Result Error String
target calls executable = do
  path ← if executable == "" then or_error no_executable calls.executable else ok executable
  or_error not_absolute (calls.absolute path)

-- `Install` from the temporary file on; the states of the disk are the newest first.
unfoldable pub replace_executable :
    Calls → String → String → Bytes → Disk → Result Error (Unit {0}) × List Disk
replace_executable calls path temp binary disk =
    let created = put temp (some (record { contents = ""; mode = calls.created_mode })) disk in
    let file : File = record { contents = binary; mode = calls.created_mode } in
    let written = put temp (some file) disk in
    let complete = put temp (some (record file { mode = executable_mode })) disk in
    let passed = written ∷ created ∷ disk ∷ [] in
    if not calls.create
    then (err not_created, disk ∷ [])
    else if not calls.write
    then (
      err not_written,
      clean calls.removes temp (put temp (some (record file { contents = calls.written })) disk)
          (created ∷ disk ∷ []),
    )
    else if not calls.chmod
    then (err not_executable, clean calls.removes temp written (created ∷ disk ∷ []))
    else if not calls.sync
    then (err not_synced, clean calls.removes temp complete passed)
    else if not calls.close
    then (err not_closed, clean calls.removes temp complete passed)
    else if not calls.rename
    then (err not_replaced, clean calls.removes temp complete passed)
    else (
      ok tt,
      clean calls.removes temp
          (put path (some (record file { mode = executable_mode })) (put temp none complete))
          (complete ∷ passed),
    )

-- `Install` with a binary that has passed the checks, and the executable to replace.
abbrev pub install_binary :
    Calls
    → String
    → Disk
    → Result Error Bytes
    → Result Error String
    → Result Error (Unit {0}) × List Disk
install_binary calls temp disk (err e) path = (err e, disk ∷ [])
install_binary calls temp disk (ok binary) (err e) = (err e, disk ∷ [])
install_binary calls temp disk (ok binary) (ok path) =
    replace_executable calls path temp binary disk

-- `Install`; `temp` is the name that `os.CreateTemp` makes
unfoldable pub install :
    Formats
    → Web
    → Platform
    → Client
    → Calls
    → String
    → String
    → String
    → Disk
    → Result Error (Unit {0}) × List Disk
install formats web platform client calls version executable temp disk =
    install_binary calls temp disk (verified formats web platform client version)
      (target calls executable)
