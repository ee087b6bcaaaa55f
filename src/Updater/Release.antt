-- ===== src/Updater/Release.antt =====
-- internal/updater/updater.go: the latest release, its checksums and its archive. What a server
-- answers is an argument, and so are the JSON decoder, SHA-256 and the reader of archives.
use Prim.Native.String.{◌++◌ as concat}
use awp.Common.{
  ℕ, ◌+◌, ◌*◌, String, Bool, true, false, Option, some, none, List, [], ◌∷◌, Result, ok, err,
  fail_if, ◌>>=◌, ◌>>◌, is_some, ltb, eqb, ◌==◌, ◌||◌, not, if◌then◌else◌,
}
use awp.Files as Files
use awp.Files.{Bytes, size_of}
use awp.Updater.{Comparison, less, equal, greater, parse_version, compare_versions}
use awp.Updater.Fields.{
  limited, trim_v, trim_star, trim_slashes, has_suffix, fields, lines, byte_length, is_hex,
  lower_hex,
}

pub record Release : Type 0 where
  pub tag_name : String
  pub html_url : String

pub record Status : Type 0 where
  pub current_version : String
  pub latest_version : String
  pub update_available : Bool
  pub release_url : String

-- `Client`; the HTTP client is the `Web` of an operation
pub record Client : Type 0 where
  pub repository : String
  pub api_base : String
  pub download_base : String

-- `DefaultClient`, for a value of AWP_REPOSITORY
unfoldable pub default_client : String → Client
default_client repository = record {
  repository = if repository == "" then "Manifestro/awp" else repository;
  api_base = "https://api.github.com";
  download_base = "https://github.com";
}

-- What a GET of a URL gives: a status and a body, which is none if reading it fails.
pub data Answer : Type 0 where
  bad_url no_answer : Answer
  answered : ℕ → Option Bytes → Answer

abbrev pub Web : Type 0
Web = String → Answer

-- What a tar reader meets: a file with its name, whether it is a regular one, its size and what
-- reading it gives; the end; or an error.
pub data Tape : Type 0 where
  end broken : Tape
  entry : String → Bool → ℕ → Option Bytes → Tape → Tape

-- What is done with bytes elsewhere: the text that Go reads in them, with U+FFFD for what is no UTF-8;
-- the JSON decoder of a release; SHA-256 in hexadecimal; and the readers of gzip (none for an error)
-- and tar.
pub record Formats : Type 0 where
  pub text_of : Bytes → String
  pub decode_release : Bytes → Option Release
  pub sha256 : Bytes → String
  pub tape : Bytes → Option Tape

pub data Error : Type 0 where
  not_requested not_answered : String → Error
  http_status : ℕ → Error
  not_decoded no_tag not_read too_large : Error
  bad_version : String → Error
  not_compared : Error
  invalid_checksum : Error
  missing_checksum : String → Error
  checksum_mismatch not_gzip empty_archive not_only_awp invalid_size binary_unread more_files :
      Error
  unsupported_system unsupported_architecture : String → Error
  no_executable not_absolute : Error
  not_created not_written not_executable not_synced not_closed not_replaced : Error
  no_policy_path policy_unread policy_undecoded invalid_policy bad_interval : Error
  policy_unwritten : Files.Error → Error

-- The body of an answer with status 200.
abbrev pub body : String → Answer → Result Error Bytes
body url bad_url = err (not_requested url)
body url no_answer = err (not_answered url)
body url (answered status contents) =
    if not (eqb status 200)
    then err (http_status status)
    else elim contents [ none ↦ err not_read | some bytes ↦ ok bytes ]

abbrev pub or_error {ℓ} : {A : Type ℓ} → Error → Option A → Result Error A
or_error e none = err e
or_error e (some a) = ok a

abbrev pub max_asset_bytes : ℕ
max_asset_bytes = 64 * 1024 * 1024

abbrev pub latest_url : Client → String
latest_url client =
    concat (trim_slashes client.api_base)
      (concat "/repos/" (concat client.repository "/releases/latest"))

abbrev pub is_greater : Option Comparison → Result Error Bool
is_greater none = err not_compared
is_greater (some less) = ok false
is_greater (some equal) = ok false
is_greater (some greater) = ok true

-- Whether the latest version is newer than the current one, which may be a development version.
unfoldable pub available : String → String → Result Error Bool
available current version =
    if current == "" || has_suffix current "-dev"
    then ok true
    else is_greater (compare_versions version (trim_v current))

module _ (formats : Formats) (web : Web) where
  -- `latest`
  unfoldable pub latest : Client → Result Error Release
  latest client = do
    text ← body (latest_url client) (web (latest_url client))
    release ← or_error not_decoded (formats.decode_release (limited (1024 * 1024) text))
    fail_if (release.tag_name == "") no_tag
    ok release

  -- `download`
  unfoldable pub download : String → Result Error Bytes
  download url = do
    text ← body url (web url)
    let contents = limited (max_asset_bytes + 1) text
    fail_if (ltb max_asset_bytes (size_of contents)) too_large
    ok contents

  -- `Check`
  unfoldable pub check : Client → String → Result Error Status
  check client current = do
    release ← latest client
    let version = trim_v release.tag_name
    fail_if (not (is_some (parse_version version))) (bad_version version)
    newer ← available current version
    ok (record {
      current_version = current;
      latest_version = version;
      update_available = newer;
      release_url = release.html_url;
    })

-- A line of the checksums is of this file.
abbrev pub names : String → List String → Bool
names name (digest ∷ file ∷ []) = trim_star file == name
names name _ = false

abbrev pub digest_of : List String → String
digest_of [] = ""
digest_of (digest ∷ rest) = digest

-- The loop over the lines.
unfoldable pub find_digest : (Bytes → String) → String → List Bytes → Result Error String
find_digest text_of name [] = err (missing_checksum name)
find_digest text_of name (line ∷ rest) =
    let later = find_digest text_of name rest in
    let parts = fields (text_of line) in
    let digest = digest_of parts in
    if not (names name parts)
    then later
    else if not (eqb (byte_length digest) 64) || not (is_hex digest)
    then err invalid_checksum
    else ok (lower_hex digest)

-- `findChecksum`
unfoldable pub find_checksum : (Bytes → String) → Bytes → String → Result Error String
find_checksum text_of contents name = find_digest text_of name (lines contents)

-- What stands behind the binary.
abbrev pub at_end : Tape → Bytes → Result Error Bytes
at_end end binary = ok binary
at_end broken binary = err more_files
at_end (entry name regular size contents rest) binary = err more_files

-- `extractBinary` from the tar reader on.
unfoldable pub only_binary : Tape → Result Error Bytes
only_binary end = err empty_archive
only_binary broken = err empty_archive
only_binary (entry name regular size contents rest) = do
  fail_if (not (name == "awp") || not regular) not_only_awp
  fail_if (ltb size 1 || ltb max_asset_bytes size) invalid_size
  binary ← or_error binary_unread contents
  fail_if (not (eqb (size_of binary) size)) binary_unread
  at_end rest binary

-- `extractBinary`
unfoldable pub extract_binary : Formats → Bytes → Result Error Bytes
extract_binary formats archive = do
  tape ← or_error not_gzip (formats.tape archive)
  only_binary tape
