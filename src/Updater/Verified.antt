-- ===== src/Updater/Verified.antt =====
-- internal/updater/updater.go: what holds of a binary that `Install` has downloaded and checked.
use Prim.Native.Nat.{zero}
use Prim.Native.String.{[] as no_bytes, ◌∷◌ as byte}
use awp.Common.{
  ℕ, suc, subst, is_some, fail_if, >>-eq-ok, inl, inr, String, true, Option, some, none, List, [],
  ◌∷◌, ok, ◌≤◌, ◌≡◌, refl, sym, arith, eq_iff, >>=-eq-ok, fail_if-then, ok-injective, Bool-cases,
  ltb, eqb, ◌==◌, ◌||◌, not, ◌∙◌, ap, ◌+◌,
}
use mathlib.Core.List.{Mem, mem-cons_self, mem-cons_of_mem}
use awp.Files.{Bytes, size_of}
use awp.Updater.Fields.{limited, trim_v, trim_star, fields, lines, byte_length, lower_hex, is_hex}
use awp.Updater.Release.{
  unsupported_architecture, unsupported_system, not_gzip, binary_unread, invalid_size, too_large,
  not_only_awp, Client, Web, Formats, Tape, end, broken, entry, Error, Answer, bad_url, no_answer,
  answered, body, max_asset_bytes, download, bad_version, checksum_mismatch, find_digest,
  find_checksum, only_binary, at_end, extract_binary, names, digest_of, or_error,
}
use awp.Updater.{parse_version}
use awp.Updater.Install.{Platform, archive_name, checksum_name, asset_url, verified}

-- The server has answered a GET of the URL with these bytes, not too many.
pub record IsDownloaded (web : Web) (url : String) (contents : Bytes) : Type 0 where
  pub answer : web url ≡ answered 200 (some contents)
  pub bounded : size_of contents ≤ max_asset_bytes

-- A line has the digest, in either case, and the file name, perhaps with a star.
pub record IsListed (text_of : Bytes → String) (contents : Bytes) (name digest : String)
    : Type 0 where
  pub line : Bytes
  pub written : String
  pub file : String
  pub is_line : Mem line (lines contents)
  pub parts : fields (text_of line) ≡ written ∷ file ∷ []
  pub of_file : trim_star file ≡ name
  pub same : lower_hex written ≡ digest
  pub whole : byte_length written ≡ 64
  pub hex : is_hex written ≡ true

-- The archive of the release for the platform has this binary and nothing else, and its SHA-256 is the
-- one that the release lists for it.
pub record IsVerified (formats : Formats) (web : Web) (platform : Platform) (client : Client)
    (version : String) (binary : Bytes) : Type 0 where
  pub archive : Bytes
  pub checksums : Bytes
  pub archive_downloaded :
      IsDownloaded web (asset_url client version (archive_name platform version)) archive
  pub checksums_downloaded :
      IsDownloaded web (asset_url client version (checksum_name version)) checksums
  pub listed :
      IsListed formats.text_of checksums (archive_name platform version) (formats.sha256 archive)
  pub only_entry : formats.tape archive ≡ some (entry "awp" true (size_of binary) (some binary) end)
  pub size : 1 ≤ size_of binary
  pub bounded : size_of binary ≤ max_asset_bytes

-- What fits in the limit was not cut.
limited-whole : (n : ℕ) (s : Bytes) → size_of (limited (suc n) s) ≤ n → limited (suc n) s ≡ s
unfolding limited size_of
limited-whole n no_bytes h = refl
limited-whole zero (byte c s) h = absurd (omega (arith, h))
limited-whole (suc n) (byte c s) h = ap (byte c) (limited-whole n s (omega (arith, h)))

body-ok :
    (url : String) (contents : Bytes) (a : Answer)
    → body url a ≡ ok contents
    → a ≡ answered 200 (some contents)
body-ok url contents bad_url h = absurd (cc)
body-ok url contents no_answer h = absurd (cc)
body-ok url contents (answered status none) h = ground arith
body-ok url contents (answered status (some text)) h = ground arith

download-IsDownloaded :
    (formats : Formats) (web : Web) (url : String) (contents : Bytes)
    → download formats web url ≡ ok contents
    → IsDownloaded web url contents
unfolding download
download-IsDownloaded formats web url contents h =
    let (text, b, rest) = >>=-eq-ok (body url (web url)) _ h in
    let read = limited (max_asset_bytes + 1) text in
    let (small, e) = fail_if-then (ltb max_asset_bytes (size_of read)) too_large (ok read) rest in
    let fits : size_of read ≤ max_asset_bytes = ground (arith, small) in
    let same = sym (limited-whole max_asset_bytes text fits) ∙ ok-injective e in
    record {
      answer = body-ok url text (web url) b ∙ ap (λ c. answered 200 (some c)) same;
      bounded = subst (λ c. size_of c ≤ max_asset_bytes) (ok-injective e) fits;
    }

module _ (text_of : Bytes → String) (contents : Bytes) (name : String) where
  -- A list of lines among those of the checksums.
  abbrev Part : List Bytes → Type 0
  Part part = (l : Bytes) → Mem l part → Mem l (lines contents)

  names-parts :
      (parts : List String)
      → names name parts ≡ true
      → (file : String) × (parts ≡ digest_of parts ∷ file ∷ []) × (trim_star file ≡ name)
  names-parts (digest ∷ file ∷ []) h = (file, refl, ground (arith, eq_iff (trim_star file) name))
  names-parts [] h = absurd (cc)
  names-parts (digest ∷ []) h = absurd (cc)
  names-parts (digest ∷ file ∷ more ∷ rest) h = absurd (cc)

  find_digest-IsListed :
      (part : List Bytes) (digest : String)
      → Part part
      → find_digest text_of name part ≡ ok digest
      → IsListed text_of contents name digest
  unfolding find_digest
  find_digest-IsListed [] digest sub h = absurd (cc)
  find_digest-IsListed (line ∷ rest) digest sub h =
      elim (Bool-cases (names name (fields (text_of line)))) [
        | inl n ↦
            (let (file, parts, of_file) = names-parts (fields (text_of line)) n in
              let written = digest_of (fields (text_of line)) in
              let bad = not (eqb (byte_length written) 64) || not (is_hex written) in
              elim (Bool-cases bad) [
                | inl b ↦ absurd (ground arith)
                | inr b ↦ record {
                  line = line;
                  written = written;
                  file = file;
                  is_line = sub line (mem-cons_self);
                  parts = parts;
                  of_file = of_file;
                  same = ground arith;
                  whole = ground (arith, b);
                  hex = ground (arith, b);
                }
              ])
        | inr n ↦
            find_digest-IsListed rest digest (λ l m. sub l (mem-cons_of_mem line m)) (ground arith)
      ]

find_checksum-IsListed :
    (text_of : Bytes → String) (contents : Bytes) (name digest : String)
    → find_checksum text_of contents name ≡ ok digest
    → IsListed text_of contents name digest
unfolding find_checksum
find_checksum-IsListed text_of contents name digest h =
    find_digest-IsListed text_of contents name (lines contents) digest (λ l m. m) h

at_end-ok :
    (tape : Tape) (binary b : Bytes) → at_end tape binary ≡ ok b → (tape ≡ end) × (binary ≡ b)
at_end-ok end binary b h = (refl, ok-injective h)
at_end-ok broken binary b h = absurd (cc)
at_end-ok (entry name regular size contents rest) binary b h = absurd (cc)

or_error-ok : {A : Type 0} (e : Error) (o : Option A) (a : A) → or_error e o ≡ ok a → o ≡ some a
or_error-ok e none a h = absurd (cc)
or_error-ok e (some b) a h = ap some (ok-injective h)

-- What an archive with only the binary gives its reader.
abbrev IsOnly : Tape → Bytes → Type 0
IsOnly tape binary =
    (tape ≡ entry "awp" true (size_of binary) (some binary) end)
    × (1 ≤ size_of binary)
    × (size_of binary ≤ max_asset_bytes)

only_binary-IsOnly :
    (tape : Tape) (binary : Bytes) → only_binary tape ≡ ok binary → IsOnly tape binary
unfolding only_binary
only_binary-IsOnly end binary h = absurd (cc)
only_binary-IsOnly broken binary h = absurd (cc)
only_binary-IsOnly (entry name regular size contents rest) binary h =
    let (named, h1) = fail_if-then (not (name == "awp") || not regular) not_only_awp _ h in
    let (sized, h2) = fail_if-then (ltb size 1 || ltb max_asset_bytes size) invalid_size _ h1 in
    let (b, read, h3) = >>=-eq-ok (or_error binary_unread contents) _ h2 in
    let (full, h4) = fail_if-then (not (eqb (size_of b) size)) binary_unread (at_end rest b) h3 in
    let (ended, same) = at_end-ok rest b binary h4 in
    let of_name : name ≡ "awp" = ground (arith, named, eq_iff name "awp") in
    let is_regular : regular ≡ true = ground (arith, named) in
    let of_size : size ≡ size_of b = ground (arith, full) in
    let of_contents = or_error-ok binary_unread contents b read in
    (cc, ground (arith, sized), ground (arith, sized))

extract_binary-IsOnly :
    (formats : Formats) (archive binary : Bytes)
    → extract_binary formats archive ≡ ok binary
    → (tape : Tape) × (formats.tape archive ≡ some tape) × IsOnly tape binary
unfolding extract_binary
extract_binary-IsOnly formats archive binary h =
    let (tape, found, rest) = >>=-eq-ok (or_error not_gzip (formats.tape archive)) only_binary h in
    (
      tape,
      or_error-ok not_gzip (formats.tape archive) tape found,
      only_binary-IsOnly tape binary rest,
    )

-- What passes every check of `Install` is verified.
pub verified-IsVerified :
    (formats : Formats) (web : Web) (platform : Platform) (client : Client) (version : String)
    (binary : Bytes)
    → verified formats web platform client version ≡ ok binary
    → IsVerified formats web platform client (trim_v version) binary
unfolding verified
verified-IsVerified formats web platform client version binary h =
    let v = trim_v version in
    let name = archive_name platform v in
    let (_, _, h1) =
      >>-eq-ok
        (fail_if (not (platform.system == "darwin" || platform.system == "linux"))
          (unsupported_system platform.system))
        _ h in
    let (_, _, h2) =
      >>-eq-ok
        (fail_if (not (platform.architecture == "amd64" || platform.architecture == "arm64"))
          (unsupported_architecture platform.architecture))
        _ h1 in
    let (_, _, h3) = >>-eq-ok (fail_if (not (is_some (parse_version v))) (bad_version v)) _ h2 in
    let (archive, a, h4) = >>=-eq-ok (download formats web (asset_url client v name)) _ h3 in
    let (checksums, c, h5) =
      >>=-eq-ok (download formats web (asset_url client v (checksum_name v))) _ h4 in
    let (expected, found, h6) = >>=-eq-ok (find_checksum formats.text_of checksums name) _ h5 in
    let (equal, h7) =
      fail_if-then (not (formats.sha256 archive == expected)) checksum_mismatch _ h6 in
    let digest : formats.sha256 archive ≡ expected =
      ground (arith, equal, eq_iff (formats.sha256 archive) expected) in
    let (tape, on_tape, (only, small, large)) = extract_binary-IsOnly formats archive binary h7 in
    record {
      archive = archive;
      checksums = checksums;
      archive_downloaded = download-IsDownloaded formats web _ archive a;
      checksums_downloaded = download-IsDownloaded formats web _ checksums c;
      listed =
          find_checksum-IsListed formats.text_of checksums name (formats.sha256 archive)
            (rw digest found);
      only_entry = on_tape ∙ ap some only;
      size = small;
      bounded = large;
    }
