-- ===== src/Updater/Examples.antt =====
-- Updates from a server with one release, and their theorems at a concrete disk. The codec here keeps
-- the version that was installed last, and a time is the number of a text's characters.
use Prim.Native.String.{[] as no_text, ◌∷◌ as char}
use awp.Common.{
  ◌+◌, String, true, false, Option, some, none, List, [], ◌∷◌, ok, err, ◌≡◌, ◌≢◌, ◌⊎◌, refl, sym,
  arith, eq_iff, ◌==◌, if◌then◌else◌,
}
use awp.Common.Text.{is_space}
use awp.Common.Numbers.{bias, digits, atoi}
use awp.Files.{Bytes, Disk, size_of, fill, replace, atomic_write}
use awp.Files.Stores.{opened}
use awp.Files.Whole.{Promises}
use awp.Updater.{
  compare_versions, parse_version, parsed, compare_parsed, compare_identifier, compare_prerelease,
}
use awp.Updater.Fields.{
  cut, split, trim_v, trim_star, has_suffix, trim_slashes, fields, limited, byte_length, drop_cr,
  scan, lines, is_hex, lower_hex,
}
use awp.Updater.Release.{
  no_answer, answered, end, entry, Error, Formats, Web, latest, download, available, check,
  find_digest, find_checksum, only_binary, extract_binary, default_client, bad_interval,
}
use awp.Updater.Install.{Platform, target, verified, replace_executable, install}
use awp.Updater.Install as Install
use awp.Updater.Policy.{
  Policy, default_policy, load_policy, save_policy, hours_duration, elapsed, due,
}
use awp.Updater.Commands.{
  Program, Io, newest, run_update_check, run_update_install, change_policy, run_update_auto,
  check_and_install, update_now, run_automatic_update, opened_policy, installed, failed, up_to_date,
}
use awp.Updater.Verified.{IsVerified}
use awp.Updater.Replaced.{executable_file, install-IsVerified}
use awp.Updater.Newer.{IsAutomatic, run_automatic_update-IsAutomatic}
use awp.Updater.Waits.{working, Keeps, run_automatic_update-waits, due-long}
use awp.Updater.Disabled.{disable-quiet}

program : Unit {0}
unfolding is_space digits atoi fill replace atomic_write compare_versions parse_version parsed
    compare_parsed compare_identifier compare_prerelease cut split trim_v trim_star has_suffix
    trim_slashes fields byte_length size_of limited drop_cr scan lines is_hex lower_hex latest
    download available check find_digest find_checksum only_binary extract_binary default_client
    target verified replace_executable install default_policy load_policy save_policy hours_duration
    elapsed due run_update_check run_update_install change_policy run_update_auto check_and_install
    update_now run_automatic_update
program = tt

abbrev digest : String
digest = "0123456789abcdef0123456789abcdef0123456789abcdef0123456789abcdef"

abbrev formats : Formats
formats = record {
  text_of = λ bytes. bytes;
  decode_release = λ text. some (record { tag_name = text; html_url = "u" });
  sha256 = λ text. digest;
  tape = λ text. some (entry "awp" true 3 (some "new") end);
}

abbrev answers : List (String × String)
answers =
    ("https://api.github.com/repos/Manifestro/awp/releases/latest", "v1.10.0")
    ∷ (
      "https://github.com/Manifestro/awp/releases/download/v1.10.0/awp_1.10.0_linux_arm64.tar.gz",
      "a",
    )
    ∷ (
      "https://github.com/Manifestro/awp/releases/download/v1.10.0/awp_1.10.0_checksums.txt",
      "0123456789ABCDEF0123456789abcdef0123456789abcdef0123456789abcdef  *awp_1.10.0_linux_arm64.tar.gz\r\n",
    )
    ∷ []

abbrev answer : List (String × String) → Web
answer [] url = no_answer
answer ((known, text) ∷ rest) url =
    if url == known then answered 200 (some text) else answer rest url

abbrev platform : Platform
platform = record { system = "linux"; architecture = "arm64" }

abbrev install_calls : Install.Calls
install_calls = record {
  executable = some "/bin/awp";
  absolute = λ path. some path;
  create = true;
  write = true;
  chmod = true;
  sync = true;
  close = true;
  rename = true;
  removes = true;
  written = "";
  created_mode = 0o600;
}

abbrev policy : String → Policy
policy version = record {
  version = "0.1";
  enabled = true;
  interval_hours = bias + 24;
  last_checked_at = "later";
  last_installed_version = version;
}

abbrev first_policy : Policy
first_policy = record (policy "1.9.0") { last_checked_at = "first" }

-- The empty file has the first policy; else the version stands behind a mark.
abbrev decode : String → Option Policy
decode no_text = some first_policy
decode (char c s) = some (policy s)

abbrev encode : Policy → String
encode p = char "+" p.last_installed_version

abbrev updates : Program
updates = record {
  formats = formats;
  platform = platform;
  client = default_client "";
  encode = encode;
  decode = decode;
  parse_time = λ text. if text == "first" then some 0 else some 100000000000000;
  format_time = λ n. "later";
}

abbrev io : Io
io = record {
  policy_path = some "/update.json";
  opens = true;
  web = answer answers;
  install = install_calls;
  install_temp = "/bin/.awp-update";
  save = working "" 0o600;
  policy_temp = "/.update";
  now = 99000000000000;
  checked_at = 100000000000000;
}

abbrev disk : Disk
disk name =
    if name == "/update.json"
    then some (record { contents = ""; mode = 0o600 })
    else if name == "/bin/awp"
    then some (record { contents = "old"; mode = 0o755 })
    else none

abbrev updated : (Option String × Option Error) × List Disk
updated = run_automatic_update updates io "1.8.0" disk

updates_once :
    (updated.0 ≡ (some "1.10.0", none))
    × (newest disk updated.1 "/bin/awp" ≡ some (record { contents = "new"; mode = 0o755 }))
    × (newest disk updated.1 "/update.json" ≡ some (record { contents = "+1.10.0"; mode = 0o600 }))
    × ((run_automatic_update updates io "1.8.0" (newest disk updated.1)).0 ≡ (none, none))
unfolding program
updates_once = (refl, refl, refl, refl)

commands :
    ((run_update_install updates io "1.10.0-dev" "" disk).0 ≡ installed "1.10.0" "/bin/awp")
    × ((run_update_install updates io "1.11.0" "" disk).0 ≡ up_to_date)
    × ((run_update_auto updates io "enable" bias disk).0 ≡ failed "invalid_interval" bad_interval)
unfolding program
commands = (refl, refl, refl)

apart : (path : String) → target install_calls "" ≡ ok path → ◌≢◌ {A = String} "/bin/.new" path
unfolding target
apart path h e = ground (arith, eq_iff "/bin/.new" "/bin/awp")

installs : updated.0.0 ≡ some "1.10.0"
unfolding program
installs = refl

not_temp : ◌≢◌ {A = String} "/.update" "/update.json"
not_temp e = ground (arith, eq_iff "/.update" "/update.json")

reads : (q : Policy) → Keeps updates io first_policy q → decode (encode q) ≡ some q
reads q (checked, interval, enabled, version) = λ i. some (record {
  version = sym version i;
  enabled = sym enabled i;
  interval_hours = sym interval i;
  last_checked_at = sym checked i;
  last_installed_version = q.last_installed_version;
})

loaded : load_policy decode (opened_policy updates io disk "/update.json") ≡ ok first_policy
unfolding program
loaded = refl

due_now : due updates.parse_time first_policy 99000000000000 ≡ true
unfolding program
due_now = refl

abbrev disabling : Program
disabling = record updates {
  encode = λ p. "off";
  decode = λ text.
      some (if text == "off" then record first_policy { enabled = false } else first_policy);
}

disabled_loaded :
    load_policy disabling.decode (opened_policy disabling io disk "/update.json") ≡ ok first_policy
unfolding program
disabled_loaded = refl

install-IsVerified_example :
    ((e : Error) × (install formats
          (answer answers)
          platform
          (default_client "")
          install_calls
          "v1.10.0"
          ""
          "/bin/.new"
          disk
        ≡ (err e, disk ∷ [])))
    ⊎ ((path : String) × (binary : Bytes) × (target install_calls "" ≡ ok path)
        × IsVerified formats (answer answers) platform (default_client "") (trim_v "v1.10.0") binary
        × Promises path "/bin/.new" (executable_file binary) disk true (
            install formats
              (answer answers)
              platform
              (default_client "")
              install_calls
              "v1.10.0"
              ""
              "/bin/.new"
              disk))
install-IsVerified_example =
    install-IsVerified formats (answer answers) platform (default_client "") install_calls "v1.10.0"
      "" "/bin/.new" disk apart refl

run_automatic_update-IsAutomatic_example : IsAutomatic updates io "1.8.0" "1.10.0" disk
run_automatic_update-IsAutomatic_example =
    run_automatic_update-IsAutomatic updates io "1.8.0" "1.10.0" disk installs

run_automatic_update-waits_example :
    (q : Policy) × (load_policy decode (opened (newest disk updated.1) "/update.json") ≡ ok q)
    × (q.enabled ≡ true)
    × (q.interval_hours ≡ bias + 24)
    × (due updates.parse_time q 100000000000007 ≡ false)
run_automatic_update-waits_example =
    run_automatic_update-waits updates io "/update.json" "" 0o600 refl not_temp "1.8.0" first_policy
      disk 24 100000000000007 reads refl loaded due_now refl (omega arith) refl (omega arith)
      (omega arith)

due-long_example :
    due updates.parse_time (record first_policy { interval_hours = bias + 2600000 }) 1 ≡ true
due-long_example =
    due-long updates (record first_policy { interval_hours = bias + 2600000 }) 2600000 0 1 refl refl
      (omega arith) (omega arith) refl (omega arith)

disable-quiet_example :
    run_automatic_update disabling io "1.8.0"
      (newest disk (run_update_auto disabling io "disable" 0 disk).1)
    ≡ ((none, none), newest disk (run_update_auto disabling io "disable" 0 disk).1 ∷ [])
disable-quiet_example =
    disable-quiet disabling io io "/update.json" "" 0o600 refl not_temp first_policy 0 "1.8.0" disk
      refl refl disabled_loaded refl refl
