-- ===== src/Files/Tests.antt =====
-- Runs of `Save` and `Load`, and their theorems at a concrete disk. The codec here writes a store as
-- the provider of its first request, and reads that back.
use awp.Common.{
  String, Bool, true, false, some, none, [], ◌∷◌, ok, err, ◌≡◌, refl, arith, eq_iff, ◌==◌,
  if◌then◌else◌,
}
use awp.Permissions as Permissions
use awp.Files.{Disk, Calls, not_synced, Trace, replace, fill, atomic_write, Decoded, value}
use awp.Files.Atomic.{Promises, atomic_write-Promises}
use awp.Files.Stores.{save, load, save_permissions, load_permissions, opened, Reloads, load-save}

program : Unit {0}
unfolding replace fill atomic_write save load
program = tt

abbrev calls : Bool → Calls
calls syncs = record {
  mkdir = true;
  create = true;
  chmod = true;
  encode = true;
  sync = syncs;
  close = true;
  rename = true;
  removes = true;
  written = "";
  before_chmod = 0o600;
}

abbrev old_disk : Disk
old_disk name = if name == "p.json" then some (record { contents = "{}"; mode = 0o644 }) else none

abbrev store_of : String → Permissions.Store
store_of provider = record Permissions.new_store {
  requests =
      record {
        provider = provider;
        session_id = "chat-1";
        request_id = "r1";
        permissions = [];
        requested_at = "t1";
      }
      ∷ [];
}

abbrev encode : Permissions.Store → String
encode s = elim s.requests [ [] ↦ "{}" | r ∷ rs ↦ r.provider ]

abbrev decode : String → Decoded Permissions.Store
decode text = if text == "{}" then value Permissions.new_store else value (store_of text)

abbrev saved : Bool → Trace
saved syncs = save_permissions encode (calls syncs) "p.json" ".tmp" (store_of "sinores") old_disk

runs :
    ((saved true).0 ≡ ok tt)
    × ((saved false).0 ≡ err not_synced)
    × (load_permissions decode (opened old_disk "p.json") ≡ ok Permissions.new_store)
unfolding program
runs = (refl, refl, refl)

atomic_write-Promises_example :
    Promises
      (calls false)
      "p.json"
      ".tmp"
      "{}"
      old_disk
      (atomic_write (calls false) "p.json" ".tmp" "{}" old_disk)
atomic_write-Promises_example =
    atomic_write-Promises (calls false) "p.json" ".tmp" "{}" old_disk
      (ground (arith, eq_iff ".tmp" "p.json")) refl

load-save_example :
    Reloads Permissions.version
      (λ s. s.version)
      Permissions.new_store
      encode
      decode
      "p.json"
      (store_of "sinores")
      old_disk
      (save Permissions.version
        (λ s. s.version)
        encode
        (calls true)
        "p.json"
        ".tmp"
        (store_of "sinores")
        old_disk)
load-save_example =
    load-save Permissions.version (λ s. s.version) Permissions.new_store encode decode (calls true)
      "p.json" ".tmp" (store_of "sinores") old_disk refl (ground (arith, eq_iff ".tmp" "p.json"))
      refl
