-- ===== src/Sessions/Tests.antt =====
-- Runs of the session registry, and its theorems at concrete registries. `filepath.Abs` is here the
-- function that puts `/home/` in front of a path, and fails on one.
use Prim.Native.String.{◌++◌ as concat}
use awp.Common.{String, Option, some, none, List, [], ◌∷◌, err, ◌≡◌, refl, ◌==◌, if◌then◌else◌}
use awp.Common.Text.{trim_space, contains_any}
use awp.Common.Sort.{insert_by, sort_by}
use awp.Common.Keyed.{find_first, replace_first, upsert}
use awp.Sessions.{
  Binding, Registry, new_registry, newline, any_newline, get, resolve_workspace, checked, put, bind,
  remove_first, remove, list,
}
use awp.Sessions.History.{Call, binds, register}
use awp.Sessions.Refinement.{
  Op, bind_of, remove_of, get_of, answers, specified_answers, answers-specified,
}

program : Unit {0}
unfolding contains_any insert_by sort_by find_first replace_first upsert trim_space any_newline get
    resolve_workspace checked put bind remove_first remove list register
program = tt

abbrev absolute : String → Option String
absolute path = if path == "bad" then none else some (concat "/home/" path)

abbrev chat : String → Binding
chat session_id = record {
  provider = "sinores";
  session_id = session_id;
  adapter = "codex";
  runtime_session_id = "r1";
  workspace = "w";
  metadata = [];
  resume_command = [];
  created_at = "";
  updated_at = "";
}

abbrev history : List Call
history = binds "t1" (chat "chat-2") ∷ binds "t2" (chat "chat-1") ∷ binds "t3" (chat "chat-2") ∷ []

abbrev bound : Registry
bound = register absolute history new_registry

abbrev stored : String → String → String → Binding
stored session_id created updated = record (chat session_id) {
  workspace = "/home/w";
  created_at = created;
  updated_at = updated;
}

runs :
    (bound.bindings ≡ stored "chat-2" "t1" "t3" ∷ stored "chat-1" "t2" "t2" ∷ [])
    × (list bound "sinores" ≡ stored "chat-1" "t2" "t2" ∷ stored "chat-2" "t1" "t3" ∷ [])
    × (list bound "other" ≡ [])
    × ((bind absolute "t4" bound (record (chat "c") { resume_command = "a\n" ∷ [] })).0
        ≡ err newline)
unfolding program
runs = (refl, refl, refl, refl)

abbrev calls : List Op
calls =
    bind_of "t1" (chat "chat-2")
    ∷ bind_of "t2" (chat "")
    ∷ bind_of "t3" (chat "chat-2")
    ∷ get_of "sinores" "chat-2"
    ∷ remove_of "sinores" "chat-1"
    ∷ remove_of "sinores" "chat-2"
    ∷ get_of "sinores" "chat-2"
    ∷ []

answers-specified_example :
    answers absolute calls new_registry ≡ specified_answers absolute calls (λ p s. none)
answers-specified_example = answers-specified absolute calls
