-- ===== src/Tests/Objects.antt =====
-- The theorems on objects at concrete messages.
use auto_sync_gen.Prelude.{ℕ, ◌<◌, ◌≡◌, refl, List, [], ◌∷◌, length, get_or, false}
use auto_sync_gen.Result.{ok}
use auto_sync_gen.SyncObj.{SyncObj, set_from_json, to_json_all, to_json_dirty}
use auto_sync_gen.SyncObj.Load.{set_from_json-to_json_all}
use auto_sync_gen.SyncObj.Dirty.{Edit, at_field, run_edits, Marks, run_edits-Marks}
use auto_sync_gen.SyncObj.DirtyJson.{run_edits_synced}
use auto_sync_gen.Tests.JsonModel.{tree_json}
use auto_sync_gen.Tests.JsonLaws.{tree_laws}
use auto_sync_gen.Tests.Setup.{message_fields, contents_field, hello, blank_message}

abbrev pub edits : List (Edit tree_json message_fields)
edits = at_field contents_field "bye" ∷ []

set_from_json-to_json_all_example :
    (q : SyncObj tree_json message_fields) × (set_from_json tree_json
        (to_json_all tree_json hello)
        blank_message
      ≡ ok q)
    × (q.fields ≡ hello.fields)
    × ((n : ℕ) → n < length message_fields → get_or q.field_flags n false ≡ false)
set_from_json-to_json_all_example =
    set_from_json-to_json_all tree_json tree_laws hello blank_message

pub hello-Marks : Marks tree_json hello hello
hello-Marks = record { sized = refl; clean = λ n h. refl }

run_edits-Marks_example : Marks tree_json hello (run_edits tree_json edits hello)
run_edits-Marks_example = run_edits-Marks tree_json edits hello hello hello-Marks

run_edits_synced_example :
    (q : SyncObj tree_json message_fields) × (set_from_json tree_json
        (to_json_dirty tree_json (run_edits tree_json edits hello))
        hello
      ≡ ok q)
    × (q.fields ≡ (run_edits tree_json edits hello).fields)
run_edits_synced_example = run_edits_synced tree_json tree_laws edits hello refl
