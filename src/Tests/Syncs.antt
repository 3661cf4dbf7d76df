-- ===== src/Tests/Syncs.antt =====
-- A run of the chat's server and client.
use auto_sync_gen.Prelude.{pos, ◌≡◌, refl, List, [], ◌∷◌, arith}
use auto_sync_gen.Result.{Result, ok, err}
use auto_sync_gen.TypeManager.{TypeState}
use auto_sync_gen.Sync.{Agrees}
use auto_sync_gen.Sync.OneType.{exchange}
use auto_sync_gen.IdList.{seen}
use auto_sync_gen.Sync.Progress.{IsAllowed, run_total}
use auto_sync_gen.Tests.Managers.{loaded}
use auto_sync_gen.Sync.System.{
  System, Action, create, change, synchronise, run, initial_system, run-Agrees,
}
use auto_sync_gen.Tests.JsonModel.{tree_json}
use auto_sync_gen.Tests.JsonLaws.{tree_laws}
use auto_sync_gen.Tests.Program.{whole_program}
use auto_sync_gen.Tests.Setup.{message_fields, messages, messages_laws, contents_field, hello_json}

abbrev Sys : Type 0
Sys = System tree_json message_fields messages

abbrev todo : List (Action tree_json message_fields messages)
todo =
    create hello_json ∷ synchronise ∷ change (pos 0) contents_field "bye" ∷ create hello_json ∷ []

result_or {ℓ} : {A : Type ℓ} → Result A → A → A
result_or (ok a) b = a
result_or (err e) b = b

start : Sys
start = initial_system tree_json message_fields messages

reached : Sys
reached = result_or (run tree_json message_fields messages todo start) start

todo-runs : run tree_json message_fields messages todo start ≡ ok reached
unfolding whole_program reached start result_or
todo-runs = refl

run-Agrees_example :
    (c : TypeState tree_json message_fields messages) × (exchange tree_json message_fields messages
        reached.server reached.client
      ≡ ok c)
    × Agrees tree_json message_fields messages reached.server c
unfolding start
run-Agrees_example =
    run-Agrees tree_json tree_laws message_fields messages messages_laws todo reached (omega arith)
      todo-runs

todo-IsAllowed : IsAllowed tree_json message_fields messages 0 todo
unfolding seen
todo-IsAllowed =
    (omega arith, (loaded.0, loaded.1), (refl, (omega arith, (loaded.0, loaded.1), tt)))

run_total_example : (y : Sys) × (run tree_json message_fields messages todo start ≡ ok y)
unfolding start
run_total_example =
    run_total tree_json tree_laws message_fields messages messages_laws todo (omega arith)
      todo-IsAllowed
