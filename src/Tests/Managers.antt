-- ===== src/Tests/Managers.antt =====
-- The theorems on the state of one type at the chat's messages.
use auto_sync_gen.Prelude.{
  ℕ, zero, ℤ, pos, ◌≡◌, refl, sym, ◌∙◌, Option, none, some, true, arith, eqb_ℤ,
}
use auto_sync_gen.Result.{ok, err, undefined}
use auto_sync_gen.IdMap.{lookup}
use auto_sync_gen.IdMap.Order.{IsSorted}
use auto_sync_gen.SyncObj.{SyncObj, set_from_json, to_json_all}
use auto_sync_gen.SyncObj.Load.{set_from_json-to_json_all, Feeds}
use auto_sync_gen.SyncObj.Dirty.{run_edits, Marks, run_edits-Marks}
use auto_sync_gen.Snapshot.{SnapshotTypeData}
use auto_sync_gen.Difference.{get_json_diff}
use auto_sync_gen.Difference.ObjDiff.{get_json_diff-Feeds}
use auto_sync_gen.TypeManager.{
  TypeState, initial_type_state, server_create, create_impl, update_impl, remove_impl, edit_object,
  type_snapshot,
}
use auto_sync_gen.TypeManager.View.{view, IsValid, Replaces, none-ne-some}
use auto_sync_gen.TypeManager.Operations.{create_impl_lem, update_impl_lem, remove_impl_lem}
use auto_sync_gen.TypeManager.Create.{
  FreshFrom, initial_type_state-IsValid, initial_type_state-FreshFrom, server_create_lem,
  server_create_exhausted,
}
use auto_sync_gen.TypeManager.Items.{json_of, type_snapshot_lem}
use auto_sync_gen.TypeManager.Edit.{edit_object_unknown}
use auto_sync_gen.IdList.{seen-zero}
use auto_sync_gen.Sync.{Tracks, Agrees}
use auto_sync_gen.Sync.OneType.{exchange, exchange-Agrees}
use auto_sync_gen.Tests.JsonModel.{tree_json}
use auto_sync_gen.Tests.JsonLaws.{tree_laws}
use auto_sync_gen.Tests.Setup.{
  message_fields, messages, messages_laws, contents_field, hello, hello_json, blank_message,
}
use auto_sync_gen.Tests.Objects.{edits, hello-Marks}

abbrev pub State : Type 0
State = TypeState tree_json message_fields messages

abbrev pub empty_state : State
empty_state = initial_type_state tree_json message_fields messages

abbrev Valid : State → Type 0
Valid = IsValid tree_json message_fields messages messages_laws

abbrev view_of : State → ℤ → Option (SyncObj tree_json message_fields)
view_of = view tree_json message_fields messages

abbrev Replaced : State → State → ℤ → Option (SyncObj tree_json message_fields) → Type 0
Replaced = Replaces tree_json message_fields messages messages_laws

pub empty_state-Valid : Valid empty_state
empty_state-Valid = initial_type_state-IsValid tree_json message_fields messages messages_laws

pub empty_view : (k : ℤ) → view_of empty_state k ≡ none
empty_view k =
    initial_type_state-FreshFrom tree_json message_fields messages messages_laws k (seen-zero k)

-- What a new message is after it is set from the json of `hello`.
pub loaded :
    (q : SyncObj tree_json message_fields) × (set_from_json tree_json hello_json blank_message
      ≡ ok q)
    × (q.fields ≡ hello.fields)
loaded =
    let (q, run, same, clear) = set_from_json-to_json_all tree_json tree_laws hello blank_message in
    (q, run, same)

server_create_lem_example :
    (s' : State) × (h : ℕ) × (server_create tree_json message_fields messages hello_json empty_state
      ≡ ok (s', h))
    × (messages.read h s'.lf_manager ≡ some loaded.0)
    × Valid s'
    × Replaced empty_state s' (pos 0) (some loaded.0)
    × (s'.last_id ≡ pos 1)
    × FreshFrom tree_json message_fields messages messages_laws 1 s'
server_create_lem_example =
    server_create_lem tree_json message_fields messages messages_laws 0 hello_json empty_state refl
      loaded.0 (omega arith) empty_state-Valid
      (initial_type_state-FreshFrom tree_json message_fields messages messages_laws) loaded.1

create_impl_lem_example :
    (s' : State) × (create_impl tree_json message_fields messages (pos 3) hello_json empty_state
      ≡ ok s')
    × Valid s'
    × Replaced empty_state s' (pos 3) (some loaded.0)
    × (s'.last_id ≡ empty_state.last_id)
create_impl_lem_example =
    create_impl_lem tree_json message_fields messages messages_laws (pos 3) empty_state
      empty_state-Valid hello_json loaded.0 (omega arith) (empty_view (pos 3)) loaded.1

-- A state with one message, under the identifier 0.
pub made : (s : State) × Valid s × (view_of s (pos 0) ≡ some loaded.0)
unfolding eqb_ℤ
made =
    let (s, run, v, rep, l) =
      create_impl_lem tree_json message_fields messages messages_laws (pos 0) empty_state
        empty_state-Valid hello_json loaded.0 (omega arith) (empty_view (pos 0)) loaded.1 in
    (s, v, rep (pos 0))

again :
    (q : SyncObj tree_json message_fields) × (set_from_json tree_json hello_json loaded.0 ≡ ok q)
    × (q.fields ≡ hello.fields)
again =
    let (q, run, same, clear) = set_from_json-to_json_all tree_json tree_laws hello loaded.0 in
    (q, run, same)

update_impl_lem_example :
    (s' : State) × (update_impl tree_json message_fields messages (pos 0) hello_json made.0 ≡ ok s')
    × Valid s'
    × Replaced made.0 s' (pos 0) (some again.0)
    × (s'.last_id ≡ made.0.last_id)
update_impl_lem_example =
    update_impl_lem tree_json message_fields messages messages_laws (pos 0) made.0 made.1 hello_json
      loaded.0 again.0 (omega arith) made.2 again.1

remove_impl_lem_example :
    (s' : State) × (remove_impl tree_json message_fields messages (pos 0) made.0 ≡ ok s')
    × Valid s'
    × Replaced made.0 s' (pos 0) none
    × (s'.last_id ≡ made.0.last_id)
remove_impl_lem_example =
    remove_impl_lem tree_json message_fields messages messages_laws (pos 0) made.0 made.1 loaded.0
      (omega arith) made.2

used_up : State
used_up = record empty_state { last_id = pos 100 }

used_up-Valid : Valid used_up
unfolding used_up
used_up-Valid = record {
  owner = empty_state-Valid.owner;
  sized = empty_state-Valid.sized;
  sorted = empty_state-Valid.sorted;
  alive = empty_state-Valid.alive;
  live = empty_state-Valid.live;
  apart = empty_state-Valid.apart;
}

server_create_exhausted_example :
    server_create tree_json message_fields messages hello_json used_up ≡ err undefined
unfolding used_up
server_create_exhausted_example =
    server_create_exhausted tree_json message_fields messages messages_laws 100 hello_json used_up
      refl used_up-Valid (omega arith)

edit_object_unknown_example :
    edit_object tree_json message_fields messages (pos 5) contents_field "bye" empty_state
    ≡ err undefined
edit_object_unknown_example =
    edit_object_unknown tree_json message_fields messages messages_laws (pos 5) contents_field "bye"
      empty_state empty_state-Valid (empty_view (pos 5))

type_snapshot_lem_example :
    (d : SnapshotTypeData tree_json) × (type_snapshot tree_json message_fields messages made.0
      ≡ ok d)
    × IsSorted d.items
    × ((k : ℤ) → lookup k d.items ≡ json_of tree_json message_fields messages (view_of made.0 k))
type_snapshot_lem_example =
    type_snapshot_lem tree_json message_fields messages messages_laws made.0 made.1

edited : SyncObj tree_json message_fields
edited = run_edits tree_json edits hello

edited-Marks : Marks tree_json hello edited
unfolding edited
edited-Marks = run_edits-Marks tree_json edits hello hello hello-Marks

get_json_diff-Feeds_example :
    (v : tree_json.Val) × (get_json_diff tree_json
        (to_json_all tree_json edited)
        (to_json_all tree_json hello)
      ≡ ok v)
    × tree_laws.IsObj v
    × Feeds tree_json tree_laws message_fields zero v hello.fields edited.fields
    × (tree_json.is_empty_obj v ≡ true → hello.fields ≡ edited.fields)
get_json_diff-Feeds_example =
    get_json_diff-Feeds tree_json tree_laws edited hello edited-Marks.sized (omega arith)
      edited-Marks

pub untracked : Tracks tree_json message_fields messages made.0 empty_state
untracked k o p e f = absurd (none-ne-some p (sym (empty_view k) ∙ f))

exchange-Agrees_example :
    (c : State) × (exchange tree_json message_fields messages made.0 empty_state ≡ ok c)
    × Valid c
    × Agrees tree_json message_fields messages made.0 c
exchange-Agrees_example =
    exchange-Agrees tree_json tree_laws message_fields messages messages_laws made.0 empty_state
      (omega arith) made.1 empty_state-Valid untracked
