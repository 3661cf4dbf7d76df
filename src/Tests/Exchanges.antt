-- ===== src/Tests/Exchanges.antt =====
-- The theorems on the manager of all types at two types of messages.
use auto_sync_gen.Prelude.{pos, ltb_ℤ, ◌≡◌, refl, List, [], ◌∷◌, arith}
use auto_sync_gen.Result.{ok, ◌>>=◌}
use auto_sync_gen.Bitset.{null_bitset}
use auto_sync_gen.Snapshot.{
  DiffTypeData, empty_type_diff, SnapshotTypeData, Snapshot, snapshot_to_json, snapshot_from_json,
}
use auto_sync_gen.Snapshot.Wire.{IsSnapshot, snapshot_from_json-snapshot_to_json}
use auto_sync_gen.SyncManager.Sent.{get_snapshot_sent}
use auto_sync_gen.TypeManager.{apply_type_diff}
use auto_sync_gen.SyncManager.{SyncType, SyncManager, apply_diff, get_snapshot}
use auto_sync_gen.SyncManager.Dispatch.{apply_diff_lem}
use auto_sync_gen.SyncManager.AllTypes.{
  AllLaws, AllValid, AllAgree, exchange_all, exchange_all-AllAgree,
}
use auto_sync_gen.Tests.JsonModel.{tree_json}
use auto_sync_gen.Tests.JsonLaws.{tree_laws}
use auto_sync_gen.Tests.Setup.{message_fields, messages, messages_laws, hello_json}
use auto_sync_gen.Tests.Managers.{empty_state, empty_state-Valid, made, untracked}

abbrev message_type : SyncType tree_json
message_type = record { field_types = message_fields; lifetime = messages }

abbrev pub types : List (SyncType tree_json)
types = message_type ∷ message_type ∷ []

abbrev pub laws : AllLaws tree_json types
laws = (messages_laws, (messages_laws, tt))

abbrev pub two_servers : SyncManager tree_json types
two_servers = (made.0, (made.0, tt))

abbrev pub two_clients : SyncManager tree_json types
two_clients = (empty_state, (empty_state, tt))

exchange_all-AllAgree_example :
    (client' : SyncManager tree_json types) × (exchange_all tree_json types two_servers two_clients
      ≡ ok client')
    × AllValid tree_json types laws client'
    × AllAgree tree_json types two_servers client'
exchange_all-AllAgree_example =
    exchange_all-AllAgree tree_json tree_laws types laws two_servers two_clients
      (omega arith, (omega arith, tt)) (made.1, (made.1, tt))
      (empty_state-Valid, (empty_state-Valid, tt)) (untracked, (untracked, tt))

abbrev one_created : DiffTypeData tree_json
one_created = record { to_create = (pos 3, hello_json) ∷ []; to_update = []; to_remove = [] }

apply_diff_lem_example :
    apply_diff tree_json types (one_created, (empty_type_diff tree_json, tt)) two_clients ≡ (
      apply_type_diff tree_json message_fields messages one_created empty_state >>= λ s'.
      apply_diff tree_json (message_type ∷ []) (empty_type_diff tree_json, tt) (empty_state, tt)
      >>= λ m'. ok (s', m'))
apply_diff_lem_example =
    apply_diff_lem tree_json message_type (message_type ∷ []) one_created
      (empty_type_diff tree_json, tt) empty_state (empty_state, tt)

get_snapshot_sent_example :
    (d : Snapshot tree_json 2) × (get_snapshot tree_json types two_servers ≡ ok d)
    × (snapshot_from_json tree_json 2 (snapshot_to_json tree_json 2 d) ≡ ok d)
get_snapshot_sent_example =
    get_snapshot_sent tree_json tree_laws types laws two_servers (made.1, (made.1, tt))

abbrev pub two_messages : SnapshotTypeData tree_json
two_messages = record { items = (pos 0, hello_json) ∷ (pos 7, hello_json) ∷ [] }

abbrev sent : Snapshot tree_json 2
sent = record {
  bitset_ids = (null_bitset 100, (null_bitset 100, tt));
  type_datas = (two_messages, (two_messages, tt));
}

sent-IsSnapshot : IsSnapshot tree_json tree_laws 2 sent
unfolding ltb_ℤ
sent-IsSnapshot = record {
  sized = (refl, (refl, tt));
  sorted = (((refl, tt), (tt, tt)), (((refl, tt), (tt, tt)), tt));
}

snapshot_from_json-snapshot_to_json_example :
    snapshot_from_json tree_json 2 (snapshot_to_json tree_json 2 sent) ≡ ok sent
snapshot_from_json-snapshot_to_json_example =
    snapshot_from_json-snapshot_to_json tree_json tree_laws 2 sent sent-IsSnapshot
