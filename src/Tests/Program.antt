-- ===== src/Tests/Program.antt =====
-- The whole program open, for runs at concrete inputs.
use auto_sync_gen.Prelude.{eqb_ℤ, ltb_ℤ}
use auto_sync_gen.Result.{increment}
use auto_sync_gen.IdMap
use auto_sync_gen.Bitset
use auto_sync_gen.SyncObj
use auto_sync_gen.Ssvu.{reject}
use auto_sync_gen.Lifetime.Storage
use auto_sync_gen.Difference
use auto_sync_gen.TypeManager
use auto_sync_gen.Sync.OneType.{exchange}
use auto_sync_gen.Sync.System
use auto_sync_gen.Tests.JsonModel.{all_operations}
use auto_sync_gen.Tests.Setup.{total}

unfoldable pub whole_program : Unit {0}
unfolding eqb_ℤ ltb_ℤ increment reject total all_operations exchange IdMap.lookup IdMap.insert
    IdMap.erase IdMap.index IdMap.at Bitset.test Bitset.assign Bitset.to_string Bitset.of_string
    SyncObj.position SyncObj.get_field_at SyncObj.put_field_at SyncObj.view SyncObj.edit
    SyncObj.set_field SyncObj.set_fields SyncObj.put_all SyncObj.put_dirty SyncObj.set_from_json
    SyncObj.to_json_all SyncObj.to_json_dirty Storage.create Storage.remove Storage.read
    Storage.write Difference.obj_diff_step Difference.obj_diff_loop Difference.get_json_diff
    Difference.diff_create Difference.diff_remove Difference.diff_update Difference.diff_step
    Difference.diff_loop Difference.type_diff TypeManager.is_present TypeManager.set_present
    TypeManager.get_handle_for TypeManager.load_handle TypeManager.assign_created
    TypeManager.create_impl TypeManager.drop_handle TypeManager.remove_impl TypeManager.update_impl
    TypeManager.get_first_free_id TypeManager.server_create TypeManager.snapshot_items
    TypeManager.type_snapshot TypeManager.create_each TypeManager.remove_each
    TypeManager.update_each TypeManager.apply_type_diff TypeManager.edit_object System.act
    System.run
whole_program = tt
