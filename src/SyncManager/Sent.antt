-- ===== src/SyncManager/Sent.antt =====
-- The snapshot that a client sends to the server as json.
use auto_sync_gen.Prelude.{◌≡◌, refl, List, [], ◌∷◌, length}
use auto_sync_gen.Result.{ok}
use auto_sync_gen.IdMap.Order.{IsSorted}
use auto_sync_gen.Json.{Json, JsonLaws}
use auto_sync_gen.Snapshot.{
  TplRepeat, SnapshotTypeData, Snapshot, max_objs, snapshot_to_json, snapshot_from_json,
}
use auto_sync_gen.Snapshot.Wire.{All, snapshot_from_json-snapshot_to_json}
use auto_sync_gen.TypeManager.Items.{type_snapshot_lem}
use auto_sync_gen.SyncManager.{SyncType, SyncManager, bitsets, snapshots, get_snapshot}
use auto_sync_gen.SyncManager.AllTypes.{AllLaws, AllValid}

module _ (J : Json) where
  bitsets-sized :
      (ts : List (SyncType J)) (M : AllLaws J ts) (m : SyncManager J ts)
      → AllValid J ts M m
      → All (λ b. length b ≡ max_objs) (length ts) (bitsets J ts m)
  bitsets-sized [] M m v = tt
  bitsets-sized (t ∷ ts) (M, Ms) (s, m) (v, vs) = (v.sized, bitsets-sized ts Ms m vs)

  snapshots_lem :
      (ts : List (SyncType J)) (M : AllLaws J ts) (m : SyncManager J ts)
      → AllValid J ts M m
      → (xs : TplRepeat (SnapshotTypeData J) (length ts)) × (snapshots J ts m ≡ ok xs)
        × All (λ d. IsSorted d.items) (length ts) xs
  unfolding snapshots
  snapshots_lem [] M m v = (tt, refl, tt)
  snapshots_lem (t ∷ ts) (M, Ms) (s, m) (v, vs) =
      let (x, run, sorted, look) = type_snapshot_lem J t.field_types t.lifetime M s v in
      let (xs, runs, sorteds) = snapshots_lem ts Ms m vs in
      ((x, xs), rw (run, runs) refl, (sorted, sorteds))

  -- The snapshot of a manager that is well formed at each type succeeds, and is read back from its
  -- json.
  pub get_snapshot_sent :
      (W : JsonLaws J) (ts : List (SyncType J)) (M : AllLaws J ts) (m : SyncManager J ts)
      → AllValid J ts M m
      → (d : Snapshot J (length ts)) × (get_snapshot J ts m ≡ ok d)
        × (snapshot_from_json J (length ts) (snapshot_to_json J (length ts) d) ≡ ok d)
  unfolding get_snapshot
  get_snapshot_sent W ts M m v =
      let (xs, run, sorted) = snapshots_lem ts M m v in
      let d : Snapshot J (length ts) = record { bitset_ids = bitsets J ts m; type_datas = xs } in
      (
        d,
        rw run refl,
        snapshot_from_json-snapshot_to_json J W (length ts) d
            (record { sized = bitsets-sized ts M m v; sorted = sorted }),
      )
