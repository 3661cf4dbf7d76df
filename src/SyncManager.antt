-- ===== src/SyncManager.antt =====
-- SyncManager.hpp and ManagerHelper.hpp over all types: the tuples of the manager with a component for
-- each type, the functions that the dispatch tables hold, `applyDiff` and `getSnapshot`.
pub mod Dispatch
pub mod AllTypes
pub mod Sent
use auto_sync_gen.Prelude.{ℕ, zero, suc, ℤ, List, [], ◌∷◌, length}
use auto_sync_gen.Result.{Result, ok, err, undefined, ◌>>=◌}
use auto_sync_gen.IdMap.{IdMap}
use auto_sync_gen.Bitset.{Bitset}
use auto_sync_gen.Json.{Json}
use auto_sync_gen.Lifetime.{Lifetime}
use auto_sync_gen.Snapshot.{TplRepeat, SnapshotTypeData, DiffTypeData, Diff, Snapshot}
use auto_sync_gen.TypeManager.{
  TypeState, initial_type_state, create_impl, remove_impl, update_impl, type_snapshot,
}

-- A type of `TTypes...`: its fields, and its lifetime manager `TLFManager<T>`.
pub record SyncType (J : Json) : Type 1 where
  pub field_types : List J.FieldType
  pub lifetime : Lifetime J field_types

module _ (J : Json) where
  abbrev pub StateOf : SyncType J → Type 0
  StateOf t = TypeState J t.field_types t.lifetime

  -- `lfManagers`, `handleMaps`, `lastIDs` and `bitsetIDs`, type by type.
  abbrev pub SyncManager : List (SyncType J) → Type 0
  SyncManager [] = Unit {0}
  SyncManager (t ∷ ts) = StateOf t × SyncManager ts

  abbrev pub initial_sync_manager : (ts : List (SyncType J)) → SyncManager ts
  initial_sync_manager [] = tt
  initial_sync_manager (t ∷ ts) =
      (initial_type_state J t.field_types t.lifetime, initial_sync_manager ts)

  -- `(this->*funcs[mIDType])(...)`, where `initManager` has filled `funcs[TI]` with the instance of a
  -- function at the type number `TI`. There is no entry past the last type.
  unfoldable pub dispatch :
      (ts : List (SyncType J))
      → ℕ
      → ((t : SyncType J) → StateOf t → Result (StateOf t))
      → SyncManager ts
      → Result (SyncManager ts)
  dispatch [] i f m = err undefined
  dispatch (t ∷ ts) zero f (s, m) = do s' ← f t s; ok (s', m)
  dispatch (t ∷ ts) (suc i) f (s, m) = do m' ← dispatch ts i f m; ok (s, m')

  module _ (ts : List (SyncType J)) where
    unfoldable pub on_received_packet_create :
        ℕ → ℤ → J.Val → SyncManager ts → Result (SyncManager ts)
    on_received_packet_create i id v =
        dispatch ts i (λ t. create_impl J t.field_types t.lifetime id v)

    unfoldable pub on_received_packet_remove : ℕ → ℤ → SyncManager ts → Result (SyncManager ts)
    on_received_packet_remove i id = dispatch ts i (λ t. remove_impl J t.field_types t.lifetime id)

    unfoldable pub on_received_packet_update :
        ℕ → ℤ → J.Val → SyncManager ts → Result (SyncManager ts)
    on_received_packet_update i id v =
        dispatch ts i (λ t. update_impl J t.field_types t.lifetime id v)

    -- The three loops of `applyDiff` at the type number `i`.
    unfoldable pub receive_created : ℕ → IdMap J.Val → SyncManager ts → Result (SyncManager ts)
    receive_created i [] m = ok m
    receive_created i ((id, v) ∷ xs) m = on_received_packet_create i id v m >>= receive_created i xs

    unfoldable pub receive_removed : ℕ → List ℤ → SyncManager ts → Result (SyncManager ts)
    receive_removed i [] m = ok m
    receive_removed i (id ∷ xs) m = on_received_packet_remove i id m >>= receive_removed i xs

    unfoldable pub receive_updated : ℕ → IdMap J.Val → SyncManager ts → Result (SyncManager ts)
    receive_updated i [] m = ok m
    receive_updated i ((id, v) ∷ xs) m = on_received_packet_update i id v m >>= receive_updated i xs

    unfoldable pub apply_diff_at : ℕ → DiffTypeData J → SyncManager ts → Result (SyncManager ts)
    apply_diff_at i d m = do
      m1 ← receive_created i d.to_create m
      m2 ← receive_removed i d.to_remove m1
      receive_updated i d.to_update m2

    -- The loop over the `n` types from number `i` on.
    unfoldable pub apply_diff_from :
        (n : ℕ) → ℕ → Diff J n → SyncManager ts → Result (SyncManager ts)
    apply_diff_from zero i d m = ok m
    apply_diff_from (suc n) i (d, ds) m = apply_diff_at i d m >>= apply_diff_from n (suc i) ds

    unfoldable pub apply_diff : Diff J (length ts) → SyncManager ts → Result (SyncManager ts)
    apply_diff = apply_diff_from (length ts) zero

  abbrev pub bitsets : (ts : List (SyncType J)) → SyncManager ts → TplRepeat Bitset (length ts)
  bitsets [] m = tt
  bitsets (t ∷ ts) (s, m) = (s.bitset_ids, bitsets ts m)

  unfoldable pub snapshots :
      (ts : List (SyncType J))
      → SyncManager ts
      → Result (TplRepeat (SnapshotTypeData J) (length ts))
  snapshots [] m = ok tt
  snapshots (t ∷ ts) (s, m) = do
    x ← type_snapshot J t.field_types t.lifetime s
    xs ← snapshots ts m
    ok (x, xs)

  unfoldable pub get_snapshot :
      (ts : List (SyncType J)) → SyncManager ts → Result (Snapshot J (length ts))
  get_snapshot ts m = do
    datas ← snapshots ts m
    ok (record { bitset_ids = bitsets ts m; type_datas = datas })
