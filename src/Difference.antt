-- ===== src/Difference.antt =====
-- `Snapshot::getJsonDiff` and `Snapshot::getDiffWith` of Snapshot.hpp: the difference of two objects
-- and of two snapshots.
pub mod ObjDiff
pub mod TypeDiff
pub mod Sorted
use auto_sync_gen.Prelude.{ℕ, zero, suc, pos, Bool, true, false, List, [], ◌∷◌, ◌++◌, if◌then◌else◌}
use auto_sync_gen.Result.{Result, ok, ◌>>=◌}
use auto_sync_gen.IdMap.{IdMap, insert, index, at}
use auto_sync_gen.Bitset.{Bitset, test, complement, intersect, of_string}
use auto_sync_gen.Json.{Json}
use auto_sync_gen.SyncObj.{field_key, json_field_flags_key}
use auto_sync_gen.Snapshot.{
  max_objs, TplRepeat, SnapshotTypeData, DiffTypeData, empty_type_diff, Diff, Snapshot,
}

pub record DiffBits : Type 0 where
  pub create : Bitset
  pub remove : Bitset
  pub update : Bitset

abbrev pub diff_bits : Bitset → Bitset → DiffBits
diff_bits mine other = record {
  create = intersect (complement other) mine;
  remove = intersect (complement mine) other;
  update = intersect mine other;
}

module _ (J : Json) where
  open J use {Val, null, mk_obj, put, get, is_empty_obj, val_eq, as_str}

  -- The body of the loop of `getJsonDiff` at the field `i`.
  unfoldable pub obj_diff_step : Bitset → Val → Val → ℕ → Val → Result Val
  obj_diff_step flags x y i result = do
    dirty ← test flags i
    if dirty
        then (do
          a ← get x (field_key J i)
          b ← get y (field_key J i)
          if val_eq a b then ok result else ok (put result (field_key J i) a))
        else ok result

  -- The loop over the `k` bits from `i` on.
  unfoldable pub obj_diff_loop : ℕ → ℕ → Bitset → Val → Val → Val → Result Val
  obj_diff_loop zero i flags x y result = ok result
  obj_diff_loop (suc k) i flags x y result = do
    result' ← obj_diff_step flags x y i result
    obj_diff_loop k (suc i) flags x y result'

  -- `Snapshot::getJsonDiff`.
  unfoldable pub get_json_diff : Val → Val → Result Val
  get_json_diff x y = do
    field_flags ← get x json_field_flags_key
    text ← as_str field_flags
    flags ← of_string max_objs text
    obj_diff_loop max_objs zero flags x y (mk_obj [])

  -- The three tests of the loop of `getDiffWith` at the object `i`. Reading `items[i]` inserts a
  -- null value if the item is missing.
  unfoldable pub diff_create : Bool → ℕ → IdMap Val → DiffTypeData J → IdMap Val × DiffTypeData J
  diff_create true i current d =
      let (current', v) = index null (pos i) current in
      (current', record d { to_create = insert (pos i) v d.to_create })
  diff_create false i current d = (current, d)

  unfoldable pub diff_remove : Bool → ℕ → DiffTypeData J → DiffTypeData J
  diff_remove true i d = record d { to_remove = d.to_remove ++ pos i ∷ [] }
  diff_remove false i d = d

  unfoldable pub diff_update :
      Bool → ℕ → IdMap Val → IdMap Val → DiffTypeData J → Result (DiffTypeData J)
  diff_update true i current other d = do
    x ← at (pos i) current
    y ← at (pos i) other
    obj_diff ← get_json_diff x y
    ok (
        if is_empty_obj obj_diff
        then d
        else record d { to_update = insert (pos i) obj_diff d.to_update })
  diff_update false i current other d = ok d

  unfoldable pub diff_step :
      DiffBits → IdMap Val → ℕ → IdMap Val → DiffTypeData J → Result (IdMap Val × DiffTypeData J)
  diff_step bits other i current d = do
    c ← test bits.create i
    r ← test bits.remove i
    u ← test bits.update i
    let created = diff_create c i current d
    d' ← diff_update u i created.0 other (diff_remove r i created.1)
    ok (created.0, d')

  -- The loop over the `k` objects from `i` on; the current items may grow.
  unfoldable pub diff_loop :
      ℕ
      → ℕ
      → DiffBits
      → IdMap Val
      → IdMap Val
      → DiffTypeData J
      → Result (IdMap Val × DiffTypeData J)
  diff_loop zero i bits other current d = ok (current, d)
  diff_loop (suc k) i bits other current d = do
    (current', d') ← diff_step bits other i current d
    diff_loop k (suc i) bits other current' d'

  -- The body of `getDiffWith` for one type.
  unfoldable pub type_diff :
      Bitset
      → Bitset
      → SnapshotTypeData J
      → SnapshotTypeData J
      → Result (SnapshotTypeData J × DiffTypeData J)
  type_diff mine theirs current other = do
    (items, d) ←
        diff_loop max_objs zero (diff_bits mine theirs) other.items current.items
          (empty_type_diff J)
    ok (record { items = items }, d)

  unfoldable pub type_diffs :
      (n : ℕ)
      → TplRepeat Bitset n
      → TplRepeat Bitset n
      → TplRepeat (SnapshotTypeData J) n
      → TplRepeat (SnapshotTypeData J) n
      → Result (TplRepeat (SnapshotTypeData J) n × Diff J n)
  type_diffs zero bs cs xs ys = ok (tt, tt)
  type_diffs (suc n) (b, bs) (c, cs) (x, xs) (y, ys) = do
    (x', d) ← type_diff b c x y
    (xs', ds) ← type_diffs n bs cs xs ys
    ok ((x', xs'), (d, ds))

  -- `getDiffWith`: this snapshot afterwards, and the difference.
  unfoldable pub get_diff_with :
      (n : ℕ) → Snapshot J n → Snapshot J n → Result (Snapshot J n × Diff J n)
  unfolding type_diffs
  get_diff_with n s t = do
    (xs, d) ← type_diffs n s.bitset_ids t.bitset_ids s.type_datas t.type_datas
    ok (record s { type_datas = xs }, d)
