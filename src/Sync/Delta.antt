-- ===== src/Sync/Delta.antt =====
-- One type: what the difference of the two snapshots holds.
pub mod Snapshots
use auto_sync_gen.Prelude.{
  ℕ, zero, ◌≤◌, ℤ, pos, negsuc, ◌≡◌, refl, sym, subst, ◌∙◌, Option, none, some, List, get_or,
  length, Bool, true, false, ◌&&◌, not, if◌then◌else◌, is_some, arith, Option-cases, Bool-cases,
  inl, inr,
}
use auto_sync_gen.Result.{Result, ok, err, ◌>>=◌}
use auto_sync_gen.IdMap.{lookup}
use auto_sync_gen.IdMap.Order.{IsSorted}
use auto_sync_gen.IdList.{
  IsDistinctIds, mem, bit_at, seen, seen-bit_at, bit_at-intersect, bit_at-complement,
}
use auto_sync_gen.Bitset.{complement, intersect}
use auto_sync_gen.Bitset.Laws.{length-complement, length-intersect}
use auto_sync_gen.Json.{Json, JsonLaws}
use auto_sync_gen.SyncObj.{TplFields, SyncObj, initial_obj, initial_fields, to_json_all}
use auto_sync_gen.SyncObj.Entries.{to_json_all-IsObj}
use auto_sync_gen.SyncObj.Load.{Feeds, Feeds-to_json_all}
use auto_sync_gen.SyncObj.Dirty.{Marks}
use auto_sync_gen.Lifetime.{Lifetime, LifetimeLaws}
use auto_sync_gen.Snapshot.{max_objs, SnapshotTypeData, DiffTypeData}
use auto_sync_gen.Difference.{DiffBits, diff_bits, get_json_diff, type_diff}
use auto_sync_gen.Difference.ObjDiff.{get_json_diff-Feeds}
use auto_sync_gen.Difference.TypeDiff.{Updates, Built, diff_loop_all}
use auto_sync_gen.TypeManager.{TypeState, type_snapshot, apply_type_diff}
use auto_sync_gen.TypeManager.View.{InRange, view, IsValid, bit_at-view, none-ne-some}
use auto_sync_gen.TypeManager.Items.{json_of, type_snapshot_lem}
use auto_sync_gen.TypeManager.Apply.{
  contents, Makes, create_each_lem, update_each_lem, remove_each_lem,
}
use auto_sync_gen.Sync.{Tracks, Agrees}

pub seen-InRange : (k : ℤ) → seen max_objs k ≡ true → InRange k
unfolding seen
seen-InRange (pos i) h = ground arith
seen-InRange (negsuc i) h = cc

module _ (J : Json) (W : JsonLaws J) (ts : List J.FieldType) (L : Lifetime J ts) where
  -- A difference that takes the client's objects to the server's.
  pub record IsDelta (server client : TypeState J ts L) (d : DiffTypeData J) : Type 0 where
    pub create_sorted : IsSorted d.to_create
    pub remove_distinct : IsDistinctIds d.to_remove
    pub update_sorted : IsSorted d.to_update
    pub created :
        (k : ℤ)
        → lookup k d.to_create
          ≡ (if is_some (view J ts L client k) then none else json_of J ts L (view J ts L server k))
    pub removed :
        (k : ℤ)
        → mem k d.to_remove
          ≡ (not (is_some (view J ts L server k)) && is_some (view J ts L client k))
    pub update : ℤ → Option J.Val
    pub updated :
        (k : ℤ)
        → lookup k d.to_update ≡ (
            if is_some (view J ts L server k) && is_some (view J ts L client k)
            then update k
            else none)
    -- The update of the two objects of an identifier that both sides have.
    pub differs :
        (k : ℤ) (o p : SyncObj J ts)
        → view J ts L server k ≡ some o
        → view J ts L client k ≡ some p
        → (v : J.Val) × (update k ≡ (if J.is_empty_obj v then none else some v))
          × W.IsObj v
          × Feeds J W ts zero v p.fields o.fields
          × (J.is_empty_obj v ≡ true → p.fields ≡ o.fields)

  pub view-seen :
      (M : LifetimeLaws J ts L) (s : TypeState J ts L)
      → IsValid J ts L M s
      → (k : ℤ) → is_some (view J ts L s k) ≡ true
      → seen max_objs k ≡ true
  view-seen M s valid k h =
      rw (← valid.sized) (seen-bit_at s.bitset_ids k (bit_at-view J ts L M s k valid ∙ h))
