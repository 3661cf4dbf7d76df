-- ===== src/TypeManager/Items.antt =====
-- `getSnapshot` for one type: the json of the object of each identifier.
use auto_sync_gen.Prelude.{
  ℤ, ◌≡◌, refl, sym, subst, ◌∙◌, List, Option, none, some, [], ◌∷◌, eqb_ℤ_self, Option-cases, inl,
  inr,
}
use auto_sync_gen.Result.{ok}
use auto_sync_gen.IdMap.{IdMap, lookup, insert}
use auto_sync_gen.IdMap.Laws.{lookup-insert}
use auto_sync_gen.IdMap.Order.{IsSorted, insert-IsSorted, lookup-Above}
use auto_sync_gen.Json.{Json}
use auto_sync_gen.SyncObj.{SyncObj, to_json_all}
use auto_sync_gen.Lifetime.{Lifetime, LifetimeLaws}
use auto_sync_gen.Snapshot.{SnapshotTypeData}
use auto_sync_gen.TypeManager.{TypeState, snapshot_items, type_snapshot}
use auto_sync_gen.TypeManager.View.{view, deref, IsValid, eqb-cases, none-ne-some}

module _ (J : Json) (ts : List J.FieldType) (L : Lifetime J ts) where
  abbrev pub json_of : Option (SyncObj J ts) → Option J.Val
  json_of none = none
  json_of (some o) = some (to_json_all J o)

  found : L.State → IdMap J.Val → ℤ → Option L.Handle → Option J.Val
  found lf items k none = lookup k items
  found lf items k (some h) = json_of (L.read h lf)

  snapshot_items_lem :
      (lf : L.State) (m : IdMap L.Handle) (items : IdMap J.Val)
      → IsSorted m
      → IsSorted items
      → ((k : ℤ) (h : L.Handle) → lookup k m ≡ some h → (o : SyncObj J ts) × (L.read h lf ≡ some o))
      → (items' : IdMap J.Val) × (snapshot_items J ts L lf m items ≡ ok items')
        × IsSorted items'
        × ((k : ℤ) → lookup k items' ≡ found lf items k (lookup k m))
  unfolding snapshot_items lookup found
  snapshot_items_lem lf [] items s si h = (items, refl, si, λ k. refl)
  snapshot_items_lem lf ((id, g) ∷ m) items (above, s) si h =
      let (o, r) = h id g (rw (eqb_ℤ_self id)) in
      let (items', run, s', look) =
        snapshot_items_lem lf m (insert id (to_json_all J o) items) s
          (insert-IsSorted id (to_json_all J o) items si)
          (λ k h' e. elim (eqb-cases id k) [
            | inl (b, q) ↦ absurd (none-ne-some h' (sym (lookup-Above id m above) ∙ rw q e))
            | inr (b, ne) ↦ h k h' (rw b e)
          ]) in
      (
        items',
        rw r run,
        s',
        λ k. look k ∙ elim (eqb-cases id k) [
          | inl (b, q) ↦
              let missing = subst (λ j. lookup j m ≡ none) q (lookup-Above id m above) in
              rw (b, missing, found, r) (lookup-insert id k (to_json_all J o) items ∙ rw b)
          | inr (b, ne) ↦ rw b (elim (Option-cases (lookup k m)) [
            | inl n ↦ rw (n, found) (lookup-insert id k (to_json_all J o) items ∙ rw b)
            | inr (h', n) ↦ rw (n, found)
          ])
        ],
      )

  -- The snapshot of a well-formed state succeeds, is sorted by identifier, and holds under each
  -- identifier the json of all fields of its object, or nothing if it has none.
  pub type_snapshot_lem :
      (M : LifetimeLaws J ts L) (s : TypeState J ts L)
      → IsValid J ts L M s
      → (d : SnapshotTypeData J) × (type_snapshot J ts L s ≡ ok d)
        × IsSorted d.items
        × ((k : ℤ) → lookup k d.items ≡ json_of (view J ts L s k))
  unfolding type_snapshot view found lookup
  type_snapshot_lem M s v =
      let (items, run, sorted, look) =
        snapshot_items_lem s.lf_manager s.handle_map [] v.sorted tt (λ k h. v.live k h) in
      (
        record { items = items },
        rw run,
        sorted,
        λ k. look k ∙ elim (Option-cases (lookup k s.handle_map)) [
          | inl n ↦ rw (n, found, deref) (lookup_nil k)
          | inr (h, n) ↦ rw (n, found, deref)
        ],
      )
    where
      lookup_nil : (k : ℤ) → lookup {V = J.Val} k [] ≡ none
      lookup_nil k = refl
