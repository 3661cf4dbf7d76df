-- ===== src/TypeManager/Operations.antt =====
-- `createImpl`, `updateImpl` and `removeImpl` on a well-formed state.
use auto_sync_gen.Prelude.{
  ◌<◌, ℤ, pos, negsuc, ◌≡◌, ◌≢◌, refl, sym, ap, ◌∙◌, none, some, List, length, set, length-set,
  Bool, true, false, if◌then◌else◌, eqb_ℤ, eqb_ℤ_iff, arith, is_some,
}
use auto_sync_gen.Result.{Fault, ok, err}
use auto_sync_gen.IdMap.{lookup, insert, erase}
use auto_sync_gen.IdMap.Laws.{lookup-insert, lookup-erase, index_hit, index_miss}
use auto_sync_gen.IdMap.Order.{insert-IsSorted, erase-IsSorted}
use auto_sync_gen.IdList.{bit_at, bit_at-set}
use auto_sync_gen.Bitset.{Bitset}
use auto_sync_gen.Bitset.Laws.{test_lem, assign_lem}
use auto_sync_gen.Json.{Json}
use auto_sync_gen.SyncObj.{SyncObj, initial_obj, set_from_json}
use auto_sync_gen.Lifetime.{Lifetime, LifetimeLaws}
use auto_sync_gen.Snapshot.{max_objs}
use auto_sync_gen.TypeManager.{
  TypeState, is_present, set_present, get_handle_for, load_handle, assign_created, create_impl,
  drop_handle, remove_impl, update_impl,
}
use auto_sync_gen.TypeManager.View.{
  InRange, view, IsValid, bit_at-view, Replaces, view_miss, view_hit, stored_Replaces,
  stored_IsValid, removed_Replaces, removed_IsValid, none-ne-some,
}

module _ (J : Json) (ts : List J.FieldType) (L : Lifetime J ts) (M : LifetimeLaws J ts L) where
  pub is_present_lem :
      (id : ℤ) (s : TypeState J ts L)
      → IsValid J ts L M s
      → InRange id
      → is_present J ts L id s ≡ ok (is_some (view J ts L s id))
  unfolding is_present bit_at
  is_present_lem (negsuc i) s v r = absurd r
  is_present_lem (pos i) s v r =
      test_lem s.bitset_ids i (omega (arith, v.sized)) ∙ ap ok (bit_at-view J ts L M s (pos i) v)

  set_present_lem :
      (id : ℤ) (x : Bool) (s : TypeState J ts L)
      → IsValid J ts L M s
      → InRange id
      → (b : Bitset) × (set_present J ts L id x s ≡ ok (record s { bitset_ids = b }))
        × (length b ≡ max_objs)
        × ((k : ℤ) → bit_at b k ≡ (if eqb_ℤ id k then x else bit_at s.bitset_ids k))
  unfolding set_present
  set_present_lem (negsuc i) x s v r = absurd r
  set_present_lem (pos i) x s v r =
      let lt : i < length s.bitset_ids = omega (arith, v.sized) in
      (
        set s.bitset_ids i x,
        rw (assign_lem s.bitset_ids i x lt),
        length-set s.bitset_ids i x ∙ v.sized,
        λ k. bit_at-set s.bitset_ids i x k lt,
      )

  module _ (id : ℤ) (s : TypeState J ts L) (v : IsValid J ts L M s) where
    -- In a well-formed state, with an identifier in range that has no object and a json that sets a
    -- new object, `createImpl` succeeds: the object is stored under the identifier, no other
    -- identifier changes, the state stays well formed and the counter as it was.
    pub create_impl_lem :
        (val : J.Val) (o : SyncObj J ts)
        → InRange id
        → view J ts L s id ≡ none
        → set_from_json J val (initial_obj J ts) ≡ ok o
        → (s' : TypeState J ts L) × (create_impl J ts L id val s ≡ ok s')
          × IsValid J ts L M s'
          × Replaces J ts L M s s' id (some o)
          × (s'.last_id ≡ s.last_id)
    unfolding create_impl get_handle_for assign_created load_handle
    create_impl_lem val o r e load =
        let (b, set_ok, sized, bits) = set_present_lem id true s v r in
        let lf = (L.create s.lf_manager).0 in
        let h = (L.create s.lf_manager).1 in
        let s' : TypeState J ts L = record s {
          lf_manager = L.write h o lf;
          handle_map = insert id h (insert id L.blank s.handle_map);
          bitset_ids = b;
        } in
        let owner = M.create-IsValid s.lf_manager v.owner in
        let fresh = M.create_fresh s.lf_manager v.owner in
        let self = M.read-create_self s.lf_manager v.owner in
        let look : (k : ℤ)
            → lookup k s'.handle_map ≡ (if eqb_ℤ id k then some h else lookup k s.handle_map) =
          λ k. ground (
            arith,
            lookup-insert id k h (insert id L.blank s.handle_map),
            lookup-insert id k L.blank s.handle_map,
          ) in
        let others : (g : L.Handle) → g ≢ h → L.read g s'.lf_manager ≡ L.read g s.lf_manager =
          λ g ne.
            M.read-write_other g h o lf owner ne ∙ M.read-create_other s.lf_manager g v.owner ne in
        let only : (k : ℤ) → lookup k s.handle_map ≡ some h → k ≡ id =
          λ k l. absurd (none-ne-some _ (sym fresh ∙ (v.live k h l).1)) in
        let here' = M.read-write_self h o (initial_obj J ts) lf owner self in
        (
          s',
          rw (
            is_present_lem id s v r,
            e,
            set_ok,
            index_miss L.blank id s.handle_map (view_miss J ts L M s id v e),
            self,
            load,
          ),
          stored_IsValid J ts L M s s' id h o v look here' others only
              (M.write-IsValid h o lf owner) sized
              (insert-IsSorted id h _ (insert-IsSorted id L.blank s.handle_map v.sorted)) bits,
          stored_Replaces J ts L M s s' id h o v look here' others only,
          refl,
        )

    -- A value that the new object cannot be set from fails the creation.
    pub create_impl_bad :
        (val : J.Val) (e : Fault)
        → InRange id
        → view J ts L s id ≡ none
        → set_from_json J val (initial_obj J ts) ≡ err e
        → create_impl J ts L id val s ≡ err e
    unfolding create_impl get_handle_for assign_created load_handle
    create_impl_bad val e r free load =
        let (b, set_ok, sized, bits) = set_present_lem id true s v r in
        rw (
          is_present_lem id s v r,
          free,
          set_ok,
          index_miss L.blank id s.handle_map (view_miss J ts L M s id v free),
          M.read-create_self s.lf_manager v.owner,
          load,
        )

    -- In a well-formed state, with an identifier in range that has an object and a json that sets
    -- this object to another, `updateImpl` succeeds: the other is stored under the identifier, no
    -- other identifier changes, the state stays well formed and the counter as it was.
    pub update_impl_lem :
        (val : J.Val) (p o : SyncObj J ts)
        → InRange id
        → view J ts L s id ≡ some p
        → set_from_json J val p ≡ ok o
        → (s' : TypeState J ts L) × (update_impl J ts L id val s ≡ ok s')
          × IsValid J ts L M s'
          × Replaces J ts L M s s' id (some o)
          × (s'.last_id ≡ s.last_id)
    unfolding update_impl get_handle_for load_handle
    update_impl_lem val p o r e load =
        let (h, l, rd) = view_hit J ts L M s id p e in
        let s' : TypeState J ts L = record s { lf_manager = L.write h o s.lf_manager } in
        let look : (k : ℤ)
            → lookup k s'.handle_map ≡ (if eqb_ℤ id k then some h else lookup k s.handle_map) =
          λ k. ground (arith, eqb_ℤ_iff id k) in
        let others : (g : L.Handle) → g ≢ h → L.read g s'.lf_manager ≡ L.read g s.lf_manager =
          λ g ne. M.read-write_other g h o s.lf_manager v.owner ne in
        let only : (k : ℤ) → lookup k s.handle_map ≡ some h → k ≡ id =
          λ k lk. v.apart k id h lk l in
        let here' = M.read-write_self h o p s.lf_manager v.owner rd in
        let bits : (k : ℤ)
            → bit_at s.bitset_ids k ≡ (if eqb_ℤ id k then true else bit_at s.bitset_ids k) =
          λ k. ground (arith, eqb_ℤ_iff id k, v.alive id) in
        (
          s',
          rw (is_present_lem id s v r, e, index_hit L.blank id s.handle_map h l, rd, load),
          stored_IsValid J ts L M s s' id h o v look here' others only
              (M.write-IsValid h o s.lf_manager v.owner) v.sized v.sorted bits,
          stored_Replaces J ts L M s s' id h o v look here' others only,
          refl,
        )

    -- In a well-formed state, with an identifier in range that has an object, `removeImpl`
    -- succeeds: the identifier has no object, no other identifier changes, the state stays well
    -- formed and the counter as it was.
    pub remove_impl_lem :
        (p : SyncObj J ts)
        → InRange id
        → view J ts L s id ≡ some p
        → (s' : TypeState J ts L) × (remove_impl J ts L id s ≡ ok s')
          × IsValid J ts L M s'
          × Replaces J ts L M s s' id none
          × (s'.last_id ≡ s.last_id)
    unfolding remove_impl get_handle_for drop_handle
    remove_impl_lem p r e =
        let (h, l, rd) = view_hit J ts L M s id p e in
        let (b, set_ok, sized, bits) = set_present_lem id false s v r in
        let s' : TypeState J ts L = record s {
          lf_manager = L.remove h s.lf_manager;
          handle_map = erase id (insert id (L.null_handle (L.remove h s.lf_manager)) s.handle_map);
          bitset_ids = b;
        } in
        let look : (k : ℤ)
            → lookup k s'.handle_map ≡ (if eqb_ℤ id k then none else lookup k s.handle_map) =
          λ k. ground (
            arith,
            lookup-erase id k (insert id (L.null_handle (L.remove h s.lf_manager)) s.handle_map),
            lookup-insert id k (L.null_handle (L.remove h s.lf_manager)) s.handle_map,
          ) in
        let others : (g : L.Handle) → g ≢ h → L.read g s'.lf_manager ≡ L.read g s.lf_manager =
          λ g ne. M.read-remove_other g h s.lf_manager v.owner ne in
        (
          s',
          rw (is_present_lem id s v r, e, set_ok, index_hit L.blank id s.handle_map h l),
          removed_IsValid J ts L M s s' id h v look l others
              (M.remove-IsValid h s.lf_manager v.owner) sized
              (erase-IsSorted id _ (insert-IsSorted id _ s.handle_map v.sorted)) bits,
          removed_Replaces J ts L M s s' id h v look l others,
          refl,
        )
