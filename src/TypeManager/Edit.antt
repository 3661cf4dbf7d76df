-- ===== src/TypeManager/Edit.antt =====
-- An edit of an object of the server, and what becomes of one under an unknown identifier.
use auto_sync_gen.Prelude.{
  ℤ, ◌≡◌, ◌≢◌, refl, none, some, List, true, eqb_ℤ_iff, eqb_ℤ, arith, if◌then◌else◌,
}
use auto_sync_gen.Result.{ok, err, undefined}
use auto_sync_gen.IdMap.{lookup}
use auto_sync_gen.IdMap.Laws.{index_hit, index_miss}
use auto_sync_gen.Json.{Json}
use auto_sync_gen.SyncObj.{SyncObj, At, edit}
use auto_sync_gen.Lifetime.{Lifetime, LifetimeLaws}
use auto_sync_gen.TypeManager.{TypeState, get_handle_for, edit_object}
use auto_sync_gen.TypeManager.View.{
  view, IsValid, Replaces, view_hit, view_miss, stored_Replaces, stored_IsValid,
}
use auto_sync_gen.IdList.{bit_at}

module _ (J : Json) (ts : List J.FieldType) (L : Lifetime J ts) (M : LifetimeLaws J ts L)
    {t : J.FieldType} (id : ℤ) (p : At J ts t) (x : J.Value t) (s : TypeState J ts L)
    (v : IsValid J ts L M s) where
  pub edit_object_lem :
      (q : SyncObj J ts)
      → view J ts L s id ≡ some q
      → (s' : TypeState J ts L) × (edit_object J ts L id p x s ≡ ok s')
        × IsValid J ts L M s'
        × Replaces J ts L M s s' id (some (edit J p x q))
        × (s'.last_id ≡ s.last_id)
  unfolding edit_object get_handle_for
  edit_object_lem q e =
      let (h, l, rd) = view_hit J ts L M s id q e in
      let o = edit J p x q in
      let s' : TypeState J ts L = record s { lf_manager = L.write h o s.lf_manager } in
      let look : (k : ℤ)
          → lookup k s'.handle_map ≡ (if eqb_ℤ id k then some h else lookup k s.handle_map) =
        λ k. ground (arith, eqb_ℤ_iff id k) in
      let others : (g : L.Handle) → g ≢ h → L.read g s'.lf_manager ≡ L.read g s.lf_manager =
        λ g ne. M.read-write_other g h o s.lf_manager v.owner ne in
      let only : (k : ℤ) → lookup k s.handle_map ≡ some h → k ≡ id = λ k lk. v.apart k id h lk l in
      let here' = M.read-write_self h o q s.lf_manager v.owner rd in
      let bits : (k : ℤ)
          → bit_at s.bitset_ids k ≡ (if eqb_ℤ id k then true else bit_at s.bitset_ids k) =
        λ k. ground (arith, eqb_ℤ_iff id k, v.alive id) in
      (
        s',
        rw (index_hit L.blank id s.handle_map h l, rd),
        stored_IsValid J ts L M s s' id h o v look here' others only
            (M.write-IsValid h o s.lf_manager v.owner) v.sized v.sorted bits,
        stored_Replaces J ts L M s s' id h o v look here' others only,
        refl,
      )

  -- In a well-formed state, an edit through the handle of an identifier without an object is
  -- undefined.
  pub edit_object_unknown : view J ts L s id ≡ none → edit_object J ts L id p x s ≡ err undefined
  unfolding edit_object get_handle_for
  edit_object_unknown e = rw (
    index_miss L.blank id s.handle_map (view_miss J ts L M s id v e),
    M.read_blank s.lf_manager v.owner,
  )
