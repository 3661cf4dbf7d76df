-- ===== src/Snapshot/DiffWire.antt =====
-- A difference sent as json and read back.
use auto_sync_gen.Prelude.{
  ℕ, zero, suc, ℤ, ◌≡◌, refl, List, [], ◌∷◌, ◌++◌, map, append_cons, append-nil,
}
use auto_sync_gen.Result.{ok, ◌>>=◌, >>=-eq-ok}
use auto_sync_gen.IdMap.Order.{IsSorted}
use auto_sync_gen.Json.{Json, JsonLaws, EmptyAsArray}
use auto_sync_gen.Snapshot.{
  DiffTypeData, Diff, emplace_ids, read_ids, type_diff_to_json, type_diff_from_json, diff_to_json,
  diff_from_json,
}
use auto_sync_gen.Snapshot.Entries.{read-put_entries}
use auto_sync_gen.Snapshot.Wire.{All, read_all-emplace_all}

-- The two maps of a difference are sorted by identifier, as those of `std::map` are.
abbrev pub IsTypeDiff : {J : Json} → DiffTypeData J → Type 0
IsTypeDiff d = IsSorted d.to_create × IsSorted d.to_update

module _ (J : Json) (W : JsonLaws J) (E : EmptyAsArray J) where
  open J use {Val, mk_obj, mk_arr, of_id}

  emplace_ids_lem :
      (ids : List ℤ) (vs : List Val) → emplace_ids J ids (mk_arr vs) ≡ mk_arr (vs ++ map of_id ids)
  unfolding emplace_ids
  emplace_ids_lem [] vs = rw (append-nil vs) refl
  emplace_ids_lem (i ∷ ids) vs =
      rw (W.emplace-mk_arr vs (of_id i), emplace_ids_lem ids (vs ++ of_id i ∷ []))
        (rw (append_cons vs (of_id i) (map of_id ids)) refl)

  read_ids_lem : (ids : List ℤ) → read_ids J (map of_id ids) ≡ ok ids
  unfolding read_ids
  read_ids_lem [] = refl
  read_ids_lem (i ∷ ids) = rw (W.as-of_id i, read_ids_lem ids) refl

  -- The removed identifiers, put into an empty object, are read back from what it then is.
  read-emplace_ids :
      (ids : List ℤ) → (J.for_arr (emplace_ids J ids (mk_obj [])) >>= read_ids J) ≡ ok ids
  unfolding emplace_ids read_ids
  read-emplace_ids [] = rw E.for_arr-mk_obj refl
  read-emplace_ids (i ∷ ids) =
      rw
        (
          E.emplace-mk_obj (of_id i),
          emplace_ids_lem ids (of_id i ∷ []),
          W.for_arr-mk_arr (of_id i ∷ map of_id ids),
          W.as-of_id i,
          read_ids_lem ids,
        )
        refl

  -- If an empty json object serves as an array, the difference of one type, its maps sorted by
  -- identifier, is read back from its json.
  pub type_diff_from_json-type_diff_to_json :
      (d : DiffTypeData J) → IsTypeDiff d → type_diff_from_json J (type_diff_to_json J d) ≡ ok d
  unfolding type_diff_from_json type_diff_to_json
  type_diff_from_json-type_diff_to_json d (c, u) =
      let (created, lc, rc) = read-put_entries J W d.to_create c in
      let (updated, lu, ru) = read-put_entries J W d.to_update u in
      let (removed, lr, rr) =
        >>=-eq-ok (J.for_arr (emplace_ids J d.to_remove (mk_obj []))) (read_ids J)
          (read-emplace_ids d.to_remove) in
      rw
        (
          W.nth-mk_arr _ 0 _ refl,
          W.nth-mk_arr _ 1 _ refl,
          W.nth-mk_arr _ 2 _ refl,
          lc,
          rc,
          lu,
          ru,
          lr,
          rr,
        )
        refl

  types_back :
      (n : ℕ) (ds : Diff J n)
      → All (λ d. IsTypeDiff d) n ds
      → All (λ d. type_diff_from_json J (type_diff_to_json J d) ≡ ok d) n ds
  types_back zero ds h = tt
  types_back (suc n) (d, ds) (h, hs) =
      (type_diff_from_json-type_diff_to_json d h, types_back n ds hs)

  -- If an empty json object serves as an array, a difference whose maps are sorted by identifier is
  -- read back from its json.
  pub diff_from_json-diff_to_json :
      (n : ℕ) (d : Diff J n)
      → All (λ t. IsTypeDiff t) n d
      → diff_from_json J n (diff_to_json J n d) ≡ ok d
  unfolding diff_from_json diff_to_json
  diff_from_json-diff_to_json n d h =
      read_all-emplace_all J W (type_diff_to_json J) (type_diff_from_json J) n d (types_back n d h)
