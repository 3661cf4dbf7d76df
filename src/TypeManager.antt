-- ===== src/TypeManager.antt =====
-- SyncManager.hpp, the part that belongs to one type `T`: its lifetime manager, handle map, last
-- identifier and alive/dead bitset, and the member functions that are instantiated at `T`.
pub mod View
pub mod Operations
pub mod Apply
pub mod Create
pub mod Items
pub mod Edit
use auto_sync_gen.Prelude.{ℤ, pos, Bool, true, false, not, List, [], ◌∷◌, Option, none, some}
use auto_sync_gen.Result.{Result, ok, ◌>>=◌, ◌>>◌, assert, or_fault, index_of, undefined, increment}
use auto_sync_gen.IdMap.{IdMap, insert, erase, index}
use auto_sync_gen.Bitset.{Bitset, null_bitset, test, assign}
use auto_sync_gen.Json.{Json}
use auto_sync_gen.SyncObj.{At, edit, set_from_json, to_json_all}
use auto_sync_gen.Lifetime.{Lifetime}
use auto_sync_gen.Snapshot.{max_objs, SnapshotTypeData, DiffTypeData}

module _ (J : Json) (ts : List J.FieldType) (L : Lifetime J ts) where
  open J use {Val}
  open L use {State, Handle, blank, null_handle, create, remove, read, write}

  pub record TypeState : Type 0 where
    pub lf_manager : State
    pub handle_map : IdMap Handle
    pub last_id : ℤ
    pub bitset_ids : Bitset

  abbrev pub initial_type_state : TypeState
  initial_type_state = record {
    lf_manager = L.initial_state;
    handle_map = [];
    last_id = pos 0;
    bitset_ids = null_bitset max_objs;
  }

  -- `isPresent<T>`.
  unfoldable pub is_present : ℤ → TypeState → Result Bool
  is_present id s = do i ← index_of id; test s.bitset_ids i

  -- `setPresent<T>`.
  unfoldable pub set_present : ℤ → Bool → TypeState → Result TypeState
  set_present id x s = do
    i ← index_of id
    bits ← assign s.bitset_ids i x
    ok (record s { bitset_ids = bits })

  -- `getHandleFor<T>`: a missing handle is inserted.
  unfoldable pub get_handle_for : ℤ → TypeState → TypeState × Handle
  get_handle_for id s = let (m, h) = index blank id s.handle_map in (record s { handle_map = m }, h)

  -- `handle->setFromJson(v)`.
  unfoldable pub load_handle : Handle → Val → TypeState → Result TypeState
  load_handle h v s = do
    o ← or_fault (read h s.lf_manager) undefined
    o' ← set_from_json J v o
    ok (record s { lf_manager = write h o' s.lf_manager })

  -- `handle = getLFManagerFor<T>().create()`, through the reference into the map.
  unfoldable pub assign_created : ℤ → TypeState → TypeState × Handle
  assign_created id s =
      let (lf, h) = create s.lf_manager in
      (record s { lf_manager = lf; handle_map = insert id h s.handle_map }, h)

  -- `createImpl<T>`.
  unfoldable pub create_impl : ℤ → Val → TypeState → Result TypeState
  create_impl id v s = do
    present ← is_present id s
    assert (not present)
    s1 ← set_present id true s
    let slot = get_handle_for id s1
    let created = assign_created id slot.0
    load_handle created.1 v created.0

  -- `getLFManagerFor<T>().remove(handle)`, `handle = getNullHandleFor<T>()` and `erase(mID)`.
  unfoldable pub drop_handle : ℤ → Handle → TypeState → TypeState
  drop_handle id h s =
      let lf = remove h s.lf_manager in
      record s { lf_manager = lf; handle_map = erase id (insert id (null_handle lf) s.handle_map) }

  -- `removeImpl<T>`.
  unfoldable pub remove_impl : ℤ → TypeState → Result TypeState
  remove_impl id s = do
    present ← is_present id s
    assert present
    s1 ← set_present id false s
    let found = get_handle_for id s1
    ok (drop_handle id found.1 found.0)

  -- `updateImpl<T>`.
  unfoldable pub update_impl : ℤ → Val → TypeState → Result TypeState
  update_impl id v s = do
    present ← is_present id s
    assert present
    let found = get_handle_for id s
    load_handle found.1 v found.0

  -- `getFirstFreeID<T>`: the last identifier, incremented afterwards.
  unfoldable pub get_first_free_id : TypeState → Result (ℤ × TypeState)
  get_first_free_id s = do next ← increment s.last_id; ok (s.last_id, record s { last_id = next })

  -- `serverCreate<T>`: the state and the handle that `getHandleMapFor<T>()[createID]` reads.
  unfoldable pub server_create : Val → TypeState → Result (TypeState × Handle)
  server_create v s = do
    (id, s1) ← get_first_free_id s
    s2 ← create_impl id v s1
    ok (get_handle_for id s2)

  -- The loop of `getSnapshot` over the handles of the type.
  unfoldable pub snapshot_items : State → IdMap Handle → IdMap Val → Result (IdMap Val)
  snapshot_items lf [] items = ok items
  snapshot_items lf ((id, h) ∷ m) items = do
    o ← or_fault (read h lf) undefined
    snapshot_items lf m (insert id (to_json_all J o) items)

  unfoldable pub type_snapshot : TypeState → Result (SnapshotTypeData J)
  type_snapshot s = do
    items ← snapshot_items s.lf_manager s.handle_map []
    ok (record { items = items })

  -- The three loops of `applyDiff`, with the functions that the dispatch tables hold for the type.
  unfoldable pub create_each : IdMap Val → TypeState → Result TypeState
  create_each [] s = ok s
  create_each ((id, v) ∷ m) s = create_impl id v s >>= create_each m

  unfoldable pub remove_each : List ℤ → TypeState → Result TypeState
  remove_each [] s = ok s
  remove_each (id ∷ ids) s = remove_impl id s >>= remove_each ids

  unfoldable pub update_each : IdMap Val → TypeState → Result TypeState
  update_each [] s = ok s
  update_each ((id, v) ∷ m) s = update_impl id v s >>= update_each m

  unfoldable pub apply_type_diff : DiffTypeData J → TypeState → Result TypeState
  apply_type_diff d s = do
    s1 ← create_each d.to_create s
    s2 ← remove_each d.to_remove s1
    update_each d.to_update s2

  -- `getHandleFor<T>(id)->field.edit() = x`, as main.cpp edits an object of the server.
  unfoldable pub edit_object :
      {t : J.FieldType} → ℤ → At J ts t → J.Value t → TypeState → Result TypeState
  edit_object id p x s = do
    let found = get_handle_for id s
    o ← or_fault (read found.1 found.0.lf_manager) undefined
    ok (record found.0 { lf_manager = write found.1 (edit J p x o) found.0.lf_manager })
