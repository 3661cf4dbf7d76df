-- ===== src/Snapshot.antt =====
-- SnapshotTypeData.hpp, DiffTypeData.hpp, Diff.hpp and Snapshot.hpp: the state of a manager as a
-- value, the difference of two states as a value, and their conversions from and to json.
pub mod Entries
pub mod Wire
pub mod DiffWire
use Prim.Native.String.{String}
use auto_sync_gen.Prelude.{ℕ, zero, suc, ℤ, Bool, true, false, ◌&&◌, List, [], ◌∷◌}
use auto_sync_gen.Result.{Result, ok, ◌>>=◌}
use auto_sync_gen.IdMap.{IdMap, insert}
use auto_sync_gen.Bitset.{Bitset}
use auto_sync_gen.Json.{Json}

-- `maxObjs`, `jsonCreateIdx`, `jsonRemoveIdx` and `jsonUpdateIdx` of Common.hpp.
abbrev pub max_objs : ℕ
max_objs = 100

abbrev pub json_create_idx : ℕ
json_create_idx = 0

abbrev pub json_remove_idx : ℕ
json_remove_idx = 1

abbrev pub json_update_idx : ℕ
json_update_idx = 2

-- `ssvu::TplRepeat<A, n>`, and `std::array<A, n>`.
abbrev pub TplRepeat : Type 0 → ℕ → Type 0
TplRepeat A zero = Unit {0}
TplRepeat A (suc n) = A × TplRepeat A n

module _ (J : Json) where
  open J use {
    Val, mk_obj, mk_arr, put, nth, emplace, for_obj, for_arr, of_id, as_id, of_bits, as_bits,
    to_str, s_to_int,
  }

  pub record SnapshotTypeData : Type 0 where
    pub items : IdMap Val

  pub record DiffTypeData : Type 0 where
    pub to_create : IdMap Val
    pub to_update : IdMap Val
    pub to_remove : List ℤ

  abbrev pub empty_type_diff : DiffTypeData
  empty_type_diff = record { to_create = []; to_update = []; to_remove = [] }

  -- `for(const auto& x : m) v[ssvu::toStr(x.first)] = x.second;`
  unfoldable pub put_entries : IdMap Val → Val → Val
  put_entries [] v = v
  put_entries ((i, w) ∷ m) v = put_entries m (put v (to_str i) w)

  -- `for(const auto& x : l) m[ssvu::sToInt(x.key)] = x.value;`
  unfoldable pub read_entries : List (String × Val) → IdMap Val → Result (IdMap Val)
  read_entries [] m = ok m
  read_entries ((k, w) ∷ l) m = s_to_int k >>= λ i. read_entries l (insert i w m)

  -- `for(const auto& x : toRemove) v.emplace(x);`
  unfoldable pub emplace_ids : List ℤ → Val → Val
  emplace_ids [] v = v
  emplace_ids (i ∷ is) v = emplace_ids is (emplace v (of_id i))

  -- `for(const auto& x : v.forArrAs<ID>()) toRemove.emplace_back(x);`
  unfoldable pub read_ids : List Val → Result (List ℤ)
  read_ids [] = ok []
  read_ids (v ∷ vs) = do i ← as_id v; is ← read_ids vs; ok (i ∷ is)

  unfoldable pub snapshot_type_to_json : SnapshotTypeData → Val
  snapshot_type_to_json d = put_entries d.items (mk_obj [])

  unfoldable pub snapshot_type_from_json : Val → Result SnapshotTypeData
  snapshot_type_from_json v = do
    l ← for_obj v
    items ← read_entries l []
    ok (record { items = items })

  -- The three parts of the array start as objects, that of the removed identifiers too.
  unfoldable pub type_diff_to_json : DiffTypeData → Val
  type_diff_to_json d = mk_arr (
      put_entries d.to_create (mk_obj [])
      ∷ emplace_ids d.to_remove (mk_obj [])
      ∷ put_entries d.to_update (mk_obj [])
      ∷ [])

  unfoldable pub type_diff_from_json : Val → Result DiffTypeData
  type_diff_from_json v = do
    create ← nth v json_create_idx
    update ← nth v json_update_idx
    remove ← nth v json_remove_idx
    created ← for_obj create
    to_create ← read_entries created []
    updated ← for_obj update
    to_update ← read_entries updated []
    removed ← for_arr remove
    to_remove ← read_ids removed
    ok (record { to_create = to_create; to_update = to_update; to_remove = to_remove })

  abbrev is_empty_list {ℓ} : {A : Type ℓ} → List A → Bool
  is_empty_list [] = true
  is_empty_list (x ∷ xs) = false

  unfoldable pub type_diff_is_empty : DiffTypeData → Bool
  type_diff_is_empty d =
      is_empty_list d.to_create && is_empty_list d.to_update && is_empty_list d.to_remove

  -- `Diff<TManager>`, of a manager of `n` types.
  abbrev pub Diff : ℕ → Type 0
  Diff n = TplRepeat DiffTypeData n

  pub record Snapshot (n : ℕ) : Type 0 where
    pub bitset_ids : TplRepeat Bitset n
    pub type_datas : TplRepeat SnapshotTypeData n

  -- `result.emplace(mI.toJson())` for each type.
  unfoldable pub emplace_all : {A : Type 0} → (A → Val) → (n : ℕ) → TplRepeat A n → Val → Val
  emplace_all f zero xs v = v
  emplace_all f (suc n) (x, xs) v = emplace_all f n xs (emplace v (f x))

  -- Each type from the element of `v` at its index, from index `i` on.
  unfoldable pub read_all :
      {A : Type 0} → (Val → Result A) → (n : ℕ) → ℕ → Val → Result (TplRepeat A n)
  read_all f zero i v = ok tt
  read_all f (suc n) i v = do w ← nth v i; x ← f w; xs ← read_all f n (suc i) v; ok (x, xs)

  unfoldable pub diff_to_json : (n : ℕ) → Diff n → Val
  diff_to_json n d = emplace_all type_diff_to_json n d (mk_arr [])

  unfoldable pub diff_from_json : (n : ℕ) → Val → Result (Diff n)
  diff_from_json n v = read_all type_diff_from_json n zero v

  unfoldable pub diff_is_empty : (n : ℕ) → Diff n → Bool
  diff_is_empty zero d = true
  diff_is_empty (suc n) (t, d) = type_diff_is_empty t && diff_is_empty n d

  unfoldable pub snapshot_to_json : (n : ℕ) → Snapshot n → Val
  snapshot_to_json n s = mk_arr (
      emplace_all of_bits n s.bitset_ids (mk_arr [])
      ∷ emplace_all snapshot_type_to_json n s.type_datas (mk_arr [])
      ∷ [])

  unfoldable pub snapshot_from_json : (n : ℕ) → Val → Result (Snapshot n)
  snapshot_from_json n v = do
    bits ← nth v 0
    bitset_ids ← read_all (as_bits max_objs) n zero bits
    datas ← nth v 1
    type_datas ← read_all snapshot_type_from_json n zero datas
    ok (record { bitset_ids = bitset_ids; type_datas = type_datas })
