-- ===== src/SyncObj.antt =====
-- SyncObj.hpp, FieldProxy.hpp and SerializationHelper.hpp: an object of typed fields, each with a
-- dirty bit, the proxies that edit a field, and the conversions from and to json.
pub mod Entries
pub mod Load
pub mod Dirty
pub mod DirtyJson
use Prim.Native.String.{String}
use auto_sync_gen.Prelude.{
  ℕ, zero, suc, pos, Bool, true, false, List, [], ◌∷◌, length, get_or, set, if◌then◌else◌,
}
use auto_sync_gen.Result.{Result, ok, ◌>>=◌}
use auto_sync_gen.Bitset.{Bitset, null_bitset}
use auto_sync_gen.Json.{Json}

-- `jsonFieldFlagsKey` of Common.hpp.
abbrev pub json_field_flags_key : String
json_field_flags_key = "ff"

module _ (J : Json) where
  open J use {
    Val, FieldType, Value, initial, mk_obj, put, get, has, of_field, as_field, of_bits, to_str,
  }

  -- `TplFields`: a tuple with a component for each field type.
  abbrev pub TplFields : List FieldType → Type 0
  TplFields [] = Unit {0}
  TplFields (t ∷ ts) = Value t × TplFields ts

  pub record SyncObj (ts : List FieldType) : Type 0 where
    pub fields : TplFields ts
    pub field_flags : Bitset

  abbrev pub initial_fields : (ts : List FieldType) → TplFields ts
  initial_fields [] = tt
  initial_fields (t ∷ ts) = (initial t, initial_fields ts)

  -- A new object: value-initialised fields, every bit clear.
  abbrev pub initial_obj : (ts : List FieldType) → SyncObj ts
  initial_obj ts = record { fields = initial_fields ts; field_flags = null_bitset (length ts) }

  -- A static index `TI` into the field types, with the type that stands there.
  pub data At : List FieldType → FieldType → Type 0 where
    here : {t : FieldType} {ts : List FieldType} → At (t ∷ ts) t
    there : {t u : FieldType} {ts : List FieldType} → At ts t → At (u ∷ ts) t

  unfoldable pub position : {ts : List FieldType} {t : FieldType} → At ts t → ℕ
  position here = zero
  position (there p) = suc (position p)

  unfoldable pub get_field_at :
      {ts : List FieldType} {t : FieldType} → At ts t → TplFields ts → Value t
  get_field_at here (x, xs) = x
  get_field_at (there p) (x, xs) = get_field_at p xs

  unfoldable pub put_field_at :
      {ts : List FieldType} {t : FieldType} → At ts t → Value t → TplFields ts → TplFields ts
  put_field_at here y (x, xs) = (y, xs)
  put_field_at (there p) y (x, xs) = (x, put_field_at p y xs)

  module _ {ts : List FieldType} where
    abbrev pub set_bit_at : ℕ → SyncObj ts → SyncObj ts
    set_bit_at i o = record o { field_flags = set o.field_flags i true }

    abbrev pub unset_bit_at : ℕ → SyncObj ts → SyncObj ts
    unset_bit_at i o = record o { field_flags = set o.field_flags i false }

    -- `proxy.view()`.
    unfoldable pub view : {t : FieldType} → At ts t → SyncObj ts → Value t
    view p o = get_field_at p o.fields

    -- `proxy.edit() = x`: the bit is set before the reference is handed out.
    unfoldable pub edit : {t : FieldType} → At ts t → Value t → SyncObj ts → SyncObj ts
    edit p x o =
        let o' = set_bit_at (position p) o in record o' { fields = put_field_at p x o'.fields }

  abbrev pub field_key : ℕ → String
  field_key i = to_str (pos i)

  -- The body of the loop of `setFromJson` at the field `i`.
  unfoldable pub set_field :
      (t : FieldType) → ℕ → Val → Value t → Bitset → Result (Value t × Bitset)
  set_field t i v x flags =
      if has v (field_key i)
      then (do w ← get v (field_key i); y ← as_field t w; ok (y, set flags i false))
      else ok (x, flags)

  -- The loop over the fields from index `i` on.
  unfoldable pub set_fields :
      (ts : List FieldType) → ℕ → Val → TplFields ts → Bitset → Result (TplFields ts × Bitset)
  set_fields [] i v xs flags = ok (tt, flags)
  set_fields (t ∷ ts) i v (x, xs) flags = do
    (y, flags') ← set_field t i v x flags
    (ys, flags'') ← set_fields ts (suc i) v xs flags'
    ok ((y, ys), flags'')

  unfoldable pub put_all : (ts : List FieldType) → ℕ → TplFields ts → Val → Val
  put_all [] i xs v = v
  put_all (t ∷ ts) i (x, xs) v = put_all ts (suc i) xs (put v (field_key i) (of_field t x))

  unfoldable pub put_dirty : (ts : List FieldType) → ℕ → TplFields ts → Bitset → Val → Val
  put_dirty [] i xs flags v = v
  put_dirty (t ∷ ts) i (x, xs) flags v =
      put_dirty ts (suc i) xs flags
        (if get_or flags i false then put v (field_key i) (of_field t x) else v)

  module _ {ts : List FieldType} where
    -- `setFromJson`.
    unfoldable pub set_from_json : Val → SyncObj ts → Result (SyncObj ts)
    set_from_json v o = do
      (fields, flags) ← set_fields ts zero v o.fields o.field_flags
      ok (record { fields = fields; field_flags = flags })

    pub flags_obj : SyncObj ts → Val
    flags_obj o = mk_obj ((json_field_flags_key, of_bits o.field_flags) ∷ [])

    -- `toJsonAll`, `getAllToJson`.
    unfoldable pub to_json_all : SyncObj ts → Val
    unfolding flags_obj
    to_json_all o = put_all ts zero o.fields (flags_obj o)

    -- `toJsonDirty`, `getDirtyToJson`.
    unfoldable pub to_json_dirty : SyncObj ts → Val
    unfolding flags_obj
    to_json_dirty o = put_dirty ts zero o.fields o.field_flags (flags_obj o)
