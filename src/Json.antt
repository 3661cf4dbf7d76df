-- ===== src/Json.antt =====
-- The json values of SSVUtils (`ssvj::Val`) and the conversions of `ssvu` between numbers and texts,
-- as the program uses them. The library is no part of the repository: its operations are fields, and
-- what the program relies on is `JsonLaws`.
pub mod Keys
use Prim.Native.String.{String}
use text.Mathlib.Text.{◌==◌ as str_eq}
use auto_sync_gen.Prelude.{
  ℕ, ℤ, pos, ◌≡◌, ◌≢◌, ◌↔◌, Bool, true, false, Option, none, some, List, [], ◌∷◌, ◌++◌, get_elem?,
  length, is_some, if◌then◌else◌,
}
use auto_sync_gen.Result.{Result, ok}
use auto_sync_gen.Bitset.{Bitset, to_string}

pub record Json : Type 1 where
  pub Val : Type 0
  -- The C++ types that a field may have, and their values.
  pub FieldType : Type 0
  pub Value : FieldType → Type 0
  pub initial : (t : FieldType) → Value t
  -- `ssvj::Val{}`.
  pub null : Val
  -- `mkObj(k, v, …)`, `mkArr(v, …)`.
  pub mk_obj : List (String × Val) → Val
  pub mk_arr : List Val → Val
  -- `v[k] = w`, `v[k]` and `v[i]` as reads, `v.has(k)`.
  pub put : Val → String → Val → Val
  pub get : Val → String → Result Val
  pub nth : Val → ℕ → Result Val
  pub has : Val → String → Bool
  -- `v.emplace(w)`, `v.isEmptyObj()`, `v == w`.
  pub emplace : Val → Val → Val
  pub is_empty_obj : Val → Bool
  pub val_eq : Val → Val → Bool
  -- The pairs of `v.forObj()` and the elements of an array, in order.
  pub for_obj : Val → Result (List (String × Val))
  pub for_arr : Val → Result (List Val)
  -- Conversions to a value, and `v.as<T>()`.
  pub of_field : (t : FieldType) → Value t → Val
  pub as_field : (t : FieldType) → Val → Result (Value t)
  pub of_id : ℤ → Val
  pub as_id : Val → Result ℤ
  pub of_bits : Bitset → Val
  pub as_bits : ℕ → Val → Result Bitset
  pub as_str : Val → Result String
  -- `ssvu::toStr` and `ssvu::sToInt`.
  pub to_str : ℤ → String
  pub s_to_int : String → Result ℤ

-- The entry of a key in a list of pairs.
unfoldable pub assoc {ℓ} : {A : Type ℓ} → String → List (String × A) → Option A
assoc k [] = none
assoc k ((j, v) ∷ l) = if str_eq j k then some v else assoc k l

-- No key occurs twice.
abbrev pub IsDistinct : {A : Type 0} → List (String × A) → Type 0
IsDistinct [] = Unit {0}
IsDistinct ((k, v) ∷ l) = (assoc k l ≡ none) × IsDistinct l

-- `IsObj` tells the objects among the values, and `entry` is what an object holds.
pub record JsonLaws (J : Json) : Type 1 where
  pub IsObj : J.Val → Type 0
  pub entry : J.Val → String → Option J.Val
  pub mk_obj-IsObj : (l : List (String × J.Val)) → IsObj (J.mk_obj l)
  pub entry-mk_obj :
      (l : List (String × J.Val)) (k : String) → IsDistinct l → entry (J.mk_obj l) k ≡ assoc k l
  pub put-IsObj : (v : J.Val) (k : String) (w : J.Val) → IsObj v → IsObj (J.put v k w)
  pub entry-put :
      (v : J.Val) (k : String) (w : J.Val) (j : String)
      → IsObj v
      → entry (J.put v k w) j ≡ (if str_eq k j then some w else entry v j)
  pub has-entry : (v : J.Val) (k : String) → IsObj v → J.has v k ≡ is_some (entry v k)
  pub get-entry :
      (v : J.Val) (k : String) (w : J.Val) → IsObj v → entry v k ≡ some w → J.get v k ≡ ok w
  pub is_empty_obj_iff :
      (v : J.Val) → IsObj v → (J.is_empty_obj v ≡ true) ↔ ((k : String) → entry v k ≡ none)
  pub for_obj-entry :
      (v : J.Val)
      → IsObj v
      → (l : List (String × J.Val)) × (J.for_obj v ≡ ok l)
        × IsDistinct l
        × ((k : String) → assoc k l ≡ entry v k)
  pub nth-mk_arr :
      (vs : List J.Val) (i : ℕ) (w : J.Val) → get_elem? vs i ≡ some w → J.nth (J.mk_arr vs) i ≡ ok w
  pub emplace-mk_arr :
      (vs : List J.Val) (w : J.Val) → J.emplace (J.mk_arr vs) w ≡ J.mk_arr (vs ++ w ∷ [])
  pub for_arr-mk_arr : (vs : List J.Val) → J.for_arr (J.mk_arr vs) ≡ ok vs
  pub val_eq_iff : (v w : J.Val) → (J.val_eq v w ≡ true) ↔ (v ≡ w)
  pub as-of_field : (t : J.FieldType) (x : J.Value t) → J.as_field t (J.of_field t x) ≡ ok x
  pub as-of_id : (i : ℤ) → J.as_id (J.of_id i) ≡ ok i
  pub as-of_bits : (b : Bitset) → J.as_bits (length b) (J.of_bits b) ≡ ok b
  pub as_str-of_bits : (b : Bitset) → J.as_str (J.of_bits b) ≡ ok (to_string b)
  pub s_to_int-to_str : (i : ℤ) → J.s_to_int (J.to_str i) ≡ ok i
  pub to_str-ne-ff : (i : ℤ) → J.to_str i ≢ "ff"

-- An empty object serves as an array without elements, both where an element is put into it and where
-- its elements are read: the program writes and reads the removed identifiers so.
pub record EmptyAsArray (J : Json) : Type 0 where
  pub emplace-mk_obj : (w : J.Val) → J.emplace (J.mk_obj []) w ≡ J.mk_arr (w ∷ [])
  pub for_arr-mk_obj : J.for_arr (J.mk_obj []) ≡ ok []
