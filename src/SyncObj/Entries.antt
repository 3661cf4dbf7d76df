-- ===== src/SyncObj/Entries.antt =====
-- What the json of an object holds: the flags, and an entry for each field.
use Prim.Native.String.{String}
use auto_sync_gen.Prelude.{
  ℕ, zero, suc, ◌+◌, ◌<◌, ◌≡◌, refl, ap, ◌∙◌, some, List, [], ◌∷◌, get_elem?, length, pos, arith,
}
use auto_sync_gen.Json.{Json, JsonLaws, assoc}
use auto_sync_gen.Json.Keys.{str_eq-field_key, str_eq-ff}
use auto_sync_gen.SyncObj.{TplFields, SyncObj, field_key, put_all, to_json_all, flags_obj}

module _ (J : Json) where
  open J use {Val, FieldType, of_field}

  -- The json values of the fields.
  abbrev pub vals : (ts : List FieldType) → TplFields J ts → List Val
  vals [] xs = []
  vals (t ∷ ts) (x, xs) = of_field t x ∷ vals ts xs

  pub length-vals : (ts : List FieldType) (xs : TplFields J ts) → length (vals ts xs) ≡ length ts
  length-vals [] xs = refl
  length-vals (t ∷ ts) (x, xs) = ap suc (length-vals ts xs)

  pub vals_in_range :
      (ts : List FieldType) (n : ℕ) (xs : TplFields J ts)
      → n < length ts
      → (w : Val) × (get_elem? (vals ts xs) n ≡ some w)
  vals_in_range [] n xs h = elim h [ ]
  vals_in_range (t ∷ ts) zero (x, xs) h = (of_field t x, refl)
  vals_in_range (t ∷ ts) (suc n) (x, xs) h = vals_in_range ts n xs (omega arith)

module _ (J : Json) (W : JsonLaws J) where
  open J use {Val, FieldType, of_field, of_bits}
  open W use {entry, IsObj}

  pub put_all-IsObj :
      (ts : List FieldType) (i : ℕ) (xs : TplFields J ts) (v : Val)
      → IsObj v
      → IsObj (put_all J ts i xs v)
  unfolding put_all
  put_all-IsObj [] i xs v h = h
  put_all-IsObj (t ∷ ts) i (x, xs) v h =
      put_all-IsObj ts (suc i) xs _ (W.put-IsObj v (field_key J i) (of_field t x) h)

  entry-put_all_below :
      (ts : List FieldType) (i j : ℕ) (xs : TplFields J ts) (v : Val)
      → IsObj v
      → j < i
      → entry (put_all J ts i xs v) (field_key J j) ≡ entry v (field_key J j)
  unfolding put_all
  entry-put_all_below [] i j xs v h lt = refl
  entry-put_all_below (t ∷ ts) i j (x, xs) v h lt =
      entry-put_all_below ts (suc i) j xs _ (W.put-IsObj v (field_key J i) (of_field t x) h)
        (omega arith)
      ∙ ground (
        arith,
        W.entry-put v (field_key J i) (of_field t x) (field_key J j) h,
        str_eq-field_key J W i j,
      )

  entry-put_all :
      (ts : List FieldType) (i n : ℕ) (xs : TplFields J ts) (v w : Val) (j : ℕ)
      → IsObj v
      → j ≡ i + n
      → get_elem? (vals J ts xs) n ≡ some w
      → entry (put_all J ts i xs v) (field_key J j) ≡ some w
  unfolding put_all
  entry-put_all [] i n xs v w j h e g = cc
  entry-put_all (t ∷ ts) i zero (x, xs) v w j h e g =
      entry-put_all_below ts (suc i) j xs _ (W.put-IsObj v (field_key J i) (of_field t x) h)
        (omega arith)
      ∙ ground (
        arith,
        W.entry-put v (field_key J i) (of_field t x) (field_key J j) h,
        str_eq-field_key J W i j,
      )
  entry-put_all (t ∷ ts) i (suc n) (x, xs) v w j h e g =
      entry-put_all ts (suc i) n xs _ w j (W.put-IsObj v (field_key J i) (of_field t x) h)
        (omega arith) g

  entry-put_all_ff :
      (ts : List FieldType) (i : ℕ) (xs : TplFields J ts) (v : Val)
      → IsObj v
      → entry (put_all J ts i xs v) "ff" ≡ entry v "ff"
  unfolding put_all
  entry-put_all_ff [] i xs v h = refl
  entry-put_all_ff (t ∷ ts) i (x, xs) v h =
      entry-put_all_ff ts (suc i) xs _ (W.put-IsObj v (field_key J i) (of_field t x) h)
      ∙ ground (arith, W.entry-put v (field_key J i) (of_field t x) "ff" h, str_eq-ff J W (pos i))

  module _ {ts : List FieldType} (o : SyncObj J ts) where
    pub entry-flags_obj :
        (k : String) → entry (flags_obj J o) k ≡ assoc k (("ff", of_bits o.field_flags) ∷ [])
    unfolding flags_obj assoc
    entry-flags_obj k = W.entry-mk_obj _ k (refl, tt)

    pub flags_obj-IsObj : IsObj (flags_obj J o)
    unfolding flags_obj
    flags_obj-IsObj = W.mk_obj-IsObj _

    pub to_json_all-IsObj : IsObj (to_json_all J o)
    unfolding to_json_all
    to_json_all-IsObj = put_all-IsObj ts zero o.fields (flags_obj J o) flags_obj-IsObj

    -- The entry of a field is its value.
    pub entry-to_json_all :
        (n : ℕ) (w : Val)
        → get_elem? (vals J ts o.fields) n ≡ some w
        → entry (to_json_all J o) (field_key J n) ≡ some w
    unfolding to_json_all
    entry-to_json_all n w g =
        entry-put_all ts zero n o.fields (flags_obj J o) w n flags_obj-IsObj (omega arith) g

    -- The entry of the flags is the bitset.
    pub entry-to_json_all_ff : entry (to_json_all J o) "ff" ≡ some (of_bits o.field_flags)
    unfolding to_json_all assoc
    entry-to_json_all_ff =
        entry-put_all_ff ts zero o.fields (flags_obj J o) flags_obj-IsObj ∙ entry-flags_obj "ff"
