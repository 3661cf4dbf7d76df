-- ===== src/Tests/JsonLaws.antt =====
-- The tree model of json meets `JsonLaws`.
use Prim.Native.Char.{code}
use Prim.Native.String.{String}
use mathlib.Core.List.{append-nil}
use text.Mathlib.Text.{◌==◌ as str_eq}
use text.Mathlib.TextEquality.{eq_iff}
use auto_sync_gen.Prelude.{
  ℕ, zero, suc, ◌-◌, ℤ, pos, negsuc, ◌≡◌, ◌≢◌, ◌↔◌, refl, ap, ◌∙◌, true, none, some, List, [], ◌∷◌,
  ◌++◌, length, get_elem?, if◌then◌else◌, ltb, arith, Bool-cases, inl, inr,
}
use auto_sync_gen.Result.{ok}
use auto_sync_gen.Bitset.{Bitset, to_string, of_string}
use auto_sync_gen.Bitset.Laws.{of_string-to_string}
use auto_sync_gen.Json.{JsonLaws, assoc, IsDistinct}
use auto_sync_gen.Tests.JsonModel.{
  Value, of_elements, entry, IsObj, put, of_members, get, nth, emplace, is_empty_obj, val_eq,
  for_obj, for_arr, of_field, as_field, strokes, to_str, count, s_to_int, tree_json, all_operations,
  Tree, end_obj, member, element, FieldType, int, chars,
}

entry-put :
    (v : Tree) (k : String) (w : Tree) (j : String)
    → IsObj v
    → entry (put v k w) j ≡ (if str_eq k j then some w else entry v j)
unfolding all_operations
entry-put end_obj k w j h = refl
entry-put (member i v r) k w j h =
    ground (arith, entry-put r k w j h.1, eq_iff i k, eq_iff i j, eq_iff k j)
entry-put v k w j h = absurd h

put-IsObj : (v : Tree) (k : String) (w : Tree) → IsObj v → IsObj (put v k w)
unfolding all_operations
put-IsObj end_obj k w h = (refl, tt)
put-IsObj (member i v r) k w h = elim (Bool-cases (str_eq i k)) [
  | inl e ↦ rw e (rw (← (eq_iff i k).0 e) h.0, h.1)
  | inr e ↦
      rw e (entry-put r k w i h.1 ∙ ground (arith, eq_iff i k, eq_iff k i), put-IsObj r k w h.1)
]
put-IsObj v k w h = absurd h

of_members-IsObj : (l : List (String × Tree)) → IsObj (of_members l)
unfolding all_operations
of_members-IsObj [] = tt
of_members-IsObj ((k, v) ∷ l) = put-IsObj (of_members l) k v (of_members-IsObj l)

entry-of_members : (l : List (String × Tree)) (k : String) → entry (of_members l) k ≡ assoc k l
unfolding all_operations
entry-of_members [] k = refl
entry-of_members ((j, v) ∷ l) k =
    entry-put (of_members l) j v k (of_members-IsObj l) ∙ ground (arith, entry-of_members l k)

get-entry : (v : Tree) (k : String) (w : Tree) → entry v k ≡ some w → get v k ≡ ok w
unfolding get
get-entry v k w e = rw (e, get)

no_entry : (v : Tree) → IsObj v → is_empty_obj v ≡ true → (k : String) → entry v k ≡ none
unfolding all_operations
no_entry end_obj h e k = refl
no_entry (member i v r) h e k = cc
no_entry v h e k = absurd h

empty_of_no_entry : (v : Tree) → IsObj v → ((k : String) → entry v k ≡ none) → is_empty_obj v ≡ true
unfolding all_operations
empty_of_no_entry end_obj h e = refl
empty_of_no_entry (member i v r) h e = ground (arith, e i, eq_iff i i)
empty_of_no_entry v h e = absurd h

for_obj-entry :
    (v : Tree)
    → IsObj v
    → (l : List (String × Tree)) × (for_obj v ≡ ok l)
      × IsDistinct l
      × ((k : String) → assoc k l ≡ entry v k)
unfolding all_operations
for_obj-entry end_obj h = ([], refl, tt, λ k. refl)
for_obj-entry (member i v r) h =
    let (l, run, distinct, same) = for_obj-entry r h.1 in
    ((i, v) ∷ l, rw run, (same i ∙ h.0, distinct), λ k. rw (same k))
for_obj-entry v h = absurd h

nth-of_elements :
    (vs : List Tree) (i : ℕ) (w : Tree) → get_elem? vs i ≡ some w → nth (of_elements vs) i ≡ ok w
unfolding all_operations
nth-of_elements [] i w e = cc
nth-of_elements (v ∷ vs) zero w e = cc
nth-of_elements (v ∷ vs) (suc i) w e = nth-of_elements vs i w e

emplace-of_elements :
    (vs : List Tree) (w : Tree) → emplace (of_elements vs) w ≡ of_elements (vs ++ w ∷ [])
unfolding all_operations
emplace-of_elements [] w = refl
emplace-of_elements (v ∷ vs) w = ap (element v) (emplace-of_elements vs w)

for_arr-of_elements : (vs : List Tree) → for_arr (of_elements vs) ≡ ok vs
unfolding all_operations
for_arr-of_elements [] = refl
for_arr-of_elements (v ∷ vs) = rw (for_arr-of_elements vs)

val_eq_iff : (v w : Tree) → (val_eq v w ≡ true) ↔ (v ≡ w)
unfolding val_eq
val_eq_iff v w = ground arith

as-of_field : (t : FieldType) (x : Value t) → as_field t (of_field t x) ≡ ok x
unfolding all_operations
as-of_field int x = refl
as-of_field chars x = refl

as-of_bits : (b : Bitset) → of_string (length b) (to_string b) ≡ ok b
as-of_bits b =
    let full : length b - length b ≡ zero = omega arith in
    of_string-to_string (length b) b (omega arith) ∙ rw (full, append-nil b)

count-strokes : (n : ℕ) → count (strokes n) ≡ n
unfolding all_operations
count-strokes zero = refl
count-strokes (suc n) = ap suc (count-strokes n)

s_to_int-to_str : (i : ℤ) → s_to_int (to_str i) ≡ ok i
unfolding all_operations
s_to_int-to_str (pos zero) = refl
s_to_int-to_str (pos (suc zero)) = refl
s_to_int-to_str (pos (suc (suc zero))) = refl
s_to_int-to_str (pos (suc (suc (suc n)))) =
    rw (count-strokes n) (ap (λ k. ok (pos k)) (omega arith))
s_to_int-to_str (negsuc n) = rw (count-strokes n)

first : String → ℕ
first String.[] = 0
first (String.◌∷◌ c s) = code c

differ : (c : ℕ) → ltb c 102 ≡ true → c ≡ 102 → ⊥
differ c b e = ground arith

to_str-ne-ff : (i : ℤ) → to_str i ≢ "ff"
unfolding to_str first
to_str-ne-ff (pos zero) e = differ 48 refl (ap first e)
to_str-ne-ff (pos (suc zero)) e = differ 49 refl (ap first e)
to_str-ne-ff (pos (suc (suc zero))) e = differ 50 refl (ap first e)
to_str-ne-ff (pos (suc (suc (suc n)))) e = differ 51 refl (ap first e)
to_str-ne-ff (negsuc n) e = differ 45 refl (ap first e)

pub tree_laws : JsonLaws tree_json
unfolding all_operations
tree_laws = record {
  IsObj = IsObj;
  entry = entry;
  mk_obj-IsObj = of_members-IsObj;
  entry-mk_obj = λ l k d. entry-of_members l k;
  put-IsObj = put-IsObj;
  entry-put = entry-put;
  has-entry = λ v k h. refl;
  get-entry = λ v k w h e. get-entry v k w e;
  is_empty_obj_iff = λ v h. (no_entry v h, empty_of_no_entry v h);
  for_obj-entry = for_obj-entry;
  nth-mk_arr = nth-of_elements;
  emplace-mk_arr = emplace-of_elements;
  for_arr-mk_arr = for_arr-of_elements;
  val_eq_iff = val_eq_iff;
  as-of_field = as-of_field;
  as-of_id = λ i. refl;
  as-of_bits = as-of_bits;
  as_str-of_bits = λ b. refl;
  s_to_int-to_str = s_to_int-to_str;
  to_str-ne-ff = to_str-ne-ff;
}
