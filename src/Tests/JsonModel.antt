-- ===== src/Tests/JsonModel.antt =====
-- A json library that meets `JsonLaws`: values as trees, an identifier's text in unary.
use Prim.Native.Char.{code}
use Prim.Native.String.{String}
use text.Mathlib.Text.{◌==◌ as str_eq}
use text.Mathlib.TextEquality.{eq_iff}
use native.Mathlib.Decide.{ℕ_discrete}
use auto_sync_gen.Prelude.{
  ℕ, zero, suc, ℤ, pos, negsuc, ◌≡◌, sym, ◌∙◌, Bool, true, false, Option, none, some, List, [], ◌∷◌,
  is_some, if◌then◌else◌, ◌==◌, ◌+◌, Bool-cases, inl, inr,
}
use auto_sync_gen.Result.{Result, ok, err, bad_json, ◌>>=◌}
use auto_sync_gen.Bitset.{to_string, of_string}
use auto_sync_gen.Json.{Json, assoc}

-- An object or an array is a chain of cells.
pub data Tree : Type 0 where
  null end_obj end_arr : Tree
  num : ℤ → Tree
  str : String → Tree
  member : String → Tree → Tree → Tree
  element : Tree → Tree → Tree

str_discrete : Discrete String
str_discrete s t = elim (Bool-cases (str_eq s t)) [
  | inl e ↦ yes ((eq_iff s t).0 e)
  | inr e ↦ no (λ q. true-ne-false (sym ((eq_iff s t).1 q) ∙ e))
]
  where
    true-ne-false : true ≡ false → ⊥
    true-ne-false e = cc

ℤ_discrete : Discrete ℤ
unfolding ℕ_discrete
ℤ_discrete = hlevel ℕ_discrete

unfoldable pub Tree-discrete : Discrete Tree
unfolding ℤ_discrete str_discrete
Tree-discrete = hlevel (ℤ_discrete, str_discrete)

pub data FieldType : Type 0 where
  int chars : FieldType

abbrev pub Value : FieldType → Type 0
Value int = ℤ
Value chars = String

unfoldable pub initial : (t : FieldType) → Value t
initial int = pos 0
initial chars = ""

unfoldable pub of_elements : List Tree → Tree
of_elements [] = end_arr
of_elements (v ∷ l) = element v (of_elements l)

unfoldable pub entry : Tree → String → Option Tree
entry (member j v r) k = if str_eq j k then some v else entry r k
entry _ k = none

abbrev pub IsObj : Tree → Type 0
IsObj end_obj = Unit {0}
IsObj (member k v r) = (entry r k ≡ none) × IsObj r
IsObj _ = ⊥

unfoldable pub put : Tree → String → Tree → Tree
put (member j v r) k w = if str_eq j k then member k w r else member j v (put r k w)
put end_obj k w = member k w end_obj
put null k w = member k w end_obj
put v k w = v

unfoldable pub of_members : List (String × Tree) → Tree
of_members [] = end_obj
of_members ((k, v) ∷ l) = put (of_members l) k v

unfoldable pub has : Tree → String → Bool
has v k = is_some (entry v k)

unfoldable pub get : Tree → String → Result Tree
get v k = elim (entry v k) [ none ↦ err bad_json | some w ↦ ok w ]

unfoldable pub nth : Tree → ℕ → Result Tree
nth (element v r) zero = ok v
nth (element v r) (suc i) = nth r i
nth _ i = err bad_json

unfoldable pub emplace : Tree → Tree → Tree
emplace (element v r) w = element v (emplace r w)
emplace end_arr w = element w end_arr
emplace end_obj w = element w end_arr
emplace null w = element w end_arr
emplace v w = v

unfoldable pub is_empty_obj : Tree → Bool
is_empty_obj end_obj = true
is_empty_obj _ = false

unfoldable pub val_eq : Tree → Tree → Bool
val_eq v w = elim (Tree-discrete v w) [ yes e ↦ true | no n ↦ false ]

unfoldable pub for_obj : Tree → Result (List (String × Tree))
for_obj (member k v r) = for_obj r >>= λ l. ok ((k, v) ∷ l)
for_obj end_obj = ok []
for_obj _ = err bad_json

unfoldable pub for_arr : Tree → Result (List Tree)
for_arr (element v r) = for_arr r >>= λ l. ok (v ∷ l)
for_arr end_arr = ok []
for_arr end_obj = ok []
for_arr _ = err bad_json

unfoldable pub of_field : (t : FieldType) → Value t → Tree
of_field int x = num x
of_field chars x = str x

unfoldable pub as_num : Tree → Result ℤ
as_num (num i) = ok i
as_num _ = err bad_json

unfoldable pub as_str : Tree → Result String
as_str (str s) = ok s
as_str _ = err bad_json

unfoldable pub as_field : (t : FieldType) → Tree → Result (Value t)
as_field int v = as_num v
as_field chars v = as_str v

unfoldable pub strokes : ℕ → String
strokes zero = ""
strokes (suc n) = String.◌∷◌ "1" (strokes n)

unfoldable pub to_str : ℤ → String
to_str (pos zero) = "0"
to_str (pos (suc zero)) = "1"
to_str (pos (suc (suc zero))) = "2"
to_str (pos (suc (suc (suc n)))) = String.◌∷◌ "3" (strokes n)
to_str (negsuc n) = String.◌∷◌ "-" (strokes n)

unfoldable pub count : String → ℕ
count String.[] = zero
count (String.◌∷◌ c s) = suc (count s)

unfoldable pub s_to_int : String → Result ℤ
s_to_int String.[] = err bad_json
s_to_int (String.◌∷◌ c s) =
    if code c == b'0'
    then ok (pos 0)
    else (if code c == b'1'
        then ok (pos 1)
        else (if code c == b'2'
            then ok (pos 2)
            else (if code c == b'3' then ok (pos (3 + count s)) else ok (negsuc (count s)))))

abbrev pub tree_json : Json
tree_json = record {
  Val = Tree;
  FieldType = FieldType;
  Value = Value;
  initial = initial;
  null = null;
  mk_obj = of_members;
  mk_arr = of_elements;
  put = put;
  get = get;
  nth = nth;
  has = has;
  emplace = emplace;
  is_empty_obj = is_empty_obj;
  val_eq = val_eq;
  for_obj = for_obj;
  for_arr = for_arr;
  of_field = of_field;
  as_field = as_field;
  of_id = num;
  as_id = as_num;
  of_bits = λ b. str (to_string b);
  as_bits = λ n v. as_str v >>= of_string n;
  as_str = as_str;
  to_str = to_str;
  s_to_int = s_to_int;
}

unfoldable pub all_operations : Unit {0}
unfolding initial of_members of_elements entry put get nth has emplace is_empty_obj val_eq for_obj
    for_arr of_field as_field as_num as_str strokes to_str count s_to_int assoc
all_operations = tt
