-- ===== src/SyncObj/Load.antt =====
-- `setFromJson`: which fields and flags an object has after it is set from a value.
use Prim.Native.String.{String}
use mathlib.Core.Path.{ap₂}
use auto_sync_gen.Prelude.{
  ℕ, zero, suc, ◌+◌, ◌<◌, ◌≤◌, ◌≡◌, refl, sym, ap, subst, ◌∙◌, ◌⊎◌, inl, inr, Option, none, some,
  List, [], ◌∷◌, get_elem?, get_or, set, length, false, ◌==◌, arith, if◌then◌else◌, length-set,
}
use auto_sync_gen.Result.{ok, >>=-eq-ok}
use auto_sync_gen.Bitset.{Bitset}
use auto_sync_gen.Json.{Json, JsonLaws}
use auto_sync_gen.Json.Keys.{ok-injective}
use auto_sync_gen.SyncObj.{
  TplFields, SyncObj, field_key, set_field, set_fields, set_from_json, to_json_all,
}
use auto_sync_gen.SyncObj.Entries.{vals, vals_in_range, entry-to_json_all, to_json_all-IsObj}

-- The flags after the loop over `n` fields from index `i` on: the bits of the fields that the value
-- has are cleared.
unfoldable pub flags_after : (J : Json) → ℕ → ℕ → J.Val → Bitset → Bitset
flags_after J zero i v flags = flags
flags_after J (suc n) i v flags =
    flags_after J n (suc i) v (if J.has v (field_key J i) then set flags i false else flags)

pub length-flags_after :
    (J : Json) (n i : ℕ) (v : J.Val) (flags : Bitset)
    → length (flags_after J n i v flags) ≡ length flags
unfolding flags_after
length-flags_after J zero i v flags = refl
length-flags_after J (suc n) i v flags =
    length-flags_after J n (suc i) v _ ∙ ground (arith, length-set flags i false)

get_or-set-false :
    (flags : Bitset) (i j : ℕ)
    → get_or (set flags i false) j false ≡ (if i == j then false else get_or flags j false)
get_or-set-false [] i j = ground arith
get_or-set-false (b ∷ flags) zero zero = refl
get_or-set-false (b ∷ flags) zero (suc j) = ground arith
get_or-set-false (b ∷ flags) (suc i) zero = ground arith
get_or-set-false (b ∷ flags) (suc i) (suc j) = get_or-set-false flags i j ∙ ground arith

flags_after_below :
    (J : Json) (n i : ℕ) (v : J.Val) (flags : Bitset) (j : ℕ)
    → j < i
    → get_or (flags_after J n i v flags) j false ≡ get_or flags j false
unfolding flags_after
flags_after_below J zero i v flags j h = refl
flags_after_below J (suc n) i v flags j h =
    flags_after_below J n (suc i) v _ j (omega arith) ∙ ground (arith, get_or-set-false flags i j)

-- A bit in the range is clear exactly if it was, or if the value has the field.
pub get_or-flags_after :
    (J : Json) (n i : ℕ) (v : J.Val) (flags : Bitset) (j : ℕ)
    → i ≤ j
    → j < i + n
    → get_or (flags_after J n i v flags) j false
      ≡ (if J.has v (field_key J j) then false else get_or flags j false)
unfolding flags_after
get_or-flags_after J zero i v flags j h k = absurd (omega arith)
get_or-flags_after J (suc n) i v flags j h k = elim (ℕ-cases i j h) [
  | inl e ↦
      flags_after_below J n (suc i) v _ j (omega arith) ∙ ground (arith, get_or-set-false flags i j)
  | inr lt ↦
      get_or-flags_after J n (suc i) v _ j (omega arith) (omega arith)
      ∙ ground (arith, get_or-set-false flags i j)
]
  where
    ℕ-cases : (a b : ℕ) → a ≤ b → (a ≡ b) ⊎ (a < b)
    ℕ-cases a b h = grind arith

none-ne-some {ℓ} : {A : Type ℓ} {a : A} → ◌≡◌ {A = Option A} none (some a) → ⊥
none-ne-some e = cc

module _ (J : Json) (W : JsonLaws J) where
  open J use {Val, Value, FieldType, of_field}
  open W use {entry, IsObj}

  -- The value holds `ys` at the fields that it has, and `xs` agrees with `ys` at the others.
  abbrev pub Feeds : (ts : List FieldType) → ℕ → Val → TplFields J ts → TplFields J ts → Type 0
  Feeds [] i v xs ys = Unit {0}
  Feeds (t ∷ ts) i v (x, xs) (y, ys) =
      ((entry v (field_key J i) ≡ some (of_field t y))
        ⊎ ((entry v (field_key J i) ≡ none) × (x ≡ y)))
      × Feeds ts (suc i) v xs ys

  set_field_lem :
      (t : FieldType) (i : ℕ) (v : Val) (x y : J.Value t) (flags : Bitset)
      → IsObj v
      → ((entry v (field_key J i) ≡ some (of_field t y))
          ⊎ ((entry v (field_key J i) ≡ none) × (x ≡ y)))
      → set_field J t i v x flags
        ≡ ok (y, if J.has v (field_key J i) then set flags i false else flags)
  unfolding set_field
  set_field_lem t i v x y flags o (inl e) = rw (
    W.has-entry v (field_key J i) o,
    e,
    W.get-entry v (field_key J i) (of_field t y) o e,
    W.as-of_field t y,
  )
  set_field_lem t i v x y flags o (inr (e, q)) = rw (W.has-entry v (field_key J i) o, e, q)

  set_fields_lem :
      (ts : List FieldType) (i : ℕ) (v : Val) (xs ys : TplFields J ts) (flags : Bitset)
      → IsObj v
      → Feeds ts i v xs ys
      → set_fields J ts i v xs flags ≡ ok (ys, flags_after J (length ts) i v flags)
  unfolding set_fields flags_after
  set_fields_lem [] i v xs ys flags o f = refl
  set_fields_lem (t ∷ ts) i v (x, xs) (y, ys) flags o (f, fs) =
      rw (set_field_lem t i v x y flags o f, set_fields_lem ts (suc i) v xs ys _ o fs)

  module _ {ts : List FieldType} where
    -- An object that a value feeds takes the fields over, and the bits of those that the value has
    -- are cleared.
    pub set_from_json_lem :
        (v : Val) (o : SyncObj J ts) (ys : TplFields J ts)
        → IsObj v
        → Feeds ts zero v o.fields ys
        → set_from_json J v o
          ≡ ok
              (record { fields = ys; field_flags = flags_after J (length ts) zero v o.field_flags })
    unfolding set_from_json
    set_from_json_lem v o ys h f = rw (set_fields_lem ts zero v o.fields ys o.field_flags h f)

  -- A value with no entries feeds nothing.
  pub Feeds-none :
      (ts : List FieldType) (i : ℕ) (v : Val) (xs ys : TplFields J ts)
      → ((k : String) → entry v k ≡ none)
      → Feeds ts i v xs ys
      → xs ≡ ys
  Feeds-none [] i v xs ys h f = refl
  Feeds-none (t ∷ ts) i v (x, xs) (y, ys) h (inl e, fs) =
      absurd (none-ne-some (sym (h (field_key J i)) ∙ e))
  Feeds-none (t ∷ ts) i v (x, xs) (y, ys) h (inr (_, q), fs) =
      ap₂ {C = Value t × TplFields J ts} (λ a b. (a, b)) q (Feeds-none ts (suc i) v xs ys h fs)

  of_field-injective : (t : FieldType) (x y : J.Value t) → of_field t x ≡ of_field t y → x ≡ y
  of_field-injective t x y h =
      ok-injective x y (sym (W.as-of_field t x) ∙ ap (J.as_field t) h ∙ W.as-of_field t y)

  -- At each field the value has the target's entry, or no entry where the two agree.
  abbrev pub Supplies : Val → ℕ → Option Val → Option Val → Type 0
  Supplies v j wx wy =
      (entry v (field_key J j) ≡ wy) ⊎ ((entry v (field_key J j) ≡ none) × (wx ≡ wy))

  Feeds-from :
      (ts : List FieldType) (i : ℕ) (v : Val) (xs ys : TplFields J ts)
      → ((n : ℕ)
          → n < length ts
          → Supplies v (i + n) (get_elem? (vals J ts xs) n) (get_elem? (vals J ts ys) n))
      → Feeds ts i v xs ys
  Feeds-from [] i v xs ys h = tt
  Feeds-from (t ∷ ts) i v (x, xs) (y, ys) h = (
    elim (subst (λ j. Supplies v j (some (of_field t x)) (some (of_field t y))) (omega arith)
        (h 0 (omega arith))) [
          | inl e ↦ inl e
          | inr (e, q) ↦ inr (e, of_field-injective t x y (cc))
        ],
    Feeds-from ts (suc i) v xs ys (λ n lt.
        subst (λ j. Supplies v j (get_elem? (vals J ts xs) n) (get_elem? (vals J ts ys) n))
          (omega arith) (h (suc n) (omega arith))),
  )

  pub Feeds-intro :
      (ts : List FieldType) (v : Val) (xs ys : TplFields J ts)
      → ((n : ℕ)
          → n < length ts
          → Supplies v n (get_elem? (vals J ts xs) n) (get_elem? (vals J ts ys) n))
      → Feeds ts zero v xs ys
  Feeds-intro ts v xs ys h = Feeds-from ts zero v xs ys (λ n lt.
      subst (λ j. Supplies v j (get_elem? (vals J ts xs) n) (get_elem? (vals J ts ys) n))
        (omega arith) (h n lt))

  module _ {ts : List FieldType} where
    pub Feeds-to_json_all : (o p : SyncObj J ts) → Feeds ts zero (to_json_all J o) p.fields o.fields
    Feeds-to_json_all o p = Feeds-intro ts _ p.fields o.fields (λ n lt.
        let (w, g) = vals_in_range J ts n o.fields lt in
        inl (entry-to_json_all J W o n w g ∙ sym g))

    -- Set from the json of all fields of any object, an object gets the fields of that one, and
    -- none of its bits is set.
    pub set_from_json-to_json_all :
        (o p : SyncObj J ts)
        → (q : SyncObj J ts) × (set_from_json J (to_json_all J o) p ≡ ok q)
          × (q.fields ≡ o.fields)
          × ((n : ℕ) → n < length ts → get_or q.field_flags n false ≡ false)
    set_from_json-to_json_all o p = (
      record {
        fields = o.fields;
        field_flags = flags_after J (length ts) zero (to_json_all J o) p.field_flags;
      },
      set_from_json_lem (to_json_all J o) p o.fields (to_json_all-IsObj J W o)
          (Feeds-to_json_all o p),
      refl,
      λ n lt.
          let (w, g) = vals_in_range J ts n o.fields lt in
          get_or-flags_after J (length ts) zero (to_json_all J o) p.field_flags n (omega arith)
            (omega arith)
          ∙ rw (
            W.has-entry (to_json_all J o) (field_key J n) (to_json_all-IsObj J W o),
            entry-to_json_all J W o n w g,
          ),
    )

length-set_field :
    (J : Json) (t : J.FieldType) (i : ℕ) (v : J.Val) (x y : J.Value t) (flags flags' : Bitset)
    → set_field J t i v x flags ≡ ok (y, flags')
    → length flags' ≡ length flags
unfolding set_field
length-set_field J t i v x y flags flags' e = ground (arith, length-set flags i false)

length-set_fields :
    (J : Json) (ts : List J.FieldType) (i : ℕ) (v : J.Val) (xs ys : TplFields J ts)
    (flags flags' : Bitset)
    → set_fields J ts i v xs flags ≡ ok (ys, flags')
    → length flags' ≡ length flags
unfolding set_fields
length-set_fields J [] i v xs ys flags flags' e = ground arith
length-set_fields J (t ∷ ts) i v (x, xs) ys flags flags' e =
    let ((y, f1), r1, e1) = >>=-eq-ok (set_field J t i v x flags) _ e in
    let ((zs, f2), r2, e2) = >>=-eq-ok (set_fields J ts (suc i) v xs f1) _ e1 in
    let same : f2 ≡ flags' = cc in
    ap length (sym same)
    ∙ length-set_fields J ts (suc i) v xs zs f1 f2 r2
    ∙ length-set_field J t i v x y flags f1 r1

-- The number of bits stays.
pub length-set_from_json :
    (J : Json) (ts : List J.FieldType) (v : J.Val) (o q : SyncObj J ts)
    → set_from_json J v o ≡ ok q
    → length q.field_flags ≡ length o.field_flags
unfolding set_from_json
length-set_from_json J ts v o q e =
    let ((ys, flags), r, d) = >>=-eq-ok (set_fields J ts zero v o.fields o.field_flags) _ e in
    let same : flags ≡ q.field_flags = cc in
    ap length (sym same) ∙ length-set_fields J ts zero v o.fields ys o.field_flags flags r
