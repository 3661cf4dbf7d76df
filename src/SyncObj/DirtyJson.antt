-- ===== src/SyncObj/DirtyJson.antt =====
-- The json of the dirty fields, and an object set from it.
use auto_sync_gen.Prelude.{
  ℕ, zero, suc, ◌+◌, ◌<◌, ◌≡◌, refl, sym, ap, ◌∙◌, inl, inr, none, some, List, [], ◌∷◌, get_elem?,
  get_or, set, length, Bool, true, false, Bool-cases, ◌==◌, pos, arith, if◌then◌else◌,
}
use auto_sync_gen.Json.{Json, JsonLaws, assoc}
use auto_sync_gen.Json.Keys.{str_eq-field_key, str_eq-ff'}
use auto_sync_gen.Result.{ok}
use auto_sync_gen.SyncObj.{
  TplFields, SyncObj, field_key, put_dirty, to_json_dirty, set_from_json, flags_obj,
}
use auto_sync_gen.SyncObj.Entries.{vals, vals_in_range, entry-flags_obj, flags_obj-IsObj}
use auto_sync_gen.SyncObj.Load.{Feeds-intro, Supplies, set_from_json_lem, flags_after}
use auto_sync_gen.SyncObj.Dirty.{Edit, run_edits, Marks, run_edits-Marks}

module _ (J : Json) (W : JsonLaws J) where
  open J use {Val, FieldType, of_field}
  open W use {entry, IsObj}

  dirty_put : Bool → ℕ → Val → Val → Val
  dirty_put b i w v = if b then J.put v (field_key J i) w else v

  dirty_put-IsObj : (b : Bool) (i : ℕ) (w v : Val) → IsObj v → IsObj (dirty_put b i w v)
  unfolding dirty_put
  dirty_put-IsObj true i w v h = W.put-IsObj v (field_key J i) w h
  dirty_put-IsObj false i w v h = h

  entry-dirty_put :
      (b : Bool) (i : ℕ) (w v : Val) (j : ℕ)
      → IsObj v
      → entry (dirty_put b i w v) (field_key J j) ≡ (
          if i == j
          then (if b then some w else entry v (field_key J j))
          else entry v (field_key J j))
  unfolding dirty_put
  entry-dirty_put true i w v j h =
      ground (arith, W.entry-put v (field_key J i) w (field_key J j) h, str_eq-field_key J W i j)
  entry-dirty_put false i w v j h = ground arith

  entry-put_dirty_below :
      (ts : List FieldType) (i j : ℕ) (xs : TplFields J ts) (flags : List Bool) (v : Val)
      → IsObj v
      → j < i
      → entry (put_dirty J ts i xs flags v) (field_key J j) ≡ entry v (field_key J j)
  unfolding put_dirty dirty_put
  entry-put_dirty_below [] i j xs flags v h lt = refl
  entry-put_dirty_below (t ∷ ts) i j (x, xs) flags v h lt =
      let b = get_or flags i false in
      entry-put_dirty_below ts (suc i) j xs flags _ (dirty_put-IsObj b i (of_field t x) v h)
        (omega arith)
      ∙ entry-dirty_put b i (of_field t x) v j h
      ∙ ground arith

  entry-put_dirty :
      (ts : List FieldType) (i n : ℕ) (xs : TplFields J ts) (flags : List Bool) (v w : Val) (j : ℕ)
      → IsObj v
      → j ≡ i + n
      → get_elem? (vals J ts xs) n ≡ some w
      → entry (put_dirty J ts i xs flags v) (field_key J j)
        ≡ (if get_or flags j false then some w else entry v (field_key J j))
  unfolding put_dirty dirty_put
  entry-put_dirty [] i n xs flags v w j h e g = cc
  entry-put_dirty (t ∷ ts) i zero (x, xs) flags v w j h e g =
      let b = get_or flags i false in
      entry-put_dirty_below ts (suc i) j xs flags _ (dirty_put-IsObj b i (of_field t x) v h)
        (omega arith)
      ∙ entry-dirty_put b i (of_field t x) v j h
      ∙ ground (arith, ap (λ k. get_or flags k false) e)
  entry-put_dirty (t ∷ ts) i (suc n) (x, xs) flags v w j h e g =
      let b = get_or flags i false in
      entry-put_dirty ts (suc i) n xs flags _ w j (dirty_put-IsObj b i (of_field t x) v h)
        (omega arith) g
      ∙ ground (arith, entry-dirty_put b i (of_field t x) v j h)

  put_dirty-IsObj :
      (ts : List FieldType) (i : ℕ) (xs : TplFields J ts) (flags : List Bool) (v : Val)
      → IsObj v
      → IsObj (put_dirty J ts i xs flags v)
  unfolding put_dirty dirty_put
  put_dirty-IsObj [] i xs flags v h = h
  put_dirty-IsObj (t ∷ ts) i (x, xs) flags v h =
      put_dirty-IsObj ts (suc i) xs flags _
        (dirty_put-IsObj (get_or flags i false) i (of_field t x) v h)

  module _ {ts : List FieldType} (o : SyncObj J ts) where
    to_json_dirty-IsObj : IsObj (to_json_dirty J o)
    unfolding to_json_dirty
    to_json_dirty-IsObj =
        put_dirty-IsObj ts zero o.fields o.field_flags (flags_obj J o) (flags_obj-IsObj J W o)

    -- A field has an entry exactly if its bit is set.
    pub entry-to_json_dirty :
        (n : ℕ) (w : Val)
        → get_elem? (vals J ts o.fields) n ≡ some w
        → entry (to_json_dirty J o) (field_key J n)
          ≡ (if get_or o.field_flags n false then some w else none)
    unfolding to_json_dirty assoc
    entry-to_json_dirty n w g =
        entry-put_dirty ts zero n o.fields o.field_flags (flags_obj J o) w n (flags_obj-IsObj J W o)
          (omega arith) g
        ∙ ground (arith, entry-flags_obj J W o (field_key J n), str_eq-ff' J W (pos n))

    -- The json of the dirty fields brings a copy of the object up to date, whatever it was that the
    -- marks are kept against.
    pub set_from_json-to_json_dirty :
        (b : SyncObj J ts)
        → Marks J b o
        → (q : SyncObj J ts) × (set_from_json J (to_json_dirty J o) b ≡ ok q)
          × (q.fields ≡ o.fields)
    set_from_json-to_json_dirty b m = (
      record {
        fields = o.fields;
        field_flags = flags_after J (length ts) zero (to_json_dirty J o) b.field_flags;
      },
      set_from_json_lem J W (to_json_dirty J o) b o.fields to_json_dirty-IsObj
          (Feeds-intro J W ts (to_json_dirty J o) b.fields o.fields supplies),
      refl,
    )
      where
        supplies :
            (n : ℕ)
            → n < length ts
            → Supplies J W
                (to_json_dirty J o)
                n
                (get_elem? (vals J ts b.fields) n)
                (get_elem? (vals J ts o.fields) n)
        supplies n lt =
            let (w, g) = vals_in_range J ts n o.fields lt in
            elim (Bool-cases (get_or o.field_flags n false)) [
              | inl set ↦ inl (entry-to_json_dirty n w g ∙ rw set (sym g))
              | inr clear ↦ inr (entry-to_json_dirty n w g ∙ rw clear, sym (m.clean n clear))
            ]

-- For an object with a bit for each field, the json of the dirty fields after any edits, set into
-- the object as it was, succeeds and gives the edited fields.
pub run_edits_synced :
    (J : Json) (W : JsonLaws J) {ts : List J.FieldType} (es : List (Edit J ts)) (b : SyncObj J ts)
    → length b.field_flags ≡ length ts
    → (q : SyncObj J ts) × (set_from_json J (to_json_dirty J (run_edits J es b)) b ≡ ok q)
      × (q.fields ≡ (run_edits J es b).fields)
run_edits_synced J W es b h =
    set_from_json-to_json_dirty J W (run_edits J es b) b
      (run_edits-Marks J es b b (record { sized = h; clean = λ n c. refl }))
