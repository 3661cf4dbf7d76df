-- ===== src/SyncObj/Dirty.antt =====
-- The dirty bits: which fields `edit` marks, and what the json of the dirty fields holds.
use auto_sync_gen.Prelude.{
  ℕ, zero, suc, ◌<◌, ◌≡◌, ◌≢◌, refl, sym, ap, ◌∙◌, List, [], ◌∷◌, get_elem?, get_or, set, length,
  true, false, arith, get_or-set_self, get_or-set_ne, length-set,
}
use auto_sync_gen.Json.{Json}
use auto_sync_gen.SyncObj.{
  TplFields, SyncObj, At, here, there, position, get_field_at, put_field_at, view, edit,
}
use auto_sync_gen.SyncObj.Entries.{vals}

module _ (J : Json) where
  open J use {FieldType, Value}

  get-put_field_at :
      {ts : List FieldType} {t : FieldType} (p : At J ts t) (x : Value t) (xs : TplFields J ts)
      → get_field_at J p (put_field_at J p x xs) ≡ x
  unfolding get_field_at put_field_at
  get-put_field_at here x (y, ys) = refl
  get-put_field_at (there p) x (y, ys) = get-put_field_at p x ys

  vals-put_field_at :
      {ts : List FieldType} {t : FieldType} (p : At J ts t) (x : Value t) (xs : TplFields J ts)
      (n : ℕ)
      → position J p ≢ n
      → get_elem? (vals J ts (put_field_at J p x xs)) n ≡ get_elem? (vals J ts xs) n
  unfolding put_field_at position
  vals-put_field_at here x (y, ys) zero h = absurd (h refl)
  vals-put_field_at here x (y, ys) (suc n) h = refl
  vals-put_field_at (there p) x (y, ys) zero h = refl
  vals-put_field_at (there p) x (y, ys) (suc n) h = vals-put_field_at p x ys n (λ e. h (ap suc e))

  position-lt : {ts : List FieldType} {t : FieldType} (p : At J ts t) → position J p < length ts
  unfolding position
  position-lt here = omega arith
  position-lt (there p) = omega (arith, position-lt p)

  -- An edit: a field and its new value.
  pub data Edit (ts : List FieldType) : Type 0 where
    at_field : {t : FieldType} → At J ts t → Value t → Edit ts

  module _ {ts : List FieldType} where
    unfoldable pub run_edits : List (Edit ts) → SyncObj J ts → SyncObj J ts
    run_edits [] o = o
    run_edits (at_field p x ∷ es) o = run_edits es (edit J p x o)

    -- Where the bit is clear, `o` has the field that it had in `b`.
    pub record Marks (b o : SyncObj J ts) : Type 0 where
      pub sized : length o.field_flags ≡ length ts
      pub clean :
          (n : ℕ)
          → get_or o.field_flags n false ≡ false
          → get_elem? (vals J ts o.fields) n ≡ get_elem? (vals J ts b.fields) n

    pub length-edit :
        {t : FieldType} (p : At J ts t) (x : Value t) (o : SyncObj J ts)
        → length (edit J p x o).field_flags ≡ length o.field_flags
    unfolding edit
    length-edit p x o = length-set o.field_flags (position J p) true

    pub edit-Marks :
        {t : FieldType} (p : At J ts t) (x : Value t) (b o : SyncObj J ts)
        → Marks b o
        → Marks b (edit J p x o)
    unfolding edit
    edit-Marks p x b o m = record {
      sized = length-set o.field_flags (position J p) true ∙ m.sized;
      clean = λ n h.
          let other : position J p ≢ n = λ e. absurd (
            true-ne-false (
              sym (
                get_or-set_self o.field_flags (position J p) true false
                  (omega (arith, m.sized, position-lt p)))
              ∙ ap (λ k. get_or (set o.field_flags (position J p) true) k false) e
              ∙ h)) in
          vals-put_field_at p x o.fields n other
          ∙ m.clean n (sym (get_or-set_ne o.field_flags (position J p) n true false other) ∙ h);
    }
      where
        true-ne-false : true ≡ false → ⊥
        true-ne-false e = cc

    -- If an object has a bit for each field and each field that differs from the base's is marked,
    -- then both hold after any edits of it.
    pub run_edits-Marks :
        (es : List (Edit ts)) (b o : SyncObj J ts) → Marks b o → Marks b (run_edits es o)
    unfolding run_edits
    run_edits-Marks [] b o m = m
    run_edits-Marks (at_field p x ∷ es) b o m = run_edits-Marks es b _ (edit-Marks p x b o m)

    -- The edited field reads as the new value.
    pub view-edit :
        {t : FieldType} (p : At J ts t) (x : Value t) (o : SyncObj J ts)
        → view J p (edit J p x o) ≡ x
    unfolding view edit
    view-edit p x o = get-put_field_at p x o.fields
