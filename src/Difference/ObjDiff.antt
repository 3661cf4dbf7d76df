-- ===== src/Difference/ObjDiff.antt =====
-- `getJsonDiff` of the json of two objects.
use auto_sync_gen.Prelude.{
  ℕ, zero, suc, ◌+◌, ◌<◌, ◌≤◌, ◌≡◌, refl, ◌∙◌, inl, inr, none, some, List, [], get_elem?, get_or,
  get_elem?-get_or, get_or_beyond, replicate, ◌-◌, ◌++◌, length, Bool, true, false, ◌&&◌, not,
  Bool-cases, ltb, ◌==◌, arith, if◌then◌else◌,
}
use auto_sync_gen.Result.{ok}
use auto_sync_gen.Bitset.{Bitset}
use auto_sync_gen.Bitset.Laws.{test_lem, of_string-to_string, get_or-of_string, length-of_string}
use auto_sync_gen.Json.{Json, JsonLaws, assoc}
use auto_sync_gen.Json.Keys.{str_eq-field_key}
use auto_sync_gen.SyncObj.{SyncObj, field_key, to_json_all}
use auto_sync_gen.SyncObj.Entries.{
  vals, length-vals, entry-to_json_all, entry-to_json_all_ff, to_json_all-IsObj,
}
use auto_sync_gen.SyncObj.Load.{Feeds, Feeds-intro, Feeds-none, Supplies}
use auto_sync_gen.SyncObj.Dirty.{Marks}
use auto_sync_gen.Snapshot.{max_objs}
use auto_sync_gen.Difference.{obj_diff_step, obj_diff_loop, get_json_diff}

module _ (J : Json) (W : JsonLaws J) where
  open J use {Val, FieldType, put, mk_obj, val_eq}
  open W use {entry, IsObj}

  -- The bit is set and the values differ.
  abbrev differs : Bitset → Val → Val → ℕ → Bool
  differs flags a b j = get_or flags j false && not (val_eq a b)

  abbrev within : ℕ → ℕ → ℕ → Bool
  within i k j = not (ltb j i) && ltb j (i + k)

  module _ (flags : Bitset) (x y : Val) (a b : ℕ → Val) (xo : IsObj x) (yo : IsObj y)
      (ex : (j : ℕ) → get_or flags j false ≡ true → entry x (field_key J j) ≡ some (a j))
      (ey : (j : ℕ) → get_or flags j false ≡ true → entry y (field_key J j) ≡ some (b j)) where
    step_result : ℕ → Val → Val
    step_result i r = if differs flags (a i) (b i) i then put r (field_key J i) (a i) else r

    obj_diff_step_lem :
        (i : ℕ) (r : Val) → i < length flags → obj_diff_step J flags x y i r ≡ ok (step_result i r)
    unfolding obj_diff_step step_result
    obj_diff_step_lem i r lt = elim (Bool-cases (get_or flags i false)) [
      | inl set ↦
          rw
            (
              test_lem flags i lt,
              set,
              W.get-entry x (field_key J i) (a i) xo (ex i set),
              W.get-entry y (field_key J i) (b i) yo (ey i set),
            )
            (ground arith)
      | inr clear ↦ rw (test_lem flags i lt, clear)
    ]

    step_result-IsObj : (i : ℕ) (r : Val) → IsObj r → IsObj (step_result i r)
    unfolding step_result
    step_result-IsObj i r h = elim (Bool-cases (differs flags (a i) (b i) i)) [
      | inl d ↦ rw d (W.put-IsObj r (field_key J i) (a i) h)
      | inr s ↦ rw s h
    ]

    entry-step_result :
        (i : ℕ) (r : Val) (j : ℕ)
        → IsObj r
        → entry (step_result i r) (field_key J j)
          ≡ (if i == j && differs flags (a j) (b j) j then some (a j) else entry r (field_key J j))
    unfolding step_result
    entry-step_result i r j h =
        ground
          (arith, W.entry-put r (field_key J i) (a i) (field_key J j) h, str_eq-field_key J W i j)

    obj_diff_loop_lem :
        (k i : ℕ) (r : Val)
        → IsObj r
        → i + k ≤ length flags
        → (r' : Val) × (obj_diff_loop J k i flags x y r ≡ ok r')
          × IsObj r'
          × ((j : ℕ)
              → entry r' (field_key J j) ≡ (
                  if within i k j && differs flags (a j) (b j) j
                  then some (a j)
                  else entry r (field_key J j)))
    unfolding obj_diff_loop
    obj_diff_loop_lem zero i r h le = (r, refl, h, λ j. ground arith)
    obj_diff_loop_lem (suc k) i r h le =
        let (r', run, o, e) =
          obj_diff_loop_lem k (suc i) (step_result i r) (step_result-IsObj i r h) (omega arith) in
        (
          r',
          rw (obj_diff_step_lem i r (omega arith)) run,
          o,
          λ j. e j ∙ ground (arith, entry-step_result i r j h),
        )

  module _ {ts : List FieldType} (o p : SyncObj J ts) (sized : length o.field_flags ≡ length ts)
      (small : length ts ≤ max_objs) where
    abbrev val_at : SyncObj J ts → ℕ → Val
    val_at q n = get_or (vals J ts q.fields) n J.null

    entry_val_at :
        (q : SyncObj J ts) (n : ℕ)
        → n < length ts
        → entry (to_json_all J q) (field_key J n) ≡ some (val_at q n)
    entry_val_at q n lt =
        entry-to_json_all J W q n (val_at q n) (
          get_elem?-get_or (vals J ts q.fields) n J.null (omega (arith, length-vals J ts q.fields)))

    -- `getJsonDiff` succeeds, and has an entry for each field that is dirty in the first object and
    -- differs in the second, with the value of the first.
    pub get_json_diff_lem :
        (v : Val) × (get_json_diff J (to_json_all J o) (to_json_all J p) ≡ ok v)
        × IsObj v
        × ((n : ℕ)
            → n < length ts
            → entry v (field_key J n) ≡ (
                if get_or o.field_flags n false && not (val_eq (val_at o n) (val_at p n))
                then some (val_at o n)
                else none))
    unfolding get_json_diff assoc
    get_json_diff_lem =
        let (v, run, obj, e) =
          obj_diff_loop_lem flags (to_json_all J o) (to_json_all J p) (val_at o) (val_at p)
            (to_json_all-IsObj J W o) (to_json_all-IsObj J W p) (marked o) (marked p) max_objs zero
            (mk_obj []) (W.mk_obj-IsObj []) (omega (arith, flags_length)) in
        (
          v,
          rw
              (
                flags_read,
                W.as_str-of_bits o.field_flags,
                of_string-to_string max_objs o.field_flags (omega arith),
              )
              run,
          obj,
          λ n lt.
              e n
              ∙ ground (
                arith,
                W.entry-mk_obj [] (field_key J n) tt,
                get_or-of_string max_objs o.field_flags n,
              ),
        )
      where
        flags : Bitset
        flags = o.field_flags ++ replicate (max_objs - length o.field_flags) false

        flags_length : length flags ≡ max_objs
        flags_length = length-of_string max_objs o.field_flags (omega arith)

        flags_read : J.get (to_json_all J o) "ff" ≡ ok (J.of_bits o.field_flags)
        flags_read =
            W.get-entry (to_json_all J o) "ff" (J.of_bits o.field_flags) (to_json_all-IsObj J W o)
              (entry-to_json_all_ff J W o)

        in_range : (j : ℕ) → get_or flags j false ≡ true → j < length ts
        in_range j set =
            grind (
              arith,
              get_or-of_string max_objs o.field_flags j,
              get_or_beyond o.field_flags j false,
            )

        marked :
            (q : SyncObj J ts) (j : ℕ)
            → get_or flags j false ≡ true
            → entry (to_json_all J q) (field_key J j) ≡ some (val_at q j)
        marked q j set = entry_val_at q j (in_range j set)

    Supplies-diff :
        (v : Val)
        → Marks J p o
        → ((n : ℕ)
            → n < length ts
            → entry v (field_key J n) ≡ (
                if get_or o.field_flags n false && not (val_eq (val_at o n) (val_at p n))
                then some (val_at o n)
                else none))
        → (n : ℕ) → n < length ts
        → Supplies J W v n (get_elem? (vals J ts p.fields) n) (get_elem? (vals J ts o.fields) n)
    Supplies-diff v m e n lt = ground (
      arith,
      e n lt,
      m.clean n,
      W.val_eq_iff (val_at o n) (val_at p n),
      get_elem?-get_or (vals J ts p.fields) n J.null (omega (arith, length-vals J ts p.fields)),
      get_elem?-get_or (vals J ts o.fields) n J.null (omega (arith, length-vals J ts o.fields)),
    )

    -- If the two objects have a bit for each field, at most `maxObjs` of them, and each field of
    -- the first that is not marked dirty is that of the second, then `getJsonDiff` of their jsons
    -- succeeds with an object that holds, for each field, the first object's value or no entry
    -- where the two agree; it is empty only if all fields agree.
    pub get_json_diff-Feeds :
        Marks J p o
        → (v : Val) × (get_json_diff J (to_json_all J o) (to_json_all J p) ≡ ok v)
          × IsObj v
          × Feeds J W ts zero v p.fields o.fields
          × (J.is_empty_obj v ≡ true → p.fields ≡ o.fields)
    get_json_diff-Feeds m =
        let (v, run, obj, e) = get_json_diff_lem in
        let feeds : Feeds J W ts zero v p.fields o.fields =
          Feeds-intro J W ts v p.fields o.fields (Supplies-diff v m e) in
        (
          v,
          run,
          obj,
          feeds,
          λ h. Feeds-none J W ts zero v p.fields o.fields ((W.is_empty_obj_iff v obj).0 h) feeds,
        )
