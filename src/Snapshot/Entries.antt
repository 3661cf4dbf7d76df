-- ===== src/Snapshot/Entries.antt =====
-- The json object of a map from identifiers, and the map read back from it.
use Prim.Native.String.{String}
use text.Mathlib.Text.{◌==◌ as str_eq}
use text.Mathlib.TextEquality.{eq_iff}
use auto_sync_gen.Prelude.{
  ℤ, ◌≡◌, refl, sym, subst, ap, ◌∙◌, ◌⊎◌, inl, inr, Option, none, some, List, [], ◌∷◌, eqb_ℤ,
  eqb_ℤ_iff, Bool-cases, arith,
}
use auto_sync_gen.Result.{ok}
use auto_sync_gen.IdMap.{IdMap, lookup, insert}
use auto_sync_gen.IdMap.Laws.{lookup-insert}
use auto_sync_gen.IdMap.Order.{IsSorted, insert-IsSorted, lookup-Above, lookup-ext}
use auto_sync_gen.Json.{Json, JsonLaws, assoc, IsDistinct}
use auto_sync_gen.Json.Keys.{str_eq-to_str}
use auto_sync_gen.Snapshot.{put_entries, read_entries}

abbrev or_else {ℓ} : {A : Type ℓ} → Option A → Option A → Option A
or_else (some a) b = some a
or_else none b = b

none-ne-some {ℓ} : {A : Type ℓ} (a : A) → ◌≡◌ {A = Option A} none (some a) → ⊥
none-ne-some a e = cc

module _ (J : Json) (W : JsonLaws J) where
  open J use {Val, put, to_str, for_obj, mk_obj}
  open W use {entry, IsObj}

  pub put_entries-IsObj : (m : IdMap Val) (v : Val) → IsObj v → IsObj (put_entries J m v)
  unfolding put_entries
  put_entries-IsObj [] v o = o
  put_entries-IsObj ((i, w) ∷ m) v o = put_entries-IsObj m _ (W.put-IsObj v (to_str i) w o)

  entry-put_entries :
      (m : IdMap Val) (v : Val) (k : ℤ)
      → IsSorted m
      → IsObj v
      → entry (put_entries J m v) (to_str k) ≡ or_else (lookup k m) (entry v (to_str k))
  unfolding put_entries lookup
  entry-put_entries [] v k s o = refl
  entry-put_entries ((i, w) ∷ m) v k (a, s) o =
      entry-put_entries m (put v (to_str i) w) k s (W.put-IsObj v (to_str i) w o)
      ∙ elim (Bool-cases (eqb_ℤ i k)) [
        | inl b ↦
            let none_here : lookup k m ≡ none =
              subst (λ j. lookup j m ≡ none) ((eqb_ℤ_iff i k).0 b) (lookup-Above i m a) in
            rw (none_here, W.entry-put v (to_str i) w (to_str k) o, str_eq-to_str J W i k, b)
        | inr b ↦ rw (W.entry-put v (to_str i) w (to_str k) o, str_eq-to_str J W i k, b)
      ]

  -- Each key that the entries add is the text of an identifier.
  put_entries_texts :
      (m : IdMap Val) (v : Val) (k : String) (w : Val)
      → IsObj v
      → entry (put_entries J m v) k ≡ some w
      → ((i : ℤ) × (to_str i ≡ k)) ⊎ (entry v k ≡ some w)
  unfolding put_entries
  put_entries_texts [] v k w o e = inr e
  put_entries_texts ((i, x) ∷ m) v k w o e =
      elim (put_entries_texts m (put v (to_str i) x) k w (W.put-IsObj v (to_str i) x o) e) [
        | inl t ↦ inl t
        | inr h ↦ elim (Bool-cases (str_eq (to_str i) k)) [
          | inl b ↦ inl (i, (eq_iff (to_str i) k).0 b)
          | inr b ↦
              let skip : entry (put v (to_str i) x) k ≡ entry v k =
                W.entry-put v (to_str i) x k o ∙ rw b in
              inr (sym skip ∙ h)
        ]
      ]

  abbrev Texts : List (String × Val) → Type 0
  Texts [] = Unit {0}
  Texts ((k, w) ∷ l) = ((i : ℤ) × (to_str i ≡ k)) × Texts l

  read_entries_lem :
      (l : List (String × Val)) (acc : IdMap Val)
      → Texts l
      → IsDistinct l
      → IsSorted acc
      → (m : IdMap Val) × (read_entries J l acc ≡ ok m)
        × IsSorted m
        × ((k : ℤ) → lookup k m ≡ or_else (assoc (to_str k) l) (lookup k acc))
  unfolding read_entries assoc
  read_entries_lem [] acc t d s = (acc, refl, s, λ k. refl)
  read_entries_lem ((x, w) ∷ l) acc ((i, e), t) (fresh, d) s =
      let (m, run, sorted, look) =
        read_entries_lem l (insert i w acc) t d (insert-IsSorted i w acc s) in
      (
        m,
        rw (sym e, W.s_to_int-to_str i) run,
        sorted,
        λ k.
            let test : str_eq x (to_str k) ≡ eqb_ℤ i k =
              subst (λ y. str_eq y (to_str k) ≡ eqb_ℤ i k) e (str_eq-to_str J W i k) in
            look k ∙ elim (Bool-cases (eqb_ℤ i k)) [
              | inl b ↦
                  let none_here : assoc (to_str k) l ≡ none =
                    subst (λ j. assoc (to_str j) l ≡ none) ((eqb_ℤ_iff i k).0 b)
                      (subst (λ y. assoc y l ≡ none) (sym e) fresh) in
                  rw (none_here, lookup-insert i k w acc, test, b)
              | inr b ↦ rw (lookup-insert i k w acc, test, b)
            ],
      )

  assoc-Texts :
      (l : List (String × Val))
      → IsDistinct l
      → ((k : String) (w : Val) → assoc k l ≡ some w → (i : ℤ) × (to_str i ≡ k))
      → Texts l
  unfolding assoc
  assoc-Texts [] d h = tt
  assoc-Texts ((x, w) ∷ l) (fresh, d) h = (
    h x w (ground (arith, eq_iff x x)),
    assoc-Texts l d (λ k y e. elim (Bool-cases (str_eq x k)) [
      | inl b ↦
          let here : assoc x l ≡ some y =
            subst (λ z. assoc z l ≡ some y) (sym ((eq_iff x k).0 b)) e in
          absurd (none-ne-some y (sym fresh ∙ here))
      | inr b ↦ h k y (rw b e)
    ]),
  )

  -- The entries of a sorted map, put into an empty object and read back in whatever order the object
  -- lists them, are the map.
  pub read-put_entries :
      (m : IdMap Val)
      → IsSorted m
      → (l : List (String × Val)) × (for_obj (put_entries J m (mk_obj [])) ≡ ok l)
        × (read_entries J l [] ≡ ok m)
  unfolding lookup assoc
  read-put_entries m s =
      let o = W.mk_obj-IsObj [] in
      let (l, run, distinct, same) =
        W.for_obj-entry (put_entries J m (mk_obj [])) (put_entries-IsObj m (mk_obj []) o) in
      let empty : (k : String) → entry (mk_obj []) k ≡ none = λ k. W.entry-mk_obj [] k tt in
      let texts = assoc-Texts l distinct (λ k w e.
        elim (put_entries_texts m (mk_obj []) k w o (sym (same k) ∙ e)) [
          | inl t ↦ t
          | inr h ↦ absurd (none-ne-some w (sym (empty k) ∙ h))
        ]) in
      let (m', read, sorted, look) = read_entries_lem l [] texts distinct tt in
      let equal : m' ≡ m = lookup-ext m' m sorted s (λ k.
        look k
        ∙ rw (same (to_str k), entry-put_entries m (mk_obj []) k s o, empty (to_str k))
            (or_else_none (lookup k m))) in
      (l, run, read ∙ ap ok equal)
    where
      or_else_none : (x : Option Val) → or_else (or_else x none) none ≡ x
      or_else_none none = refl
      or_else_none (some x) = refl
