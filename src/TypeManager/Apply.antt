-- ===== src/TypeManager/Apply.antt =====
-- The loops of `applyDiff` for one type, by the fields that each identifier has before and after.
use auto_sync_gen.Prelude.{
  zero, ℤ, ◌≡◌, refl, sym, ap, ◌∙◌, Option, none, some, List, [], ◌∷◌, true, false, if◌then◌else◌,
  eqb_ℤ, eqb_ℤ_self, is_some, arith, Option-cases, inl, inr,
}
use auto_sync_gen.Result.{ok}
use auto_sync_gen.IdMap.{IdMap, lookup}
use auto_sync_gen.IdMap.Order.{IsSorted, lookup-Above}
use auto_sync_gen.IdList.{mem, IsDistinctIds}
use auto_sync_gen.Json.{Json, JsonLaws}
use auto_sync_gen.SyncObj.{TplFields, SyncObj, initial_fields, initial_obj}
use auto_sync_gen.SyncObj.Load.{Feeds, set_from_json_lem}
use auto_sync_gen.Lifetime.{Lifetime, LifetimeLaws}
use auto_sync_gen.TypeManager.{TypeState, create_each, remove_each, update_each}
use auto_sync_gen.TypeManager.View.{InRange, view, IsValid, Replaces, eqb-cases, none-ne-some}
use auto_sync_gen.TypeManager.Operations.{create_impl_lem, update_impl_lem, remove_impl_lem}

module _ (J : Json) (ts : List J.FieldType) (L : Lifetime J ts) where
  abbrev pub fields_of : Option (SyncObj J ts) → Option (TplFields J ts)
  fields_of none = none
  fields_of (some o) = some o.fields

  -- The fields of an identifier's object.
  unfoldable pub contents : TypeState J ts L → ℤ → Option (TplFields J ts)
  contents s k = fields_of (view J ts L s k)

  pub view_of_none : (s : TypeState J ts L) (k : ℤ) → contents s k ≡ none → view J ts L s k ≡ none
  unfolding contents
  view_of_none s k e = elim (Option-cases (view J ts L s k)) [
    | inl n ↦ n
    | inr (o, h) ↦ absurd (none-ne-some o.fields (sym e ∙ rw h))
  ]

  pub view_of_some :
      (s : TypeState J ts L) (k : ℤ) (xs : TplFields J ts)
      → contents s k ≡ some xs
      → (o : SyncObj J ts) × (view J ts L s k ≡ some o) × (o.fields ≡ xs)
  unfolding contents
  view_of_some s k xs e = elim (Option-cases (view J ts L s k)) [
    | inl n ↦ absurd (none-ne-some xs (sym (rw n) ∙ e))
    | inr (o, h) ↦ (o, h, cc (sym (ap fields_of h) ∙ e))
  ]

  module _ (M : LifetimeLaws J ts L) where
    pub contents-Replaces :
        (s s' : TypeState J ts L) (id : ℤ) (o : Option (SyncObj J ts)) (k : ℤ)
        → Replaces J ts L M s s' id o
        → contents s' k ≡ (if eqb_ℤ id k then fields_of o else contents s k)
    unfolding contents
    contents-Replaces s s' id o k r = ground (arith, r k)

    module _ (W : JsonLaws J) (target : ℤ → Option (TplFields J ts)) where
      -- The value makes the target's fields of `xs`.
      abbrev pub Makes : J.Val → TplFields J ts → ℤ → Type 0
      Makes w xs k =
          (ys : TplFields J ts) × W.IsObj w × Feeds J W ts zero w xs ys × (target k ≡ some ys)

      -- Creating each entry of a map of free identifiers brings these to the target.
      pub create_each_lem :
          (m : IdMap J.Val) (s : TypeState J ts L)
          → IsValid J ts L M s
          → IsSorted m
          → ((k : ℤ) (w : J.Val)
              → lookup k m ≡ some w
              → InRange k × (contents s k ≡ none) × Makes w (initial_fields J ts) k)
          → (s' : TypeState J ts L) × (create_each J ts L m s ≡ ok s')
            × IsValid J ts L M s'
            × ((k : ℤ) → contents s' k ≡ (if is_some (lookup k m) then target k else contents s k))
            × (s'.last_id ≡ s.last_id)
      unfolding create_each lookup
      create_each_lem [] s v sorted h = (s, refl, v, λ k. refl, refl)
      create_each_lem ((id, w) ∷ m) s v (above, sorted) h =
          let (range, free, (ys, obj, feeds, goal)) = h id w (rw (eqb_ℤ_self id)) in
          let (s1, run, v1, rep, l1) =
            create_impl_lem J ts L M id s v w _ range (view_of_none s id free)
              (set_from_json_lem J W w (initial_obj J ts) ys obj feeds) in
          let step = λ (k : ℤ). contents-Replaces s s1 id _ k rep in
          let (s2, runs, v2, look, l2) = create_each_lem m s1 v1 sorted λ k w' e.
            elim (eqb-cases id k) [
              | inl (b, q) ↦ absurd (none-ne-some w' (sym (lookup-Above id m above) ∙ rw q e))
              | inr (b, ne) ↦
                  let (range', free', makes) = h k w' (rw b e) in
                  (range', (step k ∙ rw b free'), makes)
            ] in
          (
            s2,
            rw run runs,
            v2,
            λ k. look k ∙ elim (eqb-cases id k) [
              | inl (b, q) ↦
                  rw (b, ← q, lookup-Above id m above) (step id ∙ rw (eqb_ℤ_self id) (sym goal))
              | inr (b, ne) ↦ rw (b, step k, b)
            ],
            l2 ∙ l1,
          )

      -- Updating each entry of a map of used identifiers brings these to the target.
      pub update_each_lem :
          (m : IdMap J.Val) (s : TypeState J ts L)
          → IsValid J ts L M s
          → IsSorted m
          → ((k : ℤ) (w : J.Val)
              → lookup k m ≡ some w
              → (xs : TplFields J ts) × InRange k × (contents s k ≡ some xs) × Makes w xs k)
          → (s' : TypeState J ts L) × (update_each J ts L m s ≡ ok s')
            × IsValid J ts L M s'
            × ((k : ℤ) → contents s' k ≡ (if is_some (lookup k m) then target k else contents s k))
            × (s'.last_id ≡ s.last_id)
      unfolding update_each lookup
      update_each_lem [] s v sorted h = (s, refl, v, λ k. refl, refl)
      update_each_lem ((id, w) ∷ m) s v (above, sorted) h =
          let (xs, range, used, (ys, obj, feeds, goal)) = h id w (rw (eqb_ℤ_self id)) in
          let (p, seen, same) = view_of_some s id xs used in
          let (s1, run, v1, rep, l1) =
            update_impl_lem J ts L M id s v w p _ range seen
              (set_from_json_lem J W w p ys obj (rw same feeds)) in
          let step = λ (k : ℤ). contents-Replaces s s1 id _ k rep in
          let (s2, runs, v2, look, l2) = update_each_lem m s1 v1 sorted λ k w' e.
            elim (eqb-cases id k) [
              | inl (b, q) ↦ absurd (none-ne-some w' (sym (lookup-Above id m above) ∙ rw q e))
              | inr (b, ne) ↦
                  let (xs', range', used', makes) = h k w' (rw b e) in
                  (xs', range', (step k ∙ rw b used'), makes)
            ] in
          (
            s2,
            rw run runs,
            v2,
            λ k. look k ∙ elim (eqb-cases id k) [
              | inl (b, q) ↦
                  rw (b, ← q, lookup-Above id m above) (step id ∙ rw (eqb_ℤ_self id) (sym goal))
              | inr (b, ne) ↦ rw (b, step k, b)
            ],
            l2 ∙ l1,
          )

    -- Removing distinct used identifiers leaves nothing at these.
    pub remove_each_lem :
        (ids : List ℤ) (s : TypeState J ts L)
        → IsValid J ts L M s
        → IsDistinctIds ids
        → ((k : ℤ)
            → mem k ids ≡ true
            → InRange k × ((xs : TplFields J ts) × (contents s k ≡ some xs)))
        → (s' : TypeState J ts L) × (remove_each J ts L ids s ≡ ok s')
          × IsValid J ts L M s'
          × ((k : ℤ) → contents s' k ≡ (if mem k ids then none else contents s k))
          × (s'.last_id ≡ s.last_id)
    unfolding remove_each mem
    remove_each_lem [] s v d h = (s, refl, v, λ k. refl, refl)
    remove_each_lem (id ∷ ids) s v (fresh, d) h =
        let (range, (xs, used)) = h id (rw (eqb_ℤ_self id)) in
        let (p, seen, same) = view_of_some s id xs used in
        let (s1, run, v1, rep, l1) = remove_impl_lem J ts L M id s v p range seen in
        let step = λ (k : ℤ). contents-Replaces s s1 id none k rep in
        let (s2, runs, v2, look, l2) = remove_each_lem ids s1 v1 d λ k e. elim (eqb-cases id k) [
          | inl (b, q) ↦ absurd (false-ne-true (sym fresh ∙ rw q e))
          | inr (b, ne) ↦
              let (range', (xs', used')) = h k (rw b e) in (range', (xs', step k ∙ rw b used'))
        ] in
        (s2, rw run runs, v2, λ k. look k ∙ ground (arith, step k), l2 ∙ l1)
      where
        false-ne-true : false ≡ true → ⊥
        false-ne-true e = cc
