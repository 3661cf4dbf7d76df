-- ===== src/IdMap/Order.antt =====
-- Keys rise along the entries, so that no key occurs twice and a map is fixed by its lookups.
use auto_sync_gen.Prelude.{
  ℤ, ◌≡◌, refl, sym, ap, subst, ◌∙◌, true, false, [], ◌∷◌, Option, none, some, eqb_ℤ, Bool-cases,
  inl, inr, ltb_ℤ, eqb_ℤ_iff, ltb_ℤ_irrefl, ltb_ℤ_trans, ltb_ℤ_total, arith,
}
use auto_sync_gen.IdMap.{IdMap, lookup, insert, erase}

none-ne-some {ℓ} : {A : Type ℓ} (a : A) → ◌≡◌ {A = Option A} none (some a) → ⊥
none-ne-some a e = cc

some-injective {ℓ} : {A : Type ℓ} (a b : A) → some a ≡ some b → a ≡ b
some-injective a b e = cc

module _ {ℓ} {V : Type ℓ} where
  -- Every key of the map lies above `k`.
  abbrev pub Above : ℤ → IdMap V → Type 0
  Above k [] = Unit {0}
  Above k ((j, v) ∷ m) = (ltb_ℤ k j ≡ true) × Above k m

  abbrev pub IsSorted : IdMap V → Type 0
  IsSorted [] = Unit {0}
  IsSorted ((k, v) ∷ m) = Above k m × IsSorted m

  pub Above-weaken : (k j : ℤ) (m : IdMap V) → ltb_ℤ k j ≡ true → Above j m → Above k m
  Above-weaken k j [] h a = tt
  Above-weaken k j ((i, v) ∷ m) h (a, r) = (ltb_ℤ_trans k j i h a, Above-weaken k j m h r)

  pub lookup-Above : (k : ℤ) (m : IdMap V) → Above k m → lookup k m ≡ none
  unfolding lookup
  lookup-Above k [] a = refl
  lookup-Above k ((j, v) ∷ m) (a, r) =
      ground (arith, eqb_ℤ_iff j k, ltb_ℤ_irrefl k, lookup-Above k m r)

  Above-insert :
      (k j : ℤ) (v : V) (m : IdMap V) → ltb_ℤ k j ≡ true → Above k m → Above k (insert j v m)
  unfolding insert
  Above-insert k j v [] h a = (h, tt)
  Above-insert k j v ((i, w) ∷ m) h (a, r) = ground (arith, Above-insert k j v m h r)

  pub insert-IsSorted : (k : ℤ) (v : V) (m : IdMap V) → IsSorted m → IsSorted (insert k v m)
  unfolding insert
  insert-IsSorted k v [] s = (tt, tt)
  insert-IsSorted k v ((j, w) ∷ m) (a, s) = ground (
    arith,
    eqb_ℤ_iff j k,
    insert-IsSorted k v m s,
    Above-weaken k j m,
    Above-insert j k v m,
    ltb_ℤ_total k j,
  )

  Above-erase : (k j : ℤ) (m : IdMap V) → Above k m → Above k (erase j m)
  unfolding erase
  Above-erase k j [] a = tt
  Above-erase k j ((i, w) ∷ m) (a, r) = ground (arith, Above-erase k j m r)

  pub erase-IsSorted : (k : ℤ) (m : IdMap V) → IsSorted m → IsSorted (erase k m)
  unfolding erase
  erase-IsSorted k [] s = tt
  erase-IsSorted k ((j, w) ∷ m) (a, s) = ground (arith, erase-IsSorted k m s, Above-erase j k m a)

  lookup_self : (k : ℤ) (v : V) (m : IdMap V) → lookup k ((k, v) ∷ m) ≡ some v
  unfolding lookup
  lookup_self k v m = ground (arith, eqb_ℤ_iff k k)

  lookup_lower :
      (k j : ℤ) (w : V) (m : IdMap V) → ltb_ℤ k j ≡ true → Above j m → lookup k ((j, w) ∷ m) ≡ none
  lookup_lower k j w m h a = lookup-Above k ((j, w) ∷ m) (h, Above-weaken k j m h a)

  -- Maps with the same lookups that start at the same key.
  tails_agree :
      (k j : ℤ) (v w : V) (a b : IdMap V)
      → Above k a
      → Above j b
      → k ≡ j
      → ((i : ℤ) → lookup i ((k, v) ∷ a) ≡ lookup i ((j, w) ∷ b))
      → (v ≡ w) × ((i : ℤ) → lookup i a ≡ lookup i b)
  unfolding lookup
  tails_agree k j v w a b ka jb q h = (
    some-injective v w
        (sym (lookup_self k v a) ∙ h k ∙ ap (λ i. lookup i ((j, w) ∷ b)) q ∙ lookup_self j w b),
    λ i. elim (Bool-cases (eqb_ℤ k i)) [
      | inl e ↦
          let ki = (eqb_ℤ_iff k i).0 e in
          subst (λ x. lookup x a ≡ none) ki (lookup-Above k a ka)
          ∙ sym (subst (λ x. lookup x b ≡ none) (sym q ∙ ki) (lookup-Above j b jb))
      | inr ne ↦
          let nj : eqb_ℤ j i ≡ false = subst (λ x. eqb_ℤ x i ≡ false) q ne in
          let here = h i in rw ne at (rw nj at here)
    ],
  )

  -- Two sorted maps with the same lookups are the same.
  pub lookup-ext :
      (a b : IdMap V) → IsSorted a → IsSorted b → ((k : ℤ) → lookup k a ≡ lookup k b) → a ≡ b
  unfolding lookup
  lookup-ext [] [] s t h = refl
  lookup-ext [] ((j, w) ∷ b) s t h = absurd (none-ne-some w (h j ∙ lookup_self j w b))
  lookup-ext ((k, v) ∷ a) [] s t h = absurd (none-ne-some v (sym (h k) ∙ lookup_self k v a))
  lookup-ext ((k, v) ∷ a) ((j, w) ∷ b) (ka, s) (jb, t) h = elim (Bool-cases (ltb_ℤ k j)) [
    | inl lt ↦
        absurd (none-ne-some v (sym (lookup_lower k j w b lt jb) ∙ sym (h k) ∙ lookup_self k v a))
    | inr nlt ↦ elim (Bool-cases (eqb_ℤ k j)) [
      | inl e ↦
          let q = (eqb_ℤ_iff k j).0 e in
          let (vw, same) = tails_agree k j v w a b ka jb q h in
          let rest : a ≡ b = lookup-ext a b s t same in cc
      | inr ne ↦
          let gt : ltb_ℤ j k ≡ true =
            ltb_ℤ_total k j (λ q. true-ne-false (sym ((eqb_ℤ_iff k j).1 q) ∙ ne)) nlt in
          absurd (none-ne-some w (sym (lookup_lower j k v a gt ka) ∙ h j ∙ lookup_self j w b))
    ]
  ]
    where
      true-ne-false : true ≡ false → ⊥
      true-ne-false e = cc
