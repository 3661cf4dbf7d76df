-- ===== src/TypeManager/View.antt =====
-- The objects of a type by their identifiers, when a state is well formed, and that each operation
-- changes the view at one identifier and keeps the state well formed.
use auto_sync_gen.Prelude.{
  ◌<◌, ℤ, pos, negsuc, ◌≡◌, ◌≢◌, sym, ap, ◌∙◌, Option, none, some, List, length, true, false,
  if◌then◌else◌, eqb_ℤ, eqb_ℤ_iff, arith, is_some, Option-cases, Bool-cases, ◌⊎◌, inl, inr,
}
use auto_sync_gen.IdMap.{lookup}
use auto_sync_gen.IdMap.Order.{IsSorted}
use auto_sync_gen.IdList.{bit_at}
use auto_sync_gen.Json.{Json}
use auto_sync_gen.SyncObj.{SyncObj}
use auto_sync_gen.Lifetime.{Lifetime, LifetimeLaws}
use auto_sync_gen.Snapshot.{max_objs}
use auto_sync_gen.TypeManager.{TypeState}

-- The identifier is an index of the bitset.
abbrev pub InRange : ℤ → Type 0
InRange (pos i) = i < max_objs
InRange (negsuc i) = ⊥

pub none-ne-some {ℓ} : {A : Type ℓ} (a : A) → ◌≡◌ {A = Option A} none (some a) → ⊥
none-ne-some a e = cc

some-inj {ℓ} : {A : Type ℓ} (a b : A) → some a ≡ some b → a ≡ b
some-inj a b e = cc

pub eqb-cases : (a b : ℤ) → ((eqb_ℤ a b ≡ true) × (a ≡ b)) ⊎ ((eqb_ℤ a b ≡ false) × (a ≢ b))
eqb-cases a b = elim (Bool-cases (eqb_ℤ a b)) [
  | inl e ↦ inl (e, (eqb_ℤ_iff a b).0 e)
  | inr e ↦ inr (e, λ q. true-ne-false (sym ((eqb_ℤ_iff a b).1 q) ∙ e))
]
  where
    true-ne-false : true ≡ false → ⊥
    true-ne-false e = cc

module _ (J : Json) (ts : List J.FieldType) (L : Lifetime J ts) where
  unfoldable pub deref : L.State → Option L.Handle → Option (SyncObj J ts)
  deref lf none = none
  deref lf (some h) = L.read h lf

  -- The object of an identifier.
  unfoldable pub view : TypeState J ts L → ℤ → Option (SyncObj J ts)
  unfolding deref
  view s id = deref s.lf_manager (lookup id s.handle_map)

  pub record IsValid (M : LifetimeLaws J ts L) (s : TypeState J ts L) : Type 0 where
    pub owner : M.IsValid s.lf_manager
    pub sized : length s.bitset_ids ≡ max_objs
    pub sorted : IsSorted s.handle_map
    -- The bit of an identifier is set exactly if it has a handle.
    pub alive : (id : ℤ) → bit_at s.bitset_ids id ≡ is_some (lookup id s.handle_map)
    -- A handle of the map is of an object, and of one identifier only.
    pub live :
        (id : ℤ) (h : L.Handle)
        → lookup id s.handle_map ≡ some h
        → (o : SyncObj J ts) × (L.read h s.lf_manager ≡ some o)
    pub apart :
        (a b : ℤ) (h : L.Handle)
        → lookup a s.handle_map ≡ some h
        → lookup b s.handle_map ≡ some h
        → a ≡ b

  module _ (M : LifetimeLaws J ts L) where
    pub bit_at-view :
        (s : TypeState J ts L) (id : ℤ) → IsValid M s → bit_at s.bitset_ids id ≡ is_some (view s id)
    unfolding view
    bit_at-view s id v = elim (Option-cases (lookup id s.handle_map)) [
      | inl e ↦ v.alive id ∙ rw (e, deref)
      | inr (h, e) ↦ let (o, r) = v.live id h e in v.alive id ∙ rw (e, deref) (rw r)
    ]

    -- The code's operation has replaced the object of `id`, and nothing else.
    abbrev pub Replaces : TypeState J ts L → TypeState J ts L → ℤ → Option (SyncObj J ts) → Type 0
    Replaces s s' id o = (k : ℤ) → view s' k ≡ (if eqb_ℤ id k then o else view s k)

    pub view_miss :
        (s : TypeState J ts L) (id : ℤ)
        → IsValid M s
        → view s id ≡ none
        → lookup id s.handle_map ≡ none
    unfolding view deref
    view_miss s id v e = elim (Option-cases (lookup id s.handle_map)) [
      | inl n ↦ n
      | inr (h, l) ↦ let (o, r) = v.live id h l in absurd (none-ne-some o (sym e ∙ rw (l, deref) r))
    ]

    pub view_hit :
        (s : TypeState J ts L) (id : ℤ) (o : SyncObj J ts)
        → view s id ≡ some o
        → (h : L.Handle) × (lookup id s.handle_map ≡ some h) × (L.read h s.lf_manager ≡ some o)
    unfolding view deref
    view_hit s id o e = elim (Option-cases (lookup id s.handle_map)) [
      | inl n ↦ absurd (none-ne-some o (sym (rw (n, deref)) ∙ e))
      | inr (h, l) ↦ (h, l, sym (rw (l, deref)) ∙ e)
    ]

    -- The state `s'` has the object `o` at the handle `h` of `id`, and is otherwise as `s`.
    module _ (s s' : TypeState J ts L) (id : ℤ) (h : L.Handle) (o : SyncObj J ts) (v : IsValid M s)
        (look : (k : ℤ)
          → lookup k s'.handle_map ≡ (if eqb_ℤ id k then some h else lookup k s.handle_map))
        (here' : L.read h s'.lf_manager ≡ some o)
        (others : (g : L.Handle) → g ≢ h → L.read g s'.lf_manager ≡ L.read g s.lf_manager)
        (only : (k : ℤ) → lookup k s.handle_map ≡ some h → k ≡ id) where
      kept : (k : ℤ) (g : L.Handle) → id ≢ k → lookup k s.handle_map ≡ some g → g ≢ h
      kept k g ne l e = ne (sym (only k (l ∙ ap some e)))

      at_id : (k : ℤ) (g : L.Handle) → eqb_ℤ id k ≡ true → lookup k s'.handle_map ≡ some g → g ≡ h
      at_id k g b l = some-inj g h (sym l ∙ look k ∙ rw b)

      off_id :
          (k : ℤ) (g : L.Handle)
          → eqb_ℤ id k ≡ false
          → lookup k s'.handle_map ≡ some g
          → lookup k s.handle_map ≡ some g
      off_id k g b l = sym (look k ∙ rw b) ∙ l

      pub stored_Replaces : Replaces s s' id (some o)
      unfolding view deref
      stored_Replaces k = elim (eqb-cases id k) [
        | inl (b, e) ↦ rw (look k, b, deref) here'
        | inr (b, ne) ↦
            rw (look k, b)
              (elim (Option-cases (lookup k s.handle_map)) [
                | inl n ↦ rw (n, deref)
                | inr (g, l) ↦ rw (l, deref) (others g (kept k g ne l))
              ])
      ]

      pub stored_IsValid :
          M.IsValid s'.lf_manager
          → length s'.bitset_ids ≡ max_objs
          → IsSorted s'.handle_map
          → ((k : ℤ)
              → bit_at s'.bitset_ids k ≡ (if eqb_ℤ id k then true else bit_at s.bitset_ids k))
          → IsValid M s'
      stored_IsValid owner' sized' sorted' bits = record {
        owner = owner';
        sized = sized';
        sorted = sorted';
        alive = λ k. ground (arith, bits k, look k, v.alive k);
        live = λ k g l. elim (eqb-cases id k) [
          | inl (b, e) ↦ (o, rw (at_id k g b l) here')
          | inr (b, ne) ↦
              let l' : lookup k s.handle_map ≡ some g = off_id k g b l in
              let (p, r) = v.live k g l' in (p, others g (kept k g ne l') ∙ r)
        ];
        apart = λ a b g la lb. elim (eqb-cases id a) [
          | inl (ba, ea) ↦ elim (eqb-cases id b) [
            | inl (bb, eb) ↦ sym ea ∙ eb
            | inr (bb, nb) ↦ absurd (kept b g nb (off_id b g bb lb) (at_id a g ba la))
          ]
          | inr (ba, na) ↦ elim (eqb-cases id b) [
            | inl (bb, eb) ↦ absurd (kept a g na (off_id a g ba la) (at_id b g bb lb))
            | inr (bb, nb) ↦ v.apart a b g (off_id a g ba la) (off_id b g bb lb)
          ]
        ];
      }

    -- The state `s'` has nothing at the handle `h` of `id`, and is otherwise as `s`.
    module _ (s s' : TypeState J ts L) (id : ℤ) (h : L.Handle) (v : IsValid M s)
        (look : (k : ℤ)
          → lookup k s'.handle_map ≡ (if eqb_ℤ id k then none else lookup k s.handle_map))
        (used : lookup id s.handle_map ≡ some h)
        (others : (g : L.Handle) → g ≢ h → L.read g s'.lf_manager ≡ L.read g s.lf_manager) where
      stays :
          (k : ℤ) (g : L.Handle)
          → lookup k s'.handle_map ≡ some g
          → (lookup k s.handle_map ≡ some g) × (L.read g s'.lf_manager ≡ L.read g s.lf_manager)
      stays k g l = elim (eqb-cases id k) [
        | inl (b, e) ↦ absurd (none-ne-some g (sym (look k ∙ rw b) ∙ l))
        | inr (b, ne) ↦
            let l' : lookup k s.handle_map ≡ some g = sym (look k ∙ rw b) ∙ l in
            (l', others g (λ e. ne (v.apart id k h used (l' ∙ ap some e))))
      ]

      pub removed_Replaces : Replaces s s' id none
      unfolding view deref
      removed_Replaces k = elim (eqb-cases id k) [
        | inl (b, e) ↦ rw (look k, b, deref)
        | inr (b, ne) ↦
            rw (look k, b)
              (elim (Option-cases (lookup k s.handle_map)) [
                | inl n ↦ rw (n, deref)
                | inr (g, l) ↦ rw (l, deref) (stays k g (look k ∙ rw b l)).1
              ])
      ]

      pub removed_IsValid :
          M.IsValid s'.lf_manager
          → length s'.bitset_ids ≡ max_objs
          → IsSorted s'.handle_map
          → ((k : ℤ)
              → bit_at s'.bitset_ids k ≡ (if eqb_ℤ id k then false else bit_at s.bitset_ids k))
          → IsValid M s'
      removed_IsValid owner' sized' sorted' bits = record {
        owner = owner';
        sized = sized';
        sorted = sorted';
        alive = λ k. ground (arith, bits k, look k, v.alive k);
        live = λ k g l. let (l', same) = stays k g l in let (p, r) = v.live k g l' in (p, same ∙ r);
        apart = λ a b g la lb. v.apart a b g (stays a g la).0 (stays b g lb).0;
      }
