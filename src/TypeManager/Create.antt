-- ===== src/TypeManager/Create.antt =====
-- New states, and `serverCreate`: fresh identifiers until the bitset is used up.
use auto_sync_gen.Prelude.{
  ℕ, zero, suc, List, [], ◌∷◌, get_elem?, ◌<◌, ◌≤◌, ℤ, pos, negsuc, ◌≡◌, refl, ◌∙◌, none, some,
  Bool, true, false, length, length-replicate, get_or-replicate, eqb_ℤ, eqb-pos, Bool-cases, inl,
  inr, replicate, arith,
}
use auto_sync_gen.Result.{Fault, ok, err, undefined, increment}
use auto_sync_gen.IdMap.{lookup}
use auto_sync_gen.IdMap.Laws.{index_hit}
use auto_sync_gen.IdList.{bit_at, seen, seen-suc, seen_self}
use auto_sync_gen.Bitset.{test}
use auto_sync_gen.Json.{Json}
use auto_sync_gen.SyncObj.{SyncObj, initial_obj, set_from_json}
use auto_sync_gen.Lifetime.{Lifetime, LifetimeLaws}
use auto_sync_gen.Snapshot.{max_objs}
use auto_sync_gen.TypeManager.{
  TypeState, initial_type_state, get_first_free_id, get_handle_for, server_create, create_impl,
  is_present,
}
use auto_sync_gen.TypeManager.View.{view, deref, IsValid, Replaces, view_hit}
use auto_sync_gen.TypeManager.Operations.{create_impl_lem, create_impl_bad}

module _ (J : Json) (ts : List J.FieldType) (L : Lifetime J ts) (M : LifetimeLaws J ts L) where
  null_bits : (n : ℕ) (k : ℤ) → bit_at (replicate n false) k ≡ false
  unfolding bit_at
  null_bits n (pos i) = get_or-replicate n i false
  null_bits n (negsuc i) = refl

  -- A new manager is well formed.
  pub initial_type_state-IsValid : IsValid J ts L M (initial_type_state J ts L)
  unfolding lookup
  initial_type_state-IsValid = record {
    owner = M.initial_state-IsValid;
    sized = length-replicate max_objs false;
    sorted = tt;
    alive = λ k. null_bits max_objs k;
    live = λ k h e. cc;
    apart = λ a b h e f. cc;
  }

  -- No object has an identifier from `n` on.
  abbrev pub FreshFrom : ℕ → TypeState J ts L → Type 0
  FreshFrom n s = (k : ℤ) → seen n k ≡ false → view J ts L s k ≡ none

  pub initial_type_state-FreshFrom : FreshFrom 0 (initial_type_state J ts L)
  unfolding view deref lookup
  initial_type_state-FreshFrom k h = refl

  next_lem : (n : ℕ) → n < 2147483647 → increment (pos n) ≡ ok (pos (suc n))
  unfolding increment
  next_lem n h = rw (eqb-pos n 2147483647) (ground arith)

  module _ (n : ℕ) (v : J.Val) (s : TypeState J ts L) (last : s.last_id ≡ pos n) where
    same_objects : IsValid J ts L M s → IsValid J ts L M (record s { last_id = pos (suc n) })
    same_objects w = record {
      owner = w.owner;
      sized = w.sized;
      sorted = w.sorted;
      alive = w.alive;
      live = w.live;
      apart = w.apart;
    }

    -- If a well-formed state with fewer than `maxObjs` identifiers used, none used from the counter
    -- on, is given a json that sets a new object, then `serverCreate` succeeds, its handle reads as
    -- that object, the object is stored under the counter's identifier and no other identifier
    -- changes, the state stays well formed, and the counter moves on by one to identifiers that are
    -- free.
    pub server_create_lem :
        (o : SyncObj J ts)
        → n < max_objs
        → IsValid J ts L M s
        → FreshFrom n s
        → set_from_json J v (initial_obj J ts) ≡ ok o
        → (s' : TypeState J ts L) × (h : L.Handle) × (server_create J ts L v s ≡ ok (s', h))
          × (L.read h s'.lf_manager ≡ some o)
          × IsValid J ts L M s'
          × Replaces J ts L M s s' (pos n) (some o)
          × (s'.last_id ≡ pos (suc n))
          × FreshFrom (suc n) s'
    unfolding server_create get_first_free_id get_handle_for view
    server_create_lem o lt valid fresh load =
        let s1 : TypeState J ts L = record s { last_id = pos (suc n) } in
        let valid1 : IsValid J ts L M s1 = same_objects valid in
        let (s', run, valid', rep, l) =
          create_impl_lem J ts L M (pos n) s1 valid1 v o lt (fresh (pos n) (seen_self n)) load in
        let (h, found, rd) = view_hit J ts L M s' (pos n) o (rep (pos n) ∙ rw (eqb_self n)) in
        (
          s',
          h,
          rw (last, next_lem n (omega arith), run, index_hit L.blank (pos n) s'.handle_map h found),
          rd,
          valid',
          rep,
          l,
          λ k b. rep k ∙ ground (arith, seen-suc n k, fresh k),
        )
      where
        eqb_self : (i : ℕ) → eqb_ℤ (pos i) (pos i) ≡ true
        eqb_self i = eqb-pos i i ∙ ground arith

    -- In a well-formed state whose counter is at `maxObjs` or above, `serverCreate` is undefined
    -- for every json.
    pub server_create_exhausted :
        IsValid J ts L M s → max_objs ≤ n → server_create J ts L v s ≡ err undefined
    unfolding server_create get_first_free_id create_impl is_present test increment
    server_create_exhausted valid le = elim (Bool-cases (eqb_ℤ (pos n) (pos 2147483647))) [
      | inl top ↦ rw (last, top)
      | inr below ↦ rw (last, below) (rw (beyond s.bitset_ids n (omega (arith, valid.sized))))
    ]
      where
        beyond : (b : List Bool) (i : ℕ) → length b ≤ i → get_elem? b i ≡ none
        beyond [] i h = refl
        beyond (x ∷ b) zero h = absurd (omega arith)
        beyond (x ∷ b) (suc i) h = beyond b i (omega arith)

    pub server_create_bad :
        (e : Fault)
        → n < max_objs
        → IsValid J ts L M s
        → FreshFrom n s
        → set_from_json J v (initial_obj J ts) ≡ err e
        → server_create J ts L v s ≡ err e
    unfolding server_create get_first_free_id view
    server_create_bad e lt valid fresh load = rw (
      last,
      next_lem n (omega arith),
      create_impl_bad J ts L M (pos n) (record s { last_id = pos (suc n) }) (same_objects valid) v e
          lt (fresh (pos n) (seen_self n)) load,
    )
