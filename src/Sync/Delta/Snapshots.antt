-- ===== src/Sync/Delta/Snapshots.antt =====
-- The difference of the snapshots of a server and a client takes the client's objects to the server's.
use auto_sync_gen.Prelude.{
  ℕ, zero, ◌≤◌, ℤ, pos, ◌≡◌, refl, sym, ◌∙◌, Option, none, some, List, get_or, length, Bool, true,
  false, ◌&&◌, not, if◌then◌else◌, is_some, arith, Bool-cases, inl, inr,
}
use auto_sync_gen.Result.{Result, ok, err}
use auto_sync_gen.IdMap.{lookup}
use auto_sync_gen.IdList.{mem, bit_at, seen, bit_at-intersect, bit_at-complement}
use auto_sync_gen.Bitset.{complement, intersect}
use auto_sync_gen.Bitset.Laws.{length-complement, length-intersect}
use auto_sync_gen.Json.{Json, JsonLaws}
use auto_sync_gen.SyncObj.{SyncObj, to_json_all}
use auto_sync_gen.SyncObj.Load.{Feeds}
use auto_sync_gen.SyncObj.Dirty.{Marks}
use auto_sync_gen.Lifetime.{Lifetime, LifetimeLaws}
use auto_sync_gen.Snapshot.{max_objs, SnapshotTypeData, DiffTypeData}
use auto_sync_gen.Difference.{DiffBits, diff_bits, get_json_diff, type_diff}
use auto_sync_gen.Difference.ObjDiff.{get_json_diff-Feeds}
use auto_sync_gen.Difference.TypeDiff.{Updates, Built, diff_loop_all}
use auto_sync_gen.TypeManager.{TypeState}
use auto_sync_gen.TypeManager.View.{view, IsValid, bit_at-view}
use auto_sync_gen.TypeManager.Items.{json_of}
use auto_sync_gen.Sync.{Tracks}
use auto_sync_gen.Sync.Delta.{IsDelta, view-seen}

of_is_some {ℓ} : {A : Type ℓ} (o : Option A) → is_some o ≡ true → (a : A) × (o ≡ some a)
of_is_some none h = cc
of_is_some (some a) h = (a, refl)

and_left : (a b : Bool) → (a && b) ≡ true → a ≡ true
and_left a b h = ground arith

and_right : (a b : Bool) → (a && b) ≡ true → b ≡ true
and_right a b h = ground arith

module _ (J : Json) where
  change_of : Result J.Val → Option J.Val
  change_of (err e) = none
  change_of (ok v) = if J.is_empty_obj v then none else some v

  -- What the update of an identifier holds, given its two items.
  update_of : Option J.Val → Option J.Val → Option J.Val
  update_of (some x) (some y) = change_of (get_json_diff J x y)
  update_of _ _ = none

module _ (J : Json) (W : JsonLaws J) (ts : List J.FieldType) (small : length ts ≤ max_objs)
    (L : Lifetime J ts) (M : LifetimeLaws J ts L) (server client : TypeState J ts L)
    (vs : IsValid J ts L M server) (vc : IsValid J ts L M client)
    (tracks : Tracks J ts L server client) where
  bits : DiffBits
  bits = diff_bits server.bitset_ids client.bitset_ids

  create_bit :
      (k : ℤ)
      → seen max_objs k ≡ true
      → bit_at bits.create k
        ≡ (not (is_some (view J ts L client k)) && is_some (view J ts L server k))
  unfolding bits
  create_bit k h = rw (
    bit_at-intersect,
    bit_at-complement client.bitset_ids k (rw vc.sized h),
    bit_at-view J ts L M server k vs,
    bit_at-view J ts L M client k vc,
  )

  remove_bit :
      (k : ℤ)
      → seen max_objs k ≡ true
      → bit_at bits.remove k
        ≡ (not (is_some (view J ts L server k)) && is_some (view J ts L client k))
  unfolding bits
  remove_bit k h = rw (
    bit_at-intersect,
    bit_at-complement server.bitset_ids k (rw vs.sized h),
    bit_at-view J ts L M server k vs,
    bit_at-view J ts L M client k vc,
  )

  update_bit :
      (k : ℤ)
      → bit_at bits.update k ≡ (is_some (view J ts L server k) && is_some (view J ts L client k))
  unfolding bits
  update_bit k =
      rw (bit_at-intersect, bit_at-view J ts L M server k vs, bit_at-view J ts L M client k vc)

  module _ (a b : SnapshotTypeData J)
      (at_server : (k : ℤ) → lookup k a.items ≡ json_of J ts L (view J ts L server k))
      (at_client : (k : ℤ) → lookup k b.items ≡ json_of J ts L (view J ts L client k)) where
    update : ℤ → Option J.Val
    update k = update_of J (lookup k a.items) (lookup k b.items)

    created_item :
        (i : ℕ)
        → get_or bits.create i false ≡ true
        → (v : J.Val) × (lookup (pos i) a.items ≡ some v)
    unfolding bits bit_at
    created_item i h =
        let h' : bit_at server.bitset_ids (pos i) ≡ true =
          and_right (bit_at (complement client.bitset_ids) (pos i))
            (bit_at server.bitset_ids (pos i))
            (sym (bit_at-intersect (complement client.bitset_ids) server.bitset_ids (pos i)) ∙ h) in
        let (o, e) =
          of_is_some (view J ts L server (pos i))
            (sym (bit_at-view J ts L M server (pos i) vs) ∙ h') in
        (to_json_all J o, at_server (pos i) ∙ rw e)

    -- The two objects of an identifier that both sides have, and their difference.
    updated_item :
        (k : ℤ) (o p : SyncObj J ts)
        → view J ts L server k ≡ some o
        → view J ts L client k ≡ some p
        → (v : J.Val) × (get_json_diff J (to_json_all J o) (to_json_all J p) ≡ ok v)
          × (update k ≡ (if J.is_empty_obj v then none else some v))
          × W.IsObj v
          × Feeds J W ts zero v p.fields o.fields
          × (J.is_empty_obj v ≡ true → p.fields ≡ o.fields)
    unfolding update update_of change_of
    updated_item k o p eo ep =
        let m = tracks k o p eo ep in
        let (v, run, obj, feeds, same) =
          get_json_diff-Feeds J W o p (sized_flags k o p m) small m in
        (v, run, rw (at_server k, at_client k, eo, ep, run), obj, feeds, same)
      where
        sized_flags : (j : ℤ) (q r : SyncObj J ts) → Marks J r q → length q.field_flags ≡ length ts
        sized_flags j q r m = m.sized

    updates :
        (i : ℕ) → get_or bits.update i false ≡ true → Updates J a.items b.items i (update (pos i))
    unfolding bit_at
    updates i h =
        let both : (is_some (view J ts L server (pos i)) && is_some (view J ts L client (pos i)))
            ≡ true =
          sym (update_bit (pos i)) ∙ h in
        let (o, eo) = of_is_some (view J ts L server (pos i)) (
          and_left (is_some (view J ts L server (pos i))) (is_some (view J ts L client (pos i)))
            both) in
        let (p, ep) = of_is_some (view J ts L client (pos i)) (
          and_right (is_some (view J ts L server (pos i))) (is_some (view J ts L client (pos i)))
            both) in
        let (v, run, kept, obj, feeds, same) = updated_item (pos i) o p eo ep in
        record {
          mine = to_json_all J o;
          theirs = to_json_all J p;
          change = v;
          mine_at = at_server (pos i) ∙ rw eo;
          theirs_at = at_client (pos i) ∙ rw ep;
          run = run;
          kept = kept;
        }

    type_diff_lem :
        (d : DiffTypeData J) × (type_diff J server.bitset_ids client.bitset_ids a b ≡ ok (a, d))
        × Built J bits a.items update max_objs d
    unfolding type_diff bits
    type_diff_lem =
        let (d, run, built) =
          diff_loop_all J bits a.items b.items update max_objs create_sized remove_sized
            update_sized created_item updates in
        (d, rw run, built)
      where
        create_sized :
            length (intersect (complement client.bitset_ids) server.bitset_ids) ≡ max_objs
        create_sized = omega (
          arith,
          length-complement client.bitset_ids,
          length-intersect (complement client.bitset_ids) server.bitset_ids,
          vs.sized,
          vc.sized,
        )

        remove_sized :
            length (intersect (complement server.bitset_ids) client.bitset_ids) ≡ max_objs
        remove_sized = omega (
          arith,
          length-complement server.bitset_ids,
          length-intersect (complement server.bitset_ids) client.bitset_ids,
          vs.sized,
          vc.sized,
        )

        update_sized : length (intersect server.bitset_ids client.bitset_ids) ≡ max_objs
        update_sized =
            omega (arith, length-intersect server.bitset_ids client.bitset_ids, vs.sized, vc.sized)

    module _ (d : DiffTypeData J) (built : Built J bits a.items update max_objs d) where
      look_create :
          (k : ℤ)
          → lookup k d.to_create ≡ (
              if is_some (view J ts L client k)
              then none
              else json_of J ts L (view J ts L server k))
      look_create k = elim (Bool-cases (seen max_objs k)) [
        | inl h ↦
            built.created k
            ∙ rw (h, create_bit k h, at_server k)
                (create_cases (view J ts L client k) (view J ts L server k))
        | inr h ↦
            built.created k
            ∙ rw h (
                unseen_cases (view J ts L client k) (view J ts L server k)
                  (λ e. cc (view-seen J W ts L M server vs k e)))
      ]
        where
          create_cases :
              (y x : Option (SyncObj J ts))
              → (if not (is_some y) && is_some x then json_of J ts L x else none)
                ≡ (if is_some y then none else json_of J ts L x)
          create_cases none none = refl
          create_cases none (some o) = refl
          create_cases (some p) none = refl
          create_cases (some p) (some o) = refl

          unseen_cases :
              (y x : Option (SyncObj J ts))
              → (is_some x ≡ true → ⊥)
              → none ≡ (if is_some y then none else json_of J ts L x)
          unseen_cases none none n = refl
          unseen_cases none (some o) n = absurd (n refl)
          unseen_cases (some p) x n = refl

      look_remove :
          (k : ℤ)
          → mem k d.to_remove
            ≡ (not (is_some (view J ts L server k)) && is_some (view J ts L client k))
      look_remove k = elim (Bool-cases (seen max_objs k)) [
        | inl h ↦ built.removed k ∙ rw (h, remove_bit k h)
        | inr h ↦ built.removed k ∙ rw h (ground (arith, view-seen J W ts L M client vc k))
      ]

      look_update :
          (k : ℤ)
          → lookup k d.to_update ≡ (
              if is_some (view J ts L server k) && is_some (view J ts L client k)
              then update k
              else none)
      look_update k = elim (Bool-cases (seen max_objs k)) [
        | inl h ↦ built.updated k ∙ rw (h, update_bit k)
        | inr h ↦ built.updated k ∙ rw h (ground (arith, view-seen J W ts L M server vs k))
      ]

    -- The difference of the two snapshots takes the client's objects to the server's.
    pub type_diff-IsDelta :
        (d : DiffTypeData J) × (type_diff J server.bitset_ids client.bitset_ids a b ≡ ok (a, d))
        × IsDelta J W ts L server client d
    type_diff-IsDelta =
        let (d, run, built) = type_diff_lem in
        (
          d,
          run,
          record {
            create_sorted = built.create_sorted;
            remove_distinct = built.remove_distinct;
            update_sorted = built.update_sorted;
            created = look_create d built;
            removed = look_remove d built;
            update = update;
            updated = look_update d built;
            differs = λ k o p eo ep.
                let (v, ran, kept, obj, feeds, same) = updated_item k o p eo ep in
                (v, kept, obj, feeds, same);
          },
        )
