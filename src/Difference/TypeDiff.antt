-- ===== src/Difference/TypeDiff.antt =====
-- The loop of `getDiffWith` over the objects of one type: what the difference holds at each
-- identifier.
use auto_sync_gen.Prelude.{
  ℕ, zero, suc, ◌+◌, ◌<◌, ℤ, pos, ◌≡◌, refl, subst, ◌∙◌, Option, none, some, List, [], ◌∷◌, ◌++◌,
  get_or, length, Bool, true, false, ◌&&◌, ◌||◌, arith, if◌then◌else◌, eqb_ℤ, eqb_ℤ_iff,
}
use auto_sync_gen.Result.{ok}
use auto_sync_gen.IdMap.{IdMap, lookup, insert}
use auto_sync_gen.IdMap.Laws.{lookup-insert, index_hit, at_hit}
use auto_sync_gen.IdMap.Order.{IsSorted, insert-IsSorted}
use auto_sync_gen.IdList.{
  mem, IsDistinctIds, bit_at, seen, mem-append, append-IsDistinctIds, seen-zero, seen-suc,
  seen_self, bit_at_pos,
}
use auto_sync_gen.Bitset.Laws.{test_lem}
use auto_sync_gen.Json.{Json}
use auto_sync_gen.Snapshot.{DiffTypeData, empty_type_diff}
use auto_sync_gen.Difference.{
  DiffBits, get_json_diff, diff_create, diff_remove, diff_update, diff_step, diff_loop,
}

module _ (J : Json) where
  -- An object that is updated: its items, and what their difference puts into the update.
  pub record Updates (current other : IdMap J.Val) (i : ℕ) (u : Option J.Val) : Type 0 where
    pub mine : J.Val
    pub theirs : J.Val
    pub change : J.Val
    pub mine_at : lookup (pos i) current ≡ some mine
    pub theirs_at : lookup (pos i) other ≡ some theirs
    pub run : get_json_diff J mine theirs ≡ ok change
    pub kept : u ≡ (if J.is_empty_obj change then none else some change)

  -- The difference after the objects below `i`.
  pub record Built (bits : DiffBits) (current : IdMap J.Val) (update : ℤ → Option J.Val) (i : ℕ)
      (d : DiffTypeData J) : Type 0 where
    pub create_sorted : IsSorted d.to_create
    pub update_sorted : IsSorted d.to_update
    pub remove_distinct : IsDistinctIds d.to_remove
    pub created :
        (k : ℤ)
        → lookup k d.to_create
          ≡ (if seen i k && bit_at bits.create k then lookup k current else none)
    pub removed : (k : ℤ) → mem k d.to_remove ≡ (seen i k && bit_at bits.remove k)
    pub updated :
        (k : ℤ)
        → lookup k d.to_update ≡ (if seen i k && bit_at bits.update k then update k else none)

  module _ (bits : DiffBits) (current other : IdMap J.Val) (update : ℤ → Option J.Val) where
    create_lem :
        (b : Bool) (i : ℕ) (d : DiffTypeData J)
        → (b ≡ true → (v : J.Val) × (lookup (pos i) current ≡ some v))
        → IsSorted d.to_create
        → (m : IdMap J.Val) × (diff_create J b i current d ≡ (current, record d { to_create = m }))
          × IsSorted m
          × ((k : ℤ)
              → lookup k m
                ≡ (if eqb_ℤ (pos i) k && b then lookup k current else lookup k d.to_create))
    unfolding diff_create
    create_lem true i d h s =
        let (v, e) = h refl in
        (
          insert (pos i) v d.to_create,
          rw (index_hit J.null (pos i) current v e),
          insert-IsSorted (pos i) v d.to_create s,
          λ k. ground (arith, lookup-insert (pos i) k v d.to_create, eqb_ℤ_iff (pos i) k),
        )
    create_lem false i d h s = (d.to_create, refl, s, λ k. ground arith)

    remove_lem :
        (b : Bool) (i : ℕ) (d : DiffTypeData J)
        → mem (pos i) d.to_remove ≡ false
        → IsDistinctIds d.to_remove
        → (r : List ℤ) × (diff_remove J b i d ≡ record d { to_remove = r })
          × IsDistinctIds r
          × ((k : ℤ) → mem k r ≡ (mem k d.to_remove || (eqb_ℤ (pos i) k && b)))
    unfolding diff_remove
    remove_lem true i d h s = (
      d.to_remove ++ pos i ∷ [],
      refl,
      append-IsDistinctIds (pos i) d.to_remove h s,
      λ k. ground (arith, mem-append k (pos i) d.to_remove),
    )
    remove_lem false i d h s = (d.to_remove, refl, s, λ k. ground arith)

    update_lem :
        (b : Bool) (i : ℕ) (d : DiffTypeData J)
        → (b ≡ true → Updates current other i (update (pos i)))
        → lookup (pos i) d.to_update ≡ none
        → IsSorted d.to_update
        → (m : IdMap J.Val) × (diff_update J b i current other d ≡ ok (record d { to_update = m }))
          × IsSorted m
          × ((k : ℤ)
              → lookup k m ≡ (if eqb_ℤ (pos i) k && b then update k else lookup k d.to_update))
    unfolding diff_update
    update_lem true i d h fresh s =
        let u = h refl in
        let m =
          (if J.is_empty_obj u.change then d.to_update else insert (pos i) u.change d.to_update) in
        (
          m,
          rw
              (
                at_hit (pos i) current u.mine u.mine_at,
                at_hit (pos i) other u.theirs u.theirs_at,
                u.run,
              )
              (ground arith),
          ground (arith, insert-IsSorted (pos i) u.change d.to_update s),
          λ k. ground (
            arith,
            u.kept,
            fresh,
            lookup-insert (pos i) k u.change d.to_update,
            eqb_ℤ_iff (pos i) k,
          ),
        )
    update_lem false i d h fresh s = (d.to_update, refl, s, λ k. ground arith)

    diff_step_lem :
        (i : ℕ) (d : DiffTypeData J)
        → i < length bits.create
        → i < length bits.remove
        → i < length bits.update
        → (get_or bits.create i false ≡ true → (v : J.Val) × (lookup (pos i) current ≡ some v))
        → (get_or bits.update i false ≡ true → Updates current other i (update (pos i)))
        → Built bits current update i d
        → (d' : DiffTypeData J) × (diff_step J bits other i current d ≡ ok (current, d'))
          × Built bits current update (suc i) d'
    unfolding diff_step
    diff_step_lem i d lc lr lu hc hu b =
        let (cm, ce, cs, cl) = create_lem (get_or bits.create i false) i d hc b.create_sorted in
        let d1 = record d { to_create = cm } in
        let (rl, re, rs, rm) =
          remove_lem (get_or bits.remove i false) i d1 (b.removed (pos i) ∙ rw (seen_self i))
            b.remove_distinct in
        let d2 = record d1 { to_remove = rl } in
        let (um, ue, us, ul) =
          update_lem (get_or bits.update i false) i d2 hu (b.updated (pos i) ∙ rw (seen_self i))
            b.update_sorted in
        (
          record d2 { to_update = um },
          rw (
            test_lem bits.create i lc,
            test_lem bits.remove i lr,
            test_lem bits.update i lu,
            ce,
            re,
            ue,
          ),
          record {
            create_sorted = cs;
            update_sorted = us;
            remove_distinct = rs;
            created = λ k.
                cl k
                ∙ ground (
                  arith,
                  b.created k,
                  seen-suc i k,
                  bit_at_pos bits.create i k,
                  seen_self i,
                  eqb_ℤ_iff (pos i) k,
                );
            removed = λ k.
                rm k
                ∙ ground (
                  arith,
                  b.removed k,
                  seen-suc i k,
                  bit_at_pos bits.remove i k,
                  seen_self i,
                  eqb_ℤ_iff (pos i) k,
                );
            updated = λ k.
                ul k
                ∙ ground (
                  arith,
                  b.updated k,
                  seen-suc i k,
                  bit_at_pos bits.update i k,
                  seen_self i,
                  eqb_ℤ_iff (pos i) k,
                );
          },
        )

    module _ (n : ℕ) (sc : length bits.create ≡ n) (sr : length bits.remove ≡ n)
        (su : length bits.update ≡ n)
        (hc : (i : ℕ)
          → get_or bits.create i false ≡ true
          → (v : J.Val) × (lookup (pos i) current ≡ some v))
        (hu : (i : ℕ)
          → get_or bits.update i false ≡ true
          → Updates current other i (update (pos i))) where
      diff_loop_lem :
          (k i : ℕ) (d : DiffTypeData J)
          → i + k ≡ n
          → Built bits current update i d
          → (d' : DiffTypeData J) × (diff_loop J k i bits other current d ≡ ok (current, d'))
            × Built bits current update n d'
      unfolding diff_loop
      diff_loop_lem zero i d e b =
          (d, refl, subst (λ j. Built bits current update j d) (omega arith) b)
      diff_loop_lem (suc k) i d e b =
          let (d1, step, b1) =
            diff_step_lem i d (omega arith) (omega arith) (omega arith) (hc i) (hu i) b in
          let (d2, rest, b2) = diff_loop_lem k (suc i) d1 (omega arith) b1 in
          (d2, rw (step, rest), b2)

      -- The loop over all objects succeeds and leaves the current items as they are.
      pub diff_loop_all :
          (d : DiffTypeData J) × (diff_loop J n zero bits other current (empty_type_diff J)
            ≡ ok (current, d))
          × Built bits current update n d
      unfolding mem lookup
      diff_loop_all = diff_loop_lem n zero (empty_type_diff J) (omega arith) (record {
        create_sorted = tt;
        update_sorted = tt;
        remove_distinct = tt;
        created = λ k. rw (seen-zero k);
        removed = λ k. rw (seen-zero k);
        updated = λ k. rw (seen-zero k);
      })
