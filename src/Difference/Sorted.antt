-- ===== src/Difference/Sorted.antt =====
-- The maps of a difference are sorted, whatever snapshots it is the difference of.
use auto_sync_gen.Prelude.{
  ℕ, zero, suc, pos, ◌≡◌, subst, ap, Bool, true, false, Bool-cases, inl, inr,
}
use auto_sync_gen.Result.{ok, >>=-eq-ok, value_of}
use auto_sync_gen.IdMap.{IdMap, at}
use auto_sync_gen.IdMap.Order.{insert-IsSorted}
use auto_sync_gen.Bitset.{Bitset, test}
use auto_sync_gen.Json.{Json}
use auto_sync_gen.Snapshot.{TplRepeat, SnapshotTypeData, DiffTypeData, Diff, Snapshot}
use auto_sync_gen.Snapshot.Wire.{All}
use auto_sync_gen.Snapshot.DiffWire.{IsTypeDiff}
use auto_sync_gen.Difference.{
  DiffBits, get_json_diff, diff_create, diff_remove, diff_update, diff_step, diff_loop, type_diff,
  type_diffs, get_diff_with,
}

module _ (J : Json) where
  create-IsTypeDiff :
      (b : Bool) (i : ℕ) (m : IdMap J.Val) (d : DiffTypeData J)
      → IsTypeDiff d
      → IsTypeDiff (diff_create J b i m d).1
  unfolding diff_create
  create-IsTypeDiff true i m d (c, u) = (insert-IsSorted _ _ d.to_create c, u)
  create-IsTypeDiff false i m d h = h

  remove-IsTypeDiff :
      (b : Bool) (i : ℕ) (d : DiffTypeData J) → IsTypeDiff d → IsTypeDiff (diff_remove J b i d)
  unfolding diff_remove
  remove-IsTypeDiff true i d h = h
  remove-IsTypeDiff false i d h = h

  update-IsTypeDiff :
      (b : Bool) (i : ℕ) (m o : IdMap J.Val) (d d' : DiffTypeData J)
      → IsTypeDiff d
      → diff_update J b i m o d ≡ ok d'
      → IsTypeDiff d'
  unfolding diff_update
  update-IsTypeDiff false i m o d d' h e = subst (λ x. IsTypeDiff x) (value_of d d' e) h
  update-IsTypeDiff true i m o d d' (c, u) e =
      let (x, rx, e1) = >>=-eq-ok (at (pos i) m) _ e in
      let (y, ry, e2) = >>=-eq-ok (at (pos i) o) _ e1 in
      let (v, rv, e3) = >>=-eq-ok (get_json_diff J x y) _ e2 in
      subst (λ x. IsTypeDiff x) (value_of _ d' e3)
        (elim (Bool-cases (J.is_empty_obj v)) [
          | inl b ↦ rw b (c, u)
          | inr b ↦ rw b (c, insert-IsSorted _ _ d.to_update u)
        ])

  step-IsTypeDiff :
      (bits : DiffBits) (o : IdMap J.Val) (i : ℕ) (m m' : IdMap J.Val) (d d' : DiffTypeData J)
      → IsTypeDiff d
      → diff_step J bits o i m d ≡ ok (m', d')
      → IsTypeDiff d'
  unfolding diff_step
  step-IsTypeDiff bits o i m m' d d' h e =
      let (c, rc, e1) = >>=-eq-ok (test bits.create i) _ e in
      let (r, rr, e2) = >>=-eq-ok (test bits.remove i) _ e1 in
      let (u, ru, e3) = >>=-eq-ok (test bits.update i) _ e2 in
      let created = diff_create J c i m d in
      let (d1, run, e4) =
        >>=-eq-ok (diff_update J u i created.0 o (diff_remove J r i created.1)) _ e3 in
      subst (λ x. IsTypeDiff x) (ap (λ x. x.1) (value_of _ (m', d') e4))
        (update-IsTypeDiff u i created.0 o _ d1
          (remove-IsTypeDiff r i created.1 (create-IsTypeDiff c i m d h)) run)

  loop-IsTypeDiff :
      (k i : ℕ) (bits : DiffBits) (o m m' : IdMap J.Val) (d d' : DiffTypeData J)
      → IsTypeDiff d
      → diff_loop J k i bits o m d ≡ ok (m', d')
      → IsTypeDiff d'
  unfolding diff_loop
  loop-IsTypeDiff zero i bits o m m' d d' h e =
      subst (λ x. IsTypeDiff x) (ap (λ x. x.1) (value_of (m, d) (m', d') e)) h
  loop-IsTypeDiff (suc k) i bits o m m' d d' h e =
      let ((m1, d1), run, rest) = >>=-eq-ok (diff_step J bits o i m d) _ e in
      loop-IsTypeDiff k (suc i) bits o m1 m' d1 d' (step-IsTypeDiff bits o i m m1 d d1 h run) rest

  type_diff-IsTypeDiff :
      (a b : Bitset) (x y x' : SnapshotTypeData J) (d : DiffTypeData J)
      → type_diff J a b x y ≡ ok (x', d)
      → IsTypeDiff d
  unfolding type_diff
  type_diff-IsTypeDiff a b x y x' d e =
      let ((m, d1), run, rest) = >>=-eq-ok (diff_loop J _ zero _ _ _ _) _ e in
      subst (λ x. IsTypeDiff x) (ap (λ x. x.1) (value_of _ (x', d) rest))
        (loop-IsTypeDiff _ zero _ _ _ m _ d1 (tt, tt) run)

  type_diffs-IsTypeDiff :
      (n : ℕ) (bs cs : TplRepeat Bitset n) (xs ys xs' : TplRepeat (SnapshotTypeData J) n)
      (ds : Diff J n)
      → type_diffs J n bs cs xs ys ≡ ok (xs', ds)
      → All (λ d. IsTypeDiff d) n ds
  unfolding type_diffs
  type_diffs-IsTypeDiff zero bs cs xs ys xs' ds e = tt
  type_diffs-IsTypeDiff (suc n) (b, bs) (c, cs) (x, xs) (y, ys) (x', xs') (d, ds) e =
      let ((x1, d1), run, e1) = >>=-eq-ok (type_diff J b c x y) _ e in
      let ((xs1, ds1), runs, e2) = >>=-eq-ok (type_diffs J n bs cs xs ys) _ e1 in
      let same = ap (λ r. r.1) (value_of ((x1, xs1), (d1, ds1)) ((x', xs'), (d, ds)) e2) in
      (
        subst (λ t. IsTypeDiff t) (ap (λ t. t.0) same) (type_diff-IsTypeDiff b c x y x1 d1 run),
        subst (All (λ t. IsTypeDiff t) n) (ap (λ t. t.1) same)
            (type_diffs-IsTypeDiff n bs cs xs ys xs1 ds1 runs),
      )

  -- Whenever `getDiffWith` returns, the maps of the difference are sorted by identifier.
  pub get_diff_with-IsTypeDiff :
      (n : ℕ) (s t s' : Snapshot J n) (d : Diff J n)
      → get_diff_with J n s t ≡ ok (s', d)
      → All (λ t. IsTypeDiff t) n d
  unfolding get_diff_with
  get_diff_with-IsTypeDiff n s t s' d e =
      let ((xs, ds), run, rest) = >>=-eq-ok (type_diffs J n _ _ _ _) _ e in
      subst (All (λ t. IsTypeDiff t) n) (ap (λ x. x.1) (value_of _ (s', d) rest))
        (type_diffs-IsTypeDiff n _ _ _ _ xs ds run)
