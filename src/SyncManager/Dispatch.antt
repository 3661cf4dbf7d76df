-- ===== src/SyncManager/Dispatch.antt =====
-- What the dispatch tables do in `applyDiff`: each type gets its own part of the difference.
use auto_sync_gen.Prelude.{
  ℕ, zero, suc, ◌+◌, ◌≤◌, ◌<◌, ℤ, ◌≡◌, refl, sym, ap, ◌∙◌, List, [], ◌∷◌, length, arith,
}
use auto_sync_gen.Result.{Result, ok, err, ◌>>=◌}
use auto_sync_gen.IdMap.{IdMap}
use auto_sync_gen.Json.{Json}
use auto_sync_gen.Snapshot.{DiffTypeData, Diff}
use auto_sync_gen.TypeManager.{create_each, remove_each, update_each, apply_type_diff}
use auto_sync_gen.SyncManager.{
  SyncType, StateOf, SyncManager, dispatch, on_received_packet_create, on_received_packet_remove,
  on_received_packet_update, receive_created, receive_removed, receive_updated, apply_diff_at,
  apply_diff_from, apply_diff,
}

-- A step that only renames its value is moved behind the next one.
bind_through :
    {A B C D : Type 0} (r : Result A) (f : A → B) (k : B → Result C) (k' : A → Result D) (g : D → C)
    → ((a : A) → k (f a) ≡ (k' a >>= λ d. ok (g d)))
    → ((r >>= λ a. ok (f a)) >>= k) ≡ ((r >>= k') >>= λ d. ok (g d))
bind_through (ok a) f k k' g h = h a
bind_through (err e) f k k' g h = refl

module _ (J : Json) where
  -- Two functions dispatched one after the other at a type are their composite, dispatched there.
  dispatch_compose :
      (ts : List (SyncType J)) (i : ℕ) (f g : (t : SyncType J) → StateOf J t → Result (StateOf J t))
      (m : SyncManager J ts)
      → (dispatch J ts i f m >>= dispatch J ts i g) ≡ dispatch J ts i (λ t s. f t s >>= g t) m
  unfolding dispatch
  dispatch_compose [] i f g m = refl
  dispatch_compose (t ∷ ts) zero f g (s, m) = bind_through (f t s) _ _ (g t) _ (λ s'. refl)
  dispatch_compose (t ∷ ts) (suc i) f g (s, m) =
      bind_through (dispatch J ts i f m) _ _ (dispatch J ts i g) _ (λ m'. refl)
      ∙ ap (λ r. r >>= λ m'. ok (s, m')) (dispatch_compose ts i f g m)

  dispatch_ok :
      (ts : List (SyncType J)) (i : ℕ) (m : SyncManager J ts)
      → i < length ts
      → dispatch J ts i (λ t s. ok s) m ≡ ok m
  unfolding dispatch
  dispatch_ok [] i m h = elim h [ ]
  dispatch_ok (t ∷ ts) zero (s, m) h = refl
  dispatch_ok (t ∷ ts) (suc i) (s, m) h = rw (dispatch_ok ts i m (omega arith)) refl

  module _ (ts : List (SyncType J)) (i : ℕ) (h : i < length ts) where
    step_then :
        (f g : (t : SyncType J) → StateOf J t → Result (StateOf J t))
        (k : SyncManager J ts → Result (SyncManager J ts)) (m : SyncManager J ts)
        → ((m' : SyncManager J ts) → k m' ≡ dispatch J ts i g m')
        → (dispatch J ts i f m >>= k) ≡ dispatch J ts i (λ t s. f t s >>= g t) m
    step_then f g k m same = go (dispatch J ts i f m) ∙ dispatch_compose ts i f g m
      where
        go : (r : Result (SyncManager J ts)) → (r >>= k) ≡ (r >>= dispatch J ts i g)
        go (ok m') = same m'
        go (err e) = refl

    receive_created_lem :
        (xs : IdMap J.Val) (m : SyncManager J ts)
        → receive_created J ts i xs m
          ≡ dispatch J ts i (λ t. create_each J t.field_types t.lifetime xs) m
    unfolding receive_created on_received_packet_create create_each
    receive_created_lem [] m = sym (dispatch_ok ts i m h)
    receive_created_lem ((id, v) ∷ xs) m = step_then _ _ _ m (receive_created_lem xs)

    receive_removed_lem :
        (xs : List ℤ) (m : SyncManager J ts)
        → receive_removed J ts i xs m
          ≡ dispatch J ts i (λ t. remove_each J t.field_types t.lifetime xs) m
    unfolding receive_removed on_received_packet_remove remove_each
    receive_removed_lem [] m = sym (dispatch_ok ts i m h)
    receive_removed_lem (id ∷ xs) m = step_then _ _ _ m (receive_removed_lem xs)

    receive_updated_lem :
        (xs : IdMap J.Val) (m : SyncManager J ts)
        → receive_updated J ts i xs m
          ≡ dispatch J ts i (λ t. update_each J t.field_types t.lifetime xs) m
    unfolding receive_updated on_received_packet_update update_each
    receive_updated_lem [] m = sym (dispatch_ok ts i m h)
    receive_updated_lem ((id, v) ∷ xs) m = step_then _ _ _ m (receive_updated_lem xs)

    -- For the number of a type, `applyDiff` of one difference is that of the type alone, dispatched.
    pub apply_diff_at-dispatch :
        (d : DiffTypeData J) (m : SyncManager J ts)
        → apply_diff_at J ts i d m
          ≡ dispatch J ts i (λ t. apply_type_diff J t.field_types t.lifetime d) m
    unfolding apply_diff_at apply_type_diff
    apply_diff_at-dispatch d m = rw (receive_created_lem d.to_create m) (
        step_then _ _ _ m (λ m1.
          rw (receive_removed_lem d.to_remove m1)
            (step_then _ _ _ m1 (receive_updated_lem d.to_update))))

  -- The types behind the first one are served as if they stood alone.
  apply_diff_from_shift :
      (t : SyncType J) (ts : List (SyncType J)) (n i : ℕ) (ds : Diff J n) (s : StateOf J t)
      (m : SyncManager J ts)
      → i + n ≤ length ts
      → apply_diff_from J (t ∷ ts) n (suc i) ds (s, m)
        ≡ (apply_diff_from J ts n i ds m >>= λ m'. ok (s, m'))
  unfolding apply_diff_from dispatch
  apply_diff_from_shift t ts zero i ds s m h = refl
  apply_diff_from_shift t ts (suc n) i (d, ds) s m h =
      rw
        (
          apply_diff_at-dispatch (t ∷ ts) (suc i) (omega arith) d (s, m),
          apply_diff_at-dispatch ts i (omega arith) d m,
        )
        (bind_through (dispatch J ts i (λ u. apply_type_diff J u.field_types u.lifetime d) m) _ _
          (apply_diff_from J ts n (suc i) ds) _
          (λ m'. apply_diff_from_shift t ts n (suc i) ds s m' (omega arith)))

  -- `applyDiff` gives the first type its own difference, and the other types theirs, whatever the
  -- types and whether or not it succeeds.
  pub apply_diff_lem :
      (t : SyncType J) (ts : List (SyncType J)) (d : DiffTypeData J) (ds : Diff J (length ts))
      (s : StateOf J t) (m : SyncManager J ts)
      → apply_diff J (t ∷ ts) (d, ds) (s, m) ≡ (
          apply_type_diff J t.field_types t.lifetime d s >>= λ s'.
          apply_diff J ts ds m >>= λ m'. ok (s', m'))
  unfolding apply_diff apply_diff_from dispatch
  apply_diff_lem t ts d ds s m =
      rw (apply_diff_at-dispatch (t ∷ ts) zero (omega arith) d (s, m))
        (go (apply_type_diff J t.field_types t.lifetime d s))
    where
      go :
          (r : Result (StateOf J t))
          → ((r >>= λ s'. ok (s', m)) >>= apply_diff_from J (t ∷ ts) (length ts) (suc zero) ds)
            ≡ (r >>= λ s'. apply_diff J ts ds m >>= λ m'. ok (s', m'))
      go (ok s') = apply_diff_from_shift t ts (length ts) zero ds s' m (omega arith)
      go (err e) = refl
