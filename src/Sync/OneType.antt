-- ===== src/Sync/OneType.antt =====
-- One type: the difference of the two snapshots, applied to the client.
use auto_sync_gen.Prelude.{
  zero, ◌≤◌, ℤ, ◌≡◌, sym, subst, ◌∙◌, Option, none, some, List, length, true, false, if◌then◌else◌,
  is_some, arith, Option-cases, inl, inr,
}
use auto_sync_gen.Result.{Result, ok, ◌>>=◌}
use auto_sync_gen.IdMap.{lookup}
use auto_sync_gen.IdList.{mem}
use auto_sync_gen.Json.{Json, JsonLaws}
use auto_sync_gen.SyncObj.{TplFields, initial_obj, initial_fields, to_json_all}
use auto_sync_gen.SyncObj.Entries.{to_json_all-IsObj}
use auto_sync_gen.SyncObj.Load.{Feeds, Feeds-to_json_all}
use auto_sync_gen.Lifetime.{Lifetime, LifetimeLaws}
use auto_sync_gen.Snapshot.{max_objs, DiffTypeData}
use auto_sync_gen.Difference.{type_diff}
use auto_sync_gen.TypeManager.{TypeState, type_snapshot, apply_type_diff}
use auto_sync_gen.TypeManager.View.{InRange, view, IsValid, none-ne-some}
use auto_sync_gen.TypeManager.Items.{type_snapshot_lem}
use auto_sync_gen.TypeManager.Apply.{
  contents, Makes, create_each_lem, update_each_lem, remove_each_lem,
}
use auto_sync_gen.Sync.{Tracks, Agrees}
use auto_sync_gen.Sync.Delta.{seen-InRange, IsDelta, view-seen}
use auto_sync_gen.Sync.Delta.Snapshots.{type_diff-IsDelta}

module _ (J : Json) (W : JsonLaws J) (ts : List J.FieldType) (L : Lifetime J ts)
    (M : LifetimeLaws J ts L) (server client : TypeState J ts L) (vs : IsValid J ts L M server)
    (vc : IsValid J ts L M client) (d : DiffTypeData J)
    (delta : IsDelta J W ts L server client d) where
  goal : ℤ → Option (TplFields J ts)
  goal = contents J ts L server

  creates :
      (k : ℤ) (w : J.Val)
      → lookup k d.to_create ≡ some w
      → InRange k
        × (contents J ts L client k ≡ none)
        × Makes J ts L M W goal w (initial_fields J ts) k
  unfolding contents goal
  creates k w h = elim (Option-cases (view J ts L client k)) [
    | inr (p, ep) ↦ absurd (none-ne-some w (sym (rw ep) ∙ sym (delta.created k) ∙ h))
    | inl np ↦ elim (Option-cases (view J ts L server k)) [
      | inl n ↦ absurd (none-ne-some w (sym (rw (np, n)) ∙ sym (delta.created k) ∙ h))
      | inr (o, e) ↦
          let is_w : some (to_json_all J o) ≡ some w =
            sym (rw (np, e)) ∙ sym (delta.created k) ∙ h in
          (
            seen-InRange k (view-seen J W ts L M server vs k (rw e)),
            rw np,
            (
              o.fields,
              subst W.IsObj (cc) (to_json_all-IsObj J W o),
              subst (λ x. Feeds J W ts zero x (initial_fields J ts) o.fields) (cc)
                  (Feeds-to_json_all J W o (initial_obj J ts)),
              rw e,
            ),
          )
    ]
  ]

  removes :
      (k : ℤ)
      → mem k d.to_remove ≡ true
      → InRange k
        × ((xs : TplFields J ts) × (contents J ts L client k ≡ some xs))
        × (is_some (lookup k d.to_create) ≡ false)
  unfolding contents
  removes k h = elim (Option-cases (view J ts L client k)) [
    | inl n ↦ absurd (false-ne-true (sym (rw n (ground arith)) ∙ sym (delta.removed k) ∙ h))
    | inr (p, ep) ↦ (
      seen-InRange k (view-seen J W ts L M client vc k (rw ep)),
      (p.fields, rw ep),
      rw (delta.created k, ep),
    )
  ]
    where
      false-ne-true : false ≡ true → ⊥
      false-ne-true e = cc

  changes :
      (k : ℤ) (w : J.Val)
      → lookup k d.to_update ≡ some w
      → (xs : TplFields J ts) × InRange k
        × (contents J ts L client k ≡ some xs)
        × Makes J ts L M W goal w xs k
        × (is_some (lookup k d.to_create) ≡ false)
        × (mem k d.to_remove ≡ false)
  unfolding contents goal
  changes k w h = elim (Option-cases (view J ts L client k)) [
    | inl n ↦ absurd (none-ne-some w (sym (rw n (ground arith)) ∙ sym (delta.updated k) ∙ h))
    | inr (p, ep) ↦ elim (Option-cases (view J ts L server k)) [
      | inl n ↦ absurd (none-ne-some w (sym (rw n) ∙ sym (delta.updated k) ∙ h))
      | inr (o, eo) ↦
          let (v, kept, obj, feeds, same) = delta.differs k o p eo ep in
          let is_w : (if J.is_empty_obj v then none else some v) ≡ some w =
            sym kept ∙ sym (rw (eo, ep)) ∙ sym (delta.updated k) ∙ h in
          let same_w : v ≡ w = ground arith in
          (
            p.fields,
            seen-InRange k (view-seen J W ts L M server vs k (rw eo)),
            rw ep,
            (
              o.fields,
              subst W.IsObj same_w obj,
              subst (λ x. Feeds J W ts zero x p.fields o.fields) same_w feeds,
              rw eo,
            ),
            rw (delta.created k, ep),
            rw (delta.removed k, eo),
          )
    ]
  ]

  result :
      (k : ℤ)
      → (if is_some (lookup k d.to_update)
          then goal k
          else (if mem k d.to_remove
              then none
              else (if is_some (lookup k d.to_create) then goal k else contents J ts L client k)))
        ≡ goal k
  unfolding contents goal
  result k = elim (Option-cases (view J ts L client k)) [
    | inl np ↦ elim (Option-cases (view J ts L server k)) [
      | inl n ↦ rw (delta.updated k, delta.removed k, delta.created k, n, np)
      | inr (o, e) ↦ rw (delta.updated k, delta.removed k, delta.created k, e, np)
    ]
    | inr (p, ep) ↦ elim (Option-cases (view J ts L server k)) [
      | inl n ↦ rw (delta.updated k, delta.removed k, delta.created k, n, ep)
      | inr (o, e) ↦
          let (v, kept, obj, feeds, same) = delta.differs k o p e ep in
          rw (delta.updated k, delta.removed k, delta.created k, e, ep, kept) (ground (arith, same))
    ]
  ]

  -- The difference can be applied to the client, and makes it agree with the server.
  pub apply_lem :
      (s : TypeState J ts L) × (apply_type_diff J ts L d client ≡ ok s)
      × IsValid J ts L M s
      × Agrees J ts L server s
  unfolding apply_type_diff goal
  apply_lem =
      let (s1, r1, v1, c1, l1) =
        create_each_lem J ts L M W goal d.to_create client vc delta.create_sorted creates in
      let (s2, r2, v2, c2, l2) =
        remove_each_lem J ts L M d.to_remove s1 v1 delta.remove_distinct
          (λ k h. let (range, (xs, e), n) = removes k h in (range, (xs, c1 k ∙ rw n e))) in
      let (s3, r3, v3, c3, l3) =
        update_each_lem J ts L M W goal d.to_update s2 v2 delta.update_sorted (λ k w h.
          let (xs, range, e, makes, nc, nr) = changes k w h in
          (xs, range, c2 k ∙ rw nr (c1 k ∙ rw nc e), makes)) in
      (s3, rw (r1, r2) r3, v3, λ k. c3 k ∙ rw (c2 k, c1 k) (result k))

-- One exchange for a type: both sides take a snapshot, the server computes the difference, and the
-- client applies it.
unfoldable pub exchange :
    (J : Json) (ts : List J.FieldType) (L : Lifetime J ts)
    → TypeState J ts L
    → TypeState J ts L
    → Result (TypeState J ts L)
exchange J ts L server client = do
  mine ← type_snapshot J ts L server
  yours ← type_snapshot J ts L client
  (mine', d) ← type_diff J server.bitset_ids client.bitset_ids mine yours
  apply_type_diff J ts L d client

-- For a type with at most `maxObjs` fields, if server and client are well formed and each field of
-- a server's object that differs from the client's object of the same identifier is marked dirty,
-- then the exchange succeeds and leaves the client well formed, with objects under exactly the
-- server's identifiers, each with the server's fields.
pub exchange-Agrees :
    (J : Json) (W : JsonLaws J) (ts : List J.FieldType) (L : Lifetime J ts)
    (M : LifetimeLaws J ts L) (server client : TypeState J ts L)
    → length ts ≤ max_objs
    → IsValid J ts L M server
    → IsValid J ts L M client
    → Tracks J ts L server client
    → (client' : TypeState J ts L) × (exchange J ts L server client ≡ ok client')
      × IsValid J ts L M client'
      × Agrees J ts L server client'
unfolding exchange
exchange-Agrees J W ts L M server client small vs vc tracks =
    let (a, ra, sa, la) = type_snapshot_lem J ts L M server vs in
    let (b, rb, sb, lb) = type_snapshot_lem J ts L M client vc in
    let (d, rd, delta) = type_diff-IsDelta J W ts small L M server client vs vc tracks a b la lb in
    let (s, rs, v, agrees) = apply_lem J W ts L M server client vs vc d delta in
    (s, rw (ra, rb, rd) rs, v, agrees)
