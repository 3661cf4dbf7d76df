-- ===== src/Sync/Repeated.antt =====
-- A difference that arrives twice.
use auto_sync_gen.Prelude.{
  ◌≤◌, ℤ, ◌≡◌, refl, sym, ◌∙◌, none, some, List, [], ◌∷◌, length, is_some, if◌then◌else◌,
  eqb_ℤ_self, arith, Option-cases, inl, inr,
}
use auto_sync_gen.Result.{ok, err, assertion}
use auto_sync_gen.IdMap.{IdMap, lookup}
use auto_sync_gen.Json.{Json, JsonLaws}
use auto_sync_gen.SyncObj.{TplFields, SyncObj, to_json_all}
use auto_sync_gen.Lifetime.{Lifetime, LifetimeLaws}
use auto_sync_gen.Snapshot.{max_objs, SnapshotTypeData, DiffTypeData}
use auto_sync_gen.Difference.{type_diff}
use auto_sync_gen.TypeManager.{TypeState, type_snapshot, create_impl, create_each, apply_type_diff}
use auto_sync_gen.TypeManager.View.{InRange, view, IsValid, none-ne-some}
use auto_sync_gen.TypeManager.Operations.{is_present_lem}
use auto_sync_gen.TypeManager.Items.{json_of, type_snapshot_lem}
use auto_sync_gen.TypeManager.Apply.{contents}
use auto_sync_gen.Sync.{Tracks}
use auto_sync_gen.Sync.Delta.{seen-InRange, view-seen}
use auto_sync_gen.Sync.Delta.Snapshots.{type_diff-IsDelta}
use auto_sync_gen.Sync.OneType.{apply_lem}

first_entry {ℓ} :
    {V : Type ℓ} (k : ℤ) (m : IdMap V) (v : V)
    → lookup k m ≡ some v
    → (j : ℤ) × (w : V) × (rest : IdMap V) × (m ≡ (j, w) ∷ rest) × (lookup j m ≡ some w)
unfolding lookup
first_entry k [] v e = absurd (none-ne-some v e)
first_entry k ((j, w) ∷ rest) v e = (j, w, rest, refl, rw (eqb_ℤ_self j) refl)

module _ (J : Json) (ts : List J.FieldType) (L : Lifetime J ts) (M : LifetimeLaws J ts L) where
  -- Under an identifier in use nothing is created.
  pub create_impl_present :
      (id : ℤ) (val : J.Val) (s : TypeState J ts L) (o : SyncObj J ts)
      → IsValid J ts L M s
      → InRange id
      → view J ts L s id ≡ some o
      → create_impl J ts L id val s ≡ err assertion
  unfolding create_impl
  create_impl_present id val s o v r e = rw (is_present_lem J ts L M id s v r, e) refl

  has_object :
      (s : TypeState J ts L) (k : ℤ) (xs : TplFields J ts)
      → contents J ts L s k ≡ some xs
      → (o : SyncObj J ts) × (view J ts L s k ≡ some o)
  unfolding contents
  has_object s k xs e = elim (Option-cases (view J ts L s k)) [
    | inl n ↦ absurd (none-ne-some xs (sym (rw n refl) ∙ e))
    | inr (o, f) ↦ (o, f)
  ]

  -- For a type with at most `maxObjs` fields, if server and client are well formed, each field of a
  -- server's object that differs from the client's is marked dirty, and the server has an object that
  -- the client lacks, then the difference of the two applies to the client, and applied once more it
  -- fails an assertion.
  pub repeated_diff :
      (W : JsonLaws J) (server client : TypeState J ts L) (k : ℤ) (o : SyncObj J ts)
      → length ts ≤ max_objs
      → IsValid J ts L M server
      → IsValid J ts L M client
      → Tracks J ts L server client
      → view J ts L server k ≡ some o
      → view J ts L client k ≡ none
      → (a b : SnapshotTypeData J) × (d : DiffTypeData J) × (client' : TypeState J ts L)
        × (type_snapshot J ts L server ≡ ok a)
        × (type_snapshot J ts L client ≡ ok b)
        × (type_diff J server.bitset_ids client.bitset_ids a b ≡ ok (a, d))
        × (apply_type_diff J ts L d client ≡ ok client')
        × (apply_type_diff J ts L d client' ≡ err assertion)
  unfolding contents apply_type_diff create_each
  repeated_diff W server client k o small vs vc tracks has lacks =
      let (a, ra, sa, la) = type_snapshot_lem J ts L M server vs in
      let (b, rb, sb, lb) = type_snapshot_lem J ts L M client vc in
      let (d, rd, delta) =
        type_diff-IsDelta J W ts small L M server client vs vc tracks a b la lb in
      let (s, rs, v, agrees) = apply_lem J W ts L M server client vs vc d delta in
      let (j, w, rest, shape, first) =
        first_entry k d.to_create (to_json_all J o) (delta.created k ∙ rw (lacks, has) refl) in
      let (q, at_server) = created_at j w (sym (delta.created j) ∙ first) in
      let (p, at_client) = has_object s j q.fields (agrees j ∙ rw at_server refl) in
      let range = seen-InRange j (view-seen J W ts L M server vs j (rw at_server refl)) in
      (a, b, d, s, ra, rb, rd, rs, rw (shape, create_impl_present j w s p v range at_client) refl)
    where
      missing :
          (j : ℤ)
          → view J ts L server j ≡ none
          → (if is_some (view J ts L client j) then none else json_of J ts L (view J ts L server j))
            ≡ none
      missing j n = ground (arith, n)

      created_at :
          (j : ℤ) (w : J.Val)
          → (if is_some (view J ts L client j) then none else json_of J ts L (view J ts L server j))
            ≡ some w
          → (q : SyncObj J ts) × (view J ts L server j ≡ some q)
      created_at j w e = elim (Option-cases (view J ts L server j)) [
        | inr found ↦ found
        | inl n ↦ absurd (none-ne-some w (sym (missing j n) ∙ e))
      ]
