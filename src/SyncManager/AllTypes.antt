-- ===== src/SyncManager/AllTypes.antt =====
-- All types: the difference of the two snapshots of a server and a client, applied to the client.
use auto_sync_gen.Prelude.{◌≤◌, ◌≡◌, refl, List, [], ◌∷◌, length}
use auto_sync_gen.Result.{Result, ok, ◌>>=◌, >>=-eq-ok}
use auto_sync_gen.Json.{Json, JsonLaws}
use auto_sync_gen.Lifetime.{LifetimeLaws}
use auto_sync_gen.Snapshot.{TplRepeat, SnapshotTypeData, Diff, max_objs}
use auto_sync_gen.Difference.{type_diff, type_diffs, get_diff_with}
use auto_sync_gen.TypeManager.{type_snapshot}
use auto_sync_gen.TypeManager.View.{IsValid}
use auto_sync_gen.Sync.{Tracks, Agrees}
use auto_sync_gen.Sync.OneType.{exchange, exchange-Agrees}
use auto_sync_gen.SyncManager.{
  SyncType, StateOf, SyncManager, bitsets, snapshots, get_snapshot, apply_diff, apply_diff_from,
}
use auto_sync_gen.SyncManager.Dispatch.{apply_diff_lem}

module _ (J : Json) where
  -- The client sends its snapshot, the server answers with the difference, the client applies it.
  unfoldable pub exchange_all :
      (ts : List (SyncType J)) → SyncManager J ts → SyncManager J ts → Result (SyncManager J ts)
  exchange_all ts server client = do
    mine ← get_snapshot J ts server
    yours ← get_snapshot J ts client
    (mine', d) ← get_diff_with J (length ts) mine yours
    apply_diff J ts d client

  -- What holds of each type: the laws of its lifetime manager, a bound on its fields, and the
  -- predicates of one type on the states of the server and the client.
  abbrev pub AllLaws : List (SyncType J) → Type 1
  AllLaws [] = Unit {1}
  AllLaws (t ∷ ts) = LifetimeLaws J t.field_types t.lifetime × AllLaws ts

  abbrev pub AllSmall : List (SyncType J) → Type 0
  AllSmall [] = Unit {0}
  AllSmall (t ∷ ts) = (length t.field_types ≤ max_objs) × AllSmall ts

  abbrev pub AllValid : (ts : List (SyncType J)) → AllLaws ts → SyncManager J ts → Type 0
  AllValid [] M m = Unit {0}
  AllValid (t ∷ ts) (M, Ms) (s, m) = IsValid J t.field_types t.lifetime M s × AllValid ts Ms m

  abbrev pub AllTrack : (ts : List (SyncType J)) → SyncManager J ts → SyncManager J ts → Type 0
  AllTrack [] server client = Unit {0}
  AllTrack (t ∷ ts) (s, server) (c, client) =
      Tracks J t.field_types t.lifetime s c × AllTrack ts server client

  abbrev pub AllAgree : (ts : List (SyncType J)) → SyncManager J ts → SyncManager J ts → Type 0
  AllAgree [] server client = Unit {0}
  AllAgree (t ∷ ts) (s, server) (c, client) =
      Agrees J t.field_types t.lifetime s c × AllAgree ts server client

  -- The steps of an exchange that leads to `client'`.
  abbrev Steps :
      (ts : List (SyncType J)) → SyncManager J ts → SyncManager J ts → SyncManager J ts → Type 0
  Steps ts server client client' =
      (xs : TplRepeat (SnapshotTypeData J) (length ts)) × (ys : TplRepeat (SnapshotTypeData J)
        (length ts))
      × (xs' : TplRepeat (SnapshotTypeData J) (length ts)) × (d : Diff J (length ts)) × (snapshots J
            ts server
          ≡ ok xs)
      × (snapshots J ts client ≡ ok ys)
      × (type_diffs J (length ts) (bitsets J ts server) (bitsets J ts client) xs ys ≡ ok (xs', d))
      × (apply_diff J ts d client ≡ ok client')

  Steps-exchange :
      (ts : List (SyncType J)) (server client client' : SyncManager J ts)
      → Steps ts server client client'
      → exchange_all ts server client ≡ ok client'
  unfolding exchange_all get_snapshot get_diff_with
  Steps-exchange ts server client client' (xs, ys, xs', d, a, b, e, f) = rw (a, b, e) f

  Steps-cons :
      (t : SyncType J) (ts : List (SyncType J)) (s c c' : StateOf J t)
      (server client client' : SyncManager J ts)
      → exchange J t.field_types t.lifetime s c ≡ ok c'
      → Steps ts server client client'
      → Steps (t ∷ ts) (s, server) (c, client) (c', client')
  unfolding exchange snapshots type_diffs
  Steps-cons t ts s c c' server client client' run (xs, ys, xs', ds, a, b, e, f) =
      let (x, ra, k1) = >>=-eq-ok (type_snapshot J t.field_types t.lifetime s) _ run in
      let (y, rb, k2) = >>=-eq-ok (type_snapshot J t.field_types t.lifetime c) _ k1 in
      let ((x', d), rd, k3) = >>=-eq-ok (type_diff J s.bitset_ids c.bitset_ids x y) _ k2 in
      (
        (x, xs),
        (y, ys),
        (x', xs'),
        (d, ds),
        rw (ra, a),
        rw (rb, b),
        rw (rd, e),
        rw (apply_diff_lem J t ts d ds c client, k3, f),
      )

  all_types :
      (W : JsonLaws J) (ts : List (SyncType J)) (M : AllLaws ts) (server client : SyncManager J ts)
      → AllSmall ts
      → AllValid ts M server
      → AllValid ts M client
      → AllTrack ts server client
      → (client' : SyncManager J ts) × Steps ts server client client'
        × AllValid ts M client'
        × AllAgree ts server client'
  unfolding snapshots type_diffs apply_diff apply_diff_from
  all_types W [] M server client small vs vc tr =
      (tt, (tt, tt, tt, tt, refl, refl, refl, refl), tt, tt)
  all_types W (t ∷ ts) (M, Ms) (s, server) (c, client) (small, smalls) (v, vs) (w, ws) (tr, trs) =
      let (c', run, w', ag) = exchange-Agrees J W t.field_types t.lifetime M s c small v w tr in
      let (client', steps, ws', ags) = all_types W ts Ms server client smalls vs ws trs in
      ((c', client'), Steps-cons t ts s c c' server client client' run steps, (w', ws'), (ag, ags))

  -- For types with at most `maxObjs` fields each, if server and client are well formed at each type
  -- and each field of a server's object that differs from the client's object of the same type and
  -- identifier is marked dirty, then the exchange of all types succeeds and leaves the client well
  -- formed, with objects under exactly the server's identifiers of each type, each with the server's
  -- fields.
  pub exchange_all-AllAgree :
      (W : JsonLaws J) (ts : List (SyncType J)) (M : AllLaws ts) (server client : SyncManager J ts)
      → AllSmall ts
      → AllValid ts M server
      → AllValid ts M client
      → AllTrack ts server client
      → (client' : SyncManager J ts) × (exchange_all ts server client ≡ ok client')
        × AllValid ts M client'
        × AllAgree ts server client'
  exchange_all-AllAgree W ts M server client small vs vc tr =
      let (client', steps, v, agree) = all_types W ts M server client small vs vc tr in
      (client', Steps-exchange ts server client client' steps, v, agree)
