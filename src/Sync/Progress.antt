-- ===== src/Sync/Progress.antt =====
-- Which runs of a server with one client return.
use auto_sync_gen.Prelude.{
  ℕ, zero, suc, ◌≤◌, ◌<◌, ℤ, pos, ◌≡◌, refl, sym, subst, ◌∙◌, some, List, [], ◌∷◌, length, true,
  false, Bool-cases, inl, inr, eqb_ℤ, eqb_ℤ_iff, arith,
}
use auto_sync_gen.Result.{ok}
use auto_sync_gen.IdList.{seen, seen-zero, seen-suc}
use auto_sync_gen.Json.{Json, JsonLaws}
use auto_sync_gen.SyncObj.{SyncObj, edit, initial_obj, set_from_json}
use auto_sync_gen.Lifetime.{Lifetime, LifetimeLaws}
use auto_sync_gen.Snapshot.{max_objs}
use auto_sync_gen.TypeManager.{TypeState}
use auto_sync_gen.TypeManager.View.{view}
use auto_sync_gen.TypeManager.Create.{FreshFrom, initial_type_state-FreshFrom, server_create_lem}
use auto_sync_gen.TypeManager.Edit.{edit_object_lem}
use auto_sync_gen.Sync.System.{
  System, Action, create, change, synchronise, act, run, initial_system, Inv, initial_system-Inv,
  act-Inv, exchange_lem,
}

true-ne-false : true ≡ false → ⊥
true-ne-false e = cc

module _ (J : Json) (ts : List J.FieldType) (L : Lifetime J ts) where
  -- After `n` creations: each json sets a new object, there are `maxObjs` creations at most, and only
  -- objects that were created are edited.
  abbrev pub IsAllowed : ℕ → List (Action J ts L) → Type 0
  IsAllowed n [] = Unit {0}
  IsAllowed n (create v ∷ todo) =
      (n < max_objs)
      × ((o : SyncObj J ts) × (set_from_json J v (initial_obj J ts) ≡ ok o))
      × IsAllowed (suc n) todo
  IsAllowed n (change id p x ∷ todo) = (seen n id ≡ true) × IsAllowed n todo
  IsAllowed n (synchronise ∷ todo) = IsAllowed n todo

  abbrev HasAll : ℕ → TypeState J ts L → Type 0
  HasAll n s = (k : ℤ) → seen n k ≡ true → (o : SyncObj J ts) × (view J ts L s k ≡ some o)

  module _ (W : JsonLaws J) (M : LifetimeLaws J ts L) (small : length ts ≤ max_objs) where
    progress :
        (todo : List (Action J ts L)) (n : ℕ) (y : System J ts L)
        → Inv J ts L M y
        → y.server.last_id ≡ pos n
        → FreshFrom J ts L M n y.server
        → HasAll n y.server
        → IsAllowed n todo
        → (y' : System J ts L) × (run J ts L todo y ≡ ok y')
    unfolding run act
    progress [] n y i last fresh full allowed = (y, refl)
    progress (create v ∷ todo) n y i last fresh full (lt, (o, load), allowed) =
        let (s', h, made, rd, valid, rep, last', fresh') =
          server_create_lem J ts L M n v y.server last o lt i.server_valid fresh load in
        let y1 : System J ts L = record y { server = s' } in
        let i1 = act-Inv J ts L M y i W small (create v) y1 (rw made refl) in
        let (y', rest) =
          progress todo (suc n) y1 i1 last' fresh'
            (λ k b. elim (Bool-cases (eqb_ℤ (pos n) k)) [
              | inl e ↦ (o, rep k ∙ rw e refl)
              | inr ne ↦ let (q, f) = full k (ground (arith, seen-suc n k)) in (q, rep k ∙ rw ne f)
            ])
            allowed in
        (y', rw made rest)
    progress (change id p x ∷ todo) n y i last fresh full (b, allowed) =
        let (q, e) = full id b in
        let (s', made, valid, rep, last') =
          edit_object_lem J ts L M id p x y.server i.server_valid q e in
        let y1 : System J ts L = record y { server = s' } in
        let i1 = act-Inv J ts L M y i W small (change id p x) y1 (rw made refl) in
        let (y', rest) =
          progress todo n y1 i1 (last' ∙ last)
            (λ k unseen. elim (Bool-cases (eqb_ℤ id k)) [
              | inl same ↦ absurd (
                  true-ne-false
                    (sym (subst (λ j. seen n j ≡ true) ((eqb_ℤ_iff id k).0 same) b) ∙ unseen))
              | inr ne ↦ rep k ∙ rw ne (fresh k unseen)
            ])
            (λ k f. elim (Bool-cases (eqb_ℤ id k)) [
              | inl same ↦ (edit J p x q, rep k ∙ rw same refl)
              | inr ne ↦ let (o, g) = full k f in (o, rep k ∙ rw ne g)
            ])
            allowed in
        (y', rw made rest)
    progress (synchronise ∷ todo) n y i last fresh full allowed =
        let (c, made, i1, agrees) = exchange_lem J ts L M y i W small in
        let (y', rest) = progress todo n (record y { client = c }) i1 last fresh full allowed in
        (y', rw made rest)

-- A run of creations, edits and exchanges of one type with at most `maxObjs` fields, from a new server
-- and a new client, returns if each creation's json sets a new object, there are `maxObjs` creations
-- at most, and each edit is of an identifier already created.
pub run_total :
    (J : Json) (W : JsonLaws J) (ts : List J.FieldType) (L : Lifetime J ts)
    (M : LifetimeLaws J ts L) (todo : List (Action J ts L))
    → length ts ≤ max_objs
    → IsAllowed J ts L zero todo
    → (y : System J ts L) × (run J ts L todo (initial_system J ts L) ≡ ok y)
run_total J W ts L M todo small allowed =
    progress J ts L W M small todo zero (initial_system J ts L) (initial_system-Inv J ts L M) refl
      (initial_type_state-FreshFrom J ts L M) (λ k b. absurd (true-ne-false (sym b ∙ seen-zero k)))
      allowed
