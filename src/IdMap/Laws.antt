-- ===== src/IdMap/Laws.antt =====
-- What a map holds after each operation.
use auto_sync_gen.Prelude.{
  ℤ, ◌≡◌, refl, [], ◌∷◌, none, some, if◌then◌else◌, eqb_ℤ, eqb_ℤ_iff, arith,
}
use auto_sync_gen.Result.{ok, err, out_of_range}
use auto_sync_gen.IdMap.{IdMap, lookup, insert, erase, index, at}

module _ {ℓ} {V : Type ℓ} where
  pub lookup-insert :
      (k j : ℤ) (v : V) (m : IdMap V)
      → lookup j (insert k v m) ≡ (if eqb_ℤ k j then some v else lookup j m)
  unfolding lookup insert
  lookup-insert k j v [] = refl
  lookup-insert k j v ((i, w) ∷ m) =
      ground (arith, eqb_ℤ_iff k j, eqb_ℤ_iff i k, eqb_ℤ_iff i j, lookup-insert k j v m)

  pub lookup-erase :
      (k j : ℤ) (m : IdMap V) → lookup j (erase k m) ≡ (if eqb_ℤ k j then none else lookup j m)
  unfolding lookup erase
  lookup-erase k j [] = ground arith
  lookup-erase k j ((i, w) ∷ m) =
      ground (arith, eqb_ℤ_iff k j, eqb_ℤ_iff i k, eqb_ℤ_iff i j, lookup-erase k j m)

  pub index_hit : (d : V) (k : ℤ) (m : IdMap V) (v : V) → lookup k m ≡ some v → index d k m ≡ (m, v)
  unfolding index
  index_hit d k m v h = rw (h, index)

  pub index_miss :
      (d : V) (k : ℤ) (m : IdMap V) → lookup k m ≡ none → index d k m ≡ (insert k d m, d)
  unfolding index
  index_miss d k m h = rw (h, index)

  pub at_hit : (k : ℤ) (m : IdMap V) (v : V) → lookup k m ≡ some v → at k m ≡ ok v
  unfolding at
  at_hit k m v h = rw h

  pub at_miss : (k : ℤ) (m : IdMap V) → lookup k m ≡ none → at k m ≡ err out_of_range
  unfolding at
  at_miss k m h = rw h
