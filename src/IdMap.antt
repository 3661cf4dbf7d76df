-- ===== src/IdMap.antt =====
-- `std::map<int, V>`: the entries in the order of iteration, which is that of the keys. The maps
-- from identifiers of SyncManager.hpp, SnapshotTypeData.hpp, DiffTypeData.hpp and
-- ConnectionManager.hpp are all of this type.
pub mod Laws
pub mod Order
use auto_sync_gen.Prelude.{
  ℤ, Bool, true, false, ◌≡◌, List, [], ◌∷◌, Option, none, some, if◌then◌else◌, eqb_ℤ, ltb_ℤ,
  is_some,
}
use auto_sync_gen.Result.{Result, or_fault, out_of_range}

abbrev pub IdMap {ℓ} : Type ℓ → Type ℓ
IdMap V = List (ℤ × V)

module _ {ℓ} {V : Type ℓ} where
  -- `m.find(k)`.
  unfoldable pub lookup : ℤ → IdMap V → Option V
  lookup k [] = none
  lookup k ((j, v) ∷ m) = if eqb_ℤ j k then some v else lookup k m

  -- `m[k] = v`.
  unfoldable pub insert : ℤ → V → IdMap V → IdMap V
  insert k v [] = (k, v) ∷ []
  insert k v ((j, w) ∷ m) =
      if eqb_ℤ j k
      then (k, v) ∷ m
      else (if ltb_ℤ k j then (k, v) ∷ (j, w) ∷ m else (j, w) ∷ insert k v m)

  -- `m.erase(k)`.
  unfoldable pub erase : ℤ → IdMap V → IdMap V
  erase k [] = []
  erase k ((j, v) ∷ m) = let rest = erase k m in if eqb_ℤ j k then rest else (j, v) ∷ rest

  -- `m[k]` as a read: a missing key is inserted with the default value.
  unfoldable pub index : V → ℤ → IdMap V → IdMap V × V
  index d k m = elim (lookup k m) [ none ↦ (insert k d m, d) | some v ↦ (m, v) ]

  -- `m.at(k)`.
  unfoldable pub at : ℤ → IdMap V → Result V
  at k m = or_fault (lookup k m) out_of_range
