-- ===== src/Ssvu.antt =====
-- `ssvu::eraseRemoveIf` of SSVUtils, which is no part of the repository.
use auto_sync_gen.Prelude.{Bool, List, [], ◌∷◌, ◌≡◌, if◌then◌else◌}

-- The elements that fail the test, in order.
unfoldable pub reject {ℓ} : {A : Type ℓ} → (A → Bool) → List A → List A
reject p [] = []
reject p (x ∷ xs) = if p x then reject p xs else x ∷ reject p xs

pub record Ssvu : Type 1 where
  pub erase_remove_if : (A : Type 0) → (A → Bool) → List A → List A

-- It erases the elements that satisfy the test and keeps the order of the others.
pub record SsvuLaws (V : Ssvu) : Type 1 where
  pub erase_remove_if_lem :
      (A : Type 0) (p : A → Bool) (xs : List A) → V.erase_remove_if A p xs ≡ reject p xs
