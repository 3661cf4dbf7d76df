-- ===== src/Sync.antt =====
-- What synchronisation promises: the client's objects become those of the server.
pub mod Delta
pub mod OneType
pub mod System
pub mod Progress
pub mod Repeated
use auto_sync_gen.Prelude.{ℤ, ◌≡◌, some, List}
use auto_sync_gen.Json.{Json}
use auto_sync_gen.SyncObj.{SyncObj}
use auto_sync_gen.SyncObj.Dirty.{Marks}
use auto_sync_gen.Lifetime.{Lifetime}
use auto_sync_gen.TypeManager.{TypeState}
use auto_sync_gen.TypeManager.View.{view}
use auto_sync_gen.TypeManager.Apply.{contents}

module _ (J : Json) (ts : List J.FieldType) (L : Lifetime J ts) where
  -- Whatever differs from the client's object of the same identifier is marked dirty at the server.
  abbrev pub Tracks : TypeState J ts L → TypeState J ts L → Type 0
  Tracks server client =
      (k : ℤ) (o p : SyncObj J ts)
      → view J ts L server k ≡ some o
      → view J ts L client k ≡ some p
      → Marks J p o

  -- The same identifiers, each with the same fields.
  abbrev pub Agrees : TypeState J ts L → TypeState J ts L → Type 0
  Agrees server client = (k : ℤ) → contents J ts L client k ≡ contents J ts L server k
