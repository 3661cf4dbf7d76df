-- ===== src/Lifetime.antt =====
-- The contract between `SyncManager` and the lifetime manager of a type (`TLFManager<T>`): handles to
-- objects that it owns. README.md states the required members; main.cpp supplies one of them.
pub mod Storage
use auto_sync_gen.Prelude.{◌≡◌, ◌≢◌, Option, none, some, List}
use auto_sync_gen.Json.{Json}
use auto_sync_gen.SyncObj.{SyncObj, initial_obj}

pub record Lifetime (J : Json) (ts : List J.FieldType) : Type 1 where
  pub State : Type 0
  pub Handle : Type 0
  -- The default-constructed manager.
  pub initial_state : State
  -- `Handle{}`, and `getNullHandle()`.
  pub blank : Handle
  pub null_handle : State → Handle
  pub create : State → State × Handle
  pub remove : Handle → State → State
  -- `*handle` as a read and as a write. `none` is a handle to no object.
  pub read : Handle → State → Option (SyncObj J ts)
  pub write : Handle → SyncObj J ts → State → State

pub record LifetimeLaws (J : Json) (ts : List J.FieldType) (L : Lifetime J ts) : Type 1 where
  pub IsValid : L.State → Type 0
  pub initial_state-IsValid : IsValid L.initial_state
  pub create-IsValid : (s : L.State) → IsValid s → IsValid (L.create s).0
  pub remove-IsValid : (h : L.Handle) (s : L.State) → IsValid s → IsValid (L.remove h s)
  pub write-IsValid :
      (h : L.Handle) (o : SyncObj J ts) (s : L.State) → IsValid s → IsValid (L.write h o s)
  -- The default handle is of no object.
  pub read_blank : (s : L.State) → IsValid s → L.read L.blank s ≡ none
  -- A handle is new when it is created.
  pub create_fresh : (s : L.State) → IsValid s → L.read (L.create s).1 s ≡ none
  pub read-create_self :
      (s : L.State) → IsValid s → L.read (L.create s).1 (L.create s).0 ≡ some (initial_obj J ts)
  pub read-create_other :
      (s : L.State) (h : L.Handle)
      → IsValid s
      → h ≢ (L.create s).1
      → L.read h (L.create s).0 ≡ L.read h s
  pub read-remove_other :
      (g h : L.Handle) (s : L.State) → IsValid s → g ≢ h → L.read g (L.remove h s) ≡ L.read g s
  pub read-remove_self : (h : L.Handle) (s : L.State) → IsValid s → L.read h (L.remove h s) ≡ none
  pub read-write_self :
      (h : L.Handle) (o p : SyncObj J ts) (s : L.State)
      → IsValid s
      → L.read h s ≡ some p
      → L.read h (L.write h o s) ≡ some o
  pub read-write_other :
      (g h : L.Handle) (o : SyncObj J ts) (s : L.State)
      → IsValid s
      → g ≢ h
      → L.read g (L.write h o s) ≡ L.read g s
