-- ===== src/Lifetime/Storage.antt =====
-- `LifetimeManager<Message>` of Src/main.cpp, at any list of field types: a vector of owned objects.
-- A handle is an address; the allocator is a parameter, and 0 is the null pointer.
use auto_sync_gen.Prelude.{
  ℕ, ◌≡◌, ◌≢◌, refl, sym, ap, ◌∙◌, Option, none, some, List, [], ◌∷◌, ◌++◌, map, ◌==◌,
  if◌then◌else◌, arith,
}
use auto_sync_gen.Json.{Json}
use auto_sync_gen.SyncObj.{SyncObj, initial_obj}
use auto_sync_gen.Ssvu.{Ssvu, SsvuLaws, reject}
use auto_sync_gen.Lifetime.{Lifetime, LifetimeLaws}

abbrev pub Avoids : ℕ → List ℕ → Type 0
Avoids a [] = Unit {0}
Avoids a (b ∷ bs) = (b ≢ a) × Avoids a bs

-- An address for a new object, given those in use.
pub record Allocator : Type 0 where
  pub alloc : List ℕ → ℕ
  pub alloc_fresh : (used : List ℕ) → Avoids (alloc used) used
  pub alloc_ne_null : (used : List ℕ) → alloc used ≢ 0

module _ (J : Json) (V : Ssvu) (M : Allocator) (ts : List J.FieldType) where
  -- `std::vector<ssvu::UPtr<Message>> storage`, each object with its address.
  abbrev pub Storage : Type 0
  Storage = List (ℕ × SyncObj J ts)

  abbrev pub addresses : Storage → List ℕ
  addresses = map (λ e. e.0)

  unfoldable pub create : Storage → Storage × ℕ
  create s = let a = M.alloc (addresses s) in (s ++ (a, initial_obj J ts) ∷ [], a)

  unfoldable pub remove : ℕ → Storage → Storage
  remove h s = V.erase_remove_if (ℕ × SyncObj J ts) (λ e. e.0 == h) s

  unfoldable pub read : ℕ → Storage → Option (SyncObj J ts)
  read h [] = none
  read h ((a, o) ∷ s) = if a == h then some o else read h s

  unfoldable pub write : ℕ → SyncObj J ts → Storage → Storage
  write h o [] = []
  write h o ((a, p) ∷ s) = if a == h then (a, o) ∷ s else (a, p) ∷ write h o s

  abbrev pub message_lifetime : Lifetime J ts
  message_lifetime = record {
    State = Storage;
    Handle = ℕ;
    initial_state = [];
    blank = 0;
    null_handle = λ s. 0;
    create = create;
    remove = remove;
    read = read;
    write = write;
  }

  -- No object lives at the null address.
  abbrev pub IsValid : Storage → Type 0
  IsValid s = read 0 s ≡ none

  read_avoided : (a : ℕ) (s : Storage) → Avoids a (addresses s) → read a s ≡ none
  unfolding read
  read_avoided a [] h = refl
  read_avoided a ((b, o) ∷ s) (ne, h) = ground (arith, read_avoided a s h)

  read-append :
      (h a : ℕ) (o : SyncObj J ts) (s : Storage)
      → read h s ≡ none
      → read h (s ++ (a, o) ∷ []) ≡ (if a == h then some o else none)
  unfolding read
  read-append h a o [] e = refl
  read-append h a o ((b, p) ∷ s) e = ground (arith, read-append h a o s)

  read-append_other :
      (h a : ℕ) (o : SyncObj J ts) (s : Storage) → h ≢ a → read h (s ++ (a, o) ∷ []) ≡ read h s
  unfolding read
  read-append_other h a o [] ne = ground arith
  read-append_other h a o ((b, p) ∷ s) ne = ground (arith, read-append_other h a o s ne)

  read-reject :
      (g h : ℕ) (s : Storage)
      → read g (reject (λ e. e.0 == h) s) ≡ (if g == h then none else read g s)
  unfolding read reject
  read-reject g h [] = ground arith
  read-reject g h ((b, p) ∷ s) = ground (arith, read-reject g h s)

  read-write :
      (g h : ℕ) (o : SyncObj J ts) (s : Storage)
      → read g (write h o s)
        ≡ (if g == h then (elim (read g s) [ none ↦ none | some p ↦ some o ]) else read g s)
  unfolding read write
  read-write g h o [] = ground arith
  read-write g h o ((b, p) ∷ s) = ground (arith, read-write g h o s)

  create-IsValid : (s : Storage) → IsValid s → IsValid (create s).0
  unfolding create
  create-IsValid s v =
      read-append_other 0 _ (initial_obj J ts) s (λ e. M.alloc_ne_null (addresses s) (sym e)) ∙ v

  module _ (VL : SsvuLaws V) where
    read-remove :
        (g h : ℕ) (s : Storage) → read g (remove h s) ≡ (if g == h then none else read g s)
    unfolding remove
    read-remove g h s =
        ap (read g) (VL.erase_remove_if_lem (ℕ × SyncObj J ts) (λ e. e.0 == h) s)
        ∙ read-reject g h s

    -- The vector of owned objects meets the contract, whatever the allocator.
    pub message_lifetime_laws : LifetimeLaws J ts message_lifetime
    unfolding create
    message_lifetime_laws = record {
      IsValid = IsValid;
      initial_state-IsValid = unfold read in refl;
      create-IsValid = create-IsValid;
      remove-IsValid = λ h s v. ground (arith, read-remove 0 h s);
      write-IsValid = λ h o s v. ground (arith, read-write 0 h o s);
      read_blank = λ s v. v;
      create_fresh = λ s v. read_avoided _ s (M.alloc_fresh (addresses s));
      read-create_self = λ s v.
          read-append _ _ (initial_obj J ts) s (read_avoided _ s (M.alloc_fresh (addresses s)))
          ∙ ground arith;
      read-create_other = λ s h v ne. read-append_other h _ (initial_obj J ts) s ne;
      read-remove_other = λ g h s v ne. ground (arith, read-remove g h s);
      read-remove_self = λ h s v. ground (arith, read-remove h h s);
      read-write_self = λ h o p s v e. ground (arith, read-write h h o s);
      read-write_other = λ g h o s v ne. ground (arith, read-write g h o s);
    }
