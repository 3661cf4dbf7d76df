-- ===== src/Tests/Setup.antt =====
-- The chat program's types over the tree model: three fields, the vector of owned objects, and an
-- allocator that never gives an address in use.
use auto_sync_gen.Prelude.{ℕ, suc, ◌+◌, ◌<◌, pos, refl, List, [], ◌∷◌, arith, false}
use auto_sync_gen.Ssvu.{Ssvu, SsvuLaws, reject}
use auto_sync_gen.SyncObj.{SyncObj, At, here, there, initial_obj, to_json_all}
use auto_sync_gen.Lifetime.{Lifetime, LifetimeLaws}
use auto_sync_gen.Lifetime.Storage.{Allocator, Avoids, message_lifetime, message_lifetime_laws}
use auto_sync_gen.Tests.JsonModel.{FieldType, int, chars, Tree, tree_json}

abbrev pub ssvu : Ssvu
ssvu = record { erase_remove_if = λ A p xs. reject p xs }

pub ssvu_laws : SsvuLaws ssvu
ssvu_laws = record { erase_remove_if_lem = λ A p xs. refl }

unfoldable pub total : List ℕ → ℕ
total [] = 0
total (x ∷ xs) = x + total xs

pub Avoids-above : (a : ℕ) (xs : List ℕ) → total xs < a → Avoids a xs
unfolding total
Avoids-above a [] h = tt
Avoids-above a (x ∷ xs) h = ((λ e. absurd (omega arith)), Avoids-above a xs (omega arith))

abbrev pub allocator : Allocator
allocator = record {
  alloc = λ used. suc (total used);
  alloc_fresh = λ used. Avoids-above (suc (total used)) used (omega arith);
  alloc_ne_null = λ used e. absurd (omega arith);
}

abbrev pub message_fields : List FieldType
message_fields = int ∷ chars ∷ chars ∷ []

abbrev pub messages : Lifetime tree_json message_fields
messages = message_lifetime tree_json ssvu allocator message_fields

pub messages_laws : LifetimeLaws tree_json message_fields messages
messages_laws = message_lifetime_laws tree_json ssvu allocator message_fields ssvu_laws

-- `contents` of `Message`.
abbrev pub contents_field : At tree_json message_fields chars
contents_field = there (there here)

abbrev pub hello : SyncObj tree_json message_fields
hello = record {
  fields = (pos 7, ("ann", ("hello", tt)));
  field_flags = false ∷ false ∷ false ∷ [];
}

abbrev pub blank_message : SyncObj tree_json message_fields
blank_message = initial_obj tree_json message_fields

abbrev pub hello_json : Tree
hello_json = to_json_all tree_json hello
