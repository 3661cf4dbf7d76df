-- ===== src/Tests/Packets.antt =====
-- A packet library that meets `PacketLaws`, and the theorems on packets at it.
use Prim.Native.String.{String}
use auto_sync_gen.Prelude.{ℤ, pos, ◌≡◌, refl, List, [], ◌∷◌, ◌++◌, arith, ltb_ℤ}
use auto_sync_gen.Result.{ok}
use auto_sync_gen.Json.{EmptyAsArray}
use auto_sync_gen.Snapshot.{DiffTypeData, diff_to_json, diff_from_json}
use auto_sync_gen.Snapshot.Wire.{All}
use auto_sync_gen.Snapshot.DiffWire.{IsTypeDiff, diff_from_json-diff_to_json}
use auto_sync_gen.Packet.{
  CtoS, StoC, ctos_number, stoc_number, to_ctos, to_stoc, PacketLib, Item, ntype, int, text, json,
  PacketLaws, Arg, int_arg, text_arg, diff_arg, fill_packet,
}
use auto_sync_gen.Packet.Contents.{
  to_ctos-ctos_number, to_stoc-stoc_number, items_of, fill_packet_lem,
}
use auto_sync_gen.Tests.JsonModel.{tree_json, Tree, all_operations}
use auto_sync_gen.Tests.JsonLaws.{tree_laws}
use auto_sync_gen.Tests.Setup.{hello_json}

abbrev pub Packet : Type 0
Packet = List (Item Tree)

unfoldable pub get_ntype : ℤ → Packet → ℤ × Packet
get_ntype old (ntype i ∷ p) = (i, p)
get_ntype old p = (old, p)

unfoldable pub get_int : ℤ → Packet → ℤ × Packet
get_int old (int i ∷ p) = (i, p)
get_int old p = (old, p)

unfoldable pub get_text : String → Packet → String × Packet
get_text old (text s ∷ p) = (s, p)
get_text old p = (old, p)

unfoldable pub get_json : Tree → Packet → Tree × Packet
get_json old (json v ∷ p) = (v, p)
get_json old p = (old, p)

abbrev pub packets : PacketLib Tree
packets = record {
  Packet = Packet;
  empty_packet = [];
  clear = λ p. [];
  put_ntype = λ i p. p ++ ntype i ∷ [];
  put_int = λ i p. p ++ int i ∷ [];
  put_text = λ s p. p ++ text s ∷ [];
  put_json = λ v p. p ++ json v ∷ [];
  get_ntype = get_ntype;
  get_int = get_int;
  get_text = get_text;
  get_json = get_json;
}

pub get_ntype_lem :
    (old i : ℤ) (p : Packet) (rest : List (Item Tree))
    → p ≡ ntype i ∷ rest
    → (q : Packet) × (get_ntype old p ≡ (i, q)) × (q ≡ rest)
unfolding get_ntype
get_ntype_lem old i p rest e = (rest, rw e refl, refl)

pub get_int_lem :
    (old i : ℤ) (p : Packet) (rest : List (Item Tree))
    → p ≡ int i ∷ rest
    → (q : Packet) × (get_int old p ≡ (i, q)) × (q ≡ rest)
unfolding get_int
get_int_lem old i p rest e = (rest, rw e refl, refl)

pub get_text_lem :
    (old s : String) (p : Packet) (rest : List (Item Tree))
    → p ≡ text s ∷ rest
    → (q : Packet) × (get_text old p ≡ (s, q)) × (q ≡ rest)
unfolding get_text
get_text_lem old s p rest e = (rest, rw e refl, refl)

pub get_json_lem :
    (old v : Tree) (p : Packet) (rest : List (Item Tree))
    → p ≡ json v ∷ rest
    → (q : Packet) × (get_json old p ≡ (v, q)) × (q ≡ rest)
unfolding get_json
get_json_lem old v p rest e = (rest, rw e refl, refl)

abbrev pub packet_laws : PacketLaws Tree packets
packet_laws = record {
  contents = λ p. p;
  contents_clear = λ p. refl;
  contents-put_ntype = λ i p h. refl;
  contents-put_int = λ i p h. refl;
  contents-put_text = λ s p. refl;
  contents-put_json = λ v p. refl;
  get_ntype_lem = get_ntype_lem;
  get_int_lem = get_int_lem;
  get_text_lem = get_text_lem;
  get_json_lem = get_json_lem;
}

pub empty_as_array : EmptyAsArray tree_json
unfolding all_operations
empty_as_array = record { emplace-mk_obj = λ w. refl; for_arr-mk_obj = refl }

abbrev one_each : DiffTypeData tree_json
one_each = record {
  to_create = (pos 3, hello_json) ∷ (pos 4, hello_json) ∷ [];
  to_update = (pos 1, hello_json) ∷ [];
  to_remove = pos 2 ∷ pos 0 ∷ [];
}

one_each-IsTypeDiff : All (λ d. IsTypeDiff {J = tree_json} d) 1 (one_each, tt)
unfolding ltb_ℤ
one_each-IsTypeDiff = ((((refl, tt), (tt, tt)), (tt, tt)), tt)

diff_from_json-diff_to_json_example :
    diff_from_json tree_json 1 (diff_to_json tree_json 1 (one_each, tt)) ≡ ok (one_each, tt)
diff_from_json-diff_to_json_example =
    diff_from_json-diff_to_json tree_json tree_laws empty_as_array 1 (one_each, tt)
      one_each-IsTypeDiff

abbrev answer : List (Arg tree_json 1)
answer = int_arg (pos 5) ∷ text_arg "hi" ∷ diff_arg (one_each, tt) ∷ []

fill_packet_lem_example :
    packet_laws.contents (fill_packet tree_json packets 1 answer (ntype (pos 2) ∷ []))
    ≡ packet_laws.contents (ntype (pos 2) ∷ []) ++ items_of tree_json packets packet_laws 1 answer
fill_packet_lem_example =
    fill_packet_lem tree_json packets packet_laws 1 answer (ntype (pos 2) ∷ []) (omega arith, tt)

to_ctos-ctos_number_example : to_ctos (ctos_number CtoS.sync_request) ≡ CtoS.sync_request
to_ctos-ctos_number_example = to_ctos-ctos_number CtoS.sync_request tt

to_stoc-stoc_number_example :
    to_stoc (stoc_number StoC.sync_request_unneeded) ≡ StoC.sync_request_unneeded
to_stoc-stoc_number_example = to_stoc-stoc_number StoC.sync_request_unneeded tt
