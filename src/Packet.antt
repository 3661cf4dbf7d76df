-- ===== src/Packet.antt =====
-- Network/PacketTypes.hpp and Network/PacketHandler.hpp: the kinds of packets, and what a packet is
-- filled with. `sf::Packet` is SFML's: its operations are fields, and what the program relies on is
-- `PacketLaws`.
pub mod Contents
use Prim.Native.String.{String}
use auto_sync_gen.Prelude.{ℕ, zero, suc, ◌<◌, ◌≤◌, ℤ, pos, negsuc, ◌≡◌, List, [], ◌∷◌, ◌++◌}
use auto_sync_gen.Result.{Result, ok, ◌>>=◌}
use auto_sync_gen.Json.{Json}
use auto_sync_gen.Snapshot.{
  Snapshot, Diff, snapshot_to_json, snapshot_from_json, diff_to_json, diff_from_json,
}

-- `enum class CtoS : NType`. Every number of the type is a value of it, named or not.
pub data CtoS : Type 0 where
  connection_request ping sync_request sync_satisfied user_data : CtoS
  unnamed : ℤ → CtoS

pub data StoC : Type 0 where
  connection_accept connection_decline : StoC
  sync_request_satisfy sync_request_unneeded sync_request_decline user_data : StoC
  unnamed : ℤ → StoC

-- The number that the source gives to each kind: the conversion of the language from an enumeration to
-- its underlying type, which `ssvu::castEnum` stands for.
unfoldable pub ctos_number : CtoS → ℤ
ctos_number CtoS.connection_request = pos 0
ctos_number CtoS.ping = pos 1
ctos_number CtoS.sync_request = pos 2
ctos_number CtoS.sync_satisfied = pos 3
ctos_number CtoS.user_data = pos 4
ctos_number (CtoS.unnamed i) = i

unfoldable pub stoc_number : StoC → ℤ
stoc_number StoC.connection_accept = pos 0
stoc_number StoC.connection_decline = pos 1
stoc_number StoC.sync_request_satisfy = pos 2
stoc_number StoC.sync_request_unneeded = pos 3
stoc_number StoC.sync_request_decline = pos 4
stoc_number StoC.user_data = pos 5
stoc_number (StoC.unnamed i) = i

-- The kind of a number: the conversion back, which `ssvu::toEnum` stands for.
unfoldable pub to_ctos : ℤ → CtoS
to_ctos (pos zero) = CtoS.connection_request
to_ctos (pos (suc zero)) = CtoS.ping
to_ctos (pos (suc (suc zero))) = CtoS.sync_request
to_ctos (pos (suc (suc (suc zero)))) = CtoS.sync_satisfied
to_ctos (pos (suc (suc (suc (suc zero))))) = CtoS.user_data
to_ctos i = CtoS.unnamed i

unfoldable pub to_stoc : ℤ → StoC
to_stoc (pos zero) = StoC.connection_accept
to_stoc (pos (suc zero)) = StoC.connection_decline
to_stoc (pos (suc (suc zero))) = StoC.sync_request_satisfy
to_stoc (pos (suc (suc (suc zero)))) = StoC.sync_request_unneeded
to_stoc (pos (suc (suc (suc (suc zero))))) = StoC.sync_request_decline
to_stoc (pos (suc (suc (suc (suc (suc zero)))))) = StoC.user_data
to_stoc i = StoC.unnamed i

-- A `signed char`, and an `int`.
abbrev pub IsNType : ℤ → Type 0
IsNType (pos n) = n < 128
IsNType (negsuc n) = n < 128

abbrev pub IsInt : ℤ → Type 0
IsInt (pos n) = n < 2147483648
IsInt (negsuc n) = n < 2147483648

-- A packet is written at its end and read at its front. A read takes what the variable held before:
-- where the packet has nothing to read the variable is left alone.
pub record PacketLib (Val : Type 0) : Type 1 where
  pub Packet : Type 0
  pub empty_packet : Packet
  pub clear : Packet → Packet
  pub put_ntype : ℤ → Packet → Packet
  -- An `int`, or an enumerator of an enumeration over `int`.
  pub put_int : ℤ → Packet → Packet
  pub put_text : String → Packet → Packet
  pub put_json : Val → Packet → Packet
  pub get_ntype : ℤ → Packet → ℤ × Packet
  pub get_int : ℤ → Packet → ℤ × Packet
  pub get_text : String → Packet → String × Packet
  pub get_json : Val → Packet → Val × Packet

-- What stands in a packet, the next to be read first.
pub data Item (Val : Type 0) : Type 0 where
  ntype int : ℤ → Item Val
  text : String → Item Val
  json : Val → Item Val

pub record PacketLaws (Val : Type 0) (P : PacketLib Val) : Type 0 where
  pub contents : P.Packet → List (Item Val)
  pub contents_clear : (p : P.Packet) → contents (P.clear p) ≡ []
  pub contents-put_ntype :
      (i : ℤ) (p : P.Packet) → IsNType i → contents (P.put_ntype i p) ≡ contents p ++ ntype i ∷ []
  pub contents-put_int :
      (i : ℤ) (p : P.Packet) → IsInt i → contents (P.put_int i p) ≡ contents p ++ int i ∷ []
  pub contents-put_text :
      (s : String) (p : P.Packet) → contents (P.put_text s p) ≡ contents p ++ text s ∷ []
  pub contents-put_json :
      (v : Val) (p : P.Packet) → contents (P.put_json v p) ≡ contents p ++ json v ∷ []
  pub get_ntype_lem :
      (old i : ℤ) (p : P.Packet) (rest : List (Item Val))
      → contents p ≡ ntype i ∷ rest
      → (q : P.Packet) × (P.get_ntype old p ≡ (i, q)) × (contents q ≡ rest)
  pub get_int_lem :
      (old i : ℤ) (p : P.Packet) (rest : List (Item Val))
      → contents p ≡ int i ∷ rest
      → (q : P.Packet) × (P.get_int old p ≡ (i, q)) × (contents q ≡ rest)
  pub get_text_lem :
      (old s : String) (p : P.Packet) (rest : List (Item Val))
      → contents p ≡ text s ∷ rest
      → (q : P.Packet) × (P.get_text old p ≡ (s, q)) × (contents q ≡ rest)
  pub get_json_lem :
      (old v : Val) (p : P.Packet) (rest : List (Item Val))
      → contents p ≡ json v ∷ rest
      → (q : P.Packet) × (P.get_json old p ≡ (v, q)) × (contents q ≡ rest)

-- What the functions of the program put into packets: `n` is the number of types of the manager.
pub data Arg (J : Json) (n : ℕ) : Type 0 where
  int_arg : ℤ → Arg J n
  text_arg : String → Arg J n
  snapshot_arg : Snapshot J n → Arg J n
  diff_arg : Diff J n → Arg J n

module _ (J : Json) (P : PacketLib J.Val) (n : ℕ) where
  -- `operator<<` and `operator>>` on snapshots and differences.
  unfoldable pub put_snapshot : Snapshot J n → P.Packet → P.Packet
  put_snapshot s p = P.put_json (snapshot_to_json J n s) p

  unfoldable pub pop_snapshot : P.Packet → Result (Snapshot J n × P.Packet)
  pop_snapshot p = let (v, q) = P.get_json J.null p in do s ← snapshot_from_json J n v; ok (s, q)

  unfoldable pub put_diff : Diff J n → P.Packet → P.Packet
  put_diff d p = P.put_json (diff_to_json J n d) p

  unfoldable pub pop_diff : P.Packet → Result (Diff J n × P.Packet)
  pop_diff p = let (v, q) = P.get_json J.null p in do d ← diff_from_json J n v; ok (d, q)

  unfoldable pub put_arg : Arg J n → P.Packet → P.Packet
  unfolding put_snapshot put_diff
  put_arg (int_arg i) p = P.put_int i p
  put_arg (text_arg s) p = P.put_text s p
  put_arg (snapshot_arg s) p = put_snapshot s p
  put_arg (diff_arg d) p = put_diff d p

  -- `fillPacket`.
  unfoldable pub fill_packet : List (Arg J n) → P.Packet → P.Packet
  fill_packet [] p = p
  fill_packet (a ∷ args) p = fill_packet args (put_arg a p)
