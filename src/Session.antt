-- ===== src/Session.antt =====
-- Network/SessionHost.hpp: what the two ends of a session share. The socket is SFML's: a packet that
-- is sent is a datagram, and one that is received comes with the address of its sender. Both buffers
-- are cleared before each use; the one for receiving is passed along as the packet received.
pub mod Packets
use Prim.Native.String.{String}
use auto_sync_gen.Prelude.{
  ℕ, ℤ, Bool, true, false, List, [], ◌∷◌, length, Option, none, some, if◌then◌else◌,
}
use auto_sync_gen.Result.{Result, ok, err, is_exception, runtime_error, ◌>>◌}
use auto_sync_gen.Json.{Json}
use auto_sync_gen.SyncManager.{SyncType, SyncManager, initial_sync_manager}
use auto_sync_gen.Packet.{PacketLib, Arg, fill_packet}

-- What the uninitialised variables of the functions hold: `NType type`, and `T temp` of `popRecv<CID>`.
pub record Unset : Type 0 where
  pub ntype : ℤ
  pub int : ℤ

module _ (J : Json) (P : PacketLib J.Val) (IpAddress : Type 0) where
  -- A packet with the address that it goes to, or comes from.
  pub record Datagram : Type 0 where
    pub ip : IpAddress
    pub port : ℕ
    pub packet : P.Packet

  -- A datagram at the other end: the address is that of its sender.
  abbrev pub arrived_from : IpAddress → ℕ → Datagram → Datagram
  arrived_from ip port d = record { ip = ip; port = port; packet = d.packet }

  -- The `catch` clauses of `tryForwardReceivedPacket`: what an exception leaves is the session.
  unfoldable pub recover :
      {S : Type 0} → S → Result (S × List Datagram) → Result (S × List Datagram)
  recover s (ok r) = ok r
  recover s (err e) = if is_exception e then ok (s, []) else err e

  -- `tryForwardReceivedPacket`, with the `handle` of the derived class.
  unfoldable pub try_forward :
      {S : Type 0}
      → Unset
      → (ℤ → P.Packet → S → Result (S × List Datagram))
      → P.Packet
      → S
      → Result (S × List Datagram)
  try_forward u handle p s = let (type, q) = P.get_ntype u.ntype p in recover s (handle type q s)

  -- A round of the loop of `receiveThread`, where `none` is a failed `receive`.
  unfoldable pub receive_round :
      {S : Type 0}
      → Unset
      → (IpAddress → ℕ → ℤ → P.Packet → S → Result (S × List Datagram))
      → Option Datagram
      → S
      → Result (S × List Datagram)
  receive_round u handle none s = ok (s, [])
  receive_round u handle (some d) s = try_forward u (handle d.ip d.port) d.packet s

  module _ (ts : List (SyncType J)) where
    pub record Host : Type 0 where
      pub name : String
      pub ip : IpAddress
      pub port : ℕ
      pub busy : Bool
      pub send_buffer : P.Packet
      pub sync_manager : SyncManager J ts

    -- Whether the socket gets the port is the system's.
    abbrev pub try_bind_socket : Bool → Result (Unit {0})
    try_bind_socket true = ok tt
    try_bind_socket false = err runtime_error

    -- The constructor, with the local address.
    unfoldable pub new_host : String → IpAddress → ℕ → Bool → Result Host
    new_host name local port bound = do
      try_bind_socket bound
      ok (record {
        name = name;
        ip = local;
        port = port;
        busy = false;
        send_buffer = P.empty_packet;
        sync_manager = initial_sync_manager J ts;
      })

    abbrev pub set_busy : Bool → Host → Host
    set_busy b h = record h { busy = b }

    -- `mkPacket`: the number of the kind, and the arguments.
    unfoldable pub mk_packet : ℤ → List (Arg J (length ts)) → Host → Host
    mk_packet type args h = record h {
      send_buffer = fill_packet J P (length ts) args (P.put_ntype type (P.clear h.send_buffer));
    }

    -- `sendTo`. Whether the datagram arrives is the network's.
    abbrev pub send_to : IpAddress → ℕ → Host → Datagram
    send_to ip port h = record { ip = ip; port = port; packet = h.send_buffer }
