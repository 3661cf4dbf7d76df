-- ===== src/Network.antt =====
-- A server, its clients and the datagrams of the server that are under way. A datagram may be lost,
-- repeated and overtaken, and whatever datagram may reach the server, from whoever.
pub mod Answers
pub mod Sending
pub mod Clients
pub mod Owners
pub mod Addressed
use auto_sync_gen.Prelude.{ℕ, ◌≡◌, List, [], ◌∷◌, ◌++◌, some, get_elem?, set, true, length}
use auto_sync_gen.Result.{ok}
use auto_sync_gen.Ssvu.{Ssvu}
use auto_sync_gen.Json.{Json}
use auto_sync_gen.SyncManager.{SyncType}
use auto_sync_gen.Connection.{ClientHandlerManager, run_timeout_round, Uninitialised}
use auto_sync_gen.Packet.{PacketLib, Arg}
use auto_sync_gen.Session.{Unset, Datagram, arrived_from}
use auto_sync_gen.Server
use auto_sync_gen.Server.{Server}
use auto_sync_gen.Client
use auto_sync_gen.Client.{
  Client, new_client, send_connection_request, send_ping, send_sync_request, send_data_to_server,
}

module _ (J : Json) (P : PacketLib J.Val) (IpAddress : Type 0) (ts : List (SyncType J)) where
  -- A client, with the address that its datagrams come from.
  pub record Peer : Type 0 where
    pub ip : IpAddress
    pub port : ℕ
    pub client : Client J P IpAddress ts

  -- What a client sends on its own account: its connection request, and what its sending thread and
  -- the program send.
  pub data Sends (c : Client J P IpAddress ts)
      (r : Client J P IpAddress ts × List (Datagram J P IpAddress)) : Type 0 where
    request : send_connection_request J P IpAddress ts c ≡ ok r → Sends c r
    ping : send_ping J P IpAddress ts c ≡ ok r → Sends c r
    sync_request : send_sync_request J P IpAddress ts c ≡ ok r → Sends c r
    user_data :
        (args : List (Arg J (length ts)))
        → send_data_to_server J P IpAddress ts args c ≡ ok r
        → Sends c r

  module _ (V : Ssvu) (App : Type 0) where
    pub record Net : Type 0 where
      pub server : Server J P IpAddress ts V App
      pub peers : List Peer
      pub sent : List (Datagram J P IpAddress)

    module _ (on_server_data : Server.OnData J P IpAddress ts V App)
        (on_client_data : Client.OnData J P IpAddress ts) where
      pub data Step : Net → Net → Type 0 where
        -- A datagram reaches the server, and its answers are under way.
        at_server :
            (w : Net) (u : Unset) (raw : Uninitialised IpAddress) (d : Datagram J P IpAddress)
            (s : Server J P IpAddress ts V App) (out : List (Datagram J P IpAddress))
            → Server.receive J P IpAddress ts V App on_server_data u raw (some d) w.server
              ≡ ok (s, out)
            → Step w (record w { server = s; sent = out ++ w.sent })
        -- One of the server's datagrams reaches the client that it is addressed to, with whatever
        -- address of its sender.
        at_client :
            (w : Net) (u : Unset) (j i : ℕ) (d : Datagram J P IpAddress) (p : Peer)
            (c : Client J P IpAddress ts) (out : List (Datagram J P IpAddress)) (ip : IpAddress)
            (port : ℕ)
            → get_elem? w.sent j ≡ some d
            → get_elem? w.peers i ≡ some p
            → d.ip ≡ p.ip
            → d.port ≡ p.port
            → Client.receive J P IpAddress ts on_client_data u
                (some (arrived_from J P IpAddress ip port d))
                p.client
              ≡ ok (c, out)
            → Step w (record w { peers = set w.peers i (record p { client = c }) })
        -- A client sends. What arrives of it, if anything, is a step of the server.
        sends :
            (w : Net) (i : ℕ) (p : Peer) (c : Client J P IpAddress ts)
            (out : List (Datagram J P IpAddress))
            → get_elem? w.peers i ≡ some p
            → Sends p.client (c, out)
            → Step w (record w { peers = set w.peers i (record p { client = c }) })
        -- A round of the server's timeout thread.
        timeout_round :
            (w : Net) (m : ClientHandlerManager IpAddress)
            → run_timeout_round IpAddress w.server.c_manager ≡ ok m
            → Step w (record w { server = record w.server { c_manager = m } })
        -- A client starts.
        starts :
            (w : Net) (ip server_ip : IpAddress) (port server_port : ℕ)
            (c : Client J P IpAddress ts)
            → new_client J P IpAddress ts ip port true server_ip server_port ≡ ok c
            → Step w (record w { peers = record { ip = ip; port = port; client = c } ∷ w.peers })

      pub data Reaches (w : Net) : Net → Type 0 where
        here : Reaches w w
        next : {x y : Net} → Reaches w x → Step x y → Reaches w y
