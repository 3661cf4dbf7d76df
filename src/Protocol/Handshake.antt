-- ===== src/Protocol/Handshake.antt =====
-- A client asks for a connection and is accepted.
use auto_sync_gen.Prelude.{ℕ, suc, ◌<◌, pos, ◌≡◌, refl, ap, ◌∙◌, List, [], ◌∷◌, some, get_elem?}
use auto_sync_gen.Result.{ok}
use auto_sync_gen.Ssvu.{Ssvu, SsvuLaws}
use auto_sync_gen.Json.{Json}
use auto_sync_gen.SyncManager.{SyncType}
use auto_sync_gen.Connection.{ClientHandler, Uninitialised, null_cid}
use auto_sync_gen.Connection.Reach.{Served}
use auto_sync_gen.Packet.{PacketLib, PacketLaws}
use auto_sync_gen.Session.{Unset, Datagram, arrived_from}
use auto_sync_gen.Server
use auto_sync_gen.Server.{Server}
use auto_sync_gen.Server.Requests.{receive_connection_request}
use auto_sync_gen.Client
use auto_sync_gen.Client.{Client, send_connection_request}
use auto_sync_gen.Client.Answers.{send_connection_request_lem, receive_connection_accept}

module _ (J : Json) (P : PacketLib J.Val) (W : PacketLaws J.Val P) (IpAddress : Type 0)
    (ts : List (SyncType J)) (V : Ssvu) (VL : SsvuLaws V) (App : Type 0)
    (on_server_data : Server.OnData J P IpAddress ts V App)
    (on_client_data : Client.OnData J P IpAddress ts) (us uc : Unset) where
  -- If a client without an identifier asks a server that serves `n` clients, `n` below the largest
  -- `int`, and both packets arrive, then the client gets the identifier `n`, under which the server
  -- serves it at the address that it asked from; both keep their objects, and what the server's
  -- program has captured stays as it is.
  pub handshake_lem :
      (n : ℕ) (s : Server J P IpAddress ts V App) (c : Client J P IpAddress ts)
      (raw : Uninitialised IpAddress) (ip server_ip : IpAddress) (port server_port : ℕ)
      → Served IpAddress n s.c_manager
      → n < 2147483647
      → c.cid ≡ null_cid
      → (c1 c2 : Client J P IpAddress ts) × (s1 : Server J P IpAddress ts V App) × (d1 d2 : Datagram
          J P IpAddress)
        × (send_connection_request J P IpAddress ts c ≡ ok (c1, d1 ∷ []))
        × (Server.receive J P IpAddress ts V App on_server_data us raw
              (some (arrived_from J P IpAddress ip port d1))
              s
            ≡ ok (s1, d2 ∷ []))
        × (Client.receive J P IpAddress ts on_client_data uc
              (some (arrived_from J P IpAddress server_ip server_port d2))
              c1
            ≡ ok (c2, []))
        × (d1.ip ≡ c.server_ip)
        × (d1.port ≡ c.server_port)
        × (d2.ip ≡ ip)
        × (d2.port ≡ port)
        × (c2.cid ≡ pos n)
        × Served IpAddress (suc n) s1.c_manager
        × ((h : ClientHandler IpAddress) × (get_elem? s1.c_manager.client_handlers n ≡ some h)
            × (h.ip ≡ ip)
            × (h.port ≡ port))
        × (s1.host.sync_manager ≡ s.host.sync_manager)
        × (c2.host.sync_manager ≡ c.host.sync_manager)
        × (s1.app ≡ s.app)
  handshake_lem n s c raw ip server_ip port server_port served lt free =
      let ((c1, out), asked, (p, one, held, m, id, sip, sport)) =
        send_connection_request_lem J P W IpAddress ts c free in
      let d1 : Datagram J P IpAddress = record {
        ip = c.server_ip;
        port = c.server_port;
        packet = p;
      } in
      let (s1, q, answered, greeting, served', h, sm, app) =
        receive_connection_request J P W IpAddress ts V App on_server_data us raw
          (arrived_from J P IpAddress ip port d1) s n served VL lt held in
      let d2 : Datagram J P IpAddress = record { ip = ip; port = port; packet = q } in
      let accepted =
        receive_connection_accept J P W IpAddress ts c1 on_client_data uc
          (arrived_from J P IpAddress server_ip server_port d2) (pos n) _ greeting in
      (
        c1,
        record c1 { cid = pos n },
        s1,
        d1,
        d2,
        asked ∙ ap (λ o. ok (c1, o)) one,
        answered,
        accepted,
        refl,
        refl,
        refl,
        refl,
        refl,
        served',
        h,
        sm,
        m,
        app,
      )
