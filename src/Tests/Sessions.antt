-- ===== src/Tests/Sessions.antt =====
-- The theorems on the two ends of a session at a server with one client.
use Prim.Native.String.{String}
use auto_sync_gen.Prelude.{
  ℕ, ◌+◌, ◌/◌, ◌%◌, ℤ, pos, ◌≡◌, ◌≢◌, refl, List, [], ◌∷◌, length, some, get_elem?, arith, true,
  false,
}
use auto_sync_gen.Result.{ok, err, assertion}
use auto_sync_gen.Connection.{
  ClientHandler, ClientHandlerManager, Uninitialised, null_cid, has, initial_manager,
  max_seconds_until_timeout,
}
use auto_sync_gen.Connection.Reach.{Served, initial_manager-Served, accept_client_lem}
use auto_sync_gen.IdMap
use auto_sync_gen.SyncManager.{SyncManager, get_snapshot}
use auto_sync_gen.Packet.{CtoS, to_ctos, ntype, int}
use auto_sync_gen.Snapshot.{Snapshot}
use auto_sync_gen.Session.{Unset, Datagram, Host, arrived_from}
use auto_sync_gen.Server
use auto_sync_gen.Server.{Server}
use auto_sync_gen.Server.Requests.{Keeps, receive_unconnected, receive_ping}
use auto_sync_gen.Client
use auto_sync_gen.Client.{
  Client, send_connection_request, send_sync_request, sending_thread, sender_rounds,
}
use auto_sync_gen.Client.Answers.{send_connection_request_again}
use auto_sync_gen.Client.Rounds.{sending_thread_unanswered, sender_rounds_lem, IsReady}
use auto_sync_gen.Protocol.Handshake.{handshake_lem}
use auto_sync_gen.Protocol.Round.{round-AllAgree}
use auto_sync_gen.SyncManager.AllTypes.{AllValid, AllAgree}
use auto_sync_gen.SyncManager.Sent.{get_snapshot_sent}
use auto_sync_gen.Tests.JsonModel.{tree_json}
use auto_sync_gen.Tests.JsonLaws.{tree_laws}
use auto_sync_gen.Tests.Setup.{ssvu, ssvu_laws}
use auto_sync_gen.Tests.Managers.{empty_state-Valid, made, untracked}
use auto_sync_gen.Tests.Exchanges.{types, laws, two_servers, two_clients}
use auto_sync_gen.Tests.Packets.{Packet, packets, packet_laws, empty_as_array}

abbrev Sent : Type 0
Sent = Datagram tree_json packets ℕ

abbrev AServer : Type 0
AServer = Server tree_json packets ℕ types ssvu ℕ

abbrev AClient : Type 0
AClient = Client tree_json packets ℕ types

abbrev pub unset : Unset
unset = record { ntype = pos 9; int = pos 77 }

abbrev pub raw : Uninitialised ℕ
raw = record { ip = 0; port = 0; seconds = pos 5 }

abbrev pub server_data : Server.OnData tree_json packets ℕ types ssvu ℕ
server_data = λ cid p s. ok (s, [])

abbrev pub client_data : Client.OnData tree_json packets ℕ types
client_data = λ p c. ok (c, [])

abbrev host_of : String → SyncManager tree_json types → Host tree_json packets ℕ types
host_of name m = record {
  name = name;
  ip = 1;
  port = 27015;
  busy = true;
  send_buffer = [];
  sync_manager = m;
}

abbrev new_server : AServer
new_server = record { host = host_of "Server" two_servers; c_manager = initial_manager ℕ; app = 0 }

abbrev client_with : ℤ → AClient
client_with cid = record {
  host = host_of "Client" two_clients;
  server_ip = 1;
  server_port = 27015;
  cid = cid;
}

abbrev at_server : Packet → Sent
at_server p = record { ip = 9; port = 27016; packet = p }

one_client : (m : ClientHandlerManager ℕ) × Served ℕ 1 m
one_client =
    let (m, run, s, b, o) =
      accept_client_lem ℕ ssvu ssvu_laws raw 9 27016 0 (initial_manager ℕ)
        (initial_manager-Served ℕ) (omega arith) in
    (m, s)

abbrev busy_server : AServer
busy_server = record new_server { c_manager = one_client.0 }

abbrev server_receives : Packet → AServer → Server.Outcome tree_json packets ℕ types ssvu ℕ
server_receives p s =
    Server.receive tree_json packets ℕ types ssvu ℕ server_data unset raw (some (at_server p)) s

handshake_lem_example :
    (c1 c2 : AClient) × (s1 : AServer) × (d1 d2 : Sent) × (send_connection_request tree_json packets
        ℕ types
        (client_with null_cid)
      ≡ ok (c1, d1 ∷ []))
    × (Server.receive tree_json packets ℕ types ssvu ℕ server_data unset raw
          (some (arrived_from tree_json packets ℕ 9 27016 d1))
          new_server
        ≡ ok (s1, d2 ∷ []))
    × (Client.receive tree_json packets ℕ types client_data unset
          (some (arrived_from tree_json packets ℕ 1 27015 d2))
          c1
        ≡ ok (c2, []))
    × (d1.ip ≡ 1)
    × (d1.port ≡ 27015)
    × (d2.ip ≡ 9)
    × (d2.port ≡ 27016)
    × (c2.cid ≡ pos 0)
    × Served ℕ 1 s1.c_manager
    × ((h : ClientHandler ℕ) × (get_elem? s1.c_manager.client_handlers 0 ≡ some h)
        × (h.ip ≡ 9)
        × (h.port ≡ 27016))
    × (s1.host.sync_manager ≡ two_servers)
    × (c2.host.sync_manager ≡ two_clients)
    × (s1.app ≡ new_server.app)
handshake_lem_example =
    handshake_lem tree_json packets packet_laws ℕ types ssvu ssvu_laws ℕ server_data client_data
      unset unset 0 new_server (client_with null_cid) raw 9 1 27016 27015 (initial_manager-Served ℕ)
      (omega arith) refl

round-AllAgree_example :
    (c1 c2 : AClient) × (s1 : AServer) × (d1 d2 : Sent) × (send_sync_request tree_json packets ℕ
        types
        (client_with (pos 0))
      ≡ ok (c1, d1 ∷ []))
    × (Server.receive tree_json packets ℕ types ssvu ℕ server_data unset raw
          (some (arrived_from tree_json packets ℕ 9 27016 d1))
          busy_server
        ≡ ok (s1, d2 ∷ []))
    × (Client.receive tree_json packets ℕ types client_data unset
          (some (arrived_from tree_json packets ℕ 1 27015 d2))
          c1
        ≡ ok (c2, []))
    × ((h : ClientHandler ℕ) × (get_elem? one_client.0.client_handlers 0 ≡ some h)
        × (d2.ip ≡ h.ip)
        × (d2.port ≡ h.port))
    × Keeps tree_json packets packet_laws ℕ types ssvu ℕ busy_server s1
    × (c2.cid ≡ pos 0)
    × AllValid tree_json types laws c2.host.sync_manager
    × AllAgree tree_json types s1.host.sync_manager c2.host.sync_manager
round-AllAgree_example =
    round-AllAgree tree_json tree_laws empty_as_array types laws packets packet_laws ℕ ssvu ℕ
      server_data client_data unset unset 1 0 busy_server (client_with (pos 0)) raw 9 1 27016 27015
      (omega arith, (omega arith, tt)) one_client.1 (omega arith) refl (made.1, (made.1, tt))
      (empty_state-Valid, (empty_state-Valid, tt)) (untracked, (untracked, tt))

not_request : to_ctos (pos 1) ≢ CtoS.connection_request
unfolding to_ctos
not_request e = cc

stranger : has ℕ (pos 4) (initial_manager ℕ) ≡ false
unfolding has IdMap.lookup
stranger = refl

receive_unconnected_example :
    server_receives (ntype (pos 1) ∷ int (pos 4) ∷ []) new_server ≡ ok (new_server, [])
receive_unconnected_example =
    receive_unconnected tree_json packets packet_laws ℕ types ssvu ℕ server_data unset raw
      (at_server (ntype (pos 1) ∷ int (pos 4) ∷ [])) new_server (pos 1) (pos 4) [] refl not_request
      stranger

receive_ping_example :
    (m : ClientHandlerManager ℕ) × (server_receives (ntype (pos 1) ∷ int (pos 0) ∷ []) busy_server
      ≡ ok (record busy_server { c_manager = m }, []))
    × Served ℕ 1 m
    × ((c : ClientHandler ℕ) × (get_elem? m.client_handlers 0 ≡ some c)
        × (c.seconds_until_timeout ≡ max_seconds_until_timeout))
receive_ping_example =
    receive_ping tree_json packets packet_laws ℕ types ssvu ℕ server_data unset raw
      (at_server (ntype (pos 1) ∷ int (pos 0) ∷ [])) busy_server 1 one_client.1 0 [] (omega arith)
      refl

sending_thread_unanswered_example :
    (c1 : AClient) × (d : Sent) × (send_connection_request tree_json packets ℕ types
        (client_with null_cid)
      ≡ ok (c1, d ∷ []))
    × (sending_thread tree_json packets ℕ types (λ c. c) 1 (client_with null_cid) ≡ err assertion)
sending_thread_unanswered_example =
    sending_thread_unanswered tree_json packets packet_laws ℕ types (λ c. c) 0
      (client_with null_cid) refl (λ c free. free)

connected : pos 0 ≢ null_cid
connected e = cc

send_connection_request_again_example :
    send_connection_request tree_json packets ℕ types (client_with (pos 0)) ≡ err assertion
send_connection_request_again_example =
    send_connection_request_again tree_json packets packet_laws ℕ types (client_with (pos 0))
      connected

taken : (s : Snapshot tree_json 2) × (get_snapshot tree_json types two_clients ≡ ok s)
taken =
    let (s, run, back) =
      get_snapshot_sent tree_json tree_laws types laws two_clients
        (empty_state-Valid, (empty_state-Valid, tt)) in
    (s, run)

sender_rounds_lem_example :
    (c' : AClient) × (out : List Sent) × (sender_rounds tree_json packets ℕ types 6 0
        (client_with (pos 0))
      ≡ ok (6 % 4, c', out))
    × (length out ≡ 6 + 6 / 4)
    × IsReady tree_json packets packet_laws ℕ types taken.0 (pos 0) c'
sender_rounds_lem_example =
    sender_rounds_lem tree_json packets packet_laws ℕ types taken.0 (pos 0) 6 (client_with (pos 0))
      (record { same = refl; connected = connected; in_range = omega arith; taken = taken.1 })
