-- ===== src/Server.antt =====
-- Network/SessionServer.hpp: the server's end of the sessions.
pub mod Requests
pub mod Objects
use auto_sync_gen.Prelude.{ℕ, ℤ, Bool, true, List, [], ◌∷◌, length, Option, if◌then◌else◌}
use auto_sync_gen.Result.{Result, ok, err, runtime_error, halfway, ◌>>=◌}
use auto_sync_gen.Ssvu.{Ssvu}
use auto_sync_gen.Json.{Json}
use auto_sync_gen.Snapshot.{Snapshot}
use auto_sync_gen.Difference.{get_diff_with}
use auto_sync_gen.SyncManager
use auto_sync_gen.SyncManager.{SyncType}
use auto_sync_gen.Connection.{
  ClientHandlerManager, initial_manager, Uninitialised, handler_at, accept_client, has, at_cid,
  ping_received,
}
use auto_sync_gen.Packet.{
  CtoS, StoC, stoc_number, to_ctos, PacketLib, Arg, int_arg, text_arg, diff_arg, pop_snapshot,
}
use auto_sync_gen.Session.{
  Unset, Datagram, receive_round, Host, new_host, set_busy, mk_packet, send_to,
}

module _ (J : Json) (P : PacketLib J.Val) (IpAddress : Type 0) (ts : List (SyncType J)) (V : Ssvu)
    (App : Type 0) where
  -- `app` is what the functions in `onDataReceived` have captured by reference.
  pub record Server : Type 0 where
    pub host : Host J P IpAddress ts
    pub c_manager : ClientHandlerManager IpAddress
    pub app : App

  abbrev pub Outcome : Type 0
  Outcome = Result (Server × List (Datagram J P IpAddress))

  unfoldable pub new_server : IpAddress → ℕ → Bool → App → Result Server
  new_server local port bound app = do
    h ← new_host J P IpAddress ts "Server" local port bound
    ok (record {
      host = set_busy J P IpAddress ts true h;
      c_manager = initial_manager IpAddress;
      app = app;
    })

  unfoldable pub send_to_client : StoC → ℤ → List (Arg J (length ts)) → Server → Outcome
  send_to_client type cid args s =
      if has IpAddress cid s.c_manager
      then (do
        let h = mk_packet J P IpAddress ts (stoc_number type) args s.host
        ch ← at_cid IpAddress cid s.c_manager
        c ← handler_at IpAddress ch s.c_manager.client_handlers
        ok (record s { host = h }, send_to J P IpAddress ts c.ip c.port h ∷ []))
      else ok (s, [])

  unfoldable pub send_connection_accept : ℤ → Server → Outcome
  send_connection_accept cid =
      send_to_client StoC.connection_accept cid
        (int_arg cid ∷ text_arg "Welcome to the server." ∷ [])

  unfoldable pub send_data_to_client : ℤ → List (Arg J (length ts)) → Server → Outcome
  send_data_to_client = send_to_client StoC.user_data

  -- With the address of the sender.
  unfoldable pub handle_connection_request :
      Uninitialised IpAddress → IpAddress → ℕ → Server → Outcome
  handle_connection_request raw ip port s = do
    (m, ch) ← accept_client IpAddress V raw ip port s.c_manager
    c ← handler_at IpAddress ch m.client_handlers
    send_connection_accept c.cid (record s { c_manager = m })

  unfoldable pub handle_ping : ℤ → Server → Outcome
  handle_ping cid s = do
    m ← ping_received IpAddress cid s.c_manager
    ok (record s { c_manager = m }, [])

  unfoldable pub handle_sync_request : ℤ → P.Packet → Server → Outcome
  handle_sync_request cid p s = do
    (client_snapshot, rest) ← pop_snapshot J P (length ts) p
    server_snapshot ← SyncManager.get_snapshot J ts s.host.sync_manager
    (mine, result) ← get_diff_with J (length ts) server_snapshot client_snapshot
    send_to_client StoC.sync_request_satisfy cid (diff_arg result ∷ []) s

  -- The functions in `onDataReceived`.
  abbrev pub OnData : Type 0
  OnData = ℤ → P.Packet → Server → Outcome

  -- The `switch` of `handle`.
  unfoldable pub handle_connected : OnData → CtoS → ℤ → P.Packet → Server → Outcome
  handle_connected on_data CtoS.connection_request cid p s = err runtime_error
  handle_connected on_data CtoS.ping cid p s = handle_ping cid s
  handle_connected on_data CtoS.sync_request cid p s = handle_sync_request cid p s
  handle_connected on_data CtoS.user_data cid p s = halfway (on_data cid p s)
  handle_connected on_data CtoS.sync_satisfied cid p s = ok (s, [])
  handle_connected on_data (CtoS.unnamed i) cid p s = ok (s, [])

  -- What `handle` does with a packet that is no connection request.
  unfoldable pub handle_from_client : OnData → Unset → CtoS → P.Packet → Server → Outcome
  handle_from_client on_data u type p s =
      let (cid, q) = P.get_int u.int p in
      if has IpAddress cid s.c_manager then handle_connected on_data type cid q s else ok (s, [])

  unfoldable pub handle_type :
      OnData → Unset → Uninitialised IpAddress → IpAddress → ℕ → CtoS → P.Packet → Server → Outcome
  handle_type on_data u raw ip port CtoS.connection_request p s =
      handle_connection_request raw ip port s
  handle_type on_data u raw ip port type p s = handle_from_client on_data u type p s

  -- `handle(toEnum<RPT>(type))`.
  unfoldable pub handle :
      OnData → Unset → Uninitialised IpAddress → IpAddress → ℕ → ℤ → P.Packet → Server → Outcome
  handle on_data u raw ip port number = handle_type on_data u raw ip port (to_ctos number)

  -- A round of the receiving thread of the server.
  unfoldable pub receive :
      OnData → Unset → Uninitialised IpAddress → Option (Datagram J P IpAddress) → Server → Outcome
  receive on_data u raw = receive_round J P IpAddress u (handle on_data u raw)
