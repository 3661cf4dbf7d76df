-- ===== src/Client.antt =====
-- Network/SessionClient.hpp: the client's end of a session, and the thread that sends its requests.
pub mod Answers
pub mod Rounds
use auto_sync_gen.Prelude.{
  ℕ, zero, suc, ℤ, Bool, true, not, List, [], ◌∷◌, ◌++◌, length, Option, if◌then◌else◌, eqb_ℤ, ◌==◌,
}
use auto_sync_gen.Result.{Result, ok, assert, halfway, ◌>>=◌, ◌>>◌}
use auto_sync_gen.Json.{Json}
use auto_sync_gen.SyncManager.{SyncType, get_snapshot, apply_diff}
use auto_sync_gen.Connection.{null_cid}
use auto_sync_gen.Packet.{
  CtoS, StoC, ctos_number, to_stoc, PacketLib, Arg, int_arg, snapshot_arg, pop_diff,
}
use auto_sync_gen.Session.{
  Unset, Datagram, receive_round, Host, new_host, set_busy, mk_packet, send_to,
}

module _ (J : Json) (P : PacketLib J.Val) (IpAddress : Type 0) (ts : List (SyncType J)) where
  pub record Client : Type 0 where
    pub host : Host J P IpAddress ts
    pub server_ip : IpAddress
    pub server_port : ℕ
    pub cid : ℤ

  abbrev pub Outcome : Type 0
  Outcome = Result (Client × List (Datagram J P IpAddress))

  unfoldable pub new_client : IpAddress → ℕ → Bool → IpAddress → ℕ → Result Client
  new_client local port bound server_ip server_port = do
    h ← new_host J P IpAddress ts "Client" local port bound
    ok (record {
      host = set_busy J P IpAddress ts true h;
      server_ip = server_ip;
      server_port = server_port;
      cid = null_cid;
    })

  -- `mkPacket` and `sendTo`.
  unfoldable pub send :
      CtoS → List (Arg J (length ts)) → Client → Client × List (Datagram J P IpAddress)
  send type args c =
      let h = mk_packet J P IpAddress ts (ctos_number type) args c.host in
      (record c { host = h }, send_to J P IpAddress ts c.server_ip c.server_port h ∷ [])

  unfoldable pub send_to_server_no_cid : CtoS → List (Arg J (length ts)) → Client → Outcome
  send_to_server_no_cid type args c = do assert (eqb_ℤ c.cid null_cid); ok (send type args c)

  unfoldable pub send_to_server : CtoS → List (Arg J (length ts)) → Client → Outcome
  send_to_server type args c = do
    assert (not (eqb_ℤ c.cid null_cid))
    ok (send type (int_arg c.cid ∷ args) c)

  unfoldable pub send_connection_request : Client → Outcome
  send_connection_request = send_to_server_no_cid CtoS.connection_request []

  unfoldable pub send_ping : Client → Outcome
  send_ping = send_to_server CtoS.ping []

  unfoldable pub send_sync_request : Client → Outcome
  send_sync_request c = do
    s ← get_snapshot J ts c.host.sync_manager
    send_to_server CtoS.sync_request (snapshot_arg s ∷ []) c

  unfoldable pub send_data_to_server : List (Arg J (length ts)) → Client → Outcome
  send_data_to_server = send_to_server CtoS.user_data

  unfoldable pub handle_connection_accept : Unset → P.Packet → Client → Outcome
  handle_connection_accept u p c =
      let (id, q) = P.get_int u.int p in
      let (msg, r) = P.get_text "" q in ok (record c { cid = id }, [])

  abbrev pub handle_connection_decline : Client → Outcome
  handle_connection_decline c = ok (c, [])

  unfoldable pub handle_sync_request_satisfy : P.Packet → Client → Outcome
  handle_sync_request_satisfy p c = do
    (diff, q) ← pop_diff J P (length ts) p
    m ← halfway (apply_diff J ts diff c.host.sync_manager)
    ok (record c { host = record c.host { sync_manager = m } }, [])

  abbrev pub handle_sync_request_unneeded : Client → Outcome
  handle_sync_request_unneeded c = ok (c, [])

  abbrev pub handle_sync_request_decline : Client → Outcome
  handle_sync_request_decline c = ok (c, [])

  -- The functions in `onDataReceived`.
  abbrev pub OnData : Type 0
  OnData = P.Packet → Client → Outcome

  unfoldable pub handle_type : OnData → Unset → StoC → P.Packet → Client → Outcome
  handle_type on_data u StoC.connection_accept p c = handle_connection_accept u p c
  handle_type on_data u StoC.connection_decline p c = handle_connection_decline c
  handle_type on_data u StoC.sync_request_satisfy p c = handle_sync_request_satisfy p c
  handle_type on_data u StoC.sync_request_unneeded p c = handle_sync_request_unneeded c
  handle_type on_data u StoC.sync_request_decline p c = handle_sync_request_decline c
  handle_type on_data u StoC.user_data p c = halfway (on_data p c)
  handle_type on_data u (StoC.unnamed i) p c = ok (c, [])

  -- `handle(toEnum<RPT>(type))`, whoever the sender is.
  unfoldable pub handle : OnData → Unset → IpAddress → ℕ → ℤ → P.Packet → Client → Outcome
  handle on_data u ip port number = handle_type on_data u (to_stoc number)

  -- A round of the receiving thread of the client.
  unfoldable pub receive : OnData → Unset → Option (Datagram J P IpAddress) → Client → Outcome
  receive on_data u = receive_round J P IpAddress u (handle on_data u)

  -- A round of the inner loop of the sending thread; `i` counts the pings since the last request.
  unfoldable pub sender_round : ℕ → Client → Result (ℕ × Client × List (Datagram J P IpAddress))
  sender_round i c = do
    (c1, out) ← send_ping c
    if suc i == 4
        then (do (c2, more) ← send_sync_request c1; ok (0, c2, out ++ more))
        else ok (suc i, c1, out)

  -- The first `k` rounds of the inner loop, while nothing is received.
  unfoldable pub sender_rounds :
      ℕ → ℕ → Client → Result (ℕ × Client × List (Datagram J P IpAddress))
  sender_rounds zero i c = ok (i, c, [])
  sender_rounds (suc k) i c = do
    (j, c1, out) ← sender_round i c
    (l, c2, more) ← sender_rounds k j c1
    ok (l, c2, out ++ more)

  -- The sending thread up to a round of its inner loop, which does not end; `second` is what is
  -- received in the second that it sleeps after its request.
  unfoldable pub sending_thread : (Client → Client) → ℕ → Client → Outcome
  sending_thread second k c = do
    (c1, out) ← send_connection_request c
    (i, c2, more) ← sender_rounds k 0 (second c1)
    ok (c2, out ++ more)
