-- ===== src/Client/Answers.antt =====
-- What the client sends before and after it is accepted, and what it does with the answers.
use auto_sync_gen.Prelude.{
  ℤ, pos, ◌≡◌, ◌≢◌, refl, ◌∙◌, List, [], ◌∷◌, length, true, false, some, eqb_ℤ, eqb_ℤ_iff,
  Bool-cases, inl, inr, arith,
}
use auto_sync_gen.Result.{ok, err, assertion, halfway}
use auto_sync_gen.Json.{Json}
use auto_sync_gen.Snapshot.{Snapshot, Diff, snapshot_to_json, diff_to_json, diff_from_json}
use auto_sync_gen.SyncManager.{SyncType, SyncManager, get_snapshot, apply_diff}
use auto_sync_gen.Connection.{null_cid}
use auto_sync_gen.Packet.{
  CtoS, ctos_number, to_stoc, PacketLib, PacketLaws, Item, ntype, int, json, IsNType, IsInt, Arg,
  int_arg, snapshot_arg,
}
use auto_sync_gen.Packet.Contents.{items_of, AreInts, pop_diff_lem}
use auto_sync_gen.Session.{Unset, Datagram, mk_packet, recover}
use auto_sync_gen.Session.Packets.{mk_packet_lem, mk_packet-sync_manager, receive_round_lem}
use auto_sync_gen.Client.{
  Client, OnData, send, send_to_server, send_to_server_no_cid, send_connection_request, send_ping,
  send_data_to_server, send_sync_request, handle_connection_accept, handle_sync_request_satisfy,
  handle_type, handle, receive,
}

not_null : (c : ℤ) → c ≢ null_cid → eqb_ℤ c null_cid ≡ false
not_null c ne = elim (Bool-cases (eqb_ℤ c null_cid)) [
  | inl e ↦ absurd (ne ((eqb_ℤ_iff c null_cid).0 e))
  | inr e ↦ e
]

is_null : eqb_ℤ null_cid null_cid ≡ true
is_null = (eqb_ℤ_iff null_cid null_cid).1 refl

module _ (J : Json) (P : PacketLib J.Val) (W : PacketLaws J.Val P) (IpAddress : Type 0)
    (ts : List (SyncType J)) where
  -- One datagram is sent to the server, with the given contents, and only the send buffer changes.
  abbrev pub Sends :
      Client J P IpAddress ts
      → Client J P IpAddress ts × List (Datagram J P IpAddress)
      → List (Item J.Val)
      → Type 0
  Sends c (c', out) items =
      (p : P.Packet) × (out ≡ record { ip = c.server_ip; port = c.server_port; packet = p } ∷ [])
      × (W.contents p ≡ items)
      × (c'.host.sync_manager ≡ c.host.sync_manager)
      × (c'.cid ≡ c.cid)
      × (c'.server_ip ≡ c.server_ip)
      × (c'.server_port ≡ c.server_port)

  send_lem :
      (type : CtoS) (args : List (Arg J (length ts))) (c : Client J P IpAddress ts)
      → IsNType (ctos_number type)
      → AreInts J P W (length ts) args
      → Sends c
          (send J P IpAddress ts type args c)
          (ntype (ctos_number type) ∷ items_of J P W (length ts) args)
  unfolding send
  send_lem type args c t a = (
    (mk_packet J P IpAddress ts (ctos_number type) args c.host).send_buffer,
    refl,
    mk_packet_lem J P W IpAddress ts (ctos_number type) args c.host t a,
    mk_packet-sync_manager J P W IpAddress ts (ctos_number type) args c.host,
    refl,
    refl,
    refl,
  )

  module _ (c : Client J P IpAddress ts) where
    -- Until it has an identifier the client can ask for a connection.
    pub send_connection_request_lem :
        c.cid ≡ null_cid
        → (r : Client J P IpAddress ts × List (Datagram J P IpAddress)) × (send_connection_request J
              P IpAddress ts c
            ≡ ok r)
          × Sends c r (ntype (pos 0) ∷ [])
    unfolding send_connection_request send_to_server_no_cid ctos_number
    send_connection_request_lem e = (
      send J P IpAddress ts CtoS.connection_request [] c,
      rw (e, is_null) refl,
      send_lem CtoS.connection_request [] c (omega arith) tt,
    )

    -- While the client has no identifier, its pings and its requests fail an assertion, whatever its
    -- objects are.
    pub send_to_server_unconnected :
        (type : CtoS) (args : List (Arg J (length ts)))
        → c.cid ≡ null_cid
        → send_to_server J P IpAddress ts type args c ≡ err assertion
    unfolding send_to_server
    send_to_server_unconnected type args e = rw (e, is_null) refl

    -- Once it has one, it cannot ask for a connection any more.
    pub send_connection_request_again :
        c.cid ≢ null_cid → send_connection_request J P IpAddress ts c ≡ err assertion
    unfolding send_connection_request send_to_server_no_cid
    send_connection_request_again ne = rw (not_null c.cid ne) refl

    module _ (has_cid : c.cid ≢ null_cid) (in_range : IsInt c.cid) where
      pub send_ping_lem :
          (r : Client J P IpAddress ts × List (Datagram J P IpAddress)) × (send_ping J P IpAddress
              ts c
            ≡ ok r)
          × Sends c r (ntype (pos 1) ∷ int c.cid ∷ [])
      unfolding send_ping send_to_server ctos_number
      send_ping_lem = (
        send J P IpAddress ts CtoS.ping (int_arg c.cid ∷ []) c,
        rw (not_null c.cid has_cid) refl,
        send_lem CtoS.ping (int_arg c.cid ∷ []) c (omega arith) (in_range, tt),
      )

      pub send_data_to_server_lem :
          (args : List (Arg J (length ts)))
          → AreInts J P W (length ts) args
          → (r : Client J P IpAddress ts × List (Datagram J P IpAddress)) × (send_data_to_server J P
                IpAddress ts args c
              ≡ ok r)
            × Sends c r (ntype (pos 4) ∷ int c.cid ∷ items_of J P W (length ts) args)
      unfolding send_data_to_server send_to_server ctos_number
      send_data_to_server_lem args ints = (
        send J P IpAddress ts CtoS.user_data (int_arg c.cid ∷ args) c,
        rw (not_null c.cid has_cid) refl,
        send_lem CtoS.user_data (int_arg c.cid ∷ args) c (omega arith) (in_range, ints),
      )

      pub send_sync_request_lem :
          (s : Snapshot J (length ts))
          → get_snapshot J ts c.host.sync_manager ≡ ok s
          → (r : Client J P IpAddress ts × List (Datagram J P IpAddress)) × (send_sync_request J P
                IpAddress ts c
              ≡ ok r)
            × Sends c r (ntype (pos 2) ∷ int c.cid ∷ json (snapshot_to_json J (length ts) s) ∷ [])
      unfolding send_sync_request send_to_server ctos_number
      send_sync_request_lem s e = (
        send J P IpAddress ts CtoS.sync_request (int_arg c.cid ∷ snapshot_arg s ∷ []) c,
        rw (e, not_null c.cid has_cid) refl,
        send_lem CtoS.sync_request (int_arg c.cid ∷ snapshot_arg s ∷ []) c (omega arith)
            (in_range, tt),
      )

    module _ (on_data : OnData J P IpAddress ts) (u : Unset) (d : Datagram J P IpAddress) where
      -- An acceptance gives the client its identifier, whoever sent it and whether or not the client
      -- had one.
      pub receive_connection_accept :
          (i : ℤ) (rest : List (Item J.Val))
          → W.contents d.packet ≡ ntype (pos 0) ∷ int i ∷ rest
          → receive J P IpAddress ts on_data u (some d) c ≡ ok (record c { cid = i }, [])
      unfolding receive handle handle_type handle_connection_accept to_stoc recover
      receive_connection_accept i rest e =
          let (q, run, left) =
            receive_round_lem J P W IpAddress u c (handle J P IpAddress ts on_data u) d (pos 0)
              (int i ∷ rest) e in
          let (r, popped, last) = W.get_int_lem u.int i q rest left in run ∙ rw popped refl

      -- A difference that is read back from its json and that applies to the client's objects is
      -- applied to them.
      pub receive_sync_request_satisfy :
          (diff : Diff J (length ts)) (m : SyncManager J ts) (rest : List (Item J.Val))
          → W.contents d.packet ≡ ntype (pos 2) ∷ json (diff_to_json J (length ts) diff) ∷ rest
          → diff_from_json J (length ts) (diff_to_json J (length ts) diff) ≡ ok diff
          → apply_diff J ts diff c.host.sync_manager ≡ ok m
          → receive J P IpAddress ts on_data u (some d) c
            ≡ ok (record c { host = record c.host { sync_manager = m } }, [])
      unfolding receive handle handle_type handle_sync_request_satisfy to_stoc recover halfway
      receive_sync_request_satisfy diff m rest e back applied =
          let (q, run, left) =
            receive_round_lem J P W IpAddress u c (handle J P IpAddress ts on_data u) d (pos 2)
              (json (diff_to_json J (length ts) diff) ∷ rest) e in
          let (r, popped, last) = pop_diff_lem J P W (length ts) q diff rest left back in
          run ∙ rw (popped, applied) refl
