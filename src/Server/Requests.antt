-- ===== src/Server/Requests.antt =====
-- What the server does with each packet that it receives.
use auto_sync_gen.Prelude.{
  ℕ, suc, ◌<◌, ℤ, pos, ◌≡◌, ◌≢◌, refl, ap, ◌∙◌, List, [], ◌∷◌, length, true, false, some,
  if◌then◌else◌, get_elem?, arith,
}
use auto_sync_gen.Result.{ok, halfway}
use auto_sync_gen.IdMap.{lookup}
use auto_sync_gen.Ssvu.{Ssvu, SsvuLaws}
use auto_sync_gen.Json.{Json}
use auto_sync_gen.Snapshot.{Snapshot, Diff, snapshot_to_json, snapshot_from_json, diff_to_json}
use auto_sync_gen.Difference.{get_diff_with}
use auto_sync_gen.SyncManager
use auto_sync_gen.SyncManager.{SyncType}
use auto_sync_gen.Connection.{
  ClientHandler, ClientHandlerManager, Uninitialised, handler_at, has, at_cid,
  max_seconds_until_timeout,
}
use auto_sync_gen.Connection.Reach.{Served, bound, accept_client_lem, ping_received_lem}
use auto_sync_gen.Packet.{
  CtoS, StoC, stoc_number, to_ctos, PacketLib, PacketLaws, Item, ntype, int, text, json, Arg,
  int_arg, text_arg, diff_arg,
}
use auto_sync_gen.Packet.Contents.{pop_snapshot_lem}
use auto_sync_gen.Session.{Unset, Datagram, mk_packet, recover}
use auto_sync_gen.Session.Packets.{mk_packet_lem, mk_packet-sync_manager, receive_round_lem}
use auto_sync_gen.Server.{
  Server, OnData, send_to_client, send_connection_accept, handle_connection_request, handle_ping,
  handle_sync_request, handle_connected, handle_from_client, handle_type, handle, receive,
}

module _ (J : Json) (P : PacketLib J.Val) (W : PacketLaws J.Val P) (IpAddress : Type 0)
    (ts : List (SyncType J)) (V : Ssvu) (App : Type 0) where
  -- The managers of the objects and of the clients, and what the program's functions have captured,
  -- are the same.
  abbrev pub Keeps : Server J P IpAddress ts V App → Server J P IpAddress ts V App → Type 0
  Keeps s s' =
      (s'.host.sync_manager ≡ s.host.sync_manager) × (s'.c_manager ≡ s.c_manager) × (s'.app ≡ s.app)

  -- A packet is addressed to the handler of its client.
  pub send_to_client_lem :
      (type : StoC) (i ch : ℕ) (args : List (Arg J (length ts))) (s : Server J P IpAddress ts V App)
      (c : ClientHandler IpAddress)
      → lookup (pos i) s.c_manager.ch_map ≡ some ch
      → get_elem? s.c_manager.client_handlers ch ≡ some c
      → send_to_client J P IpAddress ts V App type (pos i) args s
        ≡ ok (
          record s { host = mk_packet J P IpAddress ts (stoc_number type) args s.host },
          record {
            ip = c.ip;
            port = c.port;
            packet = (mk_packet J P IpAddress ts (stoc_number type) args s.host).send_buffer;
          }
              ∷ [],
        )
  unfolding send_to_client has at_cid handler_at
  send_to_client_lem type i ch args s c e f = rw (e, f) refl

  module _ (on_data : OnData J P IpAddress ts V App) (u : Unset) (raw : Uninitialised IpAddress)
      (d : Datagram J P IpAddress) (s : Server J P IpAddress ts V App) where
    not_first :
        (type : CtoS) (q : P.Packet)
        → type ≢ CtoS.connection_request
        → handle_type J P IpAddress ts V App on_data u raw d.ip d.port type q s
          ≡ handle_from_client J P IpAddress ts V App on_data u type q s
    unfolding handle_type
    not_first CtoS.connection_request q ne = absurd (ne refl)
    not_first _ q ne = refl

    -- The kind and the identifier of the client are read, and the rest is handled for the client.
    receive_from :
        (type cid : ℤ) (rest : List (Item J.Val))
        → W.contents d.packet ≡ ntype type ∷ int cid ∷ rest
        → to_ctos type ≢ CtoS.connection_request
        → (q : P.Packet) × (receive J P IpAddress ts V App on_data u raw (some d) s
            ≡ recover J P IpAddress s (
                if has IpAddress cid s.c_manager
                then handle_connected J P IpAddress ts V App on_data (to_ctos type) cid q s
                else ok (s, [])))
          × (W.contents q ≡ rest)
    unfolding receive handle handle_from_client
    receive_from type cid rest e ne =
        let (q, run, left) =
          receive_round_lem J P W IpAddress u s (handle J P IpAddress ts V App on_data u raw) d type
            (int cid ∷ rest) e in
        let (r, popped, last) = W.get_int_lem u.int cid q rest left in
        (
          r,
          run ∙ ap (recover J P IpAddress s) (not_first (to_ctos type) q ne ∙ rw popped refl),
          last,
        )

    -- A packet of a kind other than a connection request, and an identifier that the server does
    -- not know, changes nothing and is not answered.
    pub receive_unconnected :
        (type cid : ℤ) (rest : List (Item J.Val))
        → W.contents d.packet ≡ ntype type ∷ int cid ∷ rest
        → to_ctos type ≢ CtoS.connection_request
        → has IpAddress cid s.c_manager ≡ false
        → receive J P IpAddress ts V App on_data u raw (some d) s ≡ ok (s, [])
    unfolding recover
    receive_unconnected type cid rest e ne missing =
        let (q, run, left) = receive_from type cid rest e ne in run ∙ rw missing refl

    -- The data of a client that the server knows goes to the program's functions; an exception in them
    -- ends what the model says.
    pub receive_data :
        (cid : ℤ) (rest : List (Item J.Val))
        → W.contents d.packet ≡ ntype (pos 4) ∷ int cid ∷ rest
        → has IpAddress cid s.c_manager ≡ true
        → (q : P.Packet) × (receive J P IpAddress ts V App on_data u raw (some d) s
            ≡ recover J P IpAddress s (halfway (on_data cid q s)))
          × (W.contents q ≡ rest)
    unfolding handle_connected to_ctos
    receive_data cid rest e known =
        let (q, run, left) = receive_from (pos 4) cid rest e (λ h. cc) in
        (q, run ∙ rw known refl, left)

    module _ (n : ℕ) (served : Served IpAddress n s.c_manager) where
      -- If fewer clients than the largest `int` are served, a connection request is accepted: the
      -- next identifier and a greeting go to the address that the request came from, which the new
      -- handler is bound to, the objects stay as they are, and the server serves one client more.
      pub receive_connection_request :
          SsvuLaws V
          → n < 2147483647
          → W.contents d.packet ≡ ntype (pos 0) ∷ []
          → (s' : Server J P IpAddress ts V App) × (p : P.Packet) × (receive J P IpAddress ts V App
                on_data u raw
                (some d)
                s
              ≡ ok (s', record { ip = d.ip; port = d.port; packet = p } ∷ []))
            × (W.contents p ≡ ntype (pos 0) ∷ int (pos n) ∷ text "Welcome to the server." ∷ [])
            × Served IpAddress (suc n) s'.c_manager
            × ((c : ClientHandler IpAddress) × (get_elem? s'.c_manager.client_handlers n ≡ some c)
                × (c.ip ≡ d.ip)
                × (c.port ≡ d.port))
            × (s'.host.sync_manager ≡ s.host.sync_manager)
            × (s'.app ≡ s.app)
      unfolding receive handle handle_type handle_connection_request send_connection_accept
          handler_at to_ctos recover
      receive_connection_request VL lt e =
          let (q, run, left) =
            receive_round_lem J P W IpAddress u s (handle J P IpAddress ts V App on_data u raw) d
              (pos 0) [] e in
          let (m, made, served', at_n, others) =
            accept_client_lem IpAddress V VL raw d.ip d.port n s.c_manager served lt in
          let c = bound IpAddress V VL raw d.ip d.port n s.c_manager served in
          let t : Server J P IpAddress ts V App = record s { c_manager = m } in
          let args : List (Arg J (length ts)) =
            int_arg (pos n) ∷ text_arg "Welcome to the server." ∷ [] in
          let h = mk_packet J P IpAddress ts (stoc_number StoC.connection_accept) args s.host in
          let sent =
            send_to_client_lem StoC.connection_accept n n args t c (served'.mapped n (omega arith))
              at_n in
          (
            record t { host = h },
            h.send_buffer,
            run ∙ rw (made, at_n, sent) refl,
            (unfold stoc_number in
                mk_packet_lem J P W IpAddress ts (pos 0) args s.host (omega arith)
                  (omega arith, tt)),
            served',
            (c, at_n, refl, refl),
            mk_packet-sync_manager J P W IpAddress ts _ args s.host,
            refl,
          )

      known : (i : ℕ) → i < n → has IpAddress (pos i) s.c_manager ≡ true
      unfolding has
      known i lt = rw (served.mapped i lt) refl

      -- In a server that serves `n` clients, a ping of one of them resets the seconds left of its
      -- handler to the maximum; the server still serves its `n` clients, its objects stay as they
      -- are, and nothing is answered.
      pub receive_ping :
          (i : ℕ) (rest : List (Item J.Val))
          → i < n
          → W.contents d.packet ≡ ntype (pos 1) ∷ int (pos i) ∷ rest
          → (m : ClientHandlerManager IpAddress) × (receive J P IpAddress ts V App on_data u raw
                (some d)
                s
              ≡ ok (record s { c_manager = m }, []))
            × Served IpAddress n m
            × ((c : ClientHandler IpAddress) × (get_elem? m.client_handlers i ≡ some c)
                × (c.seconds_until_timeout ≡ max_seconds_until_timeout))
      unfolding handle_connected handle_ping to_ctos recover
      receive_ping i rest lt e =
          let (q, run, left) = receive_from (pos 1) (pos i) rest e (λ h. cc) in
          let (m, pinged, served', c, at_i, reset) =
            ping_received_lem IpAddress n s.c_manager served i lt in
          (m, run ∙ rw (known i lt, pinged) refl, served', (c, at_i, reset))

      -- A served client's request with a snapshot that is read back from its json is answered, at the
      -- address that its handler is bound to, by the difference between the server's snapshot and the
      -- client's; the server keeps its objects and its clients.
      pub receive_sync_request :
          (i : ℕ) (theirs mine mine' : Snapshot J (length ts)) (result : Diff J (length ts))
          → i < n
          → W.contents d.packet
            ≡ ntype (pos 2) ∷ int (pos i) ∷ json (snapshot_to_json J (length ts) theirs) ∷ []
          → snapshot_from_json J (length ts) (snapshot_to_json J (length ts) theirs) ≡ ok theirs
          → SyncManager.get_snapshot J ts s.host.sync_manager ≡ ok mine
          → get_diff_with J (length ts) mine theirs ≡ ok (mine', result)
          → (s' : Server J P IpAddress ts V App) × (c : ClientHandler IpAddress) × (p : P.Packet)
            × (receive J P IpAddress ts V App on_data u raw (some d) s
                ≡ ok (s', record { ip = c.ip; port = c.port; packet = p } ∷ []))
            × (W.contents p ≡ ntype (pos 2) ∷ json (diff_to_json J (length ts) result) ∷ [])
            × (get_elem? s.c_manager.client_handlers i ≡ some c)
            × Keeps s s'
      unfolding handle_connected handle_sync_request to_ctos recover
      receive_sync_request i theirs mine mine' result lt e back taken differ =
          let (q, run, left) = receive_from (pos 2) (pos i) _ e (λ h. cc) in
          let (r, popped, last) = pop_snapshot_lem J P W (length ts) q theirs [] left back in
          let (c, at_i, same) = served.serving i lt in
          let args : List (Arg J (length ts)) = diff_arg result ∷ [] in
          let h = mk_packet J P IpAddress ts (stoc_number StoC.sync_request_satisfy) args s.host in
          let sent =
            send_to_client_lem StoC.sync_request_satisfy i i args s c (served.mapped i lt) at_i in
          (
            record s { host = h },
            c,
            h.send_buffer,
            run ∙ rw (known i lt, popped, taken, differ, sent) refl,
            (unfold stoc_number in
                mk_packet_lem J P W IpAddress ts (pos 2) args s.host (omega arith) tt),
            at_i,
            (mk_packet-sync_manager J P W IpAddress ts _ args s.host, refl, refl),
          )
