-- ===== src/Tests/Networks.antt =====
-- The identifiers of the clients of a new server at a run in which one client is accepted.
use auto_sync_gen.Prelude.{
  ℕ, ap, pos, ◌≡◌, ◌≢◌, refl, List, [], ◌∷◌, some, get_elem?, arith, sym, ◌∙◌, subst, true,
}
use auto_sync_gen.Result.{ok, value_of}
use auto_sync_gen.Connection.{null_cid, initial_manager}
use auto_sync_gen.Connection.Reach.{Served, initial_manager-Served}
use auto_sync_gen.Session.{Datagram, new_host, arrived_from}
use auto_sync_gen.Server.{Server, new_server}
use auto_sync_gen.Client.{Client, new_client}
use auto_sync_gen.Protocol.Handshake.{handshake_lem}
use auto_sync_gen.Network.{
  Peer, Net, request, at_server, at_client, sends, starts, Reaches, here, next,
}
use auto_sync_gen.Network.Answers.{Owns, AllOf, IsOther}
use auto_sync_gen.Network.Sending.{IsCalm}
use auto_sync_gen.Network.Clients.{KeepsCid}
use auto_sync_gen.Network.Owners.{Reaches-owners}
use auto_sync_gen.Tests.JsonModel.{tree_json}
use auto_sync_gen.Tests.Setup.{ssvu, ssvu_laws}
use auto_sync_gen.Tests.Exchanges.{types}
use auto_sync_gen.Tests.Packets.{packets, packet_laws}
use auto_sync_gen.Tests.Sessions.{unset, raw, server_data, client_data}

abbrev Chatter : Type 0
Chatter = Peer tree_json packets ℕ types

abbrev World : Type 0
World = Net tree_json packets ℕ types ssvu ℕ

fresh_server :
    (s : Server tree_json packets ℕ types ssvu ℕ) × (new_server tree_json packets ℕ types ssvu ℕ 1
        27015 true 0
      ≡ ok s)
    × (s.c_manager ≡ initial_manager ℕ)
unfolding new_server new_host
fresh_server = (_, refl, refl)

fresh_client :
    (c : Client tree_json packets ℕ types) × (new_client tree_json packets ℕ types 9 27016 true 1
        27015
      ≡ ok c)
    × (c.cid ≡ null_cid)
unfolding new_client new_host
fresh_client = (_, refl, refl)

abbrev at_start : World
at_start = record { server = fresh_server.0; peers = []; sent = [] }

connected_world :
    (w : World) × (p : Chatter) × Reaches tree_json packets ℕ types ssvu ℕ server_data client_data
      at_start w
    × (get_elem? w.peers 0 ≡ some p)
    × (p.client.cid ≡ pos 0)
connected_world =
    let served = subst (Served ℕ 0) (sym fresh_server.2) (initial_manager-Served ℕ) in
    let (
      c1, c2, s1, d1, d2, asked, answered, accepted, ip1, port1, ip2, port2, id, served2, h, sm, cm,
      app,
    ) =
      handshake_lem tree_json packets packet_laws ℕ types ssvu ssvu_laws ℕ server_data client_data
        unset unset 0 fresh_server.0 fresh_client.0 raw 9 1 27016 27015 served (omega arith)
        fresh_client.2 in
    let p0 : Chatter = record { ip = 9; port = 27016; client = fresh_client.0 } in
    let w1 : World = record at_start { peers = p0 ∷ [] } in
    let w2 : World = record w1 { peers = record p0 { client = c1 } ∷ [] } in
    let w3 : World = record w2 { server = s1; sent = d2 ∷ [] } in
    (
      record w3 { peers = record p0 { client = c2 } ∷ [] },
      record p0 { client = c2 },
      next
          (next
            (next (next here (starts at_start 9 1 27016 27015 fresh_client.0 fresh_client.1))
              (sends w1 0 p0 c1 (d1 ∷ []) refl (request asked)))
            (at_server w2 unset raw (arrived_from tree_json packets ℕ 9 27016 d1) s1 (d2 ∷ [])
              answered))
          (at_client w3 unset 0 0 d2 (record p0 { client = c1 }) c2 [] 1 27015 refl refl ip2 port2
            accepted),
      refl,
      id,
    )

calm : IsCalm tree_json packets packet_laws ℕ types ssvu ℕ server_data
calm cid p s s' out e = (
  ap (λ x. x.0.c_manager) (sym (value_of (s, []) (s', out) e)),
  none_sent out (ap (λ x. x.1) (sym (value_of (s, []) (s', out) e))),
)
  where
    none_sent :
        (out : List (Datagram tree_json packets ℕ))
        → out ≡ []
        → AllOf (IsOther tree_json packets packet_laws ℕ) out
    none_sent out e = subst (AllOf (IsOther tree_json packets packet_laws ℕ)) (sym e) tt

keeps : KeepsCid tree_json packets packet_laws ℕ types client_data
keeps p c c' out e = ap (λ x. x.0.cid) (sym (value_of (c, []) (c', out) e))

connected_world_cid : connected_world.1.client.cid ≢ null_cid
connected_world_cid e = ne (sym connected_world.4 ∙ e)
  where
    ne : pos 0 ≢ null_cid
    ne h = cc

Reaches-owners_example :
    ((k : ℕ) × (connected_world.1.client.cid ≡ pos k)
      × Owns ℕ connected_world.0.server.c_manager k connected_world.1.ip connected_world.1.port)
    × (connected_world.1.ip ≡ connected_world.1.ip)
    × (connected_world.1.port ≡ connected_world.1.port)
Reaches-owners_example =
    Reaches-owners tree_json packets packet_laws ℕ types ssvu ssvu_laws ℕ server_data client_data
      calm keeps 1 27015 0 fresh_server.0 connected_world.0 0 0 connected_world.1 connected_world.1
      fresh_server.1 connected_world.2 connected_world.3 connected_world.3 connected_world_cid refl
