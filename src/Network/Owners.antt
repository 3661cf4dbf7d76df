-- ===== src/Network/Owners.antt =====
-- No two clients get the same identifier, whatever happens to the datagrams.
use auto_sync_gen.Prelude.{
  ℕ, pos, ◌≡◌, ◌≢◌, sym, subst, ap, ◌∙◌, inl, inr, List, [], true, some, set, get_elem?,
  some_unique,
}
use auto_sync_gen.Result.{ok, >>=-eq-ok, value_of}
use auto_sync_gen.Ssvu.{Ssvu, SsvuLaws}
use auto_sync_gen.Json.{Json}
use auto_sync_gen.SyncManager.{SyncType}
use auto_sync_gen.Connection.{ClientHandlerManager, null_cid}
use auto_sync_gen.Connection.Reach.{Served, initial_manager-Served, run_timeout_round_lem}
use auto_sync_gen.Packet.{PacketLib, PacketLaws}
use auto_sync_gen.Session.{new_host}
use auto_sync_gen.Server
use auto_sync_gen.Server.{Server, new_server}
use auto_sync_gen.Client
use auto_sync_gen.Client.{
  Client, new_client, send, send_to_server, send_to_server_no_cid, send_connection_request,
  send_ping, send_sync_request, send_data_to_server, handle_sync_request_satisfy,
}
use auto_sync_gen.Network.{
  Peer, Net, Step, at_server, at_client, sends, starts, timeout_round, Reaches, here, next,
}
use auto_sync_gen.Network.Answers.{AllOf, Owns, IsAnswer}
use auto_sync_gen.Network.Sending.{IsCalm, receive-Follows}
use auto_sync_gen.Network.Clients.{
  AllOf-append, AllOf-mono, AllOf-get_elem?, AllOf-set, KeepsCid, Holds, Holds-mono, IsAnswer-mono,
  Holds-cid, receive-Holds, Sends-cid,
}

module _ (J : Json) (P : PacketLib J.Val) (W : PacketLaws J.Val P) (IpAddress : Type 0)
    (ts : List (SyncType J)) (V : Ssvu) (VL : SsvuLaws V) (App : Type 0)
    (on_server_data : Server.OnData J P IpAddress ts V App)
    (on_client_data : Client.OnData J P IpAddress ts)
    (calm : IsCalm J P W IpAddress ts V App on_server_data)
    (keeps : KeepsCid J P W IpAddress ts on_client_data) where
  abbrev HoldsOwn : ClientHandlerManager IpAddress → Peer J P IpAddress ts → Type 0
  HoldsOwn m p = Holds J P W IpAddress ts m p.ip p.port p.client

  -- The server serves its clients, its acceptances are addressed to those that they are for, and each
  -- client has an identifier of its own, if any.
  record IsOwned (w : Net J P IpAddress ts V App) : Type 0 where
    pub number : ℕ
    pub served : Served IpAddress number w.server.c_manager
    pub answers : AllOf (IsAnswer J P W IpAddress w.server.c_manager) w.sent
    pub holders : AllOf (HoldsOwn w.server.c_manager) w.peers

  set_peer-IsOwned :
      (w : Net J P IpAddress ts V App) (i : ℕ) (p : Peer J P IpAddress ts)
      (c : Client J P IpAddress ts)
      → IsOwned w
      → HoldsOwn w.server.c_manager (record p { client = c })
      → IsOwned (record w { peers = set w.peers i (record p { client = c }) })
  set_peer-IsOwned w i p c o h = record {
    number = o.number;
    served = o.served;
    answers = o.answers;
    holders = AllOf-set (HoldsOwn w.server.c_manager) w.peers i _ o.holders h;
  }

  Step-IsOwned :
      {w x : Net J P IpAddress ts V App}
      → Step J P IpAddress ts V App on_server_data on_client_data w x
      → IsOwned w
      → IsOwned x
  unfolding new_client
  Step-IsOwned (at_server w u raw d s out e) o =
      let (n', served, kept, answers) =
        receive-Follows J P W IpAddress ts V App o.number w.server s out VL o.served on_server_data
          u raw d calm e in
      record {
        number = n';
        served = served;
        answers = AllOf-append (IsAnswer J P W IpAddress s.c_manager) out w.sent answers (
            AllOf-mono (IsAnswer J P W IpAddress w.server.c_manager)
              (IsAnswer J P W IpAddress s.c_manager) w.sent
              (IsAnswer-mono J P W IpAddress ts w.server.c_manager s.c_manager kept) o.answers);
        holders =
            AllOf-mono (HoldsOwn w.server.c_manager) (HoldsOwn s.c_manager) w.peers
              (λ p.
                Holds-mono J P W IpAddress ts w.server.c_manager s.c_manager kept p.ip p.port
                  p.client)
              o.holders;
      }
  Step-IsOwned (at_client w u j i d p c out ip port sent_d at_i same_ip same_port e) o =
      set_peer-IsOwned w i p c o (
        receive-Holds J P W IpAddress ts on_client_data u w.server.c_manager p.ip ip p.port port d
          p.client c out keeps
          (AllOf-get_elem? (IsAnswer J P W IpAddress w.server.c_manager) w.sent j d o.answers
            sent_d)
          same_ip same_port e
          (AllOf-get_elem? (HoldsOwn w.server.c_manager) w.peers i p o.holders at_i))
  Step-IsOwned (sends w i p c out at_i e) o = set_peer-IsOwned w i p c o (
      Holds-cid J P W IpAddress ts w.server.c_manager p.ip p.port p.client c
        (Sends-cid J P W IpAddress ts p.client c out e)
        (AllOf-get_elem? (HoldsOwn w.server.c_manager) w.peers i p o.holders at_i))
  Step-IsOwned (timeout_round w m e) o =
      subst (λ m'. IsOwned (record w { server = record w.server { c_manager = m' } }))
        (value_of w.server.c_manager m
          (sym (run_timeout_round_lem IpAddress o.number w.server.c_manager o.served) ∙ e))
        o
  Step-IsOwned (starts w ip sip port sport c e) o =
      let (h, r, e1) = >>=-eq-ok (new_host J P IpAddress ts "Client" ip port true) _ e in
      record {
        number = o.number;
        served = o.served;
        answers = o.answers;
        holders = (inl (ap (λ x. x.cid) (sym (value_of _ c e1))), o.holders);
      }

  Reaches-IsOwned :
      {w x : Net J P IpAddress ts V App}
      → Reaches J P IpAddress ts V App on_server_data on_client_data w x
      → IsOwned w
      → IsOwned x
  Reaches-IsOwned here o = o
  Reaches-IsOwned (next r s) o = Step-IsOwned s (Reaches-IsOwned r o)

  -- If the program's functions at the server leave the clients to the session and send no
  -- acceptance, and those at the clients leave their identifiers alone, then in every state
  -- reached from a new server, whatever datagrams reach the server, and however its own are lost,
  -- repeated and reordered: a client with an identifier has the number of a handler that is bound
  -- to the client's address, and another client with the same identifier has the same address.
  pub Reaches-owners :
      (local : IpAddress) (port : ℕ) (app : App) (s : Server J P IpAddress ts V App)
      (w : Net J P IpAddress ts V App) (i j : ℕ) (p q : Peer J P IpAddress ts)
      → new_server J P IpAddress ts V App local port true app ≡ ok s
      → Reaches J P IpAddress ts V App on_server_data on_client_data
          (record { server = s; peers = []; sent = [] })
          w
      → get_elem? w.peers i ≡ some p
      → get_elem? w.peers j ≡ some q
      → p.client.cid ≢ null_cid
      → q.client.cid ≡ p.client.cid
      → ((k : ℕ) × (p.client.cid ≡ pos k) × Owns IpAddress w.server.c_manager k p.ip p.port)
        × (q.ip ≡ p.ip)
        × (q.port ≡ p.port)
  unfolding new_server
  Reaches-owners local port app s w i j p q made reached at_i at_j has_cid same =
      let (h, r, e) = >>=-eq-ok (new_host J P IpAddress ts "Server" local port true) _ made in
      let o = Reaches-IsOwned reached (record {
        number = 0;
        served =
            subst (Served IpAddress 0) (ap (λ x. x.c_manager) (value_of _ s e))
              (initial_manager-Served IpAddress);
        answers = tt;
        holders = tt;
      }) in
      let (k, is_k, (g, at_k, ip_k, port_k)) =
        owned w.server.c_manager p.ip p.port p.client has_cid
          (AllOf-get_elem? (HoldsOwn w.server.c_manager) w.peers i p o.holders at_i) in
      let (l, is_l, (g', at_l, ip_l, port_l)) =
        owned w.server.c_manager q.ip q.port q.client (λ null. has_cid (sym same ∙ null))
          (AllOf-get_elem? (HoldsOwn w.server.c_manager) w.peers j q o.holders at_j) in
      let k_is_l : k ≡ l = pos_unique k l (sym is_k ∙ sym same ∙ is_l) in
      let one : g ≡ g' =
        some_unique g g'
          (sym at_k ∙ ap (get_elem? w.server.c_manager.client_handlers) k_is_l ∙ at_l) in
      (
        (k, is_k, (g, at_k, ip_k, port_k)),
        sym ip_l ∙ ap (λ x. x.ip) (sym one) ∙ ip_k,
        sym port_l ∙ ap (λ x. x.port) (sym one) ∙ port_k,
      )
    where
      owned :
          (m : ClientHandlerManager IpAddress) (ip : IpAddress) (port : ℕ)
          (c : Client J P IpAddress ts)
          → c.cid ≢ null_cid
          → Holds J P W IpAddress ts m ip port c
          → (k : ℕ) × (c.cid ≡ pos k) × Owns IpAddress m k ip port
      owned m ip port c ne (inl null) = absurd (ne null)
      owned m ip port c ne (inr own) = own

      pos_unique : (k l : ℕ) → pos k ≡ pos l → k ≡ l
      pos_unique k l e = cc
