-- ===== src/Network/Addressed.antt =====
-- Where the server sends what it answers to a datagram.
use auto_sync_gen.Prelude.{
  ℕ, ℤ, pos, ◌≡◌, refl, sym, subst, ap, ◌∙◌, inl, inr, List, [], ◌∷◌, length, some, Bool-cases,
  dec_lt, get_elem?, arith,
}
use auto_sync_gen.Result.{
  Result, ok, undefined, assert, or_fault, >>=-eq-ok, >>-eq-ok, or_fault-eq-ok, value_of, err-ne-ok,
  halfway-eq-ok,
}
use auto_sync_gen.Ssvu.{Ssvu, SsvuLaws}
use auto_sync_gen.IdMap.{lookup}
use auto_sync_gen.Json.{Json}
use auto_sync_gen.Difference.{get_diff_with}
use auto_sync_gen.SyncManager
use auto_sync_gen.SyncManager.{SyncType}
use auto_sync_gen.Connection.{
  ClientHandler, ClientHandlerManager, Uninitialised, has, at_cid, handler_at, ping_received,
}
use auto_sync_gen.Connection.Reach.{Served, accept_client_lem, accept_client_overflow, bound}
use auto_sync_gen.Packet.{
  CtoS, StoC, stoc_number, to_ctos, PacketLib, PacketLaws, Arg, int_arg, text_arg, diff_arg,
  pop_snapshot,
}
use auto_sync_gen.Session.{Unset, Datagram, mk_packet, try_forward, receive_round}
use auto_sync_gen.Session.Packets.{recover-eq-ok}
use auto_sync_gen.Server.Requests.{send_to_client_lem}
use auto_sync_gen.Server.{
  Server, OnData, send_to_client, send_connection_accept, handle_connection_request, handle_ping,
  handle_sync_request, handle_connected, handle_from_client, handle_type, handle, receive,
}
use auto_sync_gen.Network.Answers.{AllOf, Owns}

module _ (J : Json) (P : PacketLib J.Val) (W : PacketLaws J.Val P) (IpAddress : Type 0)
    (ts : List (SyncType J)) (V : Ssvu) (App : Type 0) where
  -- The program's functions send nothing.
  abbrev pub IsSilent : OnData J P IpAddress ts V App → Type 0
  IsSilent on_data =
      (cid : ℤ) (p : P.Packet) (s s' : Server J P IpAddress ts V App)
      (out : List (Datagram J P IpAddress))
      → on_data cid p s ≡ ok (s', out)
      → out ≡ []

  -- What `handle` reads of a datagram: its kind and the identifier of its client.
  abbrev pub kind_of : Unset → Datagram J P IpAddress → CtoS
  kind_of u d = to_ctos (P.get_ntype u.ntype d.packet).0

  abbrev pub cid_of : Unset → Datagram J P IpAddress → ℤ
  cid_of u d = (P.get_int u.int (P.get_ntype u.ntype d.packet).1).0

  -- A datagram goes to the address that the handler of a client is bound to.
  abbrev pub IsToClient : ClientHandlerManager IpAddress → ℤ → Datagram J P IpAddress → Type 0
  IsToClient m cid o = (k : ℕ) × (lookup cid m.ch_map ≡ some k) × Owns IpAddress m k o.ip o.port

  -- A request to connect is answered to its sender, one to synchronise to its client, and nothing
  -- else is answered.
  abbrev pub IsAddressed :
      CtoS → ℤ → IpAddress → ℕ → ClientHandlerManager IpAddress → Datagram J P IpAddress → Type 0
  IsAddressed CtoS.connection_request cid ip port m o = (o.ip ≡ ip) × (o.port ≡ port)
  IsAddressed CtoS.sync_request cid ip port m o = IsToClient m cid o
  IsAddressed _ cid ip port m o = ⊥

  at_cid-eq-ok :
      (cid : ℤ) (m : ClientHandlerManager IpAddress) (ch : ℕ)
      → at_cid IpAddress cid m ≡ ok ch
      → lookup cid m.ch_map ≡ some ch
  unfolding at_cid
  at_cid-eq-ok cid m ch e =
      or_fault-eq-ok _ undefined ch
        (>>-eq-ok (assert (has IpAddress cid m)) (or_fault (lookup cid m.ch_map) undefined) ch e)

  handler_at-eq-ok :
      (ch : ℕ) (hs : List (ClientHandler IpAddress)) (c : ClientHandler IpAddress)
      → handler_at IpAddress ch hs ≡ ok c
      → get_elem? hs ch ≡ some c
  unfolding handler_at
  handler_at-eq-ok ch hs c e = or_fault-eq-ok _ undefined c e

  module _ (n : ℕ) (s s' : Server J P IpAddress ts V App) (out : List (Datagram J P IpAddress))
      (VL : SsvuLaws V) (served : Served IpAddress n s.c_manager) where
    none_sent :
        (Q : Datagram J P IpAddress → Type 0)
        → ◌≡◌ {A = Result (Server J P IpAddress ts V App × List (Datagram J P IpAddress))}
            (ok (s, []))
            (ok (s', out))
        → AllOf Q out
    none_sent Q e = subst (AllOf Q) (ap (λ x. x.1) (value_of (s, []) (s', out) e)) tt

    sent-IsToClient :
        (type : StoC) (cid : ℤ) (args : List (Arg J (length ts)))
        → send_to_client J P IpAddress ts V App type cid args s ≡ ok (s', out)
        → AllOf (IsToClient s.c_manager cid) out
    unfolding send_to_client
    sent-IsToClient type cid args e = elim (Bool-cases (has IpAddress cid s.c_manager)) [
      | inr b ↦ none_sent (IsToClient s.c_manager cid) (rw b at e)
      | inl b ↦
          let (ch, r1, e1) = >>=-eq-ok (at_cid IpAddress cid s.c_manager) _ (rw b at e) in
          let (c, r2, e2) = >>=-eq-ok (handler_at IpAddress ch s.c_manager.client_handlers) _ e1 in
          subst (AllOf (IsToClient s.c_manager cid)) (ap (λ x. x.1) (value_of _ (s', out) e2)) (
            (
              ch,
              at_cid-eq-ok cid s.c_manager ch r1,
              (c, handler_at-eq-ok ch s.c_manager.client_handlers c r2, refl, refl),
            ),
            tt,
          )
    ]

    accepted :
        (raw : Uninitialised IpAddress) (ip : IpAddress) (port : ℕ)
        → handle_connection_request J P IpAddress ts V App raw ip port s ≡ ok (s', out)
        → AllOf (λ o. (o.ip ≡ ip) × (o.port ≡ port)) out
    unfolding handle_connection_request send_connection_accept handler_at
    accepted raw ip port e = elim (dec_lt n 2147483647) [
      | no ge ↦
          let full : n ≡ 2147483647 = omega (arith, served.bounded) in
          absurd (
            err-ne-ok undefined (s', out)
              (sym (
                  rw (accept_client_overflow IpAddress V VL raw ip port n s.c_manager served full)
                    refl)
                ∙ e))
      | yes lt ↦
          let (m, made, served', at_n, others) =
            accept_client_lem IpAddress V VL raw ip port n s.c_manager served lt in
          let c = bound IpAddress V VL raw ip port n s.c_manager served in
          let t : Server J P IpAddress ts V App = record s { c_manager = m } in
          let args : List (Arg J (length ts)) =
            int_arg (pos n) ∷ text_arg "Welcome to the server." ∷ [] in
          let sent =
            send_to_client_lem J P W IpAddress ts V App StoC.connection_accept n n args t c
              (served'.mapped n (omega arith)) at_n in
          let h = mk_packet J P IpAddress ts (stoc_number StoC.connection_accept) args s.host in
          let d : Datagram J P IpAddress = record {
            ip = ip;
            port = port;
            packet = h.send_buffer;
          } in
          let ran : handle_connection_request J P IpAddress ts V App raw ip port s
              ≡ ok (record t { host = h }, d ∷ []) =
            rw (made, at_n, sent) refl in
          subst (AllOf (λ o. (o.ip ≡ ip) × (o.port ≡ port)))
            (ap (λ x. x.1) (value_of _ (s', out) (sym ran ∙ e))) ((refl, refl), tt)
    ]

    of_client :
        (on_data : OnData J P IpAddress ts V App) (type : CtoS) (cid : ℤ) (ip : IpAddress)
        (port : ℕ) (p : P.Packet)
        → IsSilent on_data
        → handle_connected J P IpAddress ts V App on_data type cid p s ≡ ok (s', out)
        → AllOf (IsAddressed type cid ip port s.c_manager) out
    unfolding handle_connected handle_ping handle_sync_request
    of_client on_data CtoS.connection_request cid ip port p silent e =
        absurd (err-ne-ok _ (s', out) e)
    of_client on_data CtoS.ping cid ip port p silent e =
        let (m, r, rest) = >>=-eq-ok (ping_received IpAddress cid s.c_manager) _ e in
        subst (AllOf (λ o. ⊥)) (ap (λ x. x.1) (value_of _ (s', out) rest)) tt
    of_client on_data CtoS.sync_request cid ip port p silent e =
        let (x, r1, e1) = >>=-eq-ok (pop_snapshot J P (length ts) p) _ e in
        let (y, r2, e2) = >>=-eq-ok (SyncManager.get_snapshot J ts s.host.sync_manager) _ e1 in
        let (z, r3, e3) = >>=-eq-ok (get_diff_with J (length ts) y x.0) _ e2 in
        sent-IsToClient StoC.sync_request_satisfy cid (diff_arg z.1 ∷ []) e3
    of_client on_data CtoS.user_data cid ip port p silent e =
        subst (AllOf (λ o. ⊥))
          (sym (silent cid p s s' out (halfway-eq-ok (on_data cid p s) (s', out) e))) tt
    of_client on_data CtoS.sync_satisfied cid ip port p silent e = none_sent (λ o. ⊥) e
    of_client on_data (CtoS.unnamed i) cid ip port p silent e = none_sent (λ o. ⊥) e

    from_client :
        (on_data : OnData J P IpAddress ts V App) (u : Unset) (type : CtoS) (ip : IpAddress)
        (port : ℕ) (p : P.Packet)
        → IsSilent on_data
        → handle_from_client J P IpAddress ts V App on_data u type p s ≡ ok (s', out)
        → AllOf (IsAddressed type (P.get_int u.int p).0 ip port s.c_manager) out
    unfolding handle_from_client
    from_client on_data u type ip port p silent e =
        let cid = (P.get_int u.int p).0 in
        elim (Bool-cases (has IpAddress cid s.c_manager)) [
          | inl b ↦ of_client on_data type cid ip port (P.get_int u.int p).1 silent (rw b at e)
          | inr b ↦ none_sent (IsAddressed type cid ip port s.c_manager) (rw b at e)
        ]

    of_type :
        (on_data : OnData J P IpAddress ts V App) (u : Unset) (raw : Uninitialised IpAddress)
        (ip : IpAddress) (port : ℕ) (type : CtoS) (p : P.Packet)
        → IsSilent on_data
        → handle_type J P IpAddress ts V App on_data u raw ip port type p s ≡ ok (s', out)
        → AllOf (IsAddressed type (P.get_int u.int p).0 ip port s.c_manager) out
    unfolding handle_type
    of_type on_data u raw ip port CtoS.connection_request p silent e = accepted raw ip port e
    of_type on_data u raw ip port type p silent e = from_client on_data u type ip port p silent e

    -- If the server serves `n` clients, the program's functions send nothing, and what the server makes
    -- of a datagram returns, then every answer is either one to a connection request, and goes to the
    -- address that the datagram came from, or one to a request to synchronise, and goes to the address
    -- that the handler of the identifier in the datagram was bound to, whoever sent it; datagrams of
    -- any other kind are not answered.
    pub receive-IsAddressed :
        (on_data : OnData J P IpAddress ts V App) (u : Unset) (raw : Uninitialised IpAddress)
        (d : Datagram J P IpAddress)
        → IsSilent on_data
        → receive J P IpAddress ts V App on_data u raw (some d) s ≡ ok (s', out)
        → AllOf (IsAddressed (kind_of u d) (cid_of u d) d.ip d.port s.c_manager) out
    unfolding receive receive_round try_forward handle
    receive-IsAddressed on_data u raw d silent e =
        elim (recover-eq-ok J P IpAddress s _ (s', out) e) [
          | inl done ↦
              of_type on_data u raw d.ip d.port _ (P.get_ntype u.ntype d.packet).1 silent done
          | inr same ↦
              none_sent (IsAddressed (kind_of u d) (cid_of u d) d.ip d.port s.c_manager)
                (ap ok same)
        ]
