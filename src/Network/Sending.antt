-- ===== src/Network/Sending.antt =====
-- What the server keeps and sends, whatever datagram it receives.
use auto_sync_gen.Prelude.{
  get_elem?-below, ℕ, suc, ℤ, pos, ◌≡◌, ◌≢◌, refl, sym, subst, ap, ◌∙◌, inl, inr, List, [], ◌∷◌,
  length, some, Bool-cases, dec_lt, arith,
}
use auto_sync_gen.Result.{Result, ok, undefined, >>=-eq-ok, value_of, err-ne-ok, halfway-eq-ok}
use auto_sync_gen.Ssvu.{Ssvu, SsvuLaws}
use auto_sync_gen.Json.{Json}
use auto_sync_gen.Difference.{get_diff_with}
use auto_sync_gen.SyncManager
use auto_sync_gen.SyncManager.{SyncType}
use auto_sync_gen.Connection.{
  ClientHandlerManager, Uninitialised, has, at_cid, handler_at, ping_received,
}
use auto_sync_gen.Connection.Reach.{Served, accept_client_lem, accept_client_overflow, bound}
use auto_sync_gen.Connection.Events.{pinged-Served, step}
use auto_sync_gen.Packet.{
  CtoS, StoC, stoc_number, to_stoc, PacketLib, PacketLaws, text, IsNType, Arg, int_arg, text_arg,
  diff_arg, pop_snapshot,
}
use auto_sync_gen.Packet.Contents.{items_of, AreInts}
use auto_sync_gen.Session.{Unset, Datagram, mk_packet, try_forward, receive_round}
use auto_sync_gen.Session.Packets.{mk_packet_lem, recover-eq-ok}
use auto_sync_gen.Server.Requests.{send_to_client_lem}
use auto_sync_gen.Server.{
  Server, OnData, send_to_client, send_connection_accept, handle_connection_request, handle_ping,
  handle_sync_request, handle_connected, handle_from_client, handle_type, handle, receive,
}
use auto_sync_gen.Network.Answers.{
  AllOf, Owns, Preserves, ping_received-Preserves, IsOther, IsAnswer,
}

module _ (J : Json) (P : PacketLib J.Val) (W : PacketLaws J.Val P) (IpAddress : Type 0)
    (ts : List (SyncType J)) (V : Ssvu) (App : Type 0) where
  -- The program's functions leave the clients to the session, and send no acceptance.
  abbrev pub IsCalm : OnData J P IpAddress ts V App → Type 0
  IsCalm on_data =
      (cid : ℤ) (p : P.Packet) (s s' : Server J P IpAddress ts V App)
      (out : List (Datagram J P IpAddress))
      → on_data cid p s ≡ ok (s', out)
      → (s'.c_manager ≡ s.c_manager) × AllOf (IsOther J P W IpAddress) out

  -- The clients of the server are the same, or one more.
  abbrev pub Follows :
      ℕ
      → ClientHandlerManager IpAddress
      → Server J P IpAddress ts V App × List (Datagram J P IpAddress)
      → Type 0
  Follows n m (s', out) =
      (n' : ℕ) × Served IpAddress n' s'.c_manager
      × Preserves IpAddress m s'.c_manager
      × AllOf (IsAnswer J P W IpAddress s'.c_manager) out

  module _ (n : ℕ) (s s' : Server J P IpAddress ts V App) (out : List (Datagram J P IpAddress))
      (VL : SsvuLaws V) (served : Served IpAddress n s.c_manager) where
    same_clients :
        s'.c_manager ≡ s.c_manager
        → AllOf (IsOther J P W IpAddress) out
        → Follows n s.c_manager (s', out)
    same_clients e others = (
      n,
      subst (Served IpAddress n) (sym e) served,
      λ k ip port o. subst (λ m. Owns IpAddress m k ip port) (sym e) o,
      all_others out others,
    )
      where
        all_others :
            (out : List (Datagram J P IpAddress))
            → AllOf (IsOther J P W IpAddress) out
            → AllOf (IsAnswer J P W IpAddress s'.c_manager) out
        all_others [] o = tt
        all_others (d ∷ out) (o, os) = (inr o, all_others out os)

    unchanged :
        ◌≡◌ {A = Result (Server J P IpAddress ts V App × List (Datagram J P IpAddress))}
          (ok (s, []))
          (ok (s', out))
        → Follows n s.c_manager (s', out)
    unchanged e =
        let same = value_of (s, []) (s', out) e in
        same_clients (ap (λ x. x.0.c_manager) (sym same))
          (subst (AllOf (IsOther J P W IpAddress)) (ap (λ x. x.1) same) tt)

    sent_to_client :
        (type : StoC) (cid : ℤ) (args : List (Arg J (length ts)))
        → IsNType (stoc_number type)
        → to_stoc (stoc_number type) ≢ StoC.connection_accept
        → AreInts J P W (length ts) args
        → send_to_client J P IpAddress ts V App type cid args s ≡ ok (s', out)
        → Follows n s.c_manager (s', out)
    unfolding send_to_client
    sent_to_client type cid args t other a e = elim (Bool-cases (has IpAddress cid s.c_manager)) [
      | inr b ↦ unchanged (rw b at e)
      | inl b ↦
          let (ch, r1, e1) = >>=-eq-ok (at_cid IpAddress cid s.c_manager) _ (rw b at e) in
          let (c, r2, e2) = >>=-eq-ok (handler_at IpAddress ch s.c_manager.client_handlers) _ e1 in
          let same = value_of _ (s', out) e2 in
          same_clients (ap (λ x. x.0.c_manager) (sym same)) (
            subst (AllOf (IsOther J P W IpAddress)) (ap (λ x. x.1) same) (
              (
                stoc_number type,
                items_of J P W (length ts) args,
                mk_packet_lem J P W IpAddress ts (stoc_number type) args s.host t a,
                other,
              ),
              tt,
            ))
    ]

    synced :
        (cid : ℤ) (p : P.Packet)
        → handle_sync_request J P IpAddress ts V App cid p s ≡ ok (s', out)
        → Follows n s.c_manager (s', out)
    unfolding handle_sync_request stoc_number to_stoc
    synced cid p e =
        let (x, r1, e1) = >>=-eq-ok (pop_snapshot J P (length ts) p) _ e in
        let (y, r2, e2) = >>=-eq-ok (SyncManager.get_snapshot J ts s.host.sync_manager) _ e1 in
        let (z, r3, e3) = >>=-eq-ok (get_diff_with J (length ts) y x.0) _ e2 in
        sent_to_client StoC.sync_request_satisfy cid (diff_arg z.1 ∷ []) (omega arith) (λ h. cc) tt
          e3

    pinged :
        (cid : ℤ)
        → handle_ping J P IpAddress ts V App cid s ≡ ok (s', out)
        → Follows n s.c_manager (s', out)
    unfolding handle_ping
    pinged cid e =
        let (m, run, rest) = >>=-eq-ok (ping_received IpAddress cid s.c_manager) _ e in
        subst (Follows n s.c_manager) (value_of (record s { c_manager = m }, []) (s', out) rest) (
          n,
          pinged-Served IpAddress V VL cid n s.c_manager m served (unfold step in run),
          ping_received-Preserves IpAddress cid s.c_manager m run,
          tt,
        )

    accepted :
        (raw : Uninitialised IpAddress) (ip : IpAddress) (port : ℕ)
        → handle_connection_request J P IpAddress ts V App raw ip port s ≡ ok (s', out)
        → Follows n s.c_manager (s', out)
    unfolding handle_connection_request send_connection_accept handler_at stoc_number
    accepted raw ip port e = elim (dec_lt n 2147483647) [
      | no ge ↦
          let full : n ≡ 2147483647 = omega (arith, served.bounded) in
          absurd (
            err-ne-ok undefined (s', out)
              (sym (
                  rw (accept_client_overflow IpAddress V VL raw ip port n s.c_manager served full)
                    refl)
                ∙ e))
      | yes lt ↦
          let (m, made, served', at_n, others) =
            accept_client_lem IpAddress V VL raw ip port n s.c_manager served lt in
          let c = bound IpAddress V VL raw ip port n s.c_manager served in
          let t : Server J P IpAddress ts V App = record s { c_manager = m } in
          let args : List (Arg J (length ts)) =
            int_arg (pos n) ∷ text_arg "Welcome to the server." ∷ [] in
          let sent =
            send_to_client_lem J P W IpAddress ts V App StoC.connection_accept n n args t c
              (served'.mapped n (omega arith)) at_n in
          let h = mk_packet J P IpAddress ts (stoc_number StoC.connection_accept) args s.host in
          let d : Datagram J P IpAddress = record {
            ip = ip;
            port = port;
            packet = h.send_buffer;
          } in
          let ran : handle_connection_request J P IpAddress ts V App raw ip port s
              ≡ ok (record t { host = h }, d ∷ []) =
            rw (made, at_n, sent) refl in
          subst (Follows n s.c_manager) (value_of _ (s', out) (sym ran ∙ e)) (
            suc n,
            served',
            λ k ip2 port2 (g, at_k, i, o). (
              g,
              others k (omega (arith, get_elem?-below _ k g at_k, served.created)) ∙ at_k,
              i,
              o,
            ),
            (
              inl (
                n,
                text "Welcome to the server." ∷ [],
                mk_packet_lem J P W IpAddress ts (pos 0) args s.host (omega arith)
                    (omega arith, tt),
                (c, at_n, refl, refl),
              ),
              tt,
            ),
          )
    ]

    of_client :
        (on_data : OnData J P IpAddress ts V App) (type : CtoS) (cid : ℤ) (p : P.Packet)
        → IsCalm on_data
        → handle_connected J P IpAddress ts V App on_data type cid p s ≡ ok (s', out)
        → Follows n s.c_manager (s', out)
    unfolding handle_connected
    of_client on_data CtoS.connection_request cid p calm e = absurd (err-ne-ok _ (s', out) e)
    of_client on_data CtoS.ping cid p calm e = pinged cid e
    of_client on_data CtoS.sync_request cid p calm e = synced cid p e
    of_client on_data CtoS.user_data cid p calm e =
        let (same, others) = calm cid p s s' out (halfway-eq-ok (on_data cid p s) (s', out) e) in
        same_clients same others
    of_client on_data CtoS.sync_satisfied cid p calm e = unchanged e
    of_client on_data (CtoS.unnamed i) cid p calm e = unchanged e

    from_client :
        (on_data : OnData J P IpAddress ts V App) (u : Unset) (type : CtoS) (p : P.Packet)
        → IsCalm on_data
        → handle_from_client J P IpAddress ts V App on_data u type p s ≡ ok (s', out)
        → Follows n s.c_manager (s', out)
    unfolding handle_from_client
    from_client on_data u type p calm e =
        let cid = (P.get_int u.int p).0 in
        elim (Bool-cases (has IpAddress cid s.c_manager)) [
          | inl b ↦ of_client on_data type cid (P.get_int u.int p).1 calm (rw b at e)
          | inr b ↦ unchanged (rw b at e)
        ]

    of_type :
        (on_data : OnData J P IpAddress ts V App) (u : Unset) (raw : Uninitialised IpAddress)
        (ip : IpAddress) (port : ℕ) (type : CtoS) (p : P.Packet)
        → IsCalm on_data
        → handle_type J P IpAddress ts V App on_data u raw ip port type p s ≡ ok (s', out)
        → Follows n s.c_manager (s', out)
    unfolding handle_type
    of_type on_data u raw ip port CtoS.connection_request p calm e = accepted raw ip port e
    of_type on_data u raw ip port type p calm e = from_client on_data u type p calm e

    -- Whatever datagram arrives, a server with `n` clients, whose functions leave the clients to the
    -- session, goes on with its clients, each bound to its address, and acceptances only go to the
    -- address that their identifier is bound to.
    pub receive-Follows :
        (on_data : OnData J P IpAddress ts V App) (u : Unset) (raw : Uninitialised IpAddress)
        (d : Datagram J P IpAddress)
        → IsCalm on_data
        → receive J P IpAddress ts V App on_data u raw (some d) s ≡ ok (s', out)
        → Follows n s.c_manager (s', out)
    unfolding receive receive_round try_forward handle
    receive-Follows on_data u raw d calm e = elim (recover-eq-ok J P IpAddress s _ (s', out) e) [
      | inl done ↦ of_type on_data u raw d.ip d.port _ (P.get_ntype u.ntype d.packet).1 calm done
      | inr same ↦ unchanged (ap ok same)
    ]
