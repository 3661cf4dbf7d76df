-- ===== src/Server/Objects.antt =====
-- Whatever the server receives, its objects change by the program's functions only.
use auto_sync_gen.Prelude.{
  ℤ, ◌≡◌, sym, ap, ◌⊎◌, inl, inr, List, [], ◌∷◌, length, some, Bool-cases, ℕ,
}
use auto_sync_gen.Result.{Result, ok, >>=-eq-ok, value_of, err-ne-ok, halfway-eq-ok}
use auto_sync_gen.Ssvu.{Ssvu}
use auto_sync_gen.Json.{Json}
use auto_sync_gen.Difference.{get_diff_with}
use auto_sync_gen.SyncManager
use auto_sync_gen.SyncManager.{SyncType}
use auto_sync_gen.Connection.{Uninitialised, has, at_cid, handler_at, accept_client, ping_received}
use auto_sync_gen.Packet.{CtoS, StoC, PacketLib, Arg, diff_arg, pop_snapshot}
use auto_sync_gen.Session.{Unset, Datagram, try_forward, receive_round, mk_packet}
use auto_sync_gen.Session.Packets.{recover-eq-ok}
use auto_sync_gen.Server.{
  Server, OnData, send_to_client, send_connection_accept, handle_connection_request, handle_ping,
  handle_sync_request, handle_connected, handle_from_client, handle_type, handle, receive,
}

module _ (J : Json) (P : PacketLib J.Val) (IpAddress : Type 0) (ts : List (SyncType J)) (V : Ssvu)
    (App : Type 0) where
  -- The objects and what the program's functions have captured are the same.
  abbrev pub KeepsObjects : Server J P IpAddress ts V App → Server J P IpAddress ts V App → Type 0
  KeepsObjects s s' = (s'.host.sync_manager ≡ s.host.sync_manager) × (s'.app ≡ s.app)

  module _ (s s' : Server J P IpAddress ts V App) (out : List (Datagram J P IpAddress)) where
    kept :
        ◌≡◌ {A = Result (Server J P IpAddress ts V App × List (Datagram J P IpAddress))}
          (ok (s, []))
          (ok (s', out))
        → KeepsObjects s s'
    kept e =
        let same = sym (value_of (s, []) (s', out) e) in
        (ap (λ x. x.0.host.sync_manager) same, ap (λ x. x.0.app) same)

    send_to_client-KeepsObjects :
        (type : StoC) (cid : ℤ) (args : List (Arg J (length ts)))
        → send_to_client J P IpAddress ts V App type cid args s ≡ ok (s', out)
        → KeepsObjects s s'
    unfolding send_to_client mk_packet
    send_to_client-KeepsObjects type cid args e =
        elim (Bool-cases (has IpAddress cid s.c_manager)) [
          | inr b ↦ kept (rw b at e)
          | inl b ↦
              let (ch, r1, e1) = >>=-eq-ok (at_cid IpAddress cid s.c_manager) _ (rw b at e) in
              let (c, r2, e2) =
                >>=-eq-ok (handler_at IpAddress ch s.c_manager.client_handlers) _ e1 in
              let same = sym (value_of _ (s', out) e2) in
              (ap (λ x. x.0.host.sync_manager) same, ap (λ x. x.0.app) same)
        ]

  module _ (on_data : OnData J P IpAddress ts V App) (s s' : Server J P IpAddress ts V App)
      (out : List (Datagram J P IpAddress)) where
    abbrev Changes : Type 0
    Changes = KeepsObjects s s' ⊎ ((cid : ℤ) × (q : P.Packet) × (on_data cid q s ≡ ok (s', out)))

    of_client :
        (type : CtoS) (cid : ℤ) (p : P.Packet)
        → handle_connected J P IpAddress ts V App on_data type cid p s ≡ ok (s', out)
        → Changes
    unfolding handle_connected handle_ping handle_sync_request
    of_client CtoS.connection_request cid p e = absurd (err-ne-ok _ (s', out) e)
    of_client CtoS.ping cid p e =
        let (m, r, rest) = >>=-eq-ok (ping_received IpAddress cid s.c_manager) _ e in
        let same = sym (value_of _ (s', out) rest) in
        inl (ap (λ x. x.0.host.sync_manager) same, ap (λ x. x.0.app) same)
    of_client CtoS.sync_request cid p e =
        let (x, r1, e1) = >>=-eq-ok (pop_snapshot J P (length ts) p) _ e in
        let (y, r2, e2) = >>=-eq-ok (SyncManager.get_snapshot J ts s.host.sync_manager) _ e1 in
        let (z, r3, e3) = >>=-eq-ok (get_diff_with J (length ts) y x.0) _ e2 in
        inl (
          send_to_client-KeepsObjects s s' out StoC.sync_request_satisfy cid (diff_arg z.1 ∷ []) e3)
    of_client CtoS.user_data cid p e = inr (cid, p, halfway-eq-ok (on_data cid p s) (s', out) e)
    of_client CtoS.sync_satisfied cid p e = inl (kept s s' out e)
    of_client (CtoS.unnamed i) cid p e = inl (kept s s' out e)

    from_client :
        (u : Unset) (type : CtoS) (p : P.Packet)
        → handle_from_client J P IpAddress ts V App on_data u type p s ≡ ok (s', out)
        → Changes
    unfolding handle_from_client
    from_client u type p e =
        let cid = (P.get_int u.int p).0 in
        elim (Bool-cases (has IpAddress cid s.c_manager)) [
          | inl b ↦ of_client type cid (P.get_int u.int p).1 (rw b at e)
          | inr b ↦ inl (kept s s' out (rw b at e))
        ]

    of_type :
        (u : Unset) (raw : Uninitialised IpAddress) (ip : IpAddress) (port : ℕ) (type : CtoS)
        (p : P.Packet)
        → handle_type J P IpAddress ts V App on_data u raw ip port type p s ≡ ok (s', out)
        → Changes
    unfolding handle_type handle_connection_request send_connection_accept
    of_type u raw ip port CtoS.connection_request p e =
        let ((m, ch), r1, e1) = >>=-eq-ok (accept_client IpAddress V raw ip port s.c_manager) _ e in
        let (c, r2, e2) = >>=-eq-ok (handler_at IpAddress ch m.client_handlers) _ e1 in
        inl (send_to_client-KeepsObjects (record s { c_manager = m }) s' out _ c.cid _ e2)
    of_type u raw ip port type p e = from_client u type p e

    -- If what the server makes of a datagram returns, then either its objects and what the program's
    -- functions have captured are as they were, or those functions made the new state and the answers.
    pub receive-Changes :
        (u : Unset) (raw : Uninitialised IpAddress) (d : Datagram J P IpAddress)
        → receive J P IpAddress ts V App on_data u raw (some d) s ≡ ok (s', out)
        → KeepsObjects s s' ⊎ ((cid : ℤ) × (q : P.Packet) × (on_data cid q s ≡ ok (s', out)))
    unfolding receive receive_round try_forward handle
    receive-Changes u raw d e = elim (recover-eq-ok J P IpAddress s _ (s', out) e) [
      | inl done ↦ of_type u raw d.ip d.port _ (P.get_ntype u.ntype d.packet).1 done
      | inr same ↦ inl (kept s s' out (ap ok same))
    ]
