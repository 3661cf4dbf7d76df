-- ===== src/Protocol/Round.antt =====
-- A client asks to be brought up to date, and applies the answer.
use auto_sync_gen.Prelude.{
  ℕ, ◌<◌, pos, ◌≡◌, refl, sym, subst, ap, ◌∙◌, List, [], ◌∷◌, length, some, get_elem?, arith,
}
use auto_sync_gen.Result.{ok, >>=-eq-ok, value_of}
use auto_sync_gen.Ssvu.{Ssvu}
use auto_sync_gen.Json.{Json, JsonLaws, EmptyAsArray}
use auto_sync_gen.Snapshot.{
  Snapshot, Diff, snapshot_from_json, snapshot_to_json, diff_from_json, diff_to_json,
}
use auto_sync_gen.Snapshot.DiffWire.{diff_from_json-diff_to_json}
use auto_sync_gen.Difference.{get_diff_with}
use auto_sync_gen.Difference.Sorted.{get_diff_with-IsTypeDiff}
use auto_sync_gen.SyncManager.{SyncType, SyncManager, get_snapshot, apply_diff}
use auto_sync_gen.SyncManager.AllTypes.{
  AllLaws, AllSmall, AllValid, AllTrack, AllAgree, exchange_all, exchange_all-AllAgree,
}
use auto_sync_gen.SyncManager.Sent.{get_snapshot_sent}
use auto_sync_gen.Connection.{ClientHandler, Uninitialised}
use auto_sync_gen.Connection.Reach.{pos-ne-null, Served}
use auto_sync_gen.Packet.{PacketLib, PacketLaws, IsInt}
use auto_sync_gen.Session.{Unset, Datagram, arrived_from}
use auto_sync_gen.Server
use auto_sync_gen.Server.{Server}
use auto_sync_gen.Server.Requests.{Keeps, receive_sync_request}
use auto_sync_gen.Client
use auto_sync_gen.Client.{Client, send_sync_request}
use auto_sync_gen.Client.Answers.{send_sync_request_lem, receive_sync_request_satisfy}

module _ (J : Json) (JW : JsonLaws J) (E : EmptyAsArray J) (ts : List (SyncType J))
    (M : AllLaws J ts) where
  -- The steps of an exchange of all types, with the client's snapshot and the difference read back
  -- from their json.
  pub exchange_sent :
      (server client : SyncManager J ts)
      → AllSmall J ts
      → AllValid J ts M server
      → AllValid J ts M client
      → AllTrack J ts server client
      → (mine theirs mine' : Snapshot J (length ts)) × (d : Diff J (length ts))
        × (client' : SyncManager J ts) × (get_snapshot J ts server ≡ ok mine)
        × (get_snapshot J ts client ≡ ok theirs)
        × (snapshot_from_json J (length ts) (snapshot_to_json J (length ts) theirs) ≡ ok theirs)
        × (get_diff_with J (length ts) mine theirs ≡ ok (mine', d))
        × (diff_from_json J (length ts) (diff_to_json J (length ts) d) ≡ ok d)
        × (apply_diff J ts d client ≡ ok client')
        × AllValid J ts M client'
        × AllAgree J ts server client'
  unfolding exchange_all
  exchange_sent server client small vs vc tracks =
      let (client', run, valid, agree) =
        exchange_all-AllAgree J JW ts M server client small vs vc tracks in
      let (theirs0, taken0, back0) = get_snapshot_sent J JW ts M client vc in
      let (mine, rs, e1) = >>=-eq-ok (get_snapshot J ts server) _ run in
      let (theirs, rc, e2) = >>=-eq-ok (get_snapshot J ts client) _ e1 in
      let ((mine', d), rd, applied) = >>=-eq-ok (get_diff_with J (length ts) mine theirs) _ e2 in
      let same : theirs0 ≡ theirs = value_of theirs0 theirs (sym taken0 ∙ rc) in
      (
        mine,
        theirs,
        mine',
        d,
        client',
        rs,
        rc,
        subst (λ t. snapshot_from_json J (length ts) (snapshot_to_json J (length ts) t) ≡ ok t) same
            back0,
        rd,
        diff_from_json-diff_to_json J JW E (length ts) d
            (get_diff_with-IsTypeDiff J (length ts) mine theirs mine' d rd),
        applied,
        valid,
        agree,
      )

  module _ (P : PacketLib J.Val) (W : PacketLaws J.Val P) (IpAddress : Type 0) (V : Ssvu)
      (App : Type 0) (on_server_data : Server.OnData J P IpAddress ts V App)
      (on_client_data : Client.OnData J P IpAddress ts) (us uc : Unset) where
    -- For types with at most `maxObjs` fields each, if an empty json object serves as an array, the
    -- server serves the client under its identifier, the objects of both are well formed, and each
    -- field of a server's object that differs from the client's is marked dirty, then the client's
    -- request, the server's answer and what the client does with it all succeed, provided that the
    -- two packets arrive: the client then has the server's objects, and the server keeps its own.
    pub round-AllAgree :
        (n i : ℕ) (s : Server J P IpAddress ts V App) (c : Client J P IpAddress ts)
        (raw : Uninitialised IpAddress) (ip server_ip : IpAddress) (port server_port : ℕ)
        → AllSmall J ts
        → Served IpAddress n s.c_manager
        → i < n
        → c.cid ≡ pos i
        → AllValid J ts M s.host.sync_manager
        → AllValid J ts M c.host.sync_manager
        → AllTrack J ts s.host.sync_manager c.host.sync_manager
        → (c1 c2 : Client J P IpAddress ts) × (s1 : Server J P IpAddress ts V App) × (d1
            d2 : Datagram J P IpAddress)
          × (send_sync_request J P IpAddress ts c ≡ ok (c1, d1 ∷ []))
          × (Server.receive J P IpAddress ts V App on_server_data us raw
                (some (arrived_from J P IpAddress ip port d1))
                s
              ≡ ok (s1, d2 ∷ []))
          × (Client.receive J P IpAddress ts on_client_data uc
                (some (arrived_from J P IpAddress server_ip server_port d2))
                c1
              ≡ ok (c2, []))
          × ((h : ClientHandler IpAddress) × (get_elem? s.c_manager.client_handlers i ≡ some h)
              × (d2.ip ≡ h.ip)
              × (d2.port ≡ h.port))
          × Keeps J P W IpAddress ts V App s s1
          × (c2.cid ≡ pos i)
          × AllValid J ts M c2.host.sync_manager
          × AllAgree J ts s1.host.sync_manager c2.host.sync_manager
    round-AllAgree n i s c raw ip server_ip port server_port small served lt id vs vc tracks =
        let (mine, theirs, mine', d, client', rs, rc, back, rd, dback, applied, valid, agree) =
          exchange_sent s.host.sync_manager c.host.sync_manager small vs vc tracks in
        let in_range : IsInt c.cid = subst IsInt (sym id) (omega (arith, served.bounded)) in
        let ((c1, out), asked, (p, one, held, m, id1, sip, sport)) =
          send_sync_request_lem J P W IpAddress ts c (λ h. pos-ne-null i (sym id ∙ h)) in_range
            theirs rc in
        let d1 : Datagram J P IpAddress = record {
          ip = c.server_ip;
          port = c.server_port;
          packet = p;
        } in
        let (s1, h, q, answered, reply, at_i, keeps) =
          receive_sync_request J P W IpAddress ts V App on_server_data us raw
            (arrived_from J P IpAddress ip port d1) s n served i theirs mine mine' d lt
            (rw id at held) back rs rd in
        let d2 : Datagram J P IpAddress = record { ip = h.ip; port = h.port; packet = q } in
        let done =
          receive_sync_request_satisfy J P W IpAddress ts c1 on_client_data uc
            (arrived_from J P IpAddress server_ip server_port d2) d client' [] reply dback
            (rw m applied) in
        (
          c1,
          record c1 { host = record c1.host { sync_manager = client' } },
          s1,
          d1,
          d2,
          asked ∙ ap (λ o. ok (c1, o)) one,
          answered,
          done,
          (h, at_i, refl, refl),
          keeps,
          id1 ∙ id,
          valid,
          subst (λ x. AllAgree J ts x client') (sym keeps.0) agree,
        )
