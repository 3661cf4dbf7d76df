-- ===== src/Client/Rounds.antt =====
-- The thread that sends the client's requests: a ping each round, and a request for synchronisation
-- with every fourth.
use auto_sync_gen.Prelude.{
  ℕ, zero, suc, ◌+◌, ◌/◌, ◌%◌, ◌<◌, ℤ, ◌≡◌, ◌≢◌, refl, sym, subst, ap, ◌∙◌, List, [], ◌∷◌, ◌++◌,
  length, ◌==◌, Bool-cases, inl, inr, length-append, arith,
}
use auto_sync_gen.Result.{ok, err, assertion}
use auto_sync_gen.Json.{Json}
use auto_sync_gen.Snapshot.{Snapshot}
use auto_sync_gen.SyncManager.{SyncType, get_snapshot}
use auto_sync_gen.Connection.{null_cid}
use auto_sync_gen.Packet.{PacketLib, PacketLaws, IsInt}
use auto_sync_gen.Session.{Datagram}
use auto_sync_gen.Client.{
  Client, send_connection_request, send_ping, sender_round, sender_rounds, sending_thread,
}
use auto_sync_gen.Client.Answers.{
  send_connection_request_lem, send_ping_lem, send_sync_request_lem, send_to_server_unconnected,
}

module _ (J : Json) (P : PacketLib J.Val) (W : PacketLaws J.Val P) (IpAddress : Type 0)
    (ts : List (SyncType J)) where
  -- Without an identifier.
  sender_round_unconnected :
      (i : ℕ) (c : Client J P IpAddress ts)
      → c.cid ≡ null_cid
      → sender_round J P IpAddress ts i c ≡ err assertion
  unfolding sender_round send_ping
  sender_round_unconnected i c e = rw (send_to_server_unconnected J P W IpAddress ts c _ [] e) refl

  -- If a client has no identifier, and what it receives in the second after its connection request
  -- gives it none, then its sending thread sends the request and fails an assertion at the first
  -- ping.
  pub sending_thread_unanswered :
      (second : Client J P IpAddress ts → Client J P IpAddress ts) (k : ℕ)
      (c : Client J P IpAddress ts)
      → c.cid ≡ null_cid
      → ((c1 : Client J P IpAddress ts) → c1.cid ≡ null_cid → (second c1).cid ≡ null_cid)
      → (c1 : Client J P IpAddress ts) × (d : Datagram J P IpAddress) × (send_connection_request J P
            IpAddress ts c
          ≡ ok (c1, d ∷ []))
        × (sending_thread J P IpAddress ts second (suc k) c ≡ err assertion)
  unfolding sending_thread sender_rounds
  sending_thread_unanswered second k c free silent =
      let ((c1, out), sent, (p, one, held, m, same, ip, port)) =
        send_connection_request_lem J P W IpAddress ts c free in
      let d : Datagram J P IpAddress = record {
        ip = c.server_ip;
        port = c.server_port;
        packet = p;
      } in
      (
        c1,
        d,
        sent ∙ ap (λ x. ok (c1, x)) one,
        rw (sent, sender_round_unconnected 0 (second c1) (silent c1 (same ∙ free))) refl,
      )

  module _ (s : Snapshot J (length ts)) where
    -- A client with an identifier, whose snapshot is `s`.
    pub record IsReady (cid : ℤ) (c : Client J P IpAddress ts) : Type 0 where
      pub same : c.cid ≡ cid
      pub connected : c.cid ≢ null_cid
      pub in_range : IsInt c.cid
      pub taken : get_snapshot J ts c.host.sync_manager ≡ ok s

    Sends-IsReady :
        (cid : ℤ) (c c' : Client J P IpAddress ts)
        → IsReady cid c
        → c'.host.sync_manager ≡ c.host.sync_manager
        → c'.cid ≡ c.cid
        → IsReady cid c'
    Sends-IsReady cid c c' r m e = record {
      same = e ∙ r.same;
      connected = λ h. r.connected (sym e ∙ h);
      in_range = subst IsInt (sym e) r.in_range;
      taken = rw m r.taken;
    }

    sender_round_lem :
        (cid : ℤ) (i : ℕ) (c : Client J P IpAddress ts)
        → i < 4
        → IsReady cid c
        → (c' : Client J P IpAddress ts) × (out : List (Datagram J P IpAddress)) × (sender_round J P
              IpAddress ts i c
            ≡ ok ((suc i) % 4, c', out))
          × (length out ≡ suc ((suc i) / 4))
          × IsReady cid c'
    unfolding sender_round
    sender_round_lem cid i c lt r =
        let ((c1, out), run, (p, e, k, m, same, ip, port)) =
          send_ping_lem J P W IpAddress ts c r.connected r.in_range in
        let r1 = Sends-IsReady cid c c1 r m same in
        elim (Bool-cases (suc i == 4)) [
          | inl last ↦
              let ((c2, more), run2, (p2, e2, k2, m2, same2, ip2, port2)) =
                send_sync_request_lem J P W IpAddress ts c1 r1.connected r1.in_range s r1.taken in
              let four : suc i ≡ 4 = ground arith in
              (
                c2,
                out ++ more,
                rw (run, last, run2, four) refl,
                rw (e, e2, four) refl,
                Sends-IsReady cid c1 c2 r1 m2 same2,
              )
          | inr early ↦
              let below : suc i < 4 = ground arith in
              let rest : (suc i) % 4 ≡ suc i = omega arith in
              let none : (suc i) / 4 ≡ 0 = omega arith in
              (c1, out, rw (run, early, rest) refl, rw (e, none) refl, r1)
        ]

    rounds_lem :
        (cid : ℤ) (k i : ℕ) (c : Client J P IpAddress ts)
        → i < 4
        → IsReady cid c
        → (c' : Client J P IpAddress ts) × (out : List (Datagram J P IpAddress)) × (sender_rounds J
              P IpAddress ts k i c
            ≡ ok ((i + k) % 4, c', out))
          × (length out ≡ k + (i + k) / 4)
          × IsReady cid c'
    unfolding sender_rounds
    rounds_lem cid zero i c lt r =
        let stays : i ≡ (i + 0) % 4 = omega arith in
        (c, [], ap (λ j. ok (j, c, [])) stays, omega arith, r)
    rounds_lem cid (suc k) i c lt r =
        let (c1, out, run, n, r1) = sender_round_lem cid i c lt r in
        let (c2, more, run2, n2, r2) = rounds_lem cid k ((suc i) % 4) c1 (omega arith) r1 in
        let again : ((suc i) % 4 + k) % 4 ≡ (i + suc k) % 4 = omega arith in
        (
          c2,
          out ++ more,
          rw (run, run2, again) refl,
          omega (arith, length-append out more, n, n2),
          r2,
        )

    -- If the client has an identifier in the range of `int` and its snapshot succeeds, then its
    -- first `k` rounds, while it receives nothing, succeed, send `k + k / 4` datagrams in all, and
    -- leave its identifier and its snapshot as they were.
    pub sender_rounds_lem :
        (cid : ℤ) (k : ℕ) (c : Client J P IpAddress ts)
        → IsReady cid c
        → (c' : Client J P IpAddress ts) × (out : List (Datagram J P IpAddress)) × (sender_rounds J
              P IpAddress ts k 0 c
            ≡ ok (k % 4, c', out))
          × (length out ≡ k + k / 4)
          × IsReady cid c'
    sender_rounds_lem cid k c r =
        let (c', out, run, n, r') = rounds_lem cid k 0 c (omega arith) r in
        let plain : 0 + k ≡ k = omega arith in (c', out, rw plain at run, rw plain at n, r')
