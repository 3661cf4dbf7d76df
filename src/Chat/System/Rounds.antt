-- ===== src/Chat/System/Rounds.antt =====
-- Each event of the chat leaves its messages as a history of creations, edits and exchanges would.
use auto_sync_gen.Prelude.{
  ℕ, ℤ, pos, ◌≡◌, ◌≢◌, refl, sym, subst, ap, ◌∙◌, List, [], ◌∷◌, true, arith, append-nil,
}
use auto_sync_gen.Result.{Result, ok, >>=-eq-ok, value_of, ok_unique}
use auto_sync_gen.Ssvu.{Ssvu, SsvuLaws}
use auto_sync_gen.Json.{Json, JsonLaws, EmptyAsArray}
use auto_sync_gen.Lifetime.{Lifetime, LifetimeLaws}
use auto_sync_gen.Connection.{ClientHandlerManager, null_cid, has}
use auto_sync_gen.Connection.Reach.{pos-ne-null}
use auto_sync_gen.Packet.{PacketLib, PacketLaws, ntype, int, IsInt, Arg}
use auto_sync_gen.Packet.Contents.{items_of, AreInts}
use auto_sync_gen.Session.{Datagram, arrived_from}
use auto_sync_gen.Session.Packets.{recover-halfway}
use auto_sync_gen.Server.Requests.{receive_data, receive_ping}
use auto_sync_gen.Client.{send_ping, send_data_to_server}
use auto_sync_gen.Client.Answers.{send_data_to_server_lem, send_ping_lem}
use auto_sync_gen.Chat.{ChatTypes, message_types, chat_types, ChatServer, on_chat_data}
use auto_sync_gen.Chat.Menu.{ChatClient}
use auto_sync_gen.Chat.System.{
  Setting, World, client_messages, server_receives, to_server, to_client, round,
}
use auto_sync_gen.Chat.System.Moves.{on_chat_data-Moves, IsServing, receive-IsServing}

module _ (J : Json) (JW : JsonLaws J) (E : EmptyAsArray J) (C : ChatTypes J)
    (L : Lifetime J (message_types J C)) (M : LifetimeLaws J (message_types J C) L)
    (P : PacketLib J.Val) (PW : PacketLaws J.Val P) (IpAddress : Type 0) (V : Ssvu)
    (VL : SsvuLaws V) (Z : Setting J C L P IpAddress V) where
  module _
      (sends : ChatClient J C L P IpAddress V
        → Result (ChatClient J C L P IpAddress V × List (Datagram J P IpAddress)))
      (w w' : World J C L P IpAddress V) where
    -- The parts of a round that returns.
    pub round-eq-ok :
        round J C L P IpAddress V Z sends w ≡ ok w'
        → (c1 c2 : ChatClient J C L P IpAddress V) × (s : ChatServer J C L P IpAddress V) × (asked
            answers out : List (Datagram J P IpAddress))
          × (sends w.client ≡ ok (c1, asked))
          × (to_server J C L P IpAddress V Z asked w.server ≡ ok (s, answers))
          × (to_client J C L P IpAddress V Z answers c1 ≡ ok (c2, out))
          × (◌≡◌ {A = World J C L P IpAddress V} (record { server = s; client = c2 }) w')
    unfolding round
    round-eq-ok e =
        let ((c1, asked), r1, e1) = >>=-eq-ok (sends w.client) _ e in
        let ((s, answers), r2, e2) =
          >>=-eq-ok (to_server J C L P IpAddress V Z asked w.server) _ e1 in
        let ((c2, out), r3, e3) = >>=-eq-ok (to_client J C L P IpAddress V Z answers c1) _ e2 in
        (c1, c2, s, asked, answers, out, r1, r2, r3, value_of _ w' e3)

  pub to_server_one :
      (d : Datagram J P IpAddress) (s s' : ChatServer J C L P IpAddress V)
      (answers : List (Datagram J P IpAddress))
      → to_server J C L P IpAddress V Z (d ∷ []) s ≡ ok (s', answers)
      → server_receives J C L P IpAddress V Z (arrived_from J P IpAddress Z.ip Z.port d) s
        ≡ ok (s', answers)
  unfolding to_server
  to_server_one d s s' answers e =
      let ((s1, out), r, e1) =
        >>=-eq-ok
          (server_receives J C L P IpAddress V Z (arrived_from J P IpAddress Z.ip Z.port d) s) _
          e in
      r ∙ ap (λ x. ok (s1, x)) (sym (append-nil out)) ∙ e1

  -- The client is the one number `i` of the server.
  pub record IsJoined (i : ℕ) (w : World J C L P IpAddress V) : Type 0 where
    pub id : w.client.cid ≡ pos i
    pub serving :
        IsServing J C L P IpAddress V M i (client_messages J C L P IpAddress V w.client) w.server

  module _ (i : ℕ) (w : World J C L P IpAddress V) (joined : IsJoined i w) where
    connected : w.client.cid ≢ null_cid
    connected e = pos-ne-null i (sym joined.id ∙ e)

    in_range : IsInt w.client.cid
    in_range =
        subst IsInt (sym joined.id)
          (omega (arith, joined.serving.served.bounded, joined.serving.below))

    -- A new state of the server, and of the client up to what it is about to send.
    IsJoined-still :
        (s : ChatServer J C L P IpAddress V) (c : ChatClient J C L P IpAddress V)
        → c.cid ≡ w.client.cid
        → c.host.sync_manager ≡ w.client.host.sync_manager
        → IsServing J C L P IpAddress V M i (client_messages J C L P IpAddress V w.client) s
        → IsJoined i (record { server = s; client = c })
    IsJoined-still s c id same serving = record {
      id = id ∙ joined.id;
      serving = subst (λ m. IsServing J C L P IpAddress V M i m.0 s) (sym same) serving;
    }

    -- What sends nothing.
    pub quiet :
        (sends : ChatClient J C L P IpAddress V
          → Result (ChatClient J C L P IpAddress V × List (Datagram J P IpAddress)))
        (c : ChatClient J C L P IpAddress V) (w' : World J C L P IpAddress V)
        → sends w.client ≡ ok (c, [])
        → c.cid ≡ w.client.cid
        → c.host.sync_manager ≡ w.client.host.sync_manager
        → round J C L P IpAddress V Z sends w ≡ ok w'
        → IsJoined i w'
    unfolding round to_server to_client
    quiet sends c w' sent id same e =
        subst (IsJoined i)
          (ok_unique (round J C L P IpAddress V Z sends w)
            (record { server = w.server; client = c }) w' (rw sent refl) e)
          (IsJoined-still w.server c id same joined.serving)

    -- A datagram that the server does not answer.
    unanswered :
        (sends : ChatClient J C L P IpAddress V
          → Result (ChatClient J C L P IpAddress V × List (Datagram J P IpAddress)))
        (c : ChatClient J C L P IpAddress V) (d : Datagram J P IpAddress)
        (w' : World J C L P IpAddress V)
        → sends w.client ≡ ok (c, d ∷ [])
        → c.cid ≡ w.client.cid
        → c.host.sync_manager ≡ w.client.host.sync_manager
        → ((s : ChatServer J C L P IpAddress V) (answers : List (Datagram J P IpAddress))
            → server_receives J C L P IpAddress V Z
                (arrived_from J P IpAddress Z.ip Z.port d)
                w.server
              ≡ ok (s, answers)
            → answers ≡ [])
        → round J C L P IpAddress V Z sends w ≡ ok w'
        → IsJoined i w'
    unfolding to_client
    unanswered sends c d w' sent id same silent e =
        let (c1, c2, s, asked, answers, out, r1, r2, r3, done) = round-eq-ok sends w w' e in
        let first = ok_unique (sends w.client) (c1, asked) (c, d ∷ []) r1 sent in
        let got =
          to_server_one d w.server s answers (
            subst (λ x. to_server J C L P IpAddress V Z x.1 w.server ≡ ok (s, answers)) first r2) in
        let nothing = silent s answers got in
        let last =
          value_of (c1, []) (c2, out)
            (subst (λ x. to_client J C L P IpAddress V Z x c1 ≡ ok (c2, out)) nothing r3) in
        let c-c2 : c ≡ c2 = ap (λ x. x.0) (sym first) ∙ ap (λ x. x.0) last in
        subst (IsJoined i) done (
          IsJoined-still s c2 (subst (λ x. x.cid ≡ w.client.cid) c-c2 id)
            (subst (λ x. x.host.sync_manager ≡ w.client.host.sync_manager) c-c2 same)
            (receive-IsServing J C L P IpAddress V M PW VL Z i
              (client_messages J C L P IpAddress V w.client)
              (arrived_from J P IpAddress Z.ip Z.port d) w.server s answers joined.serving got))

    -- What is sent as data: the server handles it and answers nothing.
    pub as_data :
        (sends : ChatClient J C L P IpAddress V
          → Result (ChatClient J C L P IpAddress V × List (Datagram J P IpAddress)))
        (args : List (Arg J 1)) (w' : World J C L P IpAddress V)
        → sends w.client
          ≡ send_data_to_server J P IpAddress (chat_types J C L P IpAddress V) args w.client
        → AreInts J P PW 1 args
        → round J C L P IpAddress V Z sends w ≡ ok w'
        → IsJoined i w'
    unfolding has
    as_data sends args w' same_sends ints e =
        let ((c1, out), sent, (p, one, held, same, id, sip, sport)) =
          send_data_to_server_lem J P PW IpAddress (chat_types J C L P IpAddress V) w.client
            connected in_range args ints in
        let d : Datagram J P IpAddress = record {
          ip = w.client.server_ip;
          port = w.client.server_port;
          packet = p;
        } in
        let known : has IpAddress w.client.cid w.server.c_manager ≡ true =
          rw (joined.id, joined.serving.served.mapped i joined.serving.below) refl in
        let (q, ran, left) =
          receive_data J P PW IpAddress (chat_types J C L P IpAddress V) V ℤ
            (on_chat_data J C L P IpAddress V Z.locals) Z.at_server Z.raw
            (arrived_from J P IpAddress Z.ip Z.port d) w.server w.client.cid
            (items_of J P PW 1 args) held known in
        unanswered sends c1 d w' (same_sends ∙ sent ∙ ap (λ x. ok (c1, x)) one) id same
          (λ s answers got.
            (on_chat_data-Moves J C L P IpAddress V Z.locals w.client.cid q w.server s answers
              (recover-halfway J P IpAddress w.server _ (s, answers) (sym ran ∙ got))).1)
          e

    -- A ping returns, and changes only the handlers of the clients.
    pub pinged :
        (c : ChatClient J C L P IpAddress V) × (d : Datagram J P IpAddress)
        × (m : ClientHandlerManager IpAddress) × (send_ping J P IpAddress
              (chat_types J C L P IpAddress V)
              w.client
            ≡ ok (c, d ∷ []))
        × (server_receives J C L P IpAddress V Z (arrived_from J P IpAddress Z.ip Z.port d) w.server
            ≡ ok (record w.server { c_manager = m }, []))
        × (c.cid ≡ w.client.cid)
        × (c.host.sync_manager ≡ w.client.host.sync_manager)
    pinged =
        let ((c1, out), sent, (p, one, held, same, id, sip, sport)) =
          send_ping_lem J P PW IpAddress (chat_types J C L P IpAddress V) w.client connected
            in_range in
        let d : Datagram J P IpAddress = record {
          ip = w.client.server_ip;
          port = w.client.server_port;
          packet = p;
        } in
        let (m, answered, served, reset) =
          receive_ping J P PW IpAddress (chat_types J C L P IpAddress V) V ℤ
            (on_chat_data J C L P IpAddress V Z.locals) Z.at_server Z.raw
            (arrived_from J P IpAddress Z.ip Z.port d) w.server joined.serving.number
            joined.serving.served i [] joined.serving.below
            (subst (λ x. PW.contents p ≡ ntype (pos 1) ∷ int x ∷ []) joined.id held) in
        (c1, d, m, sent ∙ ap (λ x. ok (c1, x)) one, answered, id, same)

    pub after_ping :
        (w' : World J C L P IpAddress V)
        → round J C L P IpAddress V Z (send_ping J P IpAddress (chat_types J C L P IpAddress V)) w
          ≡ ok w'
        → IsJoined i w'
    after_ping w' e =
        let (c1, d, m, sent, answered, id, same) = pinged in
        unanswered _ c1 d w' sent id same
          (λ s answers got.
            ap (λ x. x.1)
              (sym (
                ok_unique
                  (server_receives J C L P IpAddress V Z (arrived_from J P IpAddress Z.ip Z.port d)
                    w.server)
                  _ (s, answers) answered got)))
          e
