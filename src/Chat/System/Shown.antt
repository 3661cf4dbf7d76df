-- ===== src/Chat/System/Shown.antt =====
-- After any run of the chat, a synchronisation shows its user the server's messages.
use auto_sync_gen.Prelude.{ℕ, ℤ, pos, ◌≡◌, refl, sym, subst, ap, ◌∙◌, List, [], ◌∷◌, arith, true}
use auto_sync_gen.Result.{ok, >>=-eq-ok, value_of, ok_unique}
use auto_sync_gen.Ssvu.{Ssvu, SsvuLaws}
use auto_sync_gen.Json.{Json, JsonLaws, EmptyAsArray}
use auto_sync_gen.Lifetime.{Lifetime, LifetimeLaws}
use auto_sync_gen.SyncManager.Sent.{get_snapshot_sent}
use auto_sync_gen.TypeManager.{initial_type_state}
use auto_sync_gen.Sync.{Agrees}
use auto_sync_gen.Packet.{PacketLib, PacketLaws, int_arg, text_arg}
use auto_sync_gen.Session.{new_host}
use auto_sync_gen.Connection.Reach.{Served, initial_manager-Served}
use auto_sync_gen.Server.{new_server}
use auto_sync_gen.Client.{new_client}
use auto_sync_gen.Protocol.Handshake.{handshake_lem}
use auto_sync_gen.Sync.System.{Inv, initial_system-Inv}
use auto_sync_gen.Chat.{
  ChatTypes, message_types, chat_types, ChatServer, messages_of, send_msg_number, edit_msg_number,
  on_chat_data,
}
use auto_sync_gen.Chat.Menu.{
  Choice, new_message, edit_message, show_data, disconnect, other, ChatClient, choose,
  on_display_msg,
}
use auto_sync_gen.Chat.System.{
  Setting, World, Event, chooses, pings, synchronises, others, IsIntEvent, AreIntEvents, AfterOk,
  for_client, IsElsewhere, AreElsewhere, client_messages, server_receives, act, run, connect, round,
  to_server, to_client,
}
use auto_sync_gen.Chat.System.Moves.{receive-IsServing}
use auto_sync_gen.Chat.System.Rounds.{IsJoined, quiet, as_data, after_ping}
use auto_sync_gen.Chat.System.Synchronised.{synchronised}

module _ (J : Json) (JW : JsonLaws J) (E : EmptyAsArray J) (C : ChatTypes J)
    (L : Lifetime J (message_types J C)) (M : LifetimeLaws J (message_types J C) L)
    (P : PacketLib J.Val) (PW : PacketLaws J.Val P) (IpAddress : Type 0) (V : Ssvu)
    (VL : SsvuLaws V) (Z : Setting J C L P IpAddress V) where
  abbrev Joined : ℕ → World J C L P IpAddress V → Type 0
  Joined = IsJoined J JW E C L M P PW IpAddress V VL Z

  module _ (i : ℕ) (w : World J C L P IpAddress V) (joined : Joined i w) where
    pub choose-IsJoined :
        (choice : Choice) (w' : World J C L P IpAddress V)
        → IsIntEvent J C L P IpAddress V (chooses choice)
        → act J C L P IpAddress V Z (chooses choice) w ≡ ok w'
        → Joined i w'
    unfolding act choose
    choose-IsJoined (new_message text) w' ints e =
        as_data J JW E C L M P PW IpAddress V VL Z i w joined _
          (int_arg send_msg_number ∷ text_arg Z.name ∷ text_arg text ∷ []) w' refl (omega arith, tt)
          e
    choose-IsJoined (edit_message m text) w' ints e =
        as_data J JW E C L M P PW IpAddress V VL Z i w joined _
          (int_arg edit_msg_number ∷ text_arg Z.name ∷ int_arg m ∷ text_arg text ∷ []) w' refl
          (omega arith, (ints, tt)) e
    choose-IsJoined show_data w' ints e =
        let (taken, returns, back) =
          get_snapshot_sent J JW (chat_types J C L P IpAddress V) (M, tt) w.client.host.sync_manager
            (joined.serving.history.client_valid, tt) in
        quiet J JW E C L M P PW IpAddress V VL Z i w joined _ w.client w' (rw returns refl) refl
          refl e
    choose-IsJoined disconnect w' ints e =
        quiet J JW E C L M P PW IpAddress V VL Z i w joined _ _ w' refl refl refl e
    choose-IsJoined (other n) w' ints e =
        quiet J JW E C L M P PW IpAddress V VL Z i w joined _ w.client w' refl refl refl e

    pub act-IsJoined :
        (e : Event J C L P IpAddress V) (w' : World J C L P IpAddress V)
        → IsIntEvent J C L P IpAddress V e
        → IsElsewhere J C L P IpAddress V Z e w
        → act J C L P IpAddress V Z e w ≡ ok w'
        → Joined i w'
    unfolding act to_client
    act-IsJoined (chooses choice) w' ints elsewhere e = choose-IsJoined choice w' ints e
    act-IsJoined pings w' ints elsewhere e =
        after_ping J JW E C L M P PW IpAddress V VL Z i w joined w' e
    act-IsJoined synchronises w' ints elsewhere e =
        let (w1, done, next, same, app, agrees) =
          synchronised J JW E C L M P PW IpAddress V VL Z i w joined in
        subst (Joined i) (ok_unique (act J C L P IpAddress V Z synchronises w) w1 w' done e) next
    act-IsJoined (others d) w' ints elsewhere e =
        let ((s, out), got, e1) =
          >>=-eq-ok (server_receives J C L P IpAddress V Z d w.server) _ e in
        let ((c, more), arrived, done) =
          >>=-eq-ok
            (to_client J C L P IpAddress V Z (for_client J C L P IpAddress V Z out) w.client) _
            e1 in
        let nothing : for_client J C L P IpAddress V Z out ≡ [] =
          subst
            (λ r. AfterOk J C L P IpAddress V r (λ x. for_client J C L P IpAddress V Z x.1 ≡ []))
            got elsewhere in
        let last =
          value_of (w.client, []) (c, more)
            (subst (λ x. to_client J C L P IpAddress V Z x w.client ≡ ok (c, more)) nothing
              arrived) in
        subst (Joined i) (ap (λ x. record { server = s; client = x.0 }) last ∙ value_of _ w' done)
          (record {
            id = joined.id;
            serving =
                receive-IsServing J C L P IpAddress V M PW VL Z i
                  (client_messages J C L P IpAddress V w.client) d w.server s out joined.serving
                  got;
          })

  run-IsJoined :
      (i : ℕ) (todo : List (Event J C L P IpAddress V)) (w w' : World J C L P IpAddress V)
      → Joined i w
      → AreIntEvents J C L P IpAddress V todo
      → AreElsewhere J C L P IpAddress V Z todo w
      → run J C L P IpAddress V Z todo w ≡ ok w'
      → Joined i w'
  unfolding run
  run-IsJoined i [] w w' joined ints elsewhere e = subst (Joined i) (value_of w w' e) joined
  run-IsJoined i (a ∷ todo) w w' joined (int, ints) (here, later) e =
      let (w1, done, rest) = >>=-eq-ok (act J C L P IpAddress V Z a w) _ e in
      run-IsJoined i todo w1 w' (act-IsJoined i w joined a w1 int here done) ints
        (subst (λ r. AfterOk J C L P IpAddress V r (AreElsewhere J C L P IpAddress V Z todo)) done
          later)
        rest

  -- A new client connects to a new server.
  pub connected_lem :
      (local_ip : IpAddress) (local_port : ℕ) (s : ChatServer J C L P IpAddress V)
      (c : ChatClient J C L P IpAddress V) (n : ℤ)
      → new_server J P IpAddress
          (chat_types J C L P IpAddress V)
          V
          ℤ
          Z.server_ip
          Z.server_port
          true
          n
        ≡ ok s
      → new_client J P IpAddress
          (chat_types J C L P IpAddress V)
          local_ip
          local_port
          true
          Z.server_ip
          Z.server_port
        ≡ ok c
      → (w : World J C L P IpAddress V) × (connect J C L P IpAddress V Z
            (record { server = s; client = c })
          ≡ ok w)
        × (joined : Joined 0 w) × (joined.serving.number ≡ 1)
        × (messages_of J C L P IpAddress V w.server ≡ initial_type_state J (message_types J C) L)
        × (w.server.app ≡ n)
  unfolding new_server new_client new_host connect round to_server to_client
  connected_lem local_ip local_port s c n made_s made_c =
      let is_s = value_of _ s made_s in
      let is_c = value_of _ c made_c in
      let (
        c1, c2, s1, d1, d2, asked, answered, accepted, ip1, port1, ip2, port2, id, served, h, sm,
        cm, app,
      ) =
        handshake_lem J P PW IpAddress (chat_types J C L P IpAddress V) V VL ℤ
          (on_chat_data J C L P IpAddress V Z.locals) (on_display_msg J C L P IpAddress V)
          Z.at_server Z.at_client 0 s c Z.raw Z.ip Z.server_ip Z.port Z.server_port
          (subst (λ x. Served IpAddress 0 x.c_manager) is_s (initial_manager-Served IpAddress))
          (omega arith) (ap (λ x. x.cid) (sym is_c)) in
      (
        record { server = s1; client = c2 },
        rw (asked, answered, accepted) refl,
        record {
          id = id;
          serving = record {
            number = 1;
            served = served;
            below = omega arith;
            history =
                subst (λ m. Inv J (message_types J C) L M m)
                  (ap
                      (λ m. record {
                        server = m.0;
                        client = initial_type_state J (message_types J C) L;
                      })
                      (sym (sm ∙ ap (λ x. x.host.sync_manager) (sym is_s)))
                    ∙ ap (λ m. record { server = messages_of J C L P IpAddress V s1; client = m.0 })
                        (sym (cm ∙ ap (λ x. x.host.sync_manager) (sym is_c))))
                  (initial_system-Inv J (message_types J C) L M);
          };
        },
        refl,
        ap (λ m. m.0) (sm ∙ ap (λ x. x.host.sync_manager) (sym is_s)),
        app ∙ ap (λ x. x.app) (sym is_s),
      )

-- If a server and a client of the chat are set up and the client connects, and a run returns of what
-- the user chooses, with `int`s as identifiers, what the sending thread sends, and datagrams of
-- others, to which the server sends no answer that is addressed to the client, then the next
-- synchronisation returns: the server keeps its messages, and the client has messages under exactly
-- the server's identifiers, each with the server's fields, provided that the packets of the two
-- arrive and that an empty json object serves as an array.
pub run-Shows :
    (J : Json) (JW : JsonLaws J) (E : EmptyAsArray J) (C : ChatTypes J)
    (L : Lifetime J (message_types J C)) (M : LifetimeLaws J (message_types J C) L)
    (P : PacketLib J.Val) (PW : PacketLaws J.Val P) (IpAddress : Type 0) (V : Ssvu)
    (VL : SsvuLaws V) (Z : Setting J C L P IpAddress V) (local_ip : IpAddress) (local_port : ℕ)
    (s : ChatServer J C L P IpAddress V) (c : ChatClient J C L P IpAddress V)
    (todo : List (Event J C L P IpAddress V)) (w0 w : World J C L P IpAddress V)
    → new_server J P IpAddress
        (chat_types J C L P IpAddress V)
        V
        ℤ
        Z.server_ip
        Z.server_port
        true
        (pos 0)
      ≡ ok s
    → new_client J P IpAddress
        (chat_types J C L P IpAddress V)
        local_ip
        local_port
        true
        Z.server_ip
        Z.server_port
      ≡ ok c
    → connect J C L P IpAddress V Z (record { server = s; client = c }) ≡ ok w0
    → AreIntEvents J C L P IpAddress V todo
    → AreElsewhere J C L P IpAddress V Z todo w0
    → run J C L P IpAddress V Z todo w0 ≡ ok w
    → (w' : World J C L P IpAddress V) × (act J C L P IpAddress V Z synchronises w ≡ ok w')
      × (messages_of J C L P IpAddress V w'.server ≡ messages_of J C L P IpAddress V w.server)
      × Agrees J
          (message_types J C)
          L
          (messages_of J C L P IpAddress V w'.server)
          (client_messages J C L P IpAddress V w'.client)
run-Shows J JW E C L M P PW IpAddress V VL Z local_ip local_port s c todo w0 w made_s made_c met
      ints elsewhere e =
    let (w1, connected, joined, one, empty, app) =
      connected_lem J JW E C L M P PW IpAddress V VL Z local_ip local_port s c (pos 0) made_s
        made_c in
    let same_world =
      ok_unique (connect J C L P IpAddress V Z (record { server = s; client = c })) w1 w0 connected
        met in
    let at_w0 = subst (IsJoined J JW E C L M P PW IpAddress V VL Z 0) same_world joined in
    let (w', done, next, same, app, agrees) =
      synchronised J JW E C L M P PW IpAddress V VL Z 0 w
        (run-IsJoined J JW E C L M P PW IpAddress V VL Z 0 todo w0 w at_w0 ints elsewhere e) in
    (w', done, same, agrees)
