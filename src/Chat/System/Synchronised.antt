-- ===== src/Chat/System/Synchronised.antt =====
-- A round of synchronisation of the chat.
use auto_sync_gen.Prelude.{ℕ, ℤ, ◌≡◌, refl, sym, subst, ap, arith}
use auto_sync_gen.Result.{ok}
use auto_sync_gen.Ssvu.{Ssvu, SsvuLaws}
use auto_sync_gen.Json.{Json, JsonLaws, EmptyAsArray}
use auto_sync_gen.Lifetime.{Lifetime, LifetimeLaws}
use auto_sync_gen.Sync.{Agrees}
use auto_sync_gen.Sync.System.{Inv, agreed-Inv}
use auto_sync_gen.Connection.Reach.{Served}
use auto_sync_gen.Packet.{PacketLib, PacketLaws}
use auto_sync_gen.Protocol.Round.{round-AllAgree}
use auto_sync_gen.Chat.{ChatTypes, message_types, chat_types, messages_of, on_chat_data}
use auto_sync_gen.Chat.Menu.{on_display_msg}
use auto_sync_gen.Chat.System.{
  Setting, World, synchronises, client_messages, to_server, to_client, round, act,
}
use auto_sync_gen.Chat.System.Rounds.{IsJoined}

module _ (J : Json) (JW : JsonLaws J) (E : EmptyAsArray J) (C : ChatTypes J)
    (L : Lifetime J (message_types J C)) (M : LifetimeLaws J (message_types J C) L)
    (P : PacketLib J.Val) (PW : PacketLaws J.Val P) (IpAddress : Type 0) (V : Ssvu)
    (VL : SsvuLaws V) (Z : Setting J C L P IpAddress V) where
  module _ (i : ℕ) (w : World J C L P IpAddress V)
      (joined : IsJoined J JW E C L M P PW IpAddress V VL Z i w) where
    -- A round of synchronisation returns, and the client then has the server's messages.
    pub synchronised :
        (w' : World J C L P IpAddress V) × (act J C L P IpAddress V Z synchronises w ≡ ok w')
        × IsJoined J JW E C L M P PW IpAddress V VL Z i w'
        × (messages_of J C L P IpAddress V w'.server ≡ messages_of J C L P IpAddress V w.server)
        × (w'.server.app ≡ w.server.app)
        × Agrees J
            (message_types J C)
            L
            (messages_of J C L P IpAddress V w'.server)
            (client_messages J C L P IpAddress V w'.client)
    unfolding act round to_server to_client
    synchronised =
        let serving = joined.serving in
        let history = serving.history in
        let (c1, c2, s1, d1, d2, asked, answered, applied, at_i, keeps, id, valid, agree) =
          round-AllAgree J JW E (chat_types J C L P IpAddress V) (M, tt) P PW IpAddress V ℤ
            (on_chat_data J C L P IpAddress V Z.locals) (on_display_msg J C L P IpAddress V)
            Z.at_server Z.at_client serving.number i w.server w.client Z.raw Z.ip Z.server_ip Z.port
            Z.server_port (omega arith, tt) serving.served serving.below joined.id
            (history.server_valid, tt) (history.client_valid, tt) (history.tracks, tt) in
        let same : messages_of J C L P IpAddress V s1 ≡ messages_of J C L P IpAddress V w.server =
          ap (λ x. x.0) keeps.0 in
        let agrees : Agrees J (message_types J C) L (messages_of J C L P IpAddress V s1)
            (client_messages J C L P IpAddress V c2) =
          agree.0 in
        (
          record { server = s1; client = c2 },
          rw (asked, answered, applied) refl,
          record {
            id = id;
            serving = record {
              number = serving.number;
              served = subst (Served IpAddress serving.number) (sym keeps.1) serving.served;
              below = serving.below;
              history =
                  subst
                    (λ m.
                      Inv J (message_types J C) L M
                        (record { server = m; client = client_messages J C L P IpAddress V c2 }))
                    (sym same)
                    (agreed-Inv J (message_types J C) L M
                      (record {
                        server = messages_of J C L P IpAddress V w.server;
                        client = client_messages J C L P IpAddress V w.client;
                      })
                      history (client_messages J C L P IpAddress V c2) valid.0
                      (subst
                        (λ m.
                          Agrees J (message_types J C) L m (client_messages J C L P IpAddress V c2))
                        same agrees));
            };
          },
          same,
          keeps.2,
          agrees,
        )
