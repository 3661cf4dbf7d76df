-- ===== src/Chat/System.antt =====
-- The chat as a whole: a server, and a client whose user makes choices, with the packets that they
-- send each other handled by the sessions on both sides. Others send the server what they like, and
-- the answers that are addressed to the client reach it. The client of a run exists to its end: to
-- disconnect only makes it idle here, and `selectClient`, which destroys it then, is in Chat/Console.
pub mod Moves
pub mod Rounds
pub mod Synchronised
pub mod Shown
pub mod Records
pub mod Recorded
use Prim.Native.String.{String}
use auto_sync_gen.Prelude.{ℕ, ◌==◌, if◌then◌else◌, ℤ, ◌≡◌, List, [], ◌∷◌, ◌++◌, some}
use auto_sync_gen.Result.{Result, ok, err, ◌>>=◌}
use auto_sync_gen.Ssvu.{Ssvu}
use auto_sync_gen.Json.{Json}
use auto_sync_gen.Lifetime.{Lifetime}
use auto_sync_gen.TypeManager.{TypeState}
use auto_sync_gen.Connection.{Uninitialised}
use auto_sync_gen.Packet.{PacketLib, IsInt}
use auto_sync_gen.Session.{Unset, Datagram, arrived_from}
use auto_sync_gen.Server
use auto_sync_gen.Client
use auto_sync_gen.Client.{send_connection_request, send_ping, send_sync_request}
use auto_sync_gen.Chat.{
  ChatTypes, UnsetLocals, message_types, chat_types, ChatServer, messages_of, on_chat_data,
}
use auto_sync_gen.Chat.Menu.{Choice, edit_message, ChatClient, on_display_msg, choose}

module _ (J : Json) (C : ChatTypes J) (L : Lifetime J (message_types J C)) (P : PacketLib J.Val)
    (IpAddress : Type 0) (V : Ssvu) where
  -- What a run does not change: the user's name, the address that the client's datagrams come from and
  -- the one that the server's come from, whether addresses are the same, and what uninitialised
  -- variables hold.
  pub record Setting : Type 0 where
    pub name : String
    pub ip : IpAddress
    pub port : ℕ
    pub server_ip : IpAddress
    pub server_port : ℕ
    pub same_ip : (a b : IpAddress) → Dec (a ≡ b)
    pub at_server : Unset
    pub at_client : Unset
    pub locals : UnsetLocals
    pub raw : Uninitialised IpAddress

  pub record World : Type 0 where
    pub server : ChatServer J C L P IpAddress V
    pub client : ChatClient J C L P IpAddress V

  abbrev pub client_messages : ChatClient J C L P IpAddress V → TypeState J (message_types J C) L
  client_messages c = c.host.sync_manager.0

  -- What the user does, what the sending thread does, and a datagram of somebody else.
  pub data Event : Type 0 where
    chooses : Choice → Event
    pings synchronises : Event
    others : Datagram J P IpAddress → Event

  -- The identifiers that the user enters are `int`s.
  abbrev pub IsIntEvent : Event → Type 0
  IsIntEvent (chooses (edit_message m text)) = IsInt m
  IsIntEvent _ = Unit {0}

  abbrev pub AreIntEvents : List Event → Type 0
  AreIntEvents [] = Unit {0}
  AreIntEvents (e ∷ es) = IsIntEvent e × AreIntEvents es

  -- What holds of a result, if there is one.
  abbrev pub AfterOk : {A : Type 0} → Result A → (A → Type 0) → Type 0
  AfterOk (ok x) Q = Q x
  AfterOk (err e) Q = Unit {0}

  module _ (Z : Setting) where
    abbrev pub server_receives :
        Datagram J P IpAddress
        → ChatServer J C L P IpAddress V
        → Result (ChatServer J C L P IpAddress V × List (Datagram J P IpAddress))
    server_receives d s =
        Server.receive J P IpAddress (chat_types J C L P IpAddress V) V ℤ
          (on_chat_data J C L P IpAddress V Z.locals) Z.at_server Z.raw (some d) s

    -- Datagrams of the client reach the server, one after the other.
    unfoldable pub to_server :
        List (Datagram J P IpAddress)
        → ChatServer J C L P IpAddress V
        → Result (ChatServer J C L P IpAddress V × List (Datagram J P IpAddress))
    to_server [] s = ok (s, [])
    to_server (d ∷ ds) s = do
      (s1, out) ← server_receives (arrived_from J P IpAddress Z.ip Z.port d) s
      (s2, more) ← to_server ds s1
      ok (s2, out ++ more)

    -- Datagrams of the server reach the client.
    unfoldable pub to_client :
        List (Datagram J P IpAddress)
        → ChatClient J C L P IpAddress V
        → Result (ChatClient J C L P IpAddress V × List (Datagram J P IpAddress))
    to_client [] c = ok (c, [])
    to_client (d ∷ ds) c = do
      (c1, out) ←
          Client.receive J P IpAddress (chat_types J C L P IpAddress V)
            (on_display_msg J C L P IpAddress V) Z.at_client
            (some (arrived_from J P IpAddress Z.server_ip Z.server_port d)) c
      (c2, more) ← to_client ds c1
      ok (c2, out ++ more)

    -- The datagrams that are addressed to the client.
    unfoldable pub for_client : List (Datagram J P IpAddress) → List (Datagram J P IpAddress)
    for_client [] = []
    for_client (d ∷ ds) =
        let rest = for_client ds in
        elim (Z.same_ip d.ip Z.ip) [
          | yes same ↦ if d.port == Z.port then d ∷ rest else rest
          | no other ↦ rest
        ]

    -- The client sends, the server answers, and the client handles the answers.
    unfoldable pub round :
        (ChatClient J C L P IpAddress V
          → Result (ChatClient J C L P IpAddress V × List (Datagram J P IpAddress)))
        → World
        → Result World
    round sends w = do
      (c1, asked) ← sends w.client
      (s, answers) ← to_server asked w.server
      (c2, out) ← to_client answers c1
      ok (record { server = s; client = c2 })

    unfoldable pub connect : World → Result World
    connect = round (send_connection_request J P IpAddress (chat_types J C L P IpAddress V))

    unfoldable pub act : Event → World → Result World
    act (chooses choice) = round (choose J C L P IpAddress V Z.name choice)
    act pings = round (send_ping J P IpAddress (chat_types J C L P IpAddress V))
    act synchronises = round (send_sync_request J P IpAddress (chat_types J C L P IpAddress V))
    act (others d) = λ w. do
      (s, answers) ← server_receives d w.server
      (c, out) ← to_client (for_client answers) w.client
      ok (record { server = s; client = c })

    unfoldable pub run : List Event → World → Result World
    run [] w = ok w
    run (e ∷ es) w = act e w >>= run es

    -- No answer to the datagrams of others is addressed to the client.
    abbrev pub IsElsewhere : Event → World → Type 0
    IsElsewhere (others d) w = AfterOk (server_receives d w.server) (λ x. for_client x.1 ≡ [])
    IsElsewhere _ w = Unit {0}

    abbrev pub AreElsewhere : List Event → World → Type 0
    AreElsewhere [] w = Unit {0}
    AreElsewhere (e ∷ es) w = IsElsewhere e w × AfterOk (act e w) (AreElsewhere es)
