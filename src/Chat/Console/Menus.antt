-- ===== src/Chat/Console/Menus.antt =====
-- Src/main.cpp: the loops of `selectServer` and of `selectClient`. Before each round the other threads
-- may have changed the server or the client, as a list of functions says, one for each round: `none`
-- when the list ends before the loop does.
use Prim.Native.String.{String}
use auto_sync_gen.Prelude.{
  ℤ, pos, Bool, true, false, List, [], ◌∷◌, ◌++◌, Option, none, some, eqb_ℤ, if◌then◌else◌,
}
use mathlib.Core.Option
use auto_sync_gen.Result.{Result, ok, err, ◌>>=◌}
use auto_sync_gen.Ssvu.{Ssvu}
use auto_sync_gen.Json.{Json}
use auto_sync_gen.Lifetime.{Lifetime}
use auto_sync_gen.Packet.{PacketLib}
use auto_sync_gen.Session.{Datagram, set_busy}
use auto_sync_gen.Server.{new_server}
use auto_sync_gen.Client.{new_client}
use auto_sync_gen.Chat.{ChatTypes, message_types, chat_types, ChatServer}
use auto_sync_gen.Chat.Menu.{Choice, disconnect, ChatClient, choose}
use auto_sync_gen.Chat.Console.{
  Console, UnsetTemp, safe_int, server_port_input, client_settings, read_choice,
}

-- Whether a round ends with `break`.
abbrev pub breaks : Choice → Bool
breaks disconnect = true
breaks _ = false

module _ (J : Json) (C : ChatTypes J) (L : Lifetime J (message_types J C)) (P : PacketLib J.Val)
    (IpAddress : Type 0) (V : Ssvu) where
  -- What the client sends before the rest of its datagrams.
  abbrev pub sends_first :
      List (Datagram J P IpAddress)
      → Result (ChatClient J C L P IpAddress V × List (Datagram J P IpAddress))
      → Result (ChatClient J C L P IpAddress V × List (Datagram J P IpAddress))
  sends_first out rest = do (c, more) ← rest; ok (c, out ++ more)

  -- The loop goes on with `rest` after a choice, unless the choice fails or ends it.
  unfoldable pub after_choice :
      Bool
      → (ChatClient J C L P IpAddress V
          → Option (Result (ChatClient J C L P IpAddress V × List (Datagram J P IpAddress))))
      → Result (ChatClient J C L P IpAddress V × List (Datagram J P IpAddress))
      → Option (Result (ChatClient J C L P IpAddress V × List (Datagram J P IpAddress)))
  after_choice ends rest (err e) = some (err e)
  after_choice true rest (ok (c, out)) = some (ok (c, out))
  after_choice false rest (ok (c, out)) = Option.map (sends_first out) (rest c)

  -- The rounds of the menu at given choices.
  unfoldable pub play :
      String
      → List Choice
      → List (ChatClient J C L P IpAddress V → ChatClient J C L P IpAddress V)
      → ChatClient J C L P IpAddress V
      → Result (ChatClient J C L P IpAddress V × List (Datagram J P IpAddress))
  play client_name [] turns c = ok (c, [])
  play client_name (choice ∷ choices) [] c = ok (c, [])
  play client_name (choice ∷ choices) (turn ∷ turns) c = do
    (c1, out) ← choose J C L P IpAddress V client_name choice (turn c)
    sends_first out (play client_name choices turns c1)

module _ (J : Json) (C : ChatTypes J) (L : Lifetime J (message_types J C)) (P : PacketLib J.Val)
    (IpAddress : Type 0) (V : Ssvu) (K : Console IpAddress) (u : UnsetTemp IpAddress) where
  unfoldable pub server_menu :
      List (ChatServer J C L P IpAddress V → ChatServer J C L P IpAddress V)
      → K.In
      → ChatServer J C L P IpAddress V
      → Option (ChatServer J C L P IpAddress V)
  server_menu [] i s = none
  server_menu (turn ∷ turns) i s =
      let s1 = turn s in
      let (choice, j) = safe_int IpAddress K u i in
      let again = server_menu turns j s1 in
      if s1.host.busy
      then (if eqb_ℤ choice (pos 0)
          then some (record s1 {
            host = set_busy J P IpAddress (chat_types J C L P IpAddress V) false s1.host;
          })
          else again)
      else some s1

  unfoldable pub client_menu :
      String
      → List (ChatClient J C L P IpAddress V → ChatClient J C L P IpAddress V)
      → K.In
      → ChatClient J C L P IpAddress V
      → Option (Result (ChatClient J C L P IpAddress V × List (Datagram J P IpAddress)))
  client_menu client_name [] i c = none
  client_menu client_name (turn ∷ turns) i c =
      let c1 = turn c in
      let (choice, j) = read_choice IpAddress K u i in
      if c1.host.busy
      then after_choice J C L P IpAddress V (breaks choice) (client_menu client_name turns j)
          (choose J C L P IpAddress V client_name choice c1)
      else some (ok (c1, []))

  -- `selectServer`, where `local` is the address of the host and `bound` whether it gets the port.
  unfoldable pub select_server :
      IpAddress
      → Bool
      → List (ChatServer J C L P IpAddress V → ChatServer J C L P IpAddress V)
      → K.In
      → Option (Result (ChatServer J C L P IpAddress V))
  select_server local bound turns i =
      let (port, j) = server_port_input IpAddress K u i in
      elim (new_server J P IpAddress (chat_types J C L P IpAddress V) V ℤ local port bound
        (pos 0)) [ err e ↦ some (err e) | ok s ↦ Option.map ok (server_menu turns j s) ]

  -- The menu of a client that is made.
  unfoldable pub with_client :
      String
      → List (ChatClient J C L P IpAddress V → ChatClient J C L P IpAddress V)
      → K.In
      → Result (ChatClient J C L P IpAddress V)
      → Option (Result (ChatClient J C L P IpAddress V × List (Datagram J P IpAddress)))
  with_client client_name turns i (err e) = some (err e)
  with_client client_name turns i (ok c) = client_menu client_name turns i c

  -- `selectClient`, where `loopback` is the address 127.0.0.1.
  unfoldable pub select_client :
      IpAddress
      → IpAddress
      → Bool
      → List (ChatClient J C L P IpAddress V → ChatClient J C L P IpAddress V)
      → K.In
      → Option (Result (ChatClient J C L P IpAddress V × List (Datagram J P IpAddress)))
  select_client loopback local bound turns i =
      let (z, j) = client_settings IpAddress K u loopback i in
      with_client z.client_name turns j (
        new_client J P IpAddress (chat_types J C L P IpAddress V) local z.port bound z.server_ip
          z.server_port)
