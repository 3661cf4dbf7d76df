-- ===== src/Chat/Menu.antt =====
-- Src/main.cpp: what the client's program does with data of the server, and what its menu does with
-- the choices and the texts that the user enters.
use Prim.Native.String.{String}
use auto_sync_gen.Prelude.{ℤ, List, [], ◌∷◌, false}
use auto_sync_gen.Result.{Result, ok, ◌>>=◌}
use auto_sync_gen.Ssvu.{Ssvu}
use auto_sync_gen.Json.{Json}
use auto_sync_gen.Lifetime.{Lifetime}
use auto_sync_gen.SyncManager.{get_snapshot}
use auto_sync_gen.Packet.{PacketLib, int_arg, text_arg}
use auto_sync_gen.Session.{Datagram, set_busy}
use auto_sync_gen.Client.{Client, send_data_to_server}
use auto_sync_gen.Chat.{ChatTypes, message_types, chat_types, send_msg_number, edit_msg_number}

-- What the user enters: a choice, and what its branch asks for.
pub data Choice : Type 0 where
  new_message : String → Choice
  edit_message : ℤ → String → Choice
  show_data disconnect : Choice
  other : ℤ → Choice

module _ (J : Json) (C : ChatTypes J) (L : Lifetime J (message_types J C)) (P : PacketLib J.Val)
    (IpAddress : Type 0) (V : Ssvu) where
  -- A client of the chat.
  abbrev pub ChatClient : Type 0
  ChatClient = Client J P IpAddress (chat_types J C L P IpAddress V)

  -- The function in `client.onDataReceived`: what it reads, it shows.
  abbrev pub on_display_msg :
      P.Packet → ChatClient → Result (ChatClient × List (Datagram J P IpAddress))
  on_display_msg p c = ok (c, [])

  -- A round of the loop of `selectClient`, while the client is busy.
  unfoldable pub choose :
      String → Choice → ChatClient → Result (ChatClient × List (Datagram J P IpAddress))
  choose client_name (new_message msg) c =
      send_data_to_server J P IpAddress (chat_types J C L P IpAddress V)
        (int_arg send_msg_number ∷ text_arg client_name ∷ text_arg msg ∷ []) c
  choose client_name (edit_message id msg) c =
      send_data_to_server J P IpAddress (chat_types J C L P IpAddress V)
        (int_arg edit_msg_number ∷ text_arg client_name ∷ int_arg id ∷ text_arg msg ∷ []) c
  choose client_name show_data c = do
    s ← get_snapshot J (chat_types J C L P IpAddress V) c.host.sync_manager
    ok (c, [])
  choose client_name disconnect c =
      ok (
        record c { host = set_busy J P IpAddress (chat_types J C L P IpAddress V) false c.host },
        [],
      )
  choose client_name (other i) c = ok (c, [])
