-- ===== src/Chat.antt =====
-- Src/main.cpp: the chat's message type and what its server does with the data of its clients. What is
-- written on the console is left out.
pub mod Cases
pub mod Messages
pub mod Invariant
pub mod Menu
pub mod Posted
pub mod Calm
pub mod Lines
pub mod Console
pub mod System
use Prim.Native.String.{String}
use auto_sync_gen.Prelude.{
  ℕ, ℤ, pos, Bool, true, false, List, [], ◌∷◌, length, Option, if◌then◌else◌, eqb_ℤ,
}
use auto_sync_gen.Result.{Result, ok, err, undefined, or_fault, increment, ◌>>=◌}
use auto_sync_gen.Ssvu.{Ssvu}
use auto_sync_gen.Json.{Json}
use auto_sync_gen.SyncObj.{SyncObj, At, here, there}
use auto_sync_gen.Lifetime.{Lifetime}
use auto_sync_gen.SyncManager.{SyncType}
use auto_sync_gen.TypeManager.{TypeState, server_create, edit_object}
use auto_sync_gen.Packet.{PacketLib}
use auto_sync_gen.Session.{Datagram, Host}
use auto_sync_gen.Server.{Server}

-- `int` and `std::string` among the types of fields.
pub record ChatTypes (J : Json) : Type 0 where
  pub int_type : J.FieldType
  pub text_type : J.FieldType
  pub int_of : ℤ → J.Value int_type
  pub text_of : String → J.Value text_type

-- `DP_CtoS::SendMsg` and `DP_CtoS::EditMsg`.
abbrev pub send_msg_number : ℤ
send_msg_number = pos 0

abbrev pub edit_msg_number : ℤ
edit_msg_number = pos 1

-- What the uninitialised `DP_CtoS type` and `int id` hold.
pub record UnsetLocals : Type 0 where
  pub type : ℤ
  pub id : ℤ

module _ (J : Json) (C : ChatTypes J) where
  -- `messageID`, `author` and `contents`.
  abbrev pub message_types : List J.FieldType
  message_types = C.int_type ∷ C.text_type ∷ C.text_type ∷ []

  abbrev pub message_id : At J message_types C.int_type
  message_id = here

  abbrev pub author : At J message_types C.text_type
  author = there here

  abbrev pub contents : At J message_types C.text_type
  contents = there (there here)

  -- `ssvj::mkObj("0", id, "1", author, "2", msg)`.
  unfoldable pub message_json : ℤ → String → String → J.Val
  message_json id name msg = J.mk_obj (
      ("0", J.of_field C.int_type (C.int_of id))
      ∷ ("1", J.of_field C.text_type (C.text_of name))
      ∷ ("2", J.of_field C.text_type (C.text_of msg))
      ∷ [])

  module _ (L : Lifetime J message_types) (P : PacketLib J.Val) (IpAddress : Type 0)
      (V : Ssvu) where
    -- `SyncManagerType`: a manager of messages.
    abbrev pub chat_types : List (SyncType J)
    chat_types = record { field_types = message_types; lifetime = L } ∷ []

    -- The server of the chat, with `lastID`.
    abbrev pub ChatServer : Type 0
    ChatServer = Server J P IpAddress chat_types V ℤ

    abbrev pub messages_of : ChatServer → TypeState J message_types L
    messages_of s = s.host.sync_manager.0

    abbrev pub with_messages : TypeState J message_types L → ChatServer → ChatServer
    with_messages m s = record s { host = record s.host { sync_manager = (m, tt) } }

    unfoldable pub on_send_msg : P.Packet → ChatServer → Result ChatServer
    on_send_msg p s =
        let (name, q) = P.get_text "" p in
        let (msg, r) = P.get_text "" q in
        do
          next ← increment s.app
          let temp = message_json s.app name msg
          (m, handle) ← server_create J message_types L temp (messages_of s)
          o ← or_fault (L.read handle m.lf_manager) undefined
          ok (record (with_messages m s) { app = next })

    unfoldable pub on_edit_msg : UnsetLocals → P.Packet → ChatServer → Result ChatServer
    on_edit_msg u p s =
        let (name, q) = P.get_text "" p in
        let (id, q') = P.get_int u.id q in
        let (msg, r) = P.get_text "" q' in
        do
          m ← edit_object J message_types L id contents (C.text_of msg) (messages_of s)
          ok (with_messages m s)

    -- The function in `server.onDataReceived`.
    unfoldable pub on_chat_data :
        UnsetLocals
        → ℤ
        → P.Packet
        → ChatServer
        → Result (ChatServer × List (Datagram J P IpAddress))
    on_chat_data u cid p s =
        let (type, q) = P.get_int u.type p in
        if eqb_ℤ type send_msg_number
        then (do s' ← on_send_msg q s; ok (s', []))
        else (if eqb_ℤ type edit_msg_number
            then (do s' ← on_edit_msg u q s; ok (s', []))
            else ok (s, []))
