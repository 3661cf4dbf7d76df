-- ===== src/Chat/Calm.antt =====
-- The functions of the chat leave the clients to the sessions, as those of `Network` are to.
use auto_sync_gen.Prelude.{ℤ, ◌≡◌, sym, subst, ap, [], inl, inr}
use auto_sync_gen.Result.{ok, increment, undefined, or_fault, >>=-eq-ok, value_of}
use auto_sync_gen.Ssvu.{Ssvu}
use auto_sync_gen.Json.{Json}
use auto_sync_gen.Lifetime.{Lifetime}
use auto_sync_gen.TypeManager.{server_create, edit_object}
use auto_sync_gen.Packet.{PacketLib, PacketLaws}
use auto_sync_gen.Chat.{
  ChatTypes, UnsetLocals, message_types, contents, message_json, chat_types, ChatServer,
  messages_of, on_send_msg, on_edit_msg, on_chat_data,
}
use auto_sync_gen.Chat.Cases.{on_chat_data_cases}
use auto_sync_gen.Chat.Menu.{on_display_msg}
use auto_sync_gen.Network.Answers.{AllOf, IsOther}
use auto_sync_gen.Network.Sending.{IsCalm}
use auto_sync_gen.Network.Clients.{KeepsCid}

module _ (J : Json) (C : ChatTypes J) (L : Lifetime J (message_types J C)) (P : PacketLib J.Val)
    (W : PacketLaws J.Val P) (IpAddress : Type 0) (V : Ssvu) where
  on_send_msg-c_manager :
      (p : P.Packet) (s s' : ChatServer J C L P IpAddress V)
      → on_send_msg J C L P IpAddress V p s ≡ ok s'
      → s'.c_manager ≡ s.c_manager
  unfolding on_send_msg
  on_send_msg-c_manager p s s' e =
      let name = (P.get_text "" p).0 in
      let msg = (P.get_text "" (P.get_text "" p).1).0 in
      let (next, r0, e0) = >>=-eq-ok (increment s.app) _ e in
      let ((m, h), r1, e1) =
        >>=-eq-ok
          (server_create J (message_types J C) L (message_json J C s.app name msg)
            (messages_of J C L P IpAddress V s))
          _ e0 in
      let (o, r2, e2) = >>=-eq-ok (or_fault (L.read h m.lf_manager) undefined) _ e1 in
      ap (λ x. x.c_manager) (sym (value_of _ s' e2))

  on_edit_msg-c_manager :
      (u : UnsetLocals) (p : P.Packet) (s s' : ChatServer J C L P IpAddress V)
      → on_edit_msg J C L P IpAddress V u p s ≡ ok s'
      → s'.c_manager ≡ s.c_manager
  unfolding on_edit_msg
  on_edit_msg-c_manager u p s s' e =
      let q = (P.get_text "" p).1 in
      let id = (P.get_int u.id q).0 in
      let msg = (P.get_text "" (P.get_int u.id q).1).0 in
      let (m, r, e1) =
        >>=-eq-ok
          (edit_object J (message_types J C) L id (contents J C) (C.text_of msg)
            (messages_of J C L P IpAddress V s))
          _ e in
      ap (λ x. x.c_manager) (sym (value_of _ s' e1))

  -- Whatever data the chat's server gets, its clients are those of the session, and nothing is sent.
  pub on_chat_data-IsCalm :
      (u : UnsetLocals)
      → IsCalm J P W IpAddress
          (chat_types J C L P IpAddress V)
          V
          ℤ
          (on_chat_data J C L P IpAddress V u)
  on_chat_data-IsCalm u cid p s s' out e =
      let (handled, silent) = on_chat_data_cases J C L P IpAddress V u cid p s s' out e in
      (
        elim handled [
          | inl (q, run) ↦ on_send_msg-c_manager q s s' run
          | inr (inl (q, run)) ↦ on_edit_msg-c_manager u q s s' run
          | inr (inr same) ↦ ap (λ x. x.c_manager) same
        ],
        subst (AllOf (IsOther J P W IpAddress)) (sym silent) tt,
      )

  -- What a client's function shows leaves its identifier alone.
  pub on_display_msg-KeepsCid :
      KeepsCid J P W IpAddress (chat_types J C L P IpAddress V) (on_display_msg J C L P IpAddress V)
  on_display_msg-KeepsCid p c c' out e = ap (λ x. x.0.cid) (sym (value_of (c, []) (c', out) e))
