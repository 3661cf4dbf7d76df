-- ===== src/Chat/System/Moves.antt =====
-- What the chat's server does with a datagram, as a move of the synchronised messages.
use auto_sync_gen.Prelude.{
  get_elem?-below, ℕ, ◌<◌, ℤ, ◌≡◌, refl, sym, subst, ap, ◌⊎◌, inl, inr, List, [], arith, ◌∙◌,
}
use auto_sync_gen.Result.{ok, increment, undefined, or_fault, >>=-eq-ok, value_of}
use auto_sync_gen.Ssvu.{Ssvu, SsvuLaws}
use auto_sync_gen.Json.{Json}
use auto_sync_gen.Lifetime.{Lifetime, LifetimeLaws}
use auto_sync_gen.TypeManager.{TypeState, server_create, edit_object}
use auto_sync_gen.Sync.System.{Inv, act, create-Inv, change-Inv}
use auto_sync_gen.Connection.Reach.{Served}
use auto_sync_gen.Packet.{PacketLib, PacketLaws}
use auto_sync_gen.Session.{Datagram}
use auto_sync_gen.Server.Objects.{receive-Changes}
use auto_sync_gen.Network.Sending.{receive-Follows}
use auto_sync_gen.Chat.{
  ChatTypes, UnsetLocals, message_types, contents, message_json, chat_types, ChatServer,
  messages_of, on_send_msg, on_edit_msg, on_chat_data,
}
use auto_sync_gen.Chat.Cases.{on_chat_data_cases}
use auto_sync_gen.Chat.Calm.{on_chat_data-IsCalm}
use auto_sync_gen.Chat.System.{Setting, server_receives}

module _ (J : Json) (C : ChatTypes J) (L : Lifetime J (message_types J C)) (P : PacketLib J.Val)
    (IpAddress : Type 0) (V : Ssvu) where
  -- The messages are as they were, or one is created, or the text of one is edited.
  abbrev pub Moves : TypeState J (message_types J C) L → TypeState J (message_types J C) L → Type 0
  Moves m m' =
      (m' ≡ m)
      ⊎ (((v : J.Val) × (h : L.Handle) × (server_create J (message_types J C) L v m ≡ ok (m', h)))
          ⊎ ((id : ℤ) × (x : J.Value C.text_type) × (edit_object J (message_types J C) L id
                  (contents J C) x m
                ≡ ok m')))

  on_send_msg-Moves :
      (p : P.Packet) (s s' : ChatServer J C L P IpAddress V)
      → on_send_msg J C L P IpAddress V p s ≡ ok s'
      → Moves (messages_of J C L P IpAddress V s) (messages_of J C L P IpAddress V s')
  unfolding on_send_msg
  on_send_msg-Moves p s s' e =
      let name = (P.get_text "" p).0 in
      let msg = (P.get_text "" (P.get_text "" p).1).0 in
      let v = message_json J C s.app name msg in
      let (next, r0, e0) = >>=-eq-ok (increment s.app) _ e in
      let ((m, h), r1, e1) =
        >>=-eq-ok (server_create J (message_types J C) L v (messages_of J C L P IpAddress V s)) _
          e0 in
      let (o, r2, e2) = >>=-eq-ok (or_fault (L.read h m.lf_manager) undefined) _ e1 in
      let same : m ≡ messages_of J C L P IpAddress V s' =
        ap (λ x. messages_of J C L P IpAddress V x) (value_of _ s' e2) in
      inr (inl (v, h, r1 ∙ ap (λ x. ok (x, h)) same))

  on_edit_msg-Moves :
      (u : UnsetLocals) (p : P.Packet) (s s' : ChatServer J C L P IpAddress V)
      → on_edit_msg J C L P IpAddress V u p s ≡ ok s'
      → Moves (messages_of J C L P IpAddress V s) (messages_of J C L P IpAddress V s')
  unfolding on_edit_msg
  on_edit_msg-Moves u p s s' e =
      let q = (P.get_text "" p).1 in
      let id = (P.get_int u.id q).0 in
      let x = C.text_of (P.get_text "" (P.get_int u.id q).1).0 in
      let (m, r, e1) =
        >>=-eq-ok
          (edit_object J (message_types J C) L id (contents J C) x
            (messages_of J C L P IpAddress V s))
          _ e in
      let same : m ≡ messages_of J C L P IpAddress V s' =
        ap (λ x. messages_of J C L P IpAddress V x) (value_of _ s' e1) in
      inr (inr (id, x, r ∙ ap ok same))

  module _ (u : UnsetLocals) (cid : ℤ) (p : P.Packet) (s s' : ChatServer J C L P IpAddress V)
      (out : List (Datagram J P IpAddress))
      (e : on_chat_data J C L P IpAddress V u cid p s ≡ ok (s', out)) where
    -- Every outcome of the chat's function is a move, and nothing is sent.
    pub on_chat_data-Moves :
        Moves (messages_of J C L P IpAddress V s) (messages_of J C L P IpAddress V s') × (out ≡ [])
    on_chat_data-Moves =
        let (handled, silent) = on_chat_data_cases J C L P IpAddress V u cid p s s' out e in
        (
          elim handled [
            | inl (q, run) ↦ on_send_msg-Moves q s s' run
            | inr (inl (q, run)) ↦ on_edit_msg-Moves u q s s' run
            | inr (inr same) ↦ inl (ap (λ x. messages_of J C L P IpAddress V x) same)
          ],
          silent,
        )

  module _ (M : LifetimeLaws J (message_types J C) L) where
    Moves-Inv :
        (m m' c : TypeState J (message_types J C) L)
        → Inv J (message_types J C) L M (record { server = m; client = c })
        → Moves m m'
        → Inv J (message_types J C) L M (record { server = m'; client = c })
    unfolding act
    Moves-Inv m m' c i (inl same) =
        subst (λ x. Inv J (message_types J C) L M (record { server = x; client = c })) (sym same) i
    Moves-Inv m m' c i (inr (inl (v, h, made))) =
        create-Inv J (message_types J C) L M (record { server = m; client = c }) i v _
          (rw made refl)
    Moves-Inv m m' c i (inr (inr (id, x, made))) =
        change-Inv J (message_types J C) L M (record { server = m; client = c }) i id (contents J C)
          x _ (rw made refl)

    -- The server serves `n` clients, and its messages and those of a client are as after a history of
    -- creations, edits and exchanges.
    pub record IsServing (i : ℕ) (c : TypeState J (message_types J C) L)
        (s : ChatServer J C L P IpAddress V) : Type 0 where
      pub number : ℕ
      pub served : Served IpAddress number s.c_manager
      pub below : i < number
      pub history :
          Inv J
            (message_types J C)
            L
            M
            (record { server = messages_of J C L P IpAddress V s; client = c })

    -- Whatever the server receives, from whoever.
    pub receive-IsServing :
        (PW : PacketLaws J.Val P) (VL : SsvuLaws V) (Z : Setting J C L P IpAddress V) (i : ℕ)
        (c : TypeState J (message_types J C) L) (d : Datagram J P IpAddress)
        (s s' : ChatServer J C L P IpAddress V) (out : List (Datagram J P IpAddress))
        → IsServing i c s
        → server_receives J C L P IpAddress V Z d s ≡ ok (s', out)
        → IsServing i c s'
    receive-IsServing PW VL Z i c d s s' out w e =
        let (n', served', kept, answers) =
          receive-Follows J P PW IpAddress (chat_types J C L P IpAddress V) V ℤ w.number s s' out VL
            w.served (on_chat_data J C L P IpAddress V Z.locals) Z.at_server Z.raw d
            (on_chat_data-IsCalm J C L P PW IpAddress V Z.locals) e in
        let (h, at_i, serves) = w.served.serving i w.below in
        let (h', at_i', same_ip, same_port) = kept i h.ip h.port (h, at_i, refl, refl) in
        record {
          number = n';
          served = served';
          below =
              omega
                (arith, get_elem?-below s'.c_manager.client_handlers i h' at_i', served'.created);
          history =
              Moves-Inv (messages_of J C L P IpAddress V s) (messages_of J C L P IpAddress V s') c
                w.history
                (elim (receive-Changes J P IpAddress (chat_types J C L P IpAddress V) V ℤ
                  (on_chat_data J C L P IpAddress V Z.locals) s s' out Z.at_server Z.raw d e) [
                    | inl (same, app) ↦ inl (ap (λ x. x.0) same)
                    | inr (cid, q, ran) ↦ (on_chat_data-Moves Z.locals cid q s s' out ran).0
                  ]);
        }
