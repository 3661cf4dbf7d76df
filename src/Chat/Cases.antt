-- ===== src/Chat/Cases.antt =====
-- The outcomes of the function in the `onDataReceived` of the chat's server.
use auto_sync_gen.Prelude.{ℤ, ◌≡◌, refl, sym, subst, ap, ◌⊎◌, inl, inr, List, [], Bool-cases, eqb_ℤ}
use auto_sync_gen.Result.{Result, ok, >>=-eq-ok, value_of}
use auto_sync_gen.Ssvu.{Ssvu}
use auto_sync_gen.Json.{Json}
use auto_sync_gen.Lifetime.{Lifetime}
use auto_sync_gen.Packet.{PacketLib}
use auto_sync_gen.Session.{Datagram}
use auto_sync_gen.Chat.{
  ChatTypes, UnsetLocals, message_types, ChatServer, send_msg_number, edit_msg_number, on_send_msg,
  on_edit_msg, on_chat_data,
}

module _ (J : Json) (C : ChatTypes J) (L : Lifetime J (message_types J C)) (P : PacketLib J.Val)
    (IpAddress : Type 0) (V : Ssvu) (u : UnsetLocals) where
  -- A message is made or edited of the rest of the packet, or nothing happens.
  abbrev pub Handled : ChatServer J C L P IpAddress V → ChatServer J C L P IpAddress V → Type 0
  Handled s s' =
      ((q : P.Packet) × (on_send_msg J C L P IpAddress V q s ≡ ok s'))
      ⊎ (((q : P.Packet) × (on_edit_msg J C L P IpAddress V u q s ≡ ok s')) ⊎ (s' ≡ s))

  module _ (cid : ℤ) (p : P.Packet) (s s' : ChatServer J C L P IpAddress V)
      (out : List (Datagram J P IpAddress))
      (e : on_chat_data J C L P IpAddress V u cid p s ≡ ok (s', out)) where
    -- Whatever the packet is, one of these is all that happens, and nothing is sent.
    pub on_chat_data_cases : Handled s s' × (out ≡ [])
    unfolding on_chat_data
    on_chat_data_cases =
        let type = (P.get_int u.type p).0 in
        let q = (P.get_int u.type p).1 in
        elim (Bool-cases (eqb_ℤ type send_msg_number)) [
          | inl b ↦
              let (t, run, done) =
                >>=-eq-ok (on_send_msg J C L P IpAddress V q s) (λ x. ok (x, [])) (rw b at e) in
              ends t done (inl (q, run))
          | inr b ↦ elim (Bool-cases (eqb_ℤ type edit_msg_number)) [
            | inl b' ↦
                let (t, run, done) =
                  >>=-eq-ok (on_edit_msg J C L P IpAddress V u q s) (λ x. ok (x, []))
                    (rw (b, b') at e) in
                ends t done (inr (inl (q, run)))
            | inr b' ↦ ends s (rw (b, b') at e) (inr (inr refl))
          ]
        ]
      where
        ends :
            (t : ChatServer J C L P IpAddress V)
            → ◌≡◌ {A = Result (ChatServer J C L P IpAddress V × List (Datagram J P IpAddress))}
                (ok (t, []))
                (ok (s', out))
            → Handled s t
            → Handled s s' × (out ≡ [])
        ends t done handled =
            let both = value_of (t, []) (s', out) done in
            (subst (λ x. Handled s x.0) both handled, ap (λ x. x.1) (sym both))
