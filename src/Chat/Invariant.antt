-- ===== src/Chat/Invariant.antt =====
-- What holds of the chat's server between the packets of its clients.
use auto_sync_gen.Prelude.{
  ℕ, suc, ◌<◌, ◌≤◌, ℤ, pos, ◌≡◌, refl, sym, subst, ap, ◌∙◌, List, [], some, inl, inr, eqb-pos,
  Option-cases, dec_lt, arith, some_unique,
}
use auto_sync_gen.Result.{ok, undefined, increment, >>=-eq-ok, ok_unique, err-ne-ok}
use auto_sync_gen.Ssvu.{Ssvu}
use auto_sync_gen.Json.{Json, JsonLaws}
use auto_sync_gen.Snapshot.{max_objs}
use auto_sync_gen.SyncObj.{SyncObj, edit, put_field_at}
use auto_sync_gen.Lifetime.{Lifetime, LifetimeLaws}
use auto_sync_gen.TypeManager.{server_create, edit_object}
use auto_sync_gen.TypeManager.View.{view, IsValid, eqb-cases, none-ne-some}
use auto_sync_gen.TypeManager.Create.{FreshFrom, server_create_lem, server_create_exhausted}
use auto_sync_gen.TypeManager.Edit.{edit_object_lem, edit_object_unknown}
use auto_sync_gen.Packet.{PacketLib}
use auto_sync_gen.Session.{Datagram}
use auto_sync_gen.Chat.{
  ChatTypes, UnsetLocals, message_types, contents, message_json, ChatServer, messages_of,
  with_messages, on_send_msg, on_edit_msg, on_chat_data,
}
use auto_sync_gen.Chat.Cases.{on_chat_data_cases}
use auto_sync_gen.Chat.Messages.{FieldKeys, set_from_json-message_json}

increment-below : (n : ℕ) → n < max_objs → increment (pos n) ≡ ok (pos (suc n))
unfolding increment
increment-below n lt = rw (eqb-pos n 2147483647) (ground arith)

module _ (J : Json) (W : JsonLaws J) (K : FieldKeys J) (C : ChatTypes J)
    (L : Lifetime J (message_types J C)) (M : LifetimeLaws J (message_types J C) L)
    (P : PacketLib J.Val) (IpAddress : Type 0) (V : Ssvu) where
  -- After `n` messages: `lastID` is the counter of the manager, and each message has the identifier
  -- that it is stored under as its `messageID`.
  pub record IsChat (n : ℕ) (s : ChatServer J C L P IpAddress V) : Type 0 where
    pub valid : IsValid J (message_types J C) L M (messages_of J C L P IpAddress V s)
    pub counted : s.app ≡ pos n
    pub last : (messages_of J C L P IpAddress V s).last_id ≡ pos n
    pub fresh : FreshFrom J (message_types J C) L M n (messages_of J C L P IpAddress V s)
    pub named :
        (k : ℤ) (o : SyncObj J (message_types J C))
        → view J (message_types J C) L (messages_of J C L P IpAddress V s) k ≡ some o
        → o.fields.0 ≡ C.int_of k

  id_kept :
      (o : SyncObj J (message_types J C)) (x : J.Value C.text_type)
      → (edit J (contents J C) x o).fields.0 ≡ o.fields.0
  unfolding edit put_field_at
  id_kept o x = refl

  module _ (n : ℕ) (s : ChatServer J C L P IpAddress V) (c : IsChat n s) where
    on_send_msg-IsChat :
        (s' : ChatServer J C L P IpAddress V) (p : P.Packet)
        → on_send_msg J C L P IpAddress V p s ≡ ok s'
        → IsChat (suc n) s' × (s'.c_manager ≡ s.c_manager)
    unfolding on_send_msg
    on_send_msg-IsChat s' p e =
        let name = (P.get_text "" p).0 in
        let msg = (P.get_text "" (P.get_text "" p).1).0 in
        let old = messages_of J C L P IpAddress V s in
        let temp = message_json J C s.app name msg in
        let (next, r0, e0) = >>=-eq-ok (increment s.app) _ e in
        let (created, r1, e1) = >>=-eq-ok (server_create J (message_types J C) L temp old) _ e0 in
        elim (dec_lt n max_objs) [
          | no ge ↦ absurd (
              err-ne-ok undefined created (
                sym (
                  server_create_exhausted J (message_types J C) L M n temp old c.last c.valid
                    (omega arith))
                ∙ r1))
          | yes lt ↦
              let (o, load, fields) = set_from_json-message_json J W K C s.app name msg in
              let (m, h, made, rd, valid', rep, last', fresh') =
                server_create_lem J (message_types J C) L M n temp old c.last o lt c.valid c.fresh
                  load in
              let next_id : increment s.app ≡ ok (pos (suc n)) =
                ap increment c.counted ∙ increment-below n lt in
              let t : ChatServer J C L P IpAddress V =
                record (with_messages J C L P IpAddress V m s) { app = pos (suc n) } in
              let run : on_send_msg J C L P IpAddress V p s ≡ ok t = rw (next_id, made, rd) refl in
              subst (λ x. IsChat (suc n) x × (x.c_manager ≡ s.c_manager))
                (ok_unique (on_send_msg J C L P IpAddress V p s) t s' run e)
                (
                  record {
                    valid = valid';
                    counted = refl;
                    last = last';
                    fresh = fresh';
                    named = λ k q f. elim (eqb-cases (pos n) k) [
                      | inl (b, same) ↦
                          let new : o ≡ q = some_unique o q (sym (rep k ∙ rw b refl) ∙ f) in
                          ap (λ x. x.fields.0) (sym new)
                          ∙ ap (λ x. x.0) fields
                          ∙ ap C.int_of (c.counted ∙ same)
                      | inr (b, ne) ↦ c.named k q (sym (rep k ∙ rw b refl) ∙ f)
                    ];
                  },
                  refl,
                )
        ]

    on_edit_msg-IsChat :
        (s' : ChatServer J C L P IpAddress V) (u : UnsetLocals) (p : P.Packet)
        → on_edit_msg J C L P IpAddress V u p s ≡ ok s'
        → IsChat n s' × (s'.c_manager ≡ s.c_manager)
    unfolding on_edit_msg
    on_edit_msg-IsChat s' u p e =
        let after_name = (P.get_text "" p).1 in
        let id = (P.get_int u.id after_name).0 in
        let msg = (P.get_text "" (P.get_int u.id after_name).1).0 in
        let x = C.text_of msg in
        let old = messages_of J C L P IpAddress V s in
        let (edited, r1, e1) =
          >>=-eq-ok (edit_object J (message_types J C) L id (contents J C) x old) _ e in
        elim (Option-cases (view J (message_types J C) L old id)) [
          | inl missing ↦ absurd (
              err-ne-ok undefined edited (
                sym (
                  edit_object_unknown J (message_types J C) L M id (contents J C) x old c.valid
                    missing)
                ∙ r1))
          | inr (o, found) ↦
              let (m, made, valid', rep, last') =
                edit_object_lem J (message_types J C) L M id (contents J C) x old c.valid o found in
              let t : ChatServer J C L P IpAddress V = with_messages J C L P IpAddress V m s in
              let run : on_edit_msg J C L P IpAddress V u p s ≡ ok t = rw made refl in
              subst (λ y. IsChat n y × (y.c_manager ≡ s.c_manager))
                (ok_unique (on_edit_msg J C L P IpAddress V u p s) t s' run e)
                (
                  record {
                    valid = valid';
                    counted = c.counted;
                    last = last' ∙ c.last;
                    fresh = λ k unseen. elim (eqb-cases id k) [
                      | inl (b, same) ↦ absurd (
                          none-ne-some o (
                            sym (c.fresh k unseen)
                            ∙ ap (view J (message_types J C) L old) (sym same)
                            ∙ found))
                      | inr (b, ne) ↦ rep k ∙ rw b (c.fresh k unseen)
                    ];
                    named = λ k q f. elim (eqb-cases id k) [
                      | inl (b, same) ↦
                          let new : edit J (contents J C) x o ≡ q =
                            some_unique (edit J (contents J C) x o) q
                              (sym (rep k ∙ rw b refl) ∙ f) in
                          ap (λ y. y.fields.0) (sym new)
                          ∙ id_kept o x
                          ∙ c.named id o found
                          ∙ ap C.int_of same
                      | inr (b, ne) ↦ c.named k q (sym (rep k ∙ rw b refl) ∙ f)
                    ];
                  },
                  refl,
                )
        ]

    -- If the chat's server has its `lastID` and its manager's counter at `n`, its messages well formed
    -- and each named by its identifier, and what it makes of any data of any client returns, then all
    -- this still holds, with the counters at `n` or one above; nothing is sent, and the connected
    -- clients stay as they are.
    pub on_chat_data-IsChat :
        (s' : ChatServer J C L P IpAddress V) (u : UnsetLocals) (cid : ℤ) (p : P.Packet)
        (out : List (Datagram J P IpAddress))
        → on_chat_data J C L P IpAddress V u cid p s ≡ ok (s', out)
        → (n' : ℕ) × (n ≤ n')
          × (n' ≤ suc n)
          × IsChat n' s'
          × (s'.c_manager ≡ s.c_manager)
          × (out ≡ [])
    on_chat_data-IsChat s' u cid p out e =
        let (handled, silent) = on_chat_data_cases J C L P IpAddress V u cid p s s' out e in
        elim handled [
          | inl (q, run) ↦
              let (chat, same) = on_send_msg-IsChat s' q run in
              (suc n, omega arith, omega arith, chat, same, silent)
          | inr (inl (q, run)) ↦
              let (chat, same) = on_edit_msg-IsChat s' u q run in
              (n, omega arith, omega arith, chat, same, silent)
          | inr (inr same) ↦ (
            n,
            omega arith,
            omega arith,
            subst (λ x. IsChat n x) (sym same) c,
            ap (λ x. x.c_manager) same,
            silent,
          )
        ]
