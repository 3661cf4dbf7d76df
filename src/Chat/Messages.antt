-- ===== src/Chat/Messages.antt =====
-- What the chat's server makes of the messages that are sent and edited.
use Prim.Native.String.{String}
use auto_sync_gen.Prelude.{
  ℕ, zero, suc, ◌<◌, ℤ, pos, ◌≡◌, refl, ap, ◌∙◌, List, [], ◌∷◌, false, some, inl, eqb_ℤ, ◌==◌,
  arith,
}
use auto_sync_gen.Result.{ok, increment}
use auto_sync_gen.Ssvu.{Ssvu}
use auto_sync_gen.Json.{Json, JsonLaws, assoc}
use auto_sync_gen.Snapshot.{max_objs}
use auto_sync_gen.SyncObj.{SyncObj, edit, initial_obj, set_from_json}
use auto_sync_gen.SyncObj.Load.{Feeds, set_from_json_lem}
use auto_sync_gen.Lifetime.{Lifetime, LifetimeLaws}
use auto_sync_gen.TypeManager.{TypeState}
use auto_sync_gen.TypeManager.View.{view, IsValid, Replaces}
use auto_sync_gen.TypeManager.Create.{FreshFrom, server_create_lem}
use auto_sync_gen.TypeManager.Edit.{edit_object_lem}
use auto_sync_gen.Packet.{PacketLib, PacketLaws, Item, int, text}
use auto_sync_gen.Chat.{
  ChatTypes, UnsetLocals, message_types, contents, message_json, ChatServer, messages_of,
  with_messages, on_send_msg, on_edit_msg, on_chat_data,
}

-- `ssvu::toStr` writes the indices of the message's fields as the program's keys.
pub record FieldKeys (J : Json) : Type 0 where
  pub to_str_zero : J.to_str (pos 0) ≡ "0"
  pub to_str_one : J.to_str (pos 1) ≡ "1"
  pub to_str_two : J.to_str (pos 2) ≡ "2"

module _ (J : Json) (W : JsonLaws J) (K : FieldKeys J) (C : ChatTypes J) where
  entry-message_json :
      (id : ℤ) (name msg : String) (k : String)
      → W.entry (message_json J C id name msg) k
        ≡ assoc k (
            ("0", J.of_field C.int_type (C.int_of id))
            ∷ ("1", J.of_field C.text_type (C.text_of name))
            ∷ ("2", J.of_field C.text_type (C.text_of msg))
            ∷ [])
  unfolding message_json assoc
  entry-message_json id name msg k = W.entry-mk_obj _ k (refl, (refl, (refl, tt)))

  -- The json of a message sets a new object to its three fields.
  pub set_from_json-message_json :
      (id : ℤ) (name msg : String)
      → (o : SyncObj J (message_types J C)) × (set_from_json J
            (message_json J C id name msg)
            (initial_obj J (message_types J C))
          ≡ ok o)
        × (o.fields ≡ (C.int_of id, (C.text_of name, (C.text_of msg, tt))))
  unfolding assoc
  set_from_json-message_json id name msg =
      let feeds : Feeds J W (message_types J C) zero (message_json J C id name msg)
          (initial_obj J (message_types J C)).fields
          (C.int_of id, (C.text_of name, (C.text_of msg, tt))) =
        (
          inl (ap (W.entry _) K.to_str_zero ∙ entry-message_json id name msg "0"),
          (
            inl (ap (W.entry _) K.to_str_one ∙ entry-message_json id name msg "1"),
            (inl (ap (W.entry _) K.to_str_two ∙ entry-message_json id name msg "2"), tt),
          ),
        ) in
      (
        _,
        set_from_json_lem J W (message_json J C id name msg) (initial_obj J (message_types J C)) _
            (unfold message_json in W.mk_obj-IsObj _) feeds,
        refl,
      )

  module _ (L : Lifetime J (message_types J C)) (M : LifetimeLaws J (message_types J C) L)
      (P : PacketLib J.Val) (PW : PacketLaws J.Val P) (IpAddress : Type 0) (V : Ssvu)
      (u : UnsetLocals) (cid : ℤ) (s : ChatServer J C L P IpAddress V)
      (valid : IsValid J (message_types J C) L M (messages_of J C L P IpAddress V s)) where
    -- If the server's messages are well formed and none of its identifiers from `n` on is in use, its
    -- `lastID` and its manager's counter are at `n`, and `n` is below `maxObjs`, then a `SendMsg` with a
    -- name and a text makes a message of `n`, the name and the text under the identifier `n`, leaves
    -- the other messages as they are, and moves both counters on; nothing is sent.
    pub on_send_msg_lem :
        (n : ℕ) (p : P.Packet) (name msg : String) (rest : List (Item J.Val))
        → PW.contents p ≡ int (pos 0) ∷ text name ∷ text msg ∷ rest
        → s.app ≡ pos n
        → (messages_of J C L P IpAddress V s).last_id ≡ pos n
        → n < max_objs
        → FreshFrom J (message_types J C) L M n (messages_of J C L P IpAddress V s)
        → (m : TypeState J (message_types J C) L) × (o : SyncObj J (message_types J C))
          × (on_chat_data J C L P IpAddress V u cid p s
              ≡ ok (record (with_messages J C L P IpAddress V m s) { app = pos (suc n) }, []))
          × (o.fields ≡ (C.int_of (pos n), (C.text_of name, (C.text_of msg, tt))))
          × IsValid J (message_types J C) L M m
          × Replaces J
              (message_types J C)
              L
              M
              (messages_of J C L P IpAddress V s)
              m
              (pos n)
              (some o)
          × (m.last_id ≡ pos (suc n))
          × FreshFrom J (message_types J C) L M (suc n) m
    unfolding on_chat_data on_send_msg increment eqb_ℤ
    on_send_msg_lem n p name msg rest e app last lt fresh =
        let (q1, r1, e1) = PW.get_int_lem u.type (pos 0) p _ e in
        let (q2, r2, e2) = PW.get_text_lem "" name q1 _ e1 in
        let (q3, r3, e3) = PW.get_text_lem "" msg q2 _ e2 in
        let (o, load, fields) = set_from_json-message_json (pos n) name msg in
        let (m, h, made, rd, valid', rep, last', fresh') =
          server_create_lem J (message_types J C) L M n (message_json J C (pos n) name msg)
            (messages_of J C L P IpAddress V s) last o lt valid fresh load in
        let below : (n == 2147483647) ≡ false = ground arith in
        (m, o, rw (r1, r2, r3, app, below, made, rd) refl, fields, valid', rep, last', fresh')

    -- If the server's messages are well formed and it has one under `id`, then an `EditMsg` with a name,
    -- `id` and a text edits that message's text and leaves the other messages and the counter of the
    -- identifiers as they are; nothing is sent.
    pub on_edit_msg_lem :
        (p : P.Packet) (name msg : String) (id : ℤ) (rest : List (Item J.Val))
        (o : SyncObj J (message_types J C))
        → PW.contents p ≡ int (pos 1) ∷ text name ∷ int id ∷ text msg ∷ rest
        → view J (message_types J C) L (messages_of J C L P IpAddress V s) id ≡ some o
        → (m : TypeState J (message_types J C) L) × (on_chat_data J C L P IpAddress V u cid p s
            ≡ ok (with_messages J C L P IpAddress V m s, []))
          × IsValid J (message_types J C) L M m
          × Replaces J
              (message_types J C)
              L
              M
              (messages_of J C L P IpAddress V s)
              m
              id
              (some (edit J (contents J C) (C.text_of msg) o))
          × (m.last_id ≡ (messages_of J C L P IpAddress V s).last_id)
    unfolding on_chat_data on_edit_msg eqb_ℤ
    on_edit_msg_lem p name msg id rest o e found =
        let (q1, r1, e1) = PW.get_int_lem u.type (pos 1) p _ e in
        let (q2, r2, e2) = PW.get_text_lem "" name q1 _ e1 in
        let (q3, r3, e3) = PW.get_int_lem u.id id q2 _ e2 in
        let (q4, r4, e4) = PW.get_text_lem "" msg q3 _ e3 in
        let (m, made, valid', rep, last) =
          edit_object_lem J (message_types J C) L M id (contents J C) (C.text_of msg)
            (messages_of J C L P IpAddress V s) valid o found in
        (m, rw (r1, r2, r3, r4, made) refl, valid', rep, last)
