-- ===== src/Chat/Posted.antt =====
-- A message on its way from the menu of a client to the server.
use Prim.Native.String.{String}
use auto_sync_gen.Prelude.{
  ℕ, suc, ◌<◌, ℤ, pos, ◌≡◌, ◌≢◌, refl, sym, subst, ap, ◌∙◌, List, [], ◌∷◌, true, some, arith,
}
use auto_sync_gen.Result.{Result, ok, halfway}
use auto_sync_gen.Ssvu.{Ssvu}
use auto_sync_gen.Json.{Json, JsonLaws}
use auto_sync_gen.Snapshot.{max_objs}
use auto_sync_gen.SyncObj.{SyncObj, edit}
use auto_sync_gen.Lifetime.{Lifetime, LifetimeLaws}
use auto_sync_gen.TypeManager.View.{view, IsValid, Replaces}
use auto_sync_gen.Connection.{Uninitialised, null_cid, has}
use auto_sync_gen.Connection.Reach.{pos-ne-null, Served}
use auto_sync_gen.Packet.{PacketLib, PacketLaws, IsInt, Arg, int_arg, text_arg}
use auto_sync_gen.Packet.Contents.{items_of, AreInts}
use auto_sync_gen.Session.{Unset, Datagram, arrived_from, recover}
use auto_sync_gen.Server
use auto_sync_gen.Server.{Server}
use auto_sync_gen.Server.Requests.{receive_data}
use auto_sync_gen.Client.{send_data_to_server}
use auto_sync_gen.Client.Answers.{send_data_to_server_lem}
use auto_sync_gen.Chat.{
  ChatTypes, UnsetLocals, message_types, contents, chat_types, ChatServer, messages_of,
  with_messages, on_chat_data, send_msg_number, edit_msg_number,
}
use auto_sync_gen.Chat.Messages.{FieldKeys, on_send_msg_lem, on_edit_msg_lem}
use auto_sync_gen.Chat.Invariant.{IsChat, on_chat_data-IsChat}
use auto_sync_gen.Chat.Menu.{ChatClient, new_message, edit_message, choose}

pos_unique : (a b : ℕ) → pos a ≡ pos b → a ≡ b
pos_unique a b e = cc

module _ (J : Json) (W : JsonLaws J) (K : FieldKeys J) (C : ChatTypes J)
    (L : Lifetime J (message_types J C)) (M : LifetimeLaws J (message_types J C) L)
    (P : PacketLib J.Val) (PW : PacketLaws J.Val P) (IpAddress : Type 0) (V : Ssvu) (us : Unset)
    (u : UnsetLocals) (raw : Uninitialised IpAddress) (n i : ℕ) (s : ChatServer J C L P IpAddress V)
    (c : ChatClient J C L P IpAddress V) (ip : IpAddress) (port : ℕ) (name msg : String)
    (served : Served IpAddress n s.c_manager) (lt : i < n) (id : c.cid ≡ pos i) where
  abbrev pub receives :
      Datagram J P IpAddress
      → Result (ChatServer J C L P IpAddress V × List (Datagram J P IpAddress))
  receives d =
      Server.receive J P IpAddress (chat_types J C L P IpAddress V) V ℤ
        (on_chat_data J C L P IpAddress V u) us raw (some (arrived_from J P IpAddress ip port d)) s

  in_range : IsInt c.cid
  in_range = subst IsInt (sym id) (omega (arith, served.bounded))

  connected : c.cid ≢ null_cid
  connected e = pos-ne-null i (sym id ∙ e)

  -- What the user enters goes to the server as data, and the server hands it to the chat.
  delivered :
      (Q : ChatServer J C L P IpAddress V → Type 0) (args : List (Arg J 1))
      → AreInts J P PW 1 args
      → ((q : P.Packet)
          → PW.contents q ≡ items_of J P PW 1 args
          → (s' : ChatServer J C L P IpAddress V) × (on_chat_data J C L P IpAddress V u c.cid q s
              ≡ ok (s', []))
            × Q s')
      → (c' : ChatClient J C L P IpAddress V) × (d : Datagram J P IpAddress) × (s' : ChatServer J C
          L P IpAddress V)
        × (send_data_to_server J P IpAddress (chat_types J C L P IpAddress V) args c
            ≡ ok (c', d ∷ []))
        × (receives d ≡ ok (s', []))
        × Q s'
  unfolding recover halfway has
  delivered Q args ints handled =
      let ((c', out), sent, (p, one, held, m, same, sip, sport)) =
        send_data_to_server_lem J P PW IpAddress (chat_types J C L P IpAddress V) c connected
          in_range args ints in
      let d : Datagram J P IpAddress = record {
        ip = c.server_ip;
        port = c.server_port;
        packet = p;
      } in
      let known : has IpAddress c.cid s.c_manager ≡ true = rw (id, served.mapped i lt) refl in
      let (q, run, left) =
        receive_data J P PW IpAddress (chat_types J C L P IpAddress V) V ℤ
          (on_chat_data J C L P IpAddress V u) us raw (arrived_from J P IpAddress ip port d) s c.cid
          (items_of J P PW 1 args) held known in
      let (s', ran, so) = handled q left in
      (c', d, s', sent ∙ ap (λ x. ok (c', x)) one, run ∙ rw ran refl, so)

  -- A message of the number `k`, the user's name and the text is stored under the identifier `k`.
  abbrev pub IsPosted : ℕ → ChatServer J C L P IpAddress V → Type 0
  IsPosted k s' =
      (o : SyncObj J (message_types J C)) × (o.fields
        ≡ (C.int_of (pos k), (C.text_of name, (C.text_of msg, tt))))
      × Replaces J (message_types J C) L M (messages_of J C L P IpAddress V s)
          (messages_of J C L P IpAddress V s') (pos k) (some o)
      × (s'.c_manager ≡ s.c_manager)

  -- The text of the message `o` under the identifier `m` is edited, and nothing else changes.
  abbrev pub IsEdited : ℤ → SyncObj J (message_types J C) → ChatServer J C L P IpAddress V → Type 0
  IsEdited m o s' =
      Replaces J (message_types J C) L M (messages_of J C L P IpAddress V s)
        (messages_of J C L P IpAddress V s') m (some (edit J (contents J C) (C.text_of msg) o))
      × (s'.c_manager ≡ s.c_manager)
      × (s'.app ≡ s.app)
      × ((messages_of J C L P IpAddress V s').last_id ≡ (messages_of J C L P IpAddress V s).last_id)

  -- A new message, with the state of the chat's server as after one more message.
  pub IsPosted-IsChat :
      (k : ℕ)
      → k < max_objs
      → IsChat J W K C L M P IpAddress V k s
      → (c' : ChatClient J C L P IpAddress V) × (d : Datagram J P IpAddress) × (s' : ChatServer J C
          L P IpAddress V)
        × (choose J C L P IpAddress V name (new_message msg) c ≡ ok (c', d ∷ []))
        × (receives d ≡ ok (s', []))
        × (IsPosted k s' × IsChat J W K C L M P IpAddress V (suc k) s')
  unfolding choose
  IsPosted-IsChat k small chat =
      delivered (λ s'. IsPosted k s' × IsChat J W K C L M P IpAddress V (suc k) s')
        (int_arg send_msg_number ∷ text_arg name ∷ text_arg msg ∷ []) (omega arith, tt)
        (λ q held.
          let (m, o, ran, fields, valid, rep, last, fresh) =
            on_send_msg_lem J W K C L M P PW IpAddress V u c.cid s chat.valid k q name msg [] held
              chat.counted chat.last small chat.fresh in
          let s' : ChatServer J C L P IpAddress V = record (with_messages J C L P IpAddress V m s) {
            app = pos (suc k);
          } in
          let (k', from, to, chat', clients, none_sent) =
            on_chat_data-IsChat J W K C L M P IpAddress V k s chat s' u c.cid q [] ran in
          (
            s',
            ran,
            (
              (o, fields, rep, refl),
              subst (λ x. IsChat J W K C L M P IpAddress V x s')
                  (pos_unique _ _ (sym chat'.counted)) chat',
            ),
          ))

  -- Another text, with the counters of the chat's server as they are.
  pub IsEdited-IsChat :
      (k : ℕ) (m : ℤ) (o : SyncObj J (message_types J C))
      → IsInt m
      → IsChat J W K C L M P IpAddress V k s
      → view J (message_types J C) L (messages_of J C L P IpAddress V s) m ≡ some o
      → (c' : ChatClient J C L P IpAddress V) × (d : Datagram J P IpAddress) × (s' : ChatServer J C
          L P IpAddress V)
        × (choose J C L P IpAddress V name (edit_message m msg) c ≡ ok (c', d ∷ []))
        × (receives d ≡ ok (s', []))
        × (IsEdited m o s' × IsChat J W K C L M P IpAddress V k s')
  unfolding choose
  IsEdited-IsChat k m o range chat found =
      delivered (λ s'. IsEdited m o s' × IsChat J W K C L M P IpAddress V k s')
        (int_arg edit_msg_number ∷ text_arg name ∷ int_arg m ∷ text_arg msg ∷ [])
        (omega arith, (range, tt))
        (λ q held.
          let (t, ran, valid', rep, last) =
            on_edit_msg_lem J W K C L M P PW IpAddress V u c.cid s chat.valid q name msg m [] o held
              found in
          let s' : ChatServer J C L P IpAddress V = with_messages J C L P IpAddress V t s in
          let (k', from, to, chat', clients, none_sent) =
            on_chat_data-IsChat J W K C L M P IpAddress V k s chat s' u c.cid q [] ran in
          (
            s',
            ran,
            (
              (rep, refl, refl, last),
              subst (λ x. IsChat J W K C L M P IpAddress V x s')
                  (pos_unique _ _ (sym chat'.counted ∙ chat.counted)) chat',
            ),
          ))

  -- If the chat's server serves the client under its identifier, has its messages well formed and
  -- each named by its identifier, with `lastID` and its manager's counter at `k`, `k` below
  -- `maxObjs`, and the user enters a new message and its datagram arrives, then the server stores
  -- a message of the number `k`, the user's name and the text under the identifier `k`, leaves the
  -- others as they are, keeps its clients, and answers nothing.
  pub posted_lem :
      (k : ℕ)
      → k < max_objs
      → IsChat J W K C L M P IpAddress V k s
      → (c' : ChatClient J C L P IpAddress V) × (d : Datagram J P IpAddress) × (s' : ChatServer J C
          L P IpAddress V)
        × (choose J C L P IpAddress V name (new_message msg) c ≡ ok (c', d ∷ []))
        × (receives d ≡ ok (s', []))
        × IsPosted k s'
  posted_lem k small chat =
      let (c', d, s', sent, received, (posted, chat')) = IsPosted-IsChat k small chat in
      (c', d, s', sent, received, posted)

  -- If the chat's server serves the client under its identifier, keeps its messages well formed and has
  -- one under `m`, an `int`, and the user enters a new text for `m` and its datagram arrives, then the
  -- text of that message is edited, the others stay as they are, the server keeps its clients and its
  -- counters, and answers nothing.
  pub edited_lem :
      (m : ℤ) (o : SyncObj J (message_types J C))
      → IsInt m
      → IsValid J (message_types J C) L M (messages_of J C L P IpAddress V s)
      → view J (message_types J C) L (messages_of J C L P IpAddress V s) m ≡ some o
      → (c' : ChatClient J C L P IpAddress V) × (d : Datagram J P IpAddress) × (s' : ChatServer J C
          L P IpAddress V)
        × (choose J C L P IpAddress V name (edit_message m msg) c ≡ ok (c', d ∷ []))
        × (receives d ≡ ok (s', []))
        × IsEdited m o s'
  unfolding choose
  edited_lem m o range valid found =
      delivered (IsEdited m o)
        (int_arg edit_msg_number ∷ text_arg name ∷ int_arg m ∷ text_arg msg ∷ [])
        (omega arith, (range, tt))
        (λ q held.
          let (t, ran, valid', rep, last) =
            on_edit_msg_lem J W K C L M P PW IpAddress V u c.cid s valid q name msg m [] o held
              found in
          (_, ran, (rep, refl, refl, last)))
