-- ===== src/Tests/Chats.antt =====
-- The theorems on the chat's server at a server with one message, and on repeated differences.
use auto_sync_gen.Prelude.{ℕ, ◌≤◌, ℤ, pos, ◌≡◌, refl, sym, ◌∙◌, List, [], ◌∷◌, some, arith, true}
use auto_sync_gen.Result.{ok, err, assertion}
use auto_sync_gen.Connection.{initial_manager}
use auto_sync_gen.Snapshot.{SnapshotTypeData, DiffTypeData}
use auto_sync_gen.SyncObj.{SyncObj, edit}
use auto_sync_gen.Difference.{type_diff}
use auto_sync_gen.TypeManager.{type_snapshot, apply_type_diff}
use auto_sync_gen.TypeManager.View.{IsValid, Replaces, none-ne-some}
use auto_sync_gen.TypeManager.Create.{FreshFrom, initial_type_state-FreshFrom}
use auto_sync_gen.Sync.Repeated.{repeated_diff}
use auto_sync_gen.Packet.{int, text}
use auto_sync_gen.Session.{Datagram}
use auto_sync_gen.Chat.{ChatTypes, UnsetLocals, contents, ChatServer, on_chat_data}
use auto_sync_gen.Chat.Messages.{FieldKeys, on_send_msg_lem, on_edit_msg_lem}
use auto_sync_gen.Chat.Invariant.{IsChat, on_chat_data-IsChat}
use auto_sync_gen.Connection.{ClientHandlerManager, Uninitialised}
use auto_sync_gen.Connection.Reach.{Served, initial_manager-Served, accept_client_lem}
use auto_sync_gen.Session.{Unset, arrived_from}
use auto_sync_gen.Server
use auto_sync_gen.Chat.{chat_types}
use auto_sync_gen.Result.{Result}
use auto_sync_gen.Chat.Menu.{ChatClient, choose, new_message, edit_message}
use auto_sync_gen.Chat.Posted.{posted_lem, edited_lem}
use auto_sync_gen.Tests.JsonModel.{tree_json, FieldType, chars, all_operations}
use auto_sync_gen.Tests.JsonLaws.{tree_laws}
use auto_sync_gen.Tests.JsonModel
use auto_sync_gen.Tests.Setup.{ssvu, ssvu_laws, message_fields, messages, messages_laws}
use auto_sync_gen.Tests.Managers.{
  State, empty_state, empty_state-Valid, empty_view, made, untracked, loaded,
}
use auto_sync_gen.Tests.Packets.{Packet, packets, packet_laws}

repeated_diff_example :
    (a b : SnapshotTypeData tree_json) × (d : DiffTypeData tree_json) × (client' : State)
    × (type_snapshot tree_json message_fields messages made.0 ≡ ok a)
    × (type_snapshot tree_json message_fields messages empty_state ≡ ok b)
    × (type_diff tree_json made.0.bitset_ids empty_state.bitset_ids a b ≡ ok (a, d))
    × (apply_type_diff tree_json message_fields messages d empty_state ≡ ok client')
    × (apply_type_diff tree_json message_fields messages d client' ≡ err assertion)
repeated_diff_example =
    repeated_diff tree_json message_fields messages messages_laws tree_laws made.0 empty_state
      (pos 0) loaded.0 (omega arith) made.1 empty_state-Valid untracked made.2 (empty_view (pos 0))

pub field_keys : FieldKeys tree_json
unfolding all_operations
field_keys = record { to_str_zero = refl; to_str_one = refl; to_str_two = refl }

abbrev pub chat : ChatTypes tree_json
chat = record { int_type = JsonModel.int; text_type = chars; int_of = λ i. i; text_of = λ s. s }

abbrev Chat : Type 0
Chat = ChatServer tree_json chat messages packets ℕ ssvu

abbrev chat_with : State → ℤ → Chat
chat_with m last = record {
  host = record {
    name = "Server";
    ip = 1;
    port = 27015;
    busy = true;
    send_buffer = [];
    sync_manager = (m, tt);
  };
  c_manager = initial_manager ℕ;
  app = last;
}

abbrev unset : UnsetLocals
unset = record { type = pos 7; id = pos 7 }

abbrev unset_type : Unset
unset_type = record { ntype = pos 9; int = pos 77 }

abbrev raw : Uninitialised ℕ
raw = record { ip = 0; port = 0; seconds = pos 5 }

abbrev hi_packet : Packet
hi_packet = int (pos 0) ∷ text "ann" ∷ text "hi" ∷ []

abbrev edit_packet : Packet
edit_packet = int (pos 1) ∷ text "bob" ∷ int (pos 0) ∷ text "bye" ∷ []

fresh_zero : FreshFrom tree_json message_fields messages messages_laws 0 empty_state
fresh_zero = initial_type_state-FreshFrom tree_json message_fields messages messages_laws

on_send_msg_lem_example :
    (m : State) × (o : SyncObj tree_json message_fields) × (on_chat_data tree_json chat messages
        packets ℕ ssvu unset
        (pos 0)
        hi_packet
        (chat_with empty_state (pos 0))
      ≡ ok (chat_with m (pos 1), []))
    × (o.fields ≡ (pos 0, ("ann", ("hi", tt))))
    × IsValid tree_json message_fields messages messages_laws m
    × Replaces tree_json message_fields messages messages_laws empty_state m (pos 0) (some o)
    × (m.last_id ≡ pos 1)
    × FreshFrom tree_json message_fields messages messages_laws 1 m
on_send_msg_lem_example =
    on_send_msg_lem tree_json tree_laws field_keys chat messages messages_laws packets packet_laws ℕ
      ssvu unset (pos 0) (chat_with empty_state (pos 0)) empty_state-Valid 0 hi_packet "ann" "hi" []
      refl refl refl (omega arith) fresh_zero

on_edit_msg_lem_example :
    (m : State) × (on_chat_data tree_json chat messages packets ℕ ssvu unset
        (pos 0)
        edit_packet
        (chat_with made.0 (pos 0))
      ≡ ok (chat_with m (pos 0), []))
    × IsValid tree_json message_fields messages messages_laws m
    × Replaces tree_json message_fields messages messages_laws made.0 m
        (pos 0)
        (some (edit tree_json (contents tree_json chat) "bye" loaded.0))
    × (m.last_id ≡ made.0.last_id)
on_edit_msg_lem_example =
    on_edit_msg_lem tree_json tree_laws field_keys chat messages messages_laws packets packet_laws ℕ
      ssvu unset (pos 0) (chat_with made.0 (pos 0)) made.1 edit_packet "bob" "bye" (pos 0) []
      loaded.0 refl made.2

empty_chat-IsChat :
    IsChat tree_json tree_laws field_keys chat messages messages_laws packets ℕ ssvu 0
      (chat_with empty_state (pos 0))
empty_chat-IsChat = record {
  valid = empty_state-Valid;
  counted = refl;
  last = refl;
  fresh = fresh_zero;
  named = λ k o e. absurd (none-ne-some o (sym (empty_view k) ∙ e));
}

after_hi :
    (m : State) × (on_chat_data tree_json chat messages packets ℕ ssvu unset
        (pos 0)
        hi_packet
        (chat_with empty_state (pos 0))
      ≡ ok (chat_with m (pos 1), []))
after_hi =
    let (m, o, run, fields, valid, rep, last, fresh) =
      on_send_msg_lem tree_json tree_laws field_keys chat messages messages_laws packets packet_laws
        ℕ ssvu unset (pos 0) (chat_with empty_state (pos 0)) empty_state-Valid 0 hi_packet "ann"
        "hi" [] refl refl refl (omega arith) fresh_zero in
    (m, run)

on_chat_data-IsChat_example :
    (n' : ℕ) × (0 ≤ n')
    × (n' ≤ 1)
    × IsChat tree_json tree_laws field_keys chat messages messages_laws packets ℕ ssvu n'
        (chat_with after_hi.0 (pos 1))
    × ((chat_with after_hi.0 (pos 1)).c_manager ≡ initial_manager ℕ)
    × (◌≡◌ {A = List (Datagram tree_json packets ℕ)} [] [])
on_chat_data-IsChat_example =
    on_chat_data-IsChat tree_json tree_laws field_keys chat messages messages_laws packets ℕ ssvu 0
      (chat_with empty_state (pos 0)) empty_chat-IsChat (chat_with after_hi.0 (pos 1)) unset (pos 0)
      hi_packet [] after_hi.1

serving : (c : ClientHandlerManager ℕ) × Served ℕ 1 c
serving =
    let (m, run, s, b, o) =
      accept_client_lem ℕ ssvu ssvu_laws raw 9 27016 0 (initial_manager ℕ)
        (initial_manager-Served ℕ) (omega arith) in
    (m, s)

abbrev chat_client : ChatClient tree_json chat messages packets ℕ ssvu
chat_client = record {
  host = record (chat_with empty_state (pos 0)).host { name = "Client" };
  server_ip = 1;
  server_port = 27015;
  cid = pos 0;
}

abbrev serving_chat : State → Chat
serving_chat m = record (chat_with m (pos 0)) { c_manager = serving.0 }

abbrev at_chat :
    State → Datagram tree_json packets ℕ → Result (Chat × List (Datagram tree_json packets ℕ))
at_chat m d =
    Server.receive tree_json packets ℕ (chat_types tree_json chat messages packets ℕ ssvu) ssvu ℤ
      (on_chat_data tree_json chat messages packets ℕ ssvu unset) unset_type raw
      (some (arrived_from tree_json packets ℕ 9 27016 d)) (serving_chat m)

serving_chat-IsChat :
    IsChat tree_json tree_laws field_keys chat messages messages_laws packets ℕ ssvu 0
      (serving_chat empty_state)
serving_chat-IsChat = record {
  valid = empty_state-Valid;
  counted = refl;
  last = refl;
  fresh = fresh_zero;
  named = λ k o e. absurd (none-ne-some o (sym (empty_view k) ∙ e));
}

posted_lem_example :
    (c' : ChatClient tree_json chat messages packets ℕ ssvu) × (d : Datagram tree_json packets ℕ)
    × (s' : Chat) × (choose tree_json chat messages packets ℕ ssvu "ann"
          (new_message "hi")
          chat_client
        ≡ ok (c', d ∷ []))
    × (at_chat empty_state d ≡ ok (s', []))
    × ((o : SyncObj tree_json message_fields) × (o.fields ≡ (pos 0, ("ann", ("hi", tt))))
        × Replaces tree_json message_fields messages messages_laws empty_state
            s'.host.sync_manager.0
            (pos 0)
            (some o)
        × (s'.c_manager ≡ serving.0))
posted_lem_example =
    posted_lem tree_json tree_laws field_keys chat messages messages_laws packets packet_laws ℕ ssvu
      unset_type unset raw 1 0 (serving_chat empty_state) chat_client 9 27016 "ann" "hi" serving.1
      (omega arith) refl 0 (omega arith) serving_chat-IsChat

edited_lem_example :
    (c' : ChatClient tree_json chat messages packets ℕ ssvu) × (d : Datagram tree_json packets ℕ)
    × (s' : Chat) × (choose tree_json chat messages packets ℕ ssvu "bob"
          (edit_message (pos 0) "bye")
          chat_client
        ≡ ok (c', d ∷ []))
    × (at_chat made.0 d ≡ ok (s', []))
    × (Replaces tree_json message_fields messages messages_laws made.0 s'.host.sync_manager.0
          (pos 0)
          (some (edit tree_json (contents tree_json chat) "bye" loaded.0))
        × (s'.c_manager ≡ serving.0)
        × (s'.app ≡ pos 0)
        × (s'.host.sync_manager.0.last_id ≡ made.0.last_id))
edited_lem_example =
    edited_lem tree_json tree_laws field_keys chat messages messages_laws packets packet_laws ℕ ssvu
      unset_type unset raw 1 0 (serving_chat made.0) chat_client 9 27016 "bob" "bye" serving.1
      (omega arith) refl (pos 0) loaded.0 (omega arith) made.1 made.2
