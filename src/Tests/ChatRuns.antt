-- ===== src/Tests/ChatRuns.antt =====
-- The theorems on runs of the chat at a user who posts a message and edits it.
use auto_sync_gen.Prelude.{ℕ, ℤ, pos, ◌≡◌, refl, ap, ◌∙◌, List, [], ◌∷◌, some, true, arith}
use auto_sync_gen.Result.{Result, ok, err}
use auto_sync_gen.Sync.{Agrees}
use auto_sync_gen.TypeManager.Apply.{contents}
use native.Mathlib.Decide.{ℕ_discrete}
use auto_sync_gen.Packet.{ntype, to_ctos}
use auto_sync_gen.Connection.Reach.{Served, initial_manager-Served}
use auto_sync_gen.Chat.Cases.{on_chat_data_cases}
use auto_sync_gen.Network.Answers.{AllOf}
use auto_sync_gen.Network.Addressed.{IsSilent, receive-IsAddressed}
use auto_sync_gen.Session.{Datagram, new_host}
use auto_sync_gen.Server.{new_server}
use auto_sync_gen.Server.Requests.{receive_connection_request}
use auto_sync_gen.Client.{new_client}
use auto_sync_gen.Chat.{ChatServer, chat_types, messages_of, on_chat_data}
use auto_sync_gen.Chat.Menu.{ChatClient, new_message, edit_message, show_data}
use auto_sync_gen.Chat.Lines.{Line, add_line, edit_line, shown}
use auto_sync_gen.Chat.System.{
  Setting, World, Event, chooses, pings, synchronises, others, client_messages, server_receives,
  AfterOk, to_client, for_client, IsElsewhere, AreElsewhere, connect, act, run,
}
use auto_sync_gen.Chat.System.Shown.{connected_lem, act-IsJoined, run-Shows}
use auto_sync_gen.Chat.System.Records.{record_event, record_all}
use auto_sync_gen.Chat.System.Recorded.{run-IsRecorded, new-IsRecorded, run-record_all}
use auto_sync_gen.Tests.JsonModel.{tree_json}
use auto_sync_gen.Tests.JsonLaws.{tree_laws}
use auto_sync_gen.Tests.Setup.{ssvu, ssvu_laws, message_fields, messages, messages_laws}
use auto_sync_gen.Tests.Packets.{get_ntype, packets, packet_laws, empty_as_array}
use auto_sync_gen.Tests.Chats.{field_keys, chat}
use auto_sync_gen.Tests.Sessions.{unset, raw}

abbrev setting : Setting tree_json chat messages packets ℕ ssvu
setting = record {
  name = "ann";
  ip = 9;
  port = 27016;
  server_ip = 1;
  server_port = 27015;
  same_ip = ℕ_discrete;
  at_server = unset;
  at_client = unset;
  locals = record { type = pos 7; id = pos 7 };
  raw = raw;
}

abbrev Stage : Type 0
Stage = World tree_json chat messages packets ℕ ssvu

abbrev todo : List (Event tree_json chat messages packets ℕ ssvu)
todo =
    chooses (new_message "hi")
    ∷ pings
    ∷ synchronises
    ∷ chooses (edit_message (pos 0) "bye")
    ∷ chooses show_data
    ∷ []

abbrev lines : List Line
lines = ("ann", "bye") ∷ []

todo_lines : record_all tree_json chat messages packets ℕ ssvu setting todo [] ≡ some lines
unfolding record_all record_event add_line edit_line
todo_lines = refl

fresh_server :
    (s : ChatServer tree_json chat messages packets ℕ ssvu) × (new_server tree_json packets ℕ
        (chat_types tree_json chat messages packets ℕ ssvu)
        ssvu
        ℤ
        1
        27015
        true
        (pos 0)
      ≡ ok s)
unfolding new_server new_host
fresh_server = (_, refl)

fresh_client :
    (c : ChatClient tree_json chat messages packets ℕ ssvu) × (new_client tree_json packets ℕ
        (chat_types tree_json chat messages packets ℕ ssvu)
        9
        27016
        true
        1
        27015
      ≡ ok c)
unfolding new_client new_host
fresh_client = (_, refl)

abbrev at_start : Stage
at_start = record { server = fresh_server.0; client = fresh_client.0 }

run-record_all_example :
    (w0 w w' : Stage) × (connect tree_json chat messages packets ℕ ssvu setting at_start ≡ ok w0)
    × (run tree_json chat messages packets ℕ ssvu setting todo w0 ≡ ok w)
    × (act tree_json chat messages packets ℕ ssvu setting synchronises w ≡ ok w')
    × ((k : ℤ)
        → contents tree_json message_fields messages
            (client_messages tree_json chat messages packets ℕ ssvu w'.client)
            k
          ≡ shown tree_json chat lines k)
run-record_all_example =
    run-record_all tree_json tree_laws empty_as_array field_keys chat messages messages_laws packets
      packet_laws ℕ ssvu ssvu_laws setting 9 27016 fresh_server.0 fresh_client.0 todo lines
      fresh_server.1 fresh_client.1 todo_lines

abbrev stranger : Datagram tree_json packets ℕ
stranger = record { ip = 5; port = 7; packet = ntype (pos 0) ∷ [] }

-- The client connects, then somebody else does, and then the user posts a message and edits it.
scene :
    (w0 w : Stage) × (connect tree_json chat messages packets ℕ ssvu setting at_start ≡ ok w0)
    × (run tree_json chat messages packets ℕ ssvu setting (others stranger ∷ todo) w0 ≡ ok w)
    × AreElsewhere tree_json chat messages packets ℕ ssvu setting (others stranger ∷ todo) w0
unfolding run act to_client for_client ℕ_discrete
scene =
    let (w0, met, joined, one, empty, app) =
      connected_lem tree_json tree_laws empty_as_array chat messages messages_laws packets
        packet_laws ℕ ssvu ssvu_laws setting 9 27016 fresh_server.0 fresh_client.0 (pos 0)
        fresh_server.1 fresh_client.1 in
    let (s, p, got, greeting, served, bound, same, same_app) =
      receive_connection_request tree_json packets packet_laws ℕ
        (chat_types tree_json chat messages packets ℕ ssvu) ssvu ℤ
        (on_chat_data tree_json chat messages packets ℕ ssvu setting.locals) unset raw stranger
        w0.server joined.serving.number joined.serving.served ssvu_laws (omega (arith, one)) refl in
    let w1 : Stage = record { server = s; client = w0.client } in
    let here : IsElsewhere tree_json chat messages packets ℕ ssvu setting (others stranger) w0 =
      rw got refl in
    let met_stranger : act tree_json chat messages packets ℕ ssvu setting (others stranger) w0
        ≡ ok w1 =
      rw got refl in
    let joined1 =
      act-IsJoined tree_json tree_laws empty_as_array chat messages messages_laws packets
        packet_laws ℕ ssvu ssvu_laws setting 0 w0 joined (others stranger) w1 tt here
        met_stranger in
    let (w, ran, joined2, recorded) =
      run-IsRecorded tree_json tree_laws empty_as_array field_keys chat messages messages_laws
        packets packet_laws ℕ ssvu ssvu_laws setting todo [] lines w1 joined1
        (new-IsRecorded tree_json tree_laws empty_as_array field_keys chat messages messages_laws
          packets packet_laws ℕ ssvu ssvu_laws setting s (ap (λ m. m.0) same ∙ empty)
          (same_app ∙ app))
        todo_lines in
    (
      w0,
      w,
      met,
      rw met_stranger ran,
      (
        here,
        after_all (act tree_json chat messages packets ℕ ssvu setting (others stranger) w0)
            (AreElsewhere tree_json chat messages packets ℕ ssvu setting todo)
            (own_elsewhere todo tt),
      ),
    )
  where
    after_all :
        (r : Result Stage) (Q : Stage → Type 0)
        → ((w : Stage) → Q w)
        → AfterOk tree_json chat messages packets ℕ ssvu r Q
    after_all (ok w) Q q = q w
    after_all (err e) Q q = tt

    -- Events of the user and of the sending thread.
    AreOwn : List (Event tree_json chat messages packets ℕ ssvu) → Type 0
    AreOwn [] = Unit {0}
    AreOwn (others d ∷ es) = ⊥
    AreOwn (e ∷ es) = AreOwn es

    own_elsewhere :
        (es : List (Event tree_json chat messages packets ℕ ssvu))
        → AreOwn es
        → (w : Stage) → AreElsewhere tree_json chat messages packets ℕ ssvu setting es w
    own_elsewhere [] own w = tt
    own_elsewhere (others d ∷ es) own w = absurd own
    own_elsewhere (chooses choice ∷ es) own w = (
      tt,
      after_all (act tree_json chat messages packets ℕ ssvu setting (chooses choice) w)
          (AreElsewhere tree_json chat messages packets ℕ ssvu setting es) (own_elsewhere es own),
    )
    own_elsewhere (pings ∷ es) own w = (
      tt,
      after_all (act tree_json chat messages packets ℕ ssvu setting pings w)
          (AreElsewhere tree_json chat messages packets ℕ ssvu setting es) (own_elsewhere es own),
    )
    own_elsewhere (synchronises ∷ es) own w = (
      tt,
      after_all (act tree_json chat messages packets ℕ ssvu setting synchronises w)
          (AreElsewhere tree_json chat messages packets ℕ ssvu setting es) (own_elsewhere es own),
    )

run-Shows_example :
    (w' : Stage) × (act tree_json chat messages packets ℕ ssvu setting synchronises scene.1 ≡ ok w')
    × (messages_of tree_json chat messages packets ℕ ssvu w'.server
        ≡ messages_of tree_json chat messages packets ℕ ssvu scene.1.server)
    × Agrees tree_json message_fields messages
        (messages_of tree_json chat messages packets ℕ ssvu w'.server)
        (client_messages tree_json chat messages packets ℕ ssvu w'.client)
run-Shows_example =
    run-Shows tree_json tree_laws empty_as_array chat messages messages_laws packets packet_laws ℕ
      ssvu ssvu_laws setting 9 27016 fresh_server.0 fresh_client.0 (others stranger ∷ todo) scene.0
      scene.1 fresh_server.1 fresh_client.1 scene.2 (tt, (tt, (tt, (tt, (omega arith, (tt, tt))))))
      scene.4 scene.3

fresh_served : Served ℕ 0 fresh_server.0.c_manager
unfolding fresh_server
fresh_served = initial_manager-Served ℕ

silent :
    IsSilent tree_json packets packet_laws ℕ
      (chat_types tree_json chat messages packets ℕ ssvu)
      ssvu
      ℤ
      (on_chat_data tree_json chat messages packets ℕ ssvu setting.locals)
silent cid p s s' out e =
    (on_chat_data_cases tree_json chat messages packets ℕ ssvu setting.locals cid p s s' out e).1

-- What the server makes of the stranger's request.
greeted :
    (s : ChatServer tree_json chat messages packets ℕ ssvu) × (out : List
      (Datagram tree_json packets ℕ))
    × (server_receives tree_json chat messages packets ℕ ssvu setting stranger fresh_server.0
        ≡ ok (s, out))
greeted =
    let (s, p, got, greeting, served, bound, same, same_app) =
      receive_connection_request tree_json packets packet_laws ℕ
        (chat_types tree_json chat messages packets ℕ ssvu) ssvu ℤ
        (on_chat_data tree_json chat messages packets ℕ ssvu setting.locals) unset raw stranger
        fresh_server.0 0 fresh_served ssvu_laws (omega arith) refl in
    (s, _, got)

receive-IsAddressed_example : AllOf (λ o. (o.ip ≡ 5) × (o.port ≡ 7)) greeted.1
unfolding to_ctos get_ntype
receive-IsAddressed_example =
    receive-IsAddressed tree_json packets packet_laws ℕ
      (chat_types tree_json chat messages packets ℕ ssvu) ssvu ℤ 0 fresh_server.0 greeted.0
      greeted.1 ssvu_laws fresh_served
      (on_chat_data tree_json chat messages packets ℕ ssvu setting.locals) unset raw stranger silent
      greeted.2
