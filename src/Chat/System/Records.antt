-- ===== src/Chat/System/Records.antt =====
-- The events of a chat with one user, against the lines that the user writes.
use Prim.Native.String.{String}
use auto_sync_gen.Prelude.{
  ℕ, ◌≤◌, ℤ, pos, ◌≡◌, refl, sym, subst, ap, ◌∙◌, List, [], ◌∷◌, length, Option, none, some,
  some_unique, eqb_ℤ, if◌then◌else◌, arith,
}
use auto_sync_gen.Result.{ok}
use auto_sync_gen.Ssvu.{Ssvu, SsvuLaws}
use auto_sync_gen.Json.{Json, JsonLaws, EmptyAsArray}
use auto_sync_gen.Lifetime.{Lifetime, LifetimeLaws}
use auto_sync_gen.Snapshot.{max_objs}
use auto_sync_gen.SyncObj.{SyncObj, edit, put_field_at}
use auto_sync_gen.SyncManager.Sent.{get_snapshot_sent}
use auto_sync_gen.TypeManager.{TypeState}
use auto_sync_gen.TypeManager.View.{view, IsValid, Replaces, none-ne-some}
use auto_sync_gen.TypeManager.Apply.{contents, view_of_some, contents-Replaces}
use auto_sync_gen.TypeManager.Create.{FreshFrom}
use auto_sync_gen.Packet.{PacketLib, PacketLaws, IsInt}
use auto_sync_gen.Chat
use auto_sync_gen.Chat.{ChatTypes, message_types, chat_types, ChatServer, messages_of}
use auto_sync_gen.Chat.Messages.{FieldKeys}
use auto_sync_gen.Chat.Invariant.{IsChat}
use auto_sync_gen.Chat.Menu.{new_message, edit_message, show_data, disconnect, other, choose}
use auto_sync_gen.Chat.Posted.{IsPosted-IsChat, IsEdited-IsChat}
use auto_sync_gen.Chat.Lines.{
  Line, add_line, edit_line, shown_line, shown, add_line_lem, edit_line_lem,
}
use auto_sync_gen.Chat.System.{
  Setting, World, Event, chooses, pings, synchronises, others, act, round, to_server, to_client,
}
use auto_sync_gen.Chat.System.Rounds.{IsJoined, pinged, after_ping}
use auto_sync_gen.Chat.System.Synchronised.{synchronised}
use auto_sync_gen.Chat.System.Shown.{choose-IsJoined}

module _ (J : Json) (C : ChatTypes J) (L : Lifetime J (message_types J C)) (P : PacketLib J.Val)
    (IpAddress : Type 0) (V : Ssvu) (Z : Setting J C L P IpAddress V) where
  -- What an event does to the lines, if nobody else writes.
  unfoldable pub record_event : Event J C L P IpAddress V → List Line → Option (List Line)
  record_event (chooses (new_message text)) ls = add_line (Z.name, text) ls
  record_event (chooses (edit_message m text)) ls = edit_line m text ls
  record_event (others d) ls = none
  record_event _ ls = some ls

  unfoldable pub record_all : List (Event J C L P IpAddress V) → List Line → Option (List Line)
  record_all [] ls = some ls
  record_all (e ∷ es) ls = elim (record_event e ls) [ none ↦ none | some ls' ↦ record_all es ls' ]

module _ (J : Json) (JW : JsonLaws J) (E : EmptyAsArray J) (K : FieldKeys J) (C : ChatTypes J)
    (L : Lifetime J (message_types J C)) (M : LifetimeLaws J (message_types J C) L)
    (P : PacketLib J.Val) (PW : PacketLaws J.Val P) (IpAddress : Type 0) (V : Ssvu)
    (VL : SsvuLaws V) (Z : Setting J C L P IpAddress V) where
  abbrev pub Joined : World J C L P IpAddress V → Type 0
  Joined = IsJoined J JW E C L M P PW IpAddress V VL Z 0

  -- The messages of a server show the lines.
  pub record IsRecorded (ls : List Line) (s : ChatServer J C L P IpAddress V) : Type 0 where
    pub room : length ls ≤ max_objs
    pub chat : IsChat J JW K C L M P IpAddress V (length ls) s
    pub shows :
        (k : ℤ)
        → contents J (message_types J C) L (messages_of J C L P IpAddress V s) k ≡ shown J C ls k

  same-IsRecorded :
      (ls : List Line) (s s' : ChatServer J C L P IpAddress V)
      → messages_of J C L P IpAddress V s' ≡ messages_of J C L P IpAddress V s
      → s'.app ≡ s.app
      → IsRecorded ls s
      → IsRecorded ls s'
  same-IsRecorded ls s s' same app r = record {
    room = r.room;
    chat = record {
      valid = subst (IsValid J (message_types J C) L M) (sym same) r.chat.valid;
      counted = app ∙ r.chat.counted;
      last = ap (λ m. m.last_id) same ∙ r.chat.last;
      fresh = subst (FreshFrom J (message_types J C) L M (length ls)) (sym same) r.chat.fresh;
      named =
          subst
            (λ m.
              (k : ℤ) (o : SyncObj J (message_types J C))
              → view J (message_types J C) L m k ≡ some o
              → o.fields.0 ≡ C.int_of k)
            (sym same) r.chat.named;
    };
    shows = λ k. ap (λ m. contents J (message_types J C) L m k) same ∙ r.shows k;
  }

  -- A message that shows a line is stored under its identifier.
  shows-Replaces :
      (ls ls' : List Line) (m m' : TypeState J (message_types J C) L) (id : ℤ)
      (o : SyncObj J (message_types J C)) (n : ℕ) (l : Line) (k : ℤ)
      → Replaces J (message_types J C) L M m m' id (some o)
      → o.fields ≡ shown_line J C n l
      → contents J (message_types J C) L m k ≡ shown J C ls k
      → shown J C ls' k ≡ (if eqb_ℤ id k then some (shown_line J C n l) else shown J C ls k)
      → contents J (message_types J C) L m' k ≡ shown J C ls' k
  shows-Replaces ls ls' m m' id o n l k replaces fields shows target =
      contents-Replaces J (message_types J C) L M m m' id (some o) k replaces
      ∙ rw (fields, shows) (sym target)

  -- The fields of a message with another text.
  edit-shown_line :
      (o : SyncObj J (message_types J C)) (n : ℕ) (l : Line) (text : String)
      → o.fields ≡ shown_line J C n l
      → (edit J (Chat.contents J C) (C.text_of text) o).fields ≡ shown_line J C n (l.0, text)
  unfolding edit put_field_at
  edit-shown_line o n l text e = ap (λ xs. (xs.0, (xs.1.0, (C.text_of text, tt)))) e

  module _ (ls : List Line) (w : World J C L P IpAddress V) (joined : Joined w)
      (recorded : IsRecorded ls w.server) where
    abbrev pub Acts : Event J C L P IpAddress V → List Line → Type 0
    Acts e ls' =
        (w' : World J C L P IpAddress V) × (act J C L P IpAddress V Z e w ≡ ok w')
        × Joined w'
        × IsRecorded ls' w'.server

    new_message_lem :
        (text : String) (ls' : List Line)
        → add_line (Z.name, text) ls ≡ some ls'
        → Acts (chooses (new_message text)) ls'
    unfolding act round to_server to_client
    new_message_lem text ls' e =
        let (lt, count, target) = add_line_lem J C (Z.name, text) ls ls' e in
        let (c', d, s', sent, received, ((o, fields, replaces, clients), chat)) =
          IsPosted-IsChat J JW K C L M P PW IpAddress V Z.at_server Z.locals Z.raw
            joined.serving.number 0 w.server w.client Z.ip Z.port Z.name text joined.serving.served
            joined.serving.below joined.id (length ls) lt recorded.chat in
        let w' : World J C L P IpAddress V = record { server = s'; client = c' } in
        let done : act J C L P IpAddress V Z (chooses (new_message text)) w ≡ ok w' =
          rw (sent, received) refl in
        (
          w',
          done,
          choose-IsJoined J JW E C L M P PW IpAddress V VL Z 0 w joined (new_message text) w' tt
              done,
          record {
            room = omega (arith, count, lt);
            chat = subst (λ n. IsChat J JW K C L M P IpAddress V n s') (sym count) chat;
            shows = λ k.
                shows-Replaces ls ls' (messages_of J C L P IpAddress V w.server)
                  (messages_of J C L P IpAddress V s') (pos (length ls)) o (length ls)
                  (Z.name, text) k replaces fields (recorded.shows k) (target k);
          },
        )

    edit_message_lem :
        (m : ℤ) (text : String) (ls' : List Line)
        → edit_line m text ls ≡ some ls'
        → Acts (chooses (edit_message m text)) ls'
    unfolding act round to_server to_client
    edit_message_lem m text ls' e =
        let (n, l, is_n, lt, count, was, target) = edit_line_lem J C m text ls ls' e in
        let in_range : IsInt m = subst IsInt (sym is_n) (omega (arith, lt, recorded.room)) in
        let (o, found, fields) =
          view_of_some J (message_types J C) L (messages_of J C L P IpAddress V w.server) m
            (shown_line J C n l) (recorded.shows m ∙ was) in
        let (c', d, s', sent, received, ((replaces, clients, app, last), chat)) =
          IsEdited-IsChat J JW K C L M P PW IpAddress V Z.at_server Z.locals Z.raw
            joined.serving.number 0 w.server w.client Z.ip Z.port Z.name text joined.serving.served
            joined.serving.below joined.id (length ls) m o in_range recorded.chat found in
        let w' : World J C L P IpAddress V = record { server = s'; client = c' } in
        let done : act J C L P IpAddress V Z (chooses (edit_message m text)) w ≡ ok w' =
          rw (sent, received) refl in
        (
          w',
          done,
          choose-IsJoined J JW E C L M P PW IpAddress V VL Z 0 w joined (edit_message m text) w'
              in_range done,
          record {
            room = omega (arith, count, recorded.room);
            chat = subst (λ x. IsChat J JW K C L M P IpAddress V x s') (sym count) chat;
            shows = λ k.
                shows-Replaces ls ls' (messages_of J C L P IpAddress V w.server)
                  (messages_of J C L P IpAddress V s') m
                  (edit J (Chat.contents J C) (C.text_of text) o) n (l.0, text) k replaces
                  (edit-shown_line o n l text fields) (recorded.shows k) (target k);
          },
        )

    pings_lem : Acts pings ls
    unfolding act round to_server to_client
    pings_lem =
        let (c, d, m, sent, answered, id, same) =
          pinged J JW E C L M P PW IpAddress V VL Z 0 w joined in
        let w' : World J C L P IpAddress V = record {
          server = record w.server { c_manager = m };
          client = c;
        } in
        let done : act J C L P IpAddress V Z pings w ≡ ok w' = rw (sent, answered) refl in
        (
          w',
          done,
          after_ping J JW E C L M P PW IpAddress V VL Z 0 w joined w' done,
          same-IsRecorded ls w.server w'.server refl refl recorded,
        )

    show_data_lem : Acts (chooses show_data) ls
    unfolding act round to_server to_client choose
    show_data_lem =
        let (taken, returns, back) =
          get_snapshot_sent J JW (chat_types J C L P IpAddress V) (M, tt) w.client.host.sync_manager
            (joined.serving.history.client_valid, tt) in
        (w, rw returns refl, joined, recorded)

    -- An event that the lines allow returns, and leaves messages that show the new lines.
    pub act-IsRecorded :
        (e : Event J C L P IpAddress V) (ls' : List Line)
        → record_event J C L P IpAddress V Z e ls ≡ some ls'
        → Acts e ls'
    unfolding act round to_server to_client choose record_event
    act-IsRecorded (chooses (new_message text)) ls' e = new_message_lem text ls' e
    act-IsRecorded (chooses (edit_message m text)) ls' e = edit_message_lem m text ls' e
    act-IsRecorded (chooses show_data) ls' e =
        subst (Acts (chooses show_data)) (some_unique ls ls' e) show_data_lem
    act-IsRecorded (chooses disconnect) ls' e =
        subst (Acts (chooses disconnect)) (some_unique ls ls' e) (
          _,
          refl,
          choose-IsJoined J JW E C L M P PW IpAddress V VL Z 0 w joined disconnect _ tt refl,
          recorded,
        )
    act-IsRecorded (chooses (other n)) ls' e =
        subst (Acts (chooses (other n))) (some_unique ls ls' e) (w, refl, joined, recorded)
    act-IsRecorded pings ls' e = subst (Acts pings) (some_unique ls ls' e) pings_lem
    act-IsRecorded synchronises ls' e =
        let (w', done, next, same, app, agrees) =
          synchronised J JW E C L M P PW IpAddress V VL Z 0 w joined in
        subst (Acts synchronises) (some_unique ls ls' e)
          (w', done, next, same-IsRecorded ls w.server w'.server same app recorded)
    act-IsRecorded (others d) ls' e = absurd (none-ne-some ls' e)
