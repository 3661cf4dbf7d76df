-- ===== src/Chat/System/Recorded.antt =====
-- A run of the chat with one user, against the lines that the user writes.
use auto_sync_gen.Prelude.{
  ℕ, ℤ, pos, ◌≡◌, refl, sym, subst, ap, ◌∙◌, List, [], ◌∷◌, none, some, some_unique, Option-cases,
  inl, inr, negsuc, true, arith,
}
use auto_sync_gen.Result.{ok}
use auto_sync_gen.Ssvu.{Ssvu, SsvuLaws}
use auto_sync_gen.Json.{Json, JsonLaws, EmptyAsArray}
use auto_sync_gen.Lifetime.{Lifetime, LifetimeLaws}
use auto_sync_gen.TypeManager.{initial_type_state}
use auto_sync_gen.TypeManager.View.{view, IsValid, none-ne-some}
use auto_sync_gen.TypeManager.Apply.{contents}
use auto_sync_gen.TypeManager.Create.{initial_type_state-IsValid, initial_type_state-FreshFrom}
use auto_sync_gen.IdList.{seen-zero}
use auto_sync_gen.Packet.{PacketLib, PacketLaws}
use auto_sync_gen.Server.{new_server}
use auto_sync_gen.Client.{new_client}
use auto_sync_gen.Chat.{ChatTypes, message_types, chat_types, ChatServer, messages_of}
use auto_sync_gen.Chat.Messages.{FieldKeys}
use auto_sync_gen.Chat.Menu.{ChatClient}
use auto_sync_gen.Chat.Lines.{Line, shown}
use auto_sync_gen.Chat.System.{
  Setting, World, Event, synchronises, client_messages, act, run, connect,
}
use auto_sync_gen.Chat.System.Rounds.{IsJoined}
use auto_sync_gen.Chat.System.Synchronised.{synchronised}
use auto_sync_gen.Chat.System.Shown.{connected_lem}
use auto_sync_gen.Chat.System.Records.{record_event, record_all, IsRecorded, act-IsRecorded}

module _ (J : Json) (JW : JsonLaws J) (E : EmptyAsArray J) (K : FieldKeys J) (C : ChatTypes J)
    (L : Lifetime J (message_types J C)) (M : LifetimeLaws J (message_types J C) L)
    (P : PacketLib J.Val) (PW : PacketLaws J.Val P) (IpAddress : Type 0) (V : Ssvu)
    (VL : SsvuLaws V) (Z : Setting J C L P IpAddress V) where
  abbrev Joined : World J C L P IpAddress V → Type 0
  Joined = IsJoined J JW E C L M P PW IpAddress V VL Z 0

  abbrev Recorded : List Line → ChatServer J C L P IpAddress V → Type 0
  Recorded = IsRecorded J JW E K C L M P PW IpAddress V VL Z

  pub run-IsRecorded :
      (todo : List (Event J C L P IpAddress V)) (ls ls' : List Line) (w : World J C L P IpAddress V)
      → Joined w
      → Recorded ls w.server
      → record_all J C L P IpAddress V Z todo ls ≡ some ls'
      → (w' : World J C L P IpAddress V) × (run J C L P IpAddress V Z todo w ≡ ok w')
        × Joined w'
        × Recorded ls' w'.server
  unfolding run record_all
  run-IsRecorded [] ls ls' w joined recorded e =
      (w, refl, joined, subst (λ x. Recorded x w.server) (some_unique ls ls' e) recorded)
  run-IsRecorded (a ∷ todo) ls ls' w joined recorded e =
      elim (Option-cases (record_event J C L P IpAddress V Z a ls)) [
        | inl refused ↦ absurd (none-ne-some ls' (rw (refused, record_all) at e))
        | inr (ls1, allowed) ↦
            let (w1, done, joined1, recorded1) =
              act-IsRecorded J JW E K C L M P PW IpAddress V VL Z ls w joined recorded a ls1
                allowed in
            let (w', rest, joined', recorded') =
              run-IsRecorded todo ls1 ls' w1 joined1 recorded1 (rw (allowed, record_all) at e) in
            (w', rw done rest, joined', recorded')
      ]

  pub new-IsRecorded :
      (s : ChatServer J C L P IpAddress V)
      → messages_of J C L P IpAddress V s ≡ initial_type_state J (message_types J C) L
      → s.app ≡ pos 0
      → Recorded [] s
  unfolding shown contents
  new-IsRecorded s same app =
      let nothing : (k : ℤ)
          → view J (message_types J C) L (messages_of J C L P IpAddress V s) k ≡ none =
        λ k.
          ap (λ m. view J (message_types J C) L m k) same
          ∙ initial_type_state-FreshFrom J (message_types J C) L M k (seen-zero k) in
      record {
        room = omega arith;
        chat = record {
          valid =
              subst (IsValid J (message_types J C) L M) (sym same)
                (initial_type_state-IsValid J (message_types J C) L M);
          counted = app;
          last = ap (λ m. m.last_id) same;
          fresh = λ k unseen. nothing k;
          named = λ k o found. absurd (none-ne-some o (sym (nothing k) ∙ found));
        };
        shows = λ k. rw (nothing k) (shown_nothing k);
      }
    where
      shown_nothing : (k : ℤ) → none ≡ shown J C [] k
      shown_nothing (pos n) = refl
      shown_nothing (negsuc n) = refl

-- If a server and a client of the chat are set up, and in a sequence of events, none of others, the
-- user edits only messages that are there and posts at most `maxObjs`, then the client's connecting,
-- the whole run and the synchronisation after it all return, and afterwards the client's messages
-- show exactly the lines that the user has written, in their order, each under its position, with the
-- user's name and the last text that it was given, provided that the packets of the two arrive, that
-- `toStr` writes the indices of the fields as the program's keys and that an empty json object serves
-- as an array.
pub run-record_all :
    (J : Json) (JW : JsonLaws J) (E : EmptyAsArray J) (K : FieldKeys J) (C : ChatTypes J)
    (L : Lifetime J (message_types J C)) (M : LifetimeLaws J (message_types J C) L)
    (P : PacketLib J.Val) (PW : PacketLaws J.Val P) (IpAddress : Type 0) (V : Ssvu)
    (VL : SsvuLaws V) (Z : Setting J C L P IpAddress V) (local_ip : IpAddress) (local_port : ℕ)
    (s : ChatServer J C L P IpAddress V) (c : ChatClient J C L P IpAddress V)
    (todo : List (Event J C L P IpAddress V)) (ls : List Line)
    → new_server J P IpAddress
        (chat_types J C L P IpAddress V)
        V
        ℤ
        Z.server_ip
        Z.server_port
        true
        (pos 0)
      ≡ ok s
    → new_client J P IpAddress
        (chat_types J C L P IpAddress V)
        local_ip
        local_port
        true
        Z.server_ip
        Z.server_port
      ≡ ok c
    → record_all J C L P IpAddress V Z todo [] ≡ some ls
    → (w0 w w' : World J C L P IpAddress V) × (connect J C L P IpAddress V Z
          (record { server = s; client = c })
        ≡ ok w0)
      × (run J C L P IpAddress V Z todo w0 ≡ ok w)
      × (act J C L P IpAddress V Z synchronises w ≡ ok w')
      × ((k : ℤ)
          → contents J (message_types J C) L (client_messages J C L P IpAddress V w'.client) k
            ≡ shown J C ls k)
run-record_all J JW E K C L M P PW IpAddress V VL Z local_ip local_port s c todo ls made_s made_c
      allowed =
    let (w0, met, joined, one, empty, app) =
      connected_lem J JW E C L M P PW IpAddress V VL Z local_ip local_port s c (pos 0) made_s
        made_c in
    let (w, ran, joined', recorded) =
      run-IsRecorded J JW E K C L M P PW IpAddress V VL Z todo [] ls w0 joined
        (new-IsRecorded J JW E K C L M P PW IpAddress V VL Z w0.server empty app) allowed in
    let (w', done, next, same, app', agrees) =
      synchronised J JW E C L M P PW IpAddress V VL Z 0 w joined' in
    (
      w0,
      w,
      w',
      met,
      ran,
      done,
      λ k. agrees k ∙ ap (λ m. contents J (message_types J C) L m k) same ∙ recorded.shows k,
    )
