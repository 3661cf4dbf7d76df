-- ===== src/Chat/Console/Played.antt =====
-- The loop of the client's menu at what a user types.
use Prim.Native.String.{String}
use mathlib.Core.Option
use auto_sync_gen.Prelude.{
  ℕ, ◌<◌, ◌≡◌, refl, sym, ap, ◌∙◌, Bool, true, false, Bool-cases, List, [], ◌∷◌, ◌++◌, length, some,
  eqb_ℤ, inl, inr, arith,
}
use auto_sync_gen.Result.{ok, assertion, >>=-eq-ok, value_of, err-ne-ok, Result-cases}
use auto_sync_gen.Ssvu.{Ssvu}
use auto_sync_gen.Json.{Json}
use auto_sync_gen.Lifetime.{Lifetime}
use auto_sync_gen.SyncManager.{get_snapshot}
use auto_sync_gen.Connection.{null_cid}
use auto_sync_gen.Packet.{PacketLib, Arg}
use auto_sync_gen.Session.{Datagram, mk_packet, new_host}
use auto_sync_gen.Client.{new_client, send, send_to_server, send_data_to_server}
use auto_sync_gen.Chat.{ChatTypes, message_types, chat_types}
use auto_sync_gen.Chat.Menu.{
  Choice, new_message, edit_message, show_data, disconnect, other, ChatClient, choose,
}
use auto_sync_gen.Chat.Console.{Console, UnsetTemp, ClientSettings, client_settings, read_choice}
use auto_sync_gen.Chat.Console.Reads.{ConsoleLaws, IsAt, Enters, read_choice_lem}
use auto_sync_gen.Chat.Console.Menus.{
  breaks, sends_first, after_choice, client_menu, play, with_client, select_client,
}

module _ (J : Json) (C : ChatTypes J) (L : Lifetime J (message_types J C)) (P : PacketLib J.Val)
    (IpAddress : Type 0) (V : Ssvu) where
  abbrev Chatter : Type 0
  Chatter = ChatClient J C L P IpAddress V

  sent-busy :
      (args : List (Arg J 1)) (c c' : Chatter) (out : List (Datagram J P IpAddress))
      → send_data_to_server J P IpAddress (chat_types J C L P IpAddress V) args c ≡ ok (c', out)
      → c'.host.busy ≡ c.host.busy
  unfolding send_data_to_server send_to_server send mk_packet
  sent-busy args c c' out e = elim (Bool-cases (eqb_ℤ c.cid null_cid)) [
    | inl b ↦ absurd (err-ne-ok assertion (c', out) (rw b at e))
    | inr b ↦ ap (λ x. x.0.host.busy) (sym (value_of _ (c', out) (rw b at e)))
  ]

  new_client-busy :
      (local : IpAddress) (port : ℕ) (bound : Bool) (server_ip : IpAddress) (server_port : ℕ)
      (c : Chatter)
      → new_client J P IpAddress
          (chat_types J C L P IpAddress V)
          local
          port
          bound
          server_ip
          server_port
        ≡ ok c
      → c.host.busy ≡ true
  unfolding new_client
  new_client-busy local port bound server_ip server_port c e =
      let (h, made, done) =
        >>=-eq-ok
          (new_host J P IpAddress (chat_types J C L P IpAddress V) "Client" local port bound) _ e in
      ap (λ x. x.host.busy) (sym (value_of _ c done))

  -- Every choice but the last one leaves the client busy.
  choose-busy :
      (name : String) (choice : Choice) (c c' : Chatter) (out : List (Datagram J P IpAddress))
      → breaks choice ≡ false
      → choose J C L P IpAddress V name choice c ≡ ok (c', out)
      → c'.host.busy ≡ c.host.busy
  unfolding choose
  choose-busy name (new_message text) c c' out stays e = sent-busy _ c c' out e
  choose-busy name (edit_message m text) c c' out stays e = sent-busy _ c c' out e
  choose-busy name show_data c c' out stays e =
      let (s, taken, done) =
        >>=-eq-ok (get_snapshot J (chat_types J C L P IpAddress V) c.host.sync_manager) _ e in
      ap (λ x. x.0.host.busy) (sym (value_of (c, []) (c', out) done))
  choose-busy name disconnect c c' out stays e = cc
  choose-busy name (other n) c c' out stays e =
      ap (λ x. x.0.host.busy) (sym (value_of (c, []) (c', out) e))

  -- The other threads leave the client busy.
  abbrev pub AllKeepBusy : List (Chatter → Chatter) → Type 0
  AllKeepBusy [] = Unit {0}
  AllKeepBusy (turn ∷ turns) =
      ((c : Chatter) → c.host.busy ≡ true → (turn c).host.busy ≡ true) × AllKeepBusy turns

  -- A game of choices that ends with a disconnection leaves the client idle.
  play-stops :
      (name : String) (choices : List Choice) (turns : List (Chatter → Chatter)) (c c' : Chatter)
      (out : List (Datagram J P IpAddress))
      → length choices < length turns
      → play J C L P IpAddress V name (choices ++ disconnect ∷ []) turns c ≡ ok (c', out)
      → c'.host.busy ≡ false
  unfolding play choose
  play-stops name choices [] c c' out enough e = absurd (omega arith)
  play-stops name [] (turn ∷ turns) c c' out enough e =
      ap (λ x. x.0.host.busy) (sym (value_of _ (c', out) e))
  play-stops name (choice ∷ choices) (turn ∷ turns) c c' out enough e =
      let ((c1, out1), chosen, e1) =
        >>=-eq-ok (choose J C L P IpAddress V name choice (turn c)) _ e in
      let ((c2, more), played, e2) =
        >>=-eq-ok (play J C L P IpAddress V name (choices ++ disconnect ∷ []) turns c1) _ e1 in
      ap (λ x. x.0.host.busy) (sym (value_of _ (c', out) e2))
      ∙ play-stops name choices turns c1 c2 more (omega arith) played

  module _ (K : Console IpAddress) (W : ConsoleLaws IpAddress K) (u : UnsetTemp IpAddress) where
    -- The lines of some choices, none of them to disconnect, and of a disconnection after them.
    abbrev pub EntersAll : List Choice → List (List String) → Type 0
    EntersAll [] before =
        (after : List (List String)) × Enters IpAddress K W u disconnect before after
    EntersAll (choice ∷ choices) before =
        (breaks choice ≡ false)
        × (after : List (List String)) × Enters IpAddress K W u choice before after
        × EntersAll choices after

    menu_round :
        (name : String) (turn : Chatter → Chatter) (turns : List (Chatter → Chatter)) (i j : K.In)
        (c : Chatter) (choice : Choice)
        → read_choice IpAddress K u i ≡ (choice, j)
        → (turn c).host.busy ≡ true
        → client_menu J C L P IpAddress V K u name (turn ∷ turns) i c
          ≡ after_choice J C L P IpAddress V
              (breaks choice)
              (client_menu J C L P IpAddress V K u name turns j)
              (choose J C L P IpAddress V name choice (turn c))
    unfolding client_menu
    menu_round name turn turns i j c choice read busy = rw (read, busy) refl

    plays :
        (name : String) (choices : List Choice) (before : List (List String))
        (turns : List (Chatter → Chatter)) (i : K.In) (c : Chatter)
        → EntersAll choices before
        → IsAt IpAddress K W u i before
        → AllKeepBusy turns
        → length choices < length turns
        → c.host.busy ≡ true
        → client_menu J C L P IpAddress V K u name turns i c
          ≡ some (play J C L P IpAddress V name (choices ++ disconnect ∷ []) turns c)
    unfolding after_choice play choose
    plays name choices before [] i c entered typed keep enough busy = absurd (omega arith)
    plays name [] before (turn ∷ turns) i c (after, entered) typed (keep, keeps) enough busy =
        let (j, read, left) =
          read_choice_lem IpAddress K W u disconnect before after i entered typed in
        menu_round name turn turns i j c disconnect read (keep c busy)
    plays name (choice ∷ choices) before (turn ∷ turns) i c (stays, after, entered, rest) typed
          (keep, keeps) enough busy =
        let (j, read, left) = read_choice_lem IpAddress K W u choice before after i entered typed in
        menu_round name turn turns i j c choice read (keep c busy)
        ∙ elim (Result-cases (choose J C L P IpAddress V name choice (turn c))) [
          | inr (fault, failed) ↦ rw failed refl
          | inl ((c1, out), chosen) ↦
              rw (chosen, stays)
                (ap (Option.map (sends_first J C L P IpAddress V out)) (
                  plays name choices after turns j c1 rest left keeps (omega arith)
                    (choose-busy name choice (turn c) c1 out stays chosen ∙ keep c busy)))
        ]

    -- If the client is busy, the stream has not failed, the user types the lines of some choices, none of them to disconnect, and
    -- then to disconnect, and the other threads leave the client busy for more rounds than there are
    -- choices, then the loop of the client's menu ends with the disconnection: it makes the choices
    -- in their order, up to one that fails, and the client is idle if none of them does.
    pub client_menu_lem :
        (name : String) (choices : List Choice) (before : List (List String))
        (turns : List (Chatter → Chatter)) (i : K.In) (c : Chatter)
        → EntersAll choices before
        → IsAt IpAddress K W u i before
        → AllKeepBusy turns
        → length choices < length turns
        → c.host.busy ≡ true
        → (client_menu J C L P IpAddress V K u name turns i c
            ≡ some (play J C L P IpAddress V name (choices ++ disconnect ∷ []) turns c))
          × ((c' : Chatter) (out : List (Datagram J P IpAddress))
              → play J C L P IpAddress V name (choices ++ disconnect ∷ []) turns c ≡ ok (c', out)
              → c'.host.busy ≡ false)
    client_menu_lem name choices before turns i c entered typed keep enough busy = (
      plays name choices before turns i c entered typed keep enough busy,
      λ c' out. play-stops name choices turns c c' out enough,
    )

    -- If the user enters settings with which a client can be made, the stream has not failed after them,
    -- the user types the lines of some choices, none of them to disconnect, and then to disconnect, and the other threads leave the client busy for
    -- more rounds than there are choices, then `selectClient` ends with the disconnection: the new
    -- client makes the choices in their order, under the name that was entered, up to one that fails,
    -- and it is idle if none of them does.
    pub select_client_lem :
        (loopback local : IpAddress) (bound : Bool) (z : ClientSettings IpAddress)
        (choices : List Choice) (before : List (List String)) (turns : List (Chatter → Chatter))
        (i j : K.In) (c : Chatter)
        → client_settings IpAddress K u loopback i ≡ (z, j)
        → new_client J P IpAddress
            (chat_types J C L P IpAddress V)
            local
            z.port
            bound
            z.server_ip
            z.server_port
          ≡ ok c
        → IsAt IpAddress K W u j before
        → EntersAll choices before
        → AllKeepBusy turns
        → length choices < length turns
        → (select_client J C L P IpAddress V K u loopback local bound turns i
            ≡ some (play J C L P IpAddress V z.client_name (choices ++ disconnect ∷ []) turns c))
          × ((c' : Chatter) (out : List (Datagram J P IpAddress))
              → play J C L P IpAddress V z.client_name (choices ++ disconnect ∷ []) turns c
                ≡ ok (c', out)
              → c'.host.busy ≡ false)
    unfolding select_client with_client
    select_client_lem loopback local bound z choices before turns i j c set made typed entered keep
          enough =
        let (ends, idle) =
          client_menu_lem z.client_name choices before turns j c entered typed keep enough
            (new_client-busy local z.port bound z.server_ip z.server_port c made) in
        (rw (set, made) ends, idle)
