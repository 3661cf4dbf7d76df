-- ===== src/Chat/Console/Shutdown.antt =====
-- The loop of the server's menu at what a user types.
use Prim.Native.String.{String}
use auto_sync_gen.Prelude.{
  ◌<◌, pos, ◌≡◌, refl, ◌∙◌, true, false, List, [], ◌∷◌, ◌++◌, length, some, eqb_ℤ, if_true, arith,
}
use auto_sync_gen.Ssvu.{Ssvu}
use auto_sync_gen.Json.{Json}
use auto_sync_gen.Lifetime.{Lifetime}
use auto_sync_gen.Packet.{PacketLib}
use auto_sync_gen.Session.{set_busy}
use auto_sync_gen.Chat.{ChatTypes, message_types, chat_types, ChatServer}
use auto_sync_gen.Chat.Console.{Console, UnsetTemp}
use auto_sync_gen.Chat.Console.Reads.{ConsoleLaws, IsAt, number, IsShort, safe_int_lem}
use auto_sync_gen.Chat.Console.Menus.{server_menu}

module _ (J : Json) (C : ChatTypes J) (L : Lifetime J (message_types J C)) (P : PacketLib J.Val)
    (IpAddress : Type 0) (V : Ssvu) (K : Console IpAddress) (W : ConsoleLaws IpAddress K)
    (u : UnsetTemp IpAddress) where
  abbrev ServerState : Type 0
  ServerState = ChatServer J C L P IpAddress V

  -- Lines that do not shut the server down.
  abbrev pub AreNotZero : List (List String) → Type 0
  AreNotZero [] = Unit {0}
  AreNotZero ([] ∷ ls) = ⊥
  AreNotZero ((t ∷ ts) ∷ ls) =
      (eqb_ℤ (number IpAddress K W u t) (pos 0) ≡ false)
      × IsShort IpAddress K W u (t ∷ ts)
      × AreNotZero ls

  -- The other threads leave the server busy.
  abbrev pub AllServe : List (ServerState → ServerState) → Type 0
  AllServe [] = Unit {0}
  AllServe (turn ∷ turns) =
      ((s : ServerState) → s.host.busy ≡ true → (turn s).host.busy ≡ true) × AllServe turns

  -- If the server is busy, the stream has not failed, the user types lines whose numbers are not zero and then one whose number
  -- is, and the other threads leave the server busy for more rounds than there are lines before, then
  -- the loop of the server's menu ends, and the server is idle.
  pub server_menu_lem :
      (bad : List (List String)) (turns : List (ServerState → ServerState)) (i : K.In)
      (s : ServerState) (t : String) (ts : List String) (ls : List (List String))
      → IsAt IpAddress K W u i (bad ++ (t ∷ ts) ∷ ls)
      → AreNotZero bad
      → IsShort IpAddress K W u (t ∷ ts)
      → number IpAddress K W u t ≡ pos 0
      → AllServe turns
      → length bad < length turns
      → s.host.busy ≡ true
      → (s' : ServerState) × (server_menu J C L P IpAddress V K u turns i s ≡ some s')
        × (s'.host.busy ≡ false)
  unfolding server_menu eqb_ℤ
  server_menu_lem bad [] i s t ts ls typed skipped short zero_typed keep enough busy =
      absurd (omega arith)
  server_menu_lem [] (turn ∷ turns) i s t ts ls typed skipped short zero_typed (keep, keeps) enough
        busy =
      let (j, read, left) = safe_int_lem IpAddress K W u i t ts ls typed short in
      (
        record (turn s) {
          host = set_busy J P IpAddress (chat_types J C L P IpAddress V) false (turn s).host;
        },
        rw (keep s busy, read, zero_typed) refl,
        refl,
      )
  server_menu_lem ([] ∷ more) (turn ∷ turns) i s t ts ls typed skipped short zero_typed keep enough
        busy =
      absurd skipped
  server_menu_lem ((b ∷ bs) ∷ more) (turn ∷ turns) i s t ts ls typed (not_zero, narrow, skipped)
        short zero_typed (keep, keeps) enough busy =
      let (j, read, left) =
        safe_int_lem IpAddress K W u i b bs (more ++ (t ∷ ts) ∷ ls) typed narrow in
      let (s', done, idle) =
        server_menu_lem more turns j (turn s) t ts ls left skipped short zero_typed keeps
          (omega arith) (keep s busy) in
      (s', if_true (turn s).host.busy _ _ (keep s busy) ∙ rw (read, not_zero) done, idle)
