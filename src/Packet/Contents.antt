-- ===== src/Packet/Contents.antt =====
-- What a packet holds when it is filled, and what is read from it.
use auto_sync_gen.Prelude.{ℕ, ◌≡◌, refl, sym, ◌∙◌, List, [], ◌∷◌, ◌++◌, append_cons, append-nil}
use auto_sync_gen.Result.{ok}
use auto_sync_gen.Json.{Json}
use auto_sync_gen.Snapshot.{
  Snapshot, Diff, snapshot_to_json, snapshot_from_json, diff_to_json, diff_from_json,
}
use auto_sync_gen.Packet.{
  CtoS, StoC, ctos_number, stoc_number, to_ctos, to_stoc, IsInt, PacketLib, Item, int, text, json,
  PacketLaws, Arg, int_arg, text_arg, snapshot_arg, diff_arg, pop_snapshot, pop_diff, put_arg,
  fill_packet,
}

-- A kind of packet that has a name.
abbrev pub IsNamedCtoS : CtoS → Type 0
IsNamedCtoS (CtoS.unnamed i) = ⊥
IsNamedCtoS _ = Unit {0}

abbrev pub IsNamedStoC : StoC → Type 0
IsNamedStoC (StoC.unnamed i) = ⊥
IsNamedStoC _ = Unit {0}

-- The number of a kind that has a name is read as that kind.
pub to_ctos-ctos_number : (t : CtoS) → IsNamedCtoS t → to_ctos (ctos_number t) ≡ t
unfolding to_ctos ctos_number
to_ctos-ctos_number (CtoS.unnamed i) h = absurd h
to_ctos-ctos_number _ h = refl

pub to_stoc-stoc_number : (t : StoC) → IsNamedStoC t → to_stoc (stoc_number t) ≡ t
unfolding to_stoc stoc_number
to_stoc-stoc_number (StoC.unnamed i) h = absurd h
to_stoc-stoc_number _ h = refl

module _ (J : Json) (P : PacketLib J.Val) (W : PacketLaws J.Val P) (n : ℕ) where
  abbrev pub item_of : Arg J n → Item J.Val
  item_of (int_arg i) = int i
  item_of (text_arg s) = text s
  item_of (snapshot_arg s) = json (snapshot_to_json J n s)
  item_of (diff_arg d) = json (diff_to_json J n d)

  abbrev pub items_of : List (Arg J n) → List (Item J.Val)
  items_of [] = []
  items_of (a ∷ args) = item_of a ∷ items_of args

  -- Each `int` among the arguments is in the range of `int`.
  abbrev pub AreInts : List (Arg J n) → Type 0
  AreInts [] = Unit {0}
  AreInts (int_arg i ∷ args) = IsInt i × AreInts args
  AreInts (_ ∷ args) = AreInts args

  -- A packet filled with arguments, whose integers are in the range of `int`, holds what it held and
  -- then the arguments in their order.
  pub fill_packet_lem :
      (args : List (Arg J n)) (p : P.Packet)
      → AreInts args
      → W.contents (fill_packet J P n args p) ≡ W.contents p ++ items_of args
  unfolding fill_packet put_arg
  fill_packet_lem [] p h = sym (append-nil (W.contents p))
  fill_packet_lem (int_arg i ∷ args) p h =
      fill_packet_lem args (P.put_int i p) h.1
      ∙ rw (W.contents-put_int i p h.0) (append_cons (W.contents p) (int i) (items_of args))
  fill_packet_lem (text_arg s ∷ args) p h =
      fill_packet_lem args (P.put_text s p) h
      ∙ rw (W.contents-put_text s p) (append_cons (W.contents p) (text s) (items_of args))
  fill_packet_lem (snapshot_arg s ∷ args) p h =
      fill_packet_lem args (P.put_json (snapshot_to_json J n s) p) h
      ∙ rw (W.contents-put_json (snapshot_to_json J n s) p)
          (append_cons (W.contents p) (json (snapshot_to_json J n s)) (items_of args))
  fill_packet_lem (diff_arg d ∷ args) p h =
      fill_packet_lem args (P.put_json (diff_to_json J n d) p) h
      ∙ rw (W.contents-put_json (diff_to_json J n d) p)
          (append_cons (W.contents p) (json (diff_to_json J n d)) (items_of args))

  pub pop_snapshot_lem :
      (p : P.Packet) (s : Snapshot J n) (rest : List (Item J.Val))
      → W.contents p ≡ item_of (snapshot_arg s) ∷ rest
      → snapshot_from_json J n (snapshot_to_json J n s) ≡ ok s
      → (q : P.Packet) × (pop_snapshot J P n p ≡ ok (s, q)) × (W.contents q ≡ rest)
  unfolding pop_snapshot
  pop_snapshot_lem p s rest e back =
      let (q, run, left) = W.get_json_lem J.null (snapshot_to_json J n s) p rest e in
      (q, rw (run, back) refl, left)

  pub pop_diff_lem :
      (p : P.Packet) (d : Diff J n) (rest : List (Item J.Val))
      → W.contents p ≡ item_of (diff_arg d) ∷ rest
      → diff_from_json J n (diff_to_json J n d) ≡ ok d
      → (q : P.Packet) × (pop_diff J P n p ≡ ok (d, q)) × (W.contents q ≡ rest)
  unfolding pop_diff
  pop_diff_lem p d rest e back =
      let (q, run, left) = W.get_json_lem J.null (diff_to_json J n d) p rest e in
      (q, rw (run, back) refl, left)
