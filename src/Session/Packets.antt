-- ===== src/Session/Packets.antt =====
-- The packets of a session: what is sent, and how the one received is handled.
use auto_sync_gen.Prelude.{
  ℕ, ℤ, ◌≡◌, refl, ◌∙◌, ◌⊎◌, inl, inr, Bool-cases, List, [], ◌∷◌, length, true, some,
}
use auto_sync_gen.Result.{
  Result, Fault, ok, err, is_exception, halfway, assertion, undefined, value_of, err-ne-ok,
}
use auto_sync_gen.Json.{Json}
use auto_sync_gen.SyncManager.{SyncType}
use auto_sync_gen.Packet.{PacketLib, PacketLaws, Item, ntype, IsNType, Arg}
use auto_sync_gen.Packet.Contents.{items_of, AreInts, fill_packet_lem}
use auto_sync_gen.Session.{Unset, Datagram, recover, try_forward, receive_round, Host, mk_packet}

module _ (J : Json) (P : PacketLib J.Val) (W : PacketLaws J.Val P) (IpAddress : Type 0) where
  -- A packet is made of its kind and its arguments, whatever was sent before it.
  pub mk_packet_lem :
      (ts : List (SyncType J)) (type : ℤ) (args : List (Arg J (length ts)))
      (h : Host J P IpAddress ts)
      → IsNType type
      → AreInts J P W (length ts) args
      → W.contents (mk_packet J P IpAddress ts type args h).send_buffer
        ≡ ntype type ∷ items_of J P W (length ts) args
  unfolding mk_packet
  mk_packet_lem ts type args h t a =
      fill_packet_lem J P W (length ts) args (P.put_ntype type (P.clear h.send_buffer)) a
      ∙ rw (W.contents-put_ntype type (P.clear h.send_buffer) t, W.contents_clear h.send_buffer)
          refl

  pub mk_packet-sync_manager :
      (ts : List (SyncType J)) (type : ℤ) (args : List (Arg J (length ts)))
      (h : Host J P IpAddress ts)
      → (mk_packet J P IpAddress ts type args h).sync_manager ≡ h.sync_manager
  unfolding mk_packet
  mk_packet-sync_manager ts type args h = refl

  module _ {S : Type 0} (u : Unset) (s : S) where
    -- A received packet is handled by its kind, with the rest of it.
    pub receive_round_lem :
        (handle : IpAddress → ℕ → ℤ → P.Packet → S → Result (S × List (Datagram J P IpAddress)))
        (d : Datagram J P IpAddress) (type : ℤ) (rest : List (Item J.Val))
        → W.contents d.packet ≡ ntype type ∷ rest
        → (q : P.Packet) × (receive_round J P IpAddress u handle (some d) s
            ≡ recover J P IpAddress s (handle d.ip d.port type q s))
          × (W.contents q ≡ rest)
    unfolding receive_round try_forward
    receive_round_lem handle d type rest e =
        let (q, run, left) = W.get_ntype_lem u.ntype type d.packet rest e in (q, rw run refl, left)

  pub recover_ok :
      {S : Type 0} (s : S) (r : S × List (Datagram J P IpAddress))
      → recover J P IpAddress s (ok r) ≡ ok r
  unfolding recover
  recover_ok s r = refl

  pub recover_exception :
      {S : Type 0} (s : S) (e : Fault)
      → is_exception e ≡ true
      → recover J P IpAddress s (err e) ≡ ok (s, [])
  unfolding recover
  recover_exception s e h = rw h refl

module _ (J : Json) (P : PacketLib J.Val) (IpAddress : Type 0) where
  -- What a round of the receiving thread gives is what the handler gives, or the session as it was.
  pub recover-eq-ok :
      {S : Type 0} (s : S) (r : Result (S × List (Datagram J P IpAddress)))
      (x : S × List (Datagram J P IpAddress))
      → recover J P IpAddress s r ≡ ok x
      → (r ≡ ok x) ⊎ ((s, []) ≡ x)
  unfolding recover
  recover-eq-ok s (ok y) x e = inl e
  recover-eq-ok s (err fault) x e = elim (Bool-cases (is_exception fault)) [
    | inl b ↦ inr (value_of (s, []) x (rw b at e))
    | inr b ↦ absurd (err-ne-ok fault x (rw b at e))
  ]

  -- No exception comes out of code that changes state on its way.
  pub recover-halfway :
      {S : Type 0} (s : S) (r : Result (S × List (Datagram J P IpAddress)))
      (x : S × List (Datagram J P IpAddress))
      → recover J P IpAddress s (halfway r) ≡ ok x
      → r ≡ ok x
  unfolding recover halfway is_exception
  recover-halfway s (ok y) x e = e
  recover-halfway s (err assertion) x e = absurd (err-ne-ok assertion x e)
  recover-halfway s (err undefined) x e = absurd (err-ne-ok undefined x e)
  recover-halfway s (err fault) x e = absurd (err-ne-ok _ x e)
