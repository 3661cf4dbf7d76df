-- ===== src/Network/Answers.antt =====
-- The addresses that the handlers of the server are bound to, and the acceptances sent to them.
use auto_sync_gen.Prelude.{
  get_elem?-set, get_elem?-below, ℕ, ℤ, pos, ◌≡◌, ◌≢◌, refl, sym, subst, ap, ◌∙◌, ◌⊎◌, inl, inr,
  List, [], ◌∷◌, some, set, get_elem?, if◌then◌else◌, Bool-cases, arith, ◌==◌, some_unique,
}
use auto_sync_gen.Result.{
  ok, undefined, assert, or_fault, >>=-eq-ok, value_of, >>-eq-ok, or_fault-eq-ok,
}
use auto_sync_gen.IdMap.{lookup}
use auto_sync_gen.Json.{Json}
use auto_sync_gen.Connection.{
  ClientHandler, ClientHandlerManager, has, handler_at, ping_received, max_seconds_until_timeout,
}
use auto_sync_gen.Packet.{StoC, to_stoc, PacketLib, PacketLaws, Item, ntype, int}
use auto_sync_gen.Session.{Datagram}

-- Every element of a list.
abbrev pub AllOf : {A : Type 0} → (A → Type 0) → List A → Type 0
AllOf Q [] = Unit {0}
AllOf Q (x ∷ xs) = Q x × AllOf Q xs

module _ (IpAddress : Type 0) where
  -- The handler number `k` is bound to an address.
  abbrev pub Owns : ClientHandlerManager IpAddress → ℕ → IpAddress → ℕ → Type 0
  Owns m k ip port =
      (h : ClientHandler IpAddress) × (get_elem? m.client_handlers k ≡ some h)
      × (h.ip ≡ ip)
      × (h.port ≡ port)

  -- No handler that is bound to an address is bound to another.
  abbrev pub Preserves : ClientHandlerManager IpAddress → ClientHandlerManager IpAddress → Type 0
  Preserves m m' = (k : ℕ) (ip : IpAddress) (port : ℕ) → Owns m k ip port → Owns m' k ip port

  pub ping_received-Preserves :
      (cid : ℤ) (m m' : ClientHandlerManager IpAddress)
      → ping_received IpAddress cid m ≡ ok m'
      → Preserves m m'
  unfolding ping_received handler_at
  ping_received-Preserves cid m m' e =
      let e0 = >>-eq-ok (assert (has IpAddress cid m)) _ m' e in
      let (c, r1, e1) = >>=-eq-ok (or_fault (lookup cid m.ch_map) undefined) _ e0 in
      let (h, r2, e2) = >>=-eq-ok (or_fault (get_elem? m.client_handlers c) undefined) _ e1 in
      let at_c : get_elem? m.client_handlers c ≡ some h = or_fault-eq-ok _ undefined h r2 in
      let h' : ClientHandler IpAddress = record h {
        seconds_until_timeout = max_seconds_until_timeout;
      } in
      let hs : List (ClientHandler IpAddress) = set m.client_handlers c h' in
      let look : (k : ℕ)
          → get_elem? hs k ≡ (if k == c then some h' else get_elem? m.client_handlers k) =
        λ k. get_elem?-set m.client_handlers c h' k (get_elem?-below m.client_handlers c h at_c) in
      subst (Preserves m) (value_of _ m' e2) (λ k ip port (g, at_k, i, o).
        elim (Bool-cases (k == c)) [
          | inr b ↦ (g, look k ∙ rw b at_k, i, o)
          | inl b ↦
              let same : k ≡ c = ground arith in
              let one : g ≡ h = some_unique g h (sym at_k ∙ rw same at_c) in
              (h', look k ∙ rw b refl, ap (λ x. x.ip) (sym one) ∙ i, ap (λ x. x.port) (sym one) ∙ o)
        ])

module _ (J : Json) (P : PacketLib J.Val) (W : PacketLaws J.Val P) (IpAddress : Type 0) where
  -- A datagram that is no acceptance.
  abbrev pub IsOther : Datagram J P IpAddress → Type 0
  IsOther d =
      (type : ℤ) × (rest : List (Item J.Val)) × (W.contents d.packet ≡ ntype type ∷ rest)
      × (to_stoc type ≢ StoC.connection_accept)

  -- An acceptance goes to the address that the handler of its identifier is bound to.
  abbrev pub IsAnswer : ClientHandlerManager IpAddress → Datagram J P IpAddress → Type 0
  IsAnswer m d =
      ((k : ℕ) × (rest : List (Item J.Val)) × (W.contents d.packet
          ≡ ntype (pos 0) ∷ int (pos k) ∷ rest)
        × Owns IpAddress m k d.ip d.port)
      ⊎ IsOther d
