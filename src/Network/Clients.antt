-- ===== src/Network/Clients.antt =====
-- What a client keeps, whatever it sends and whatever of the server it receives.
use auto_sync_gen.Prelude.{
  ℕ, zero, suc, pos, ◌≡◌, ◌≢◌, refl, sym, subst, ap, ◌∙◌, ◌⊎◌, inl, inr, List, [], ◌∷◌, ◌++◌,
  length, not, some, set, get_elem?, eqb_ℤ, some_unique,
}
use auto_sync_gen.Result.{Result, ok, assert, halfway, >>=-eq-ok, value_of, halfway-eq-ok, >>-eq-ok}
use auto_sync_gen.Json.{Json}
use auto_sync_gen.SyncManager.{SyncType, get_snapshot, apply_diff}
use auto_sync_gen.Connection.{ClientHandlerManager, null_cid}
use auto_sync_gen.Packet.{
  CtoS, StoC, to_stoc, PacketLib, PacketLaws, Arg, int_arg, snapshot_arg, pop_diff,
}
use auto_sync_gen.Session.{Unset, Datagram, arrived_from}
use auto_sync_gen.Session.Packets.{receive_round_lem, recover-eq-ok}
use auto_sync_gen.Client
use auto_sync_gen.Client.{
  Client, new_client, send, send_to_server, send_to_server_no_cid, send_connection_request,
  send_ping, send_sync_request, send_data_to_server, handle_sync_request_satisfy,
}
use auto_sync_gen.Client.Answers.{receive_connection_accept}
use auto_sync_gen.Network.{Sends, request, ping, sync_request, user_data}
use auto_sync_gen.Network.Answers.{AllOf, Owns, Preserves, IsOther, IsAnswer}

pub AllOf-append :
    {A : Type 0} (Q : A → Type 0) (xs ys : List A) → AllOf Q xs → AllOf Q ys → AllOf Q (xs ++ ys)
AllOf-append Q [] ys h k = k
AllOf-append Q (x ∷ xs) ys (h, hs) k = (h, AllOf-append Q xs ys hs k)

pub AllOf-mono :
    {A : Type 0} (Q R : A → Type 0) (xs : List A) → ((x : A) → Q x → R x) → AllOf Q xs → AllOf R xs
AllOf-mono Q R [] f h = tt
AllOf-mono Q R (x ∷ xs) f (h, hs) = (f x h, AllOf-mono Q R xs f hs)

pub AllOf-get_elem? :
    {A : Type 0} (Q : A → Type 0) (xs : List A) (i : ℕ) (x : A)
    → AllOf Q xs
    → get_elem? xs i ≡ some x
    → Q x
AllOf-get_elem? Q [] i x h e = cc
AllOf-get_elem? Q (y ∷ xs) zero x (h, hs) e = subst Q (some_unique y x e) h
AllOf-get_elem? Q (y ∷ xs) (suc i) x (h, hs) e = AllOf-get_elem? Q xs i x hs e

pub AllOf-set :
    {A : Type 0} (Q : A → Type 0) (xs : List A) (i : ℕ) (x : A)
    → AllOf Q xs
    → Q x
    → AllOf Q (set xs i x)
AllOf-set Q [] i x h q = tt
AllOf-set Q (y ∷ xs) zero x (h, hs) q = (q, hs)
AllOf-set Q (y ∷ xs) (suc i) x (h, hs) q = (h, AllOf-set Q xs i x hs q)

module _ (J : Json) (P : PacketLib J.Val) (W : PacketLaws J.Val P) (IpAddress : Type 0)
    (ts : List (SyncType J)) where
  -- A client that has an identifier is the one that the handler of it is bound to.
  abbrev pub Holds :
      ClientHandlerManager IpAddress → IpAddress → ℕ → Client J P IpAddress ts → Type 0
  Holds m ip port c = (c.cid ≡ null_cid) ⊎ ((k : ℕ) × (c.cid ≡ pos k) × Owns IpAddress m k ip port)

  -- The functions in the client's `onDataReceived` leave its identifier alone.
  abbrev pub KeepsCid : Client.OnData J P IpAddress ts → Type 0
  KeepsCid on_data =
      (p : P.Packet) (c c' : Client J P IpAddress ts) (out : List (Datagram J P IpAddress))
      → on_data p c ≡ ok (c', out)
      → c'.cid ≡ c.cid

  module _ (c c' : Client J P IpAddress ts) (out : List (Datagram J P IpAddress)) where
    cid_kept :
        ◌≡◌ {A = Result (Client J P IpAddress ts × List (Datagram J P IpAddress))}
          (ok (c, []))
          (ok (c', out))
        → c'.cid ≡ c.cid
    cid_kept e = ap (λ x. x.0.cid) (sym (value_of (c, []) (c', out) e))

    handle_type-cid :
        (on_data : Client.OnData J P IpAddress ts) (u : Unset) (type : StoC) (p : P.Packet)
        → KeepsCid on_data
        → type ≢ StoC.connection_accept
        → Client.handle_type J P IpAddress ts on_data u type p c ≡ ok (c', out)
        → c'.cid ≡ c.cid
    unfolding Client.handle_type handle_sync_request_satisfy
    handle_type-cid on_data u StoC.connection_accept p calm ne e = absurd (ne refl)
    handle_type-cid on_data u StoC.sync_request_satisfy p calm ne e =
        let (x, r1, e1) = >>=-eq-ok (pop_diff J P (length ts) p) _ e in
        let (m, r2, e2) = >>=-eq-ok (halfway (apply_diff J ts x.0 c.host.sync_manager)) _ e1 in
        ap (λ x. x.0.cid) (sym (value_of _ (c', out) e2))
    handle_type-cid on_data u StoC.user_data p calm ne e =
        calm p c c' out (halfway-eq-ok (on_data p c) (c', out) e)
    handle_type-cid on_data u StoC.connection_decline p calm ne e = cid_kept e
    handle_type-cid on_data u StoC.sync_request_unneeded p calm ne e = cid_kept e
    handle_type-cid on_data u StoC.sync_request_decline p calm ne e = cid_kept e
    handle_type-cid on_data u (StoC.unnamed i) p calm ne e = cid_kept e

    receive_other :
        (on_data : Client.OnData J P IpAddress ts) (u : Unset) (d : Datagram J P IpAddress)
        → KeepsCid on_data
        → IsOther J P W IpAddress d
        → Client.receive J P IpAddress ts on_data u (some d) c ≡ ok (c', out)
        → c'.cid ≡ c.cid
    unfolding Client.receive Client.handle
    receive_other on_data u d calm (type, rest, held, ne) e =
        let (q, run, left) =
          receive_round_lem J P W IpAddress u c (Client.handle J P IpAddress ts on_data u) d type
            rest held in
        elim (recover-eq-ok J P IpAddress c _ (c', out) (sym run ∙ e)) [
          | inl done ↦ handle_type-cid on_data u (to_stoc type) q calm ne done
          | inr same ↦ cid_kept (ap ok same)
        ]

    sent_cid :
        (type : CtoS) (args : List (Arg J (length ts)))
        → ◌≡◌ {A = Result (Client J P IpAddress ts × List (Datagram J P IpAddress))}
            (ok (send J P IpAddress ts type args c))
            (ok (c', out))
        → c'.cid ≡ c.cid
    unfolding send
    sent_cid type args e =
        ap (λ x. x.0.cid) (sym (value_of (send J P IpAddress ts type args c) (c', out) e))

    send_to_server-cid :
        (type : CtoS) (args : List (Arg J (length ts)))
        → send_to_server J P IpAddress ts type args c ≡ ok (c', out)
        → c'.cid ≡ c.cid
    unfolding send_to_server
    send_to_server-cid type args e =
        sent_cid type (int_arg c.cid ∷ args)
          (>>-eq-ok (assert (not (eqb_ℤ c.cid null_cid))) _ (c', out) e)

    pub Sends-cid : Sends J P IpAddress ts c (c', out) → c'.cid ≡ c.cid
    unfolding send_connection_request send_to_server_no_cid send_ping send_sync_request
        send_data_to_server
    Sends-cid (request e) =
        sent_cid CtoS.connection_request [] (>>-eq-ok (assert (eqb_ℤ c.cid null_cid)) _ (c', out) e)
    Sends-cid (ping e) = send_to_server-cid CtoS.ping [] e
    Sends-cid (sync_request e) =
        let (s, r, e1) = >>=-eq-ok (get_snapshot J ts c.host.sync_manager) _ e in
        send_to_server-cid CtoS.sync_request (snapshot_arg s ∷ []) e1
    Sends-cid (user_data args e) = send_to_server-cid CtoS.user_data args e

  module _ (m m' : ClientHandlerManager IpAddress) (kept : Preserves IpAddress m m') where
    pub Holds-mono :
        (ip : IpAddress) (port : ℕ) (c : Client J P IpAddress ts)
        → Holds m ip port c
        → Holds m' ip port c
    Holds-mono ip port c (inl free) = inl free
    Holds-mono ip port c (inr (k, same, o)) = inr (k, same, kept k ip port o)

    pub IsAnswer-mono :
        (d : Datagram J P IpAddress) → IsAnswer J P W IpAddress m d → IsAnswer J P W IpAddress m' d
    IsAnswer-mono d (inl (k, rest, held, o)) = inl (k, rest, held, kept k d.ip d.port o)
    IsAnswer-mono d (inr other) = inr other

  pub Holds-cid :
      (m : ClientHandlerManager IpAddress) (ip : IpAddress) (port : ℕ)
      (c c' : Client J P IpAddress ts)
      → c'.cid ≡ c.cid
      → Holds m ip port c
      → Holds m ip port c'
  Holds-cid m ip port c c' e (inl free) = inl (e ∙ free)
  Holds-cid m ip port c c' e (inr (k, same, o)) = inr (k, e ∙ same, o)

  -- What a client receives of the server leaves it with no identifier, or with one of its own.
  pub receive-Holds :
      (on_data : Client.OnData J P IpAddress ts) (u : Unset) (m : ClientHandlerManager IpAddress)
      (ip server_ip : IpAddress) (port server_port : ℕ) (d : Datagram J P IpAddress)
      (c c' : Client J P IpAddress ts) (out : List (Datagram J P IpAddress))
      → KeepsCid on_data
      → IsAnswer J P W IpAddress m d
      → d.ip ≡ ip
      → d.port ≡ port
      → Client.receive J P IpAddress ts on_data u
          (some (arrived_from J P IpAddress server_ip server_port d))
          c
        ≡ ok (c', out)
      → Holds m ip port c
      → Holds m ip port c'
  receive-Holds on_data u m ip sip port sport d c c' out calm (inl (k, rest, held, (h, at_k, i, o)))
        same_ip same_port e held_before =
      let run =
        receive_connection_accept J P W IpAddress ts c on_data u
          (arrived_from J P IpAddress sip sport d) (pos k) rest held in
      inr (
        k,
        ap (λ x. x.0.cid) (sym (value_of (record c { cid = pos k }, []) (c', out) (sym run ∙ e))),
        (h, at_k, i ∙ same_ip, o ∙ same_port),
      )
  receive-Holds on_data u m ip sip port sport d c c' out calm (inr other) same_ip same_port e
        held_before =
      Holds-cid m ip port c c'
        (receive_other c c' out on_data u (arrived_from J P IpAddress sip sport d) calm other e)
        held_before
