-- ===== src/Connection/Events.antt =====
-- Runs of a manager: accepted clients and pings of the network thread, between the rounds of the
-- timeout thread, in any order.
use auto_sync_gen.Prelude.{
  ℕ, suc, ◌+◌, ◌<◌, ℤ, pos, negsuc, ◌≡◌, refl, sym, subst, ◌∙◌, true, List, [], ◌∷◌, some,
  get_elem?, dec_lt, arith,
}
use auto_sync_gen.Result.{Result, ok, assertion, undefined, ◌>>=◌, >>=-eq-ok, ok_unique, err-ne-ok}
use auto_sync_gen.IdList.{seen}
use auto_sync_gen.Ssvu.{Ssvu, SsvuLaws}
use auto_sync_gen.Connection.{
  ClientHandler, ClientHandlerManager, initial_manager, Uninitialised, accept_client, has,
  ping_received, run_timeout_round,
}
use auto_sync_gen.Connection.Reach.{
  Served, Serves, initial_manager-Served, accept_client_lem, accept_client_overflow,
  ping_received_lem, ping_received_unknown, run_timeout_round_lem,
}

module _ (IpAddress : Type 0) where
  pub data Event : Type 0 where
    accepted : Uninitialised IpAddress → IpAddress → ℕ → Event
    pinged : ℤ → Event
    timeout_round : Event

  unfoldable pub step :
      Ssvu → Event → ClientHandlerManager IpAddress → Result (ClientHandlerManager IpAddress)
  step V (accepted u ip port) m = do (m', h) ← accept_client IpAddress V u ip port m; ok m'
  step V (pinged cid) m = ping_received IpAddress cid m
  step V timeout_round m = run_timeout_round IpAddress m

  unfoldable pub run_events :
      Ssvu → List Event → ClientHandlerManager IpAddress → Result (ClientHandlerManager IpAddress)
  run_events V [] m = ok m
  run_events V (e ∷ es) m = step V e m >>= run_events V es

  -- The number of accepted clients.
  unfoldable pub clients : List Event → ℕ
  clients [] = 0
  clients (accepted u ip port ∷ es) = suc (clients es)
  clients (_ ∷ es) = clients es

  module _ (V : Ssvu) (VL : SsvuLaws V) where
    accepted-Served :
        (u : Uninitialised IpAddress) (ip : IpAddress) (port : ℕ) (n : ℕ)
        (m m' : ClientHandlerManager IpAddress)
        → Served IpAddress n m
        → step V (accepted u ip port) m ≡ ok m'
        → Served IpAddress (suc n) m'
    unfolding step
    accepted-Served u ip port n m m' s e = elim (dec_lt n 2147483647) [
      | yes lt ↦
          let (m1, run, s1, bound_at, others) =
            accept_client_lem IpAddress V VL u ip port n m s lt in
          subst (Served IpAddress (suc n))
            (ok_unique (step V (accepted u ip port) m) m1 m' (rw run) e) s1
      | no ge ↦ absurd (
          err-ne-ok undefined m' (
            sym (
              rw (accept_client_overflow IpAddress V VL u ip port n m s (omega (arith, s.bounded))))
            ∙ e))
    ]

    pub pinged-Served :
        (cid : ℤ) (n : ℕ) (m m' : ClientHandlerManager IpAddress)
        → Served IpAddress n m
        → step V (pinged cid) m ≡ ok m'
        → Served IpAddress n m'
    unfolding step seen
    pinged-Served (negsuc i) n m m' s e =
        absurd
          (err-ne-ok assertion m' (sym (ping_received_unknown IpAddress n m s (negsuc i) refl) ∙ e))
    pinged-Served (pos i) n m m' s e = elim (dec_lt i n) [
      | yes lt ↦
          let (m1, run, s1, h, at_i, reset) = ping_received_lem IpAddress n m s i lt in
          subst (Served IpAddress n) (ok_unique (ping_received IpAddress (pos i) m) m1 m' run e) s1
      | no ge ↦ absurd (
          err-ne-ok assertion m'
            (sym (ping_received_unknown IpAddress n m s (pos i) (ground arith)) ∙ e))
    ]

    run_events-Served :
        (es : List Event) (n : ℕ) (m m' : ClientHandlerManager IpAddress)
        → Served IpAddress n m
        → run_events V es m ≡ ok m'
        → Served IpAddress (n + clients es) m'
    unfolding run_events clients
    run_events-Served [] n m m' s e =
        subst (λ k. Served IpAddress k m') (omega arith)
          (subst (Served IpAddress n) (ok_unique (ok m) m m' refl e) s)
    run_events-Served (accepted u ip port ∷ es) n m m' s e =
        let (m1, r, rest) = >>=-eq-ok (step V (accepted u ip port) m) (run_events V es) e in
        subst (λ k. Served IpAddress k m') (omega arith)
          (run_events-Served es (suc n) m1 m' (accepted-Served u ip port n m m1 s r) rest)
    run_events-Served (pinged cid ∷ es) n m m' s e =
        let (m1, r, rest) = >>=-eq-ok (step V (pinged cid) m) (run_events V es) e in
        run_events-Served es n m1 m' (pinged-Served cid n m m1 s r) rest
    run_events-Served (timeout_round ∷ es) n m m' s e =
        let (m1, r, rest) = >>=-eq-ok (step V timeout_round m) (run_events V es) e in
        run_events-Served es n m1 m'
          (subst (Served IpAddress n)
            (ok_unique (step V timeout_round m) m m1
              (unfold step in run_timeout_round_lem IpAddress n m s) r)
            s)
          rest

    -- If a run of accepted clients, pings and timeout rounds from a new manager returns, then the
    -- next identifier is the number of accepted clients, the timeout thread watches no handler, and
    -- every client ever accepted is still in the map, with its handler busy under its identifier.
    pub run_events-no_timeout :
        (es : List Event) (m : ClientHandlerManager IpAddress)
        → run_events V es (initial_manager IpAddress) ≡ ok m
        → (m.next_cid ≡ pos (clients es))
          × (m.ch_busy ≡ [])
          × ((i : ℕ)
              → i < clients es
              → (has IpAddress (pos i) m ≡ true)
                × ((h : ClientHandler IpAddress) × (get_elem? m.client_handlers i ≡ some h)
                    × Serves IpAddress i h))
    unfolding has
    run_events-no_timeout es m e =
        let s =
          subst (λ k. Served IpAddress k m) (omega arith)
            (run_events-Served es 0 (initial_manager IpAddress) m (initial_manager-Served IpAddress)
              e) in
        (s.next, s.not_watched, λ i lt. (rw (s.mapped i lt), s.serving i lt))
