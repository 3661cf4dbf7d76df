-- ===== src/Connection/Reach.antt =====
-- The states that a manager reaches, whatever the order of accepted clients, pings and timeout rounds.
use auto_sync_gen.Prelude.{
  ℕ, suc, ◌<◌, ◌≤◌, ℤ, pos, ◌≡◌, ◌≢◌, refl, sym, ap, ◌∙◌, true, false, [], ◌∷◌, ◌++◌, none, some,
  length, get_elem?, set, length-set, get_elem?-append, get_elem?-set, length-append_one,
  if◌then◌else◌, eqb-pos, ◌==◌, Bool-cases, inl, inr, dec_lt, arith,
}
use auto_sync_gen.Result.{ok, err, assertion, undefined, increment}
use auto_sync_gen.IdMap.{lookup, insert}
use auto_sync_gen.IdMap.Laws.{lookup-insert}
use auto_sync_gen.IdList.{seen, seen-suc}
use auto_sync_gen.Ssvu.{Ssvu, SsvuLaws, reject}
use auto_sync_gen.Connection.{
  null_cid, max_seconds_until_timeout, ClientHandler, bind_to_client, ClientHandlerManager,
  initial_manager, Uninitialised, create_client_handler, handler_at, time_each, run_timeout_round,
  release_each, erase_each, sweep, is_free, take_available, ensure_available, accept_client, has,
  ping_received,
}

pub pos-ne-null : (i : ℕ) → pos i ≢ null_cid
pos-ne-null i e = cc

module _ (IpAddress : Type 0) where
  -- Where the timeout thread watches nobody, there is nothing to sweep.
  sweep_nothing :
      (V : Ssvu) (VL : SsvuLaws V) (m : ClientHandlerManager IpAddress)
      → m.ch_busy ≡ []
      → m.to_disconnect ≡ []
      → sweep IpAddress V m ≡ ok m
  unfolding sweep release_each erase_each reject
  sweep_nothing V VL m e f =
      rw e (ground (arith, f, VL.erase_remove_if_lem ℕ (is_free IpAddress m.client_handlers) []))

  -- The handler number `i` serves the client `i`.
  abbrev pub Serves : ℕ → ClientHandler IpAddress → Type 0
  Serves i h = (h.cid ≡ pos i) × (h.busy ≡ true)

  -- After `n` accepted clients: each has its handler, and none is busy to the timeout thread.
  pub record Served (n : ℕ) (m : ClientHandlerManager IpAddress) : Type 0 where
    pub next : m.next_cid ≡ pos n
    pub bounded : n ≤ 2147483647
    pub not_watched : m.ch_busy ≡ []
    pub none_available : m.ch_available ≡ []
    pub created : length m.client_handlers ≡ n
    pub mapped : (i : ℕ) → i < n → lookup (pos i) m.ch_map ≡ some i
    pub unmapped : (k : ℤ) → seen n k ≡ false → lookup k m.ch_map ≡ none
    pub serving :
        (i : ℕ)
        → i < n
        → (h : ClientHandler IpAddress) × (get_elem? m.client_handlers i ≡ some h) × Serves i h

  pub initial_manager-Served : Served 0 (initial_manager IpAddress)
  unfolding lookup
  initial_manager-Served = record {
    next = refl;
    bounded = omega arith;
    not_watched = refl;
    none_available = refl;
    created = refl;
    mapped = λ i h. elim h [ ];
    unmapped = λ k h. refl;
    serving = λ i h. elim h [ ];
  }

  module _ (V : Ssvu) (VL : SsvuLaws V) (u : Uninitialised IpAddress) (ip : IpAddress) (port : ℕ)
      (n : ℕ) (m : ClientHandlerManager IpAddress) (s : Served n m) where
    abbrev pub bound : ClientHandler IpAddress
    bound = record {
      cid = pos n;
      ip = ip;
      port = port;
      seconds_until_timeout = max_seconds_until_timeout;
      busy = true;
    }

    next_lem : n < 2147483647 → increment (pos n) ≡ ok (pos (suc n))
    unfolding increment
    next_lem h = rw (eqb-pos n 2147483647) (ground arith)

    -- In a manager that serves `n` clients, `n` below the largest `int`, a client is accepted under
    -- the identifier `n`: the manager serves one more, the new handler is bound to the client's
    -- address and identifier, and the handlers of the others stay as they are.
    pub accept_client_lem :
        n < 2147483647
        → (m' : ClientHandlerManager IpAddress) × (accept_client IpAddress V u ip port m
            ≡ ok (m', n))
          × Served (suc n) m'
          × (get_elem? m'.client_handlers n ≡ some bound)
          × ((i : ℕ) → i < n → get_elem? m'.client_handlers i ≡ get_elem? m.client_handlers i)
    unfolding accept_client ensure_available create_client_handler take_available handler_at
        erase_each bind_to_client reject
    accept_client_lem lt =
        let hs = m.client_handlers ++ raw ∷ [] in
        let len : length hs ≡ suc n =
          omega (arith, length-append_one m.client_handlers raw, s.created) in
        let at_raw : get_elem? hs n ≡ some raw =
          get_elem?-append m.client_handlers raw n ∙ ground (arith, s.created) in
        let look : (i : ℕ)
            → get_elem? (set hs n bound) i
              ≡ (if i == n then some bound else get_elem? m.client_handlers i) =
          λ i.
            get_elem?-set hs n bound i (omega arith)
            ∙ ground (arith, get_elem?-append m.client_handlers raw i, s.created) in
        (
          record m {
            next_cid = pos (suc n);
            client_handlers = set hs n bound;
            ch_available = [];
            ch_busy = [];
            ch_map = insert (pos n) n m.ch_map;
            to_disconnect = [];
          },
          rw
              (
                s.next,
                next_lem lt,
                sweep_nothing V VL (record m { next_cid = pos (suc n); to_disconnect = [] })
                    s.not_watched refl,
              )
              (ground (arith, s.none_available, s.created, s.not_watched, at_raw)),
          record {
            next = refl;
            bounded = omega arith;
            not_watched = refl;
            none_available = refl;
            created = length-set hs n bound ∙ len;
            mapped = λ i h.
                lookup-insert (pos n) (pos i) n m.ch_map ∙ ground (arith, eqb-pos n i, s.mapped i);
            unmapped = λ k h.
                lookup-insert (pos n) k n m.ch_map ∙ ground (arith, seen-suc n k, s.unmapped k);
            serving = λ i h. elim (dec_lt i n) [
              | yes l ↦ let (g, e, r) = s.serving i l in (g, look i ∙ ground arith, r)
              | no g ↦
                  let last : i ≡ n = omega arith in (bound, look i ∙ ground arith, (rw last, refl))
            ];
          },
          look n ∙ ground arith,
          λ i h. look i ∙ ground arith,
        )
      where
        raw : ClientHandler IpAddress
        raw = record {
          cid = null_cid;
          ip = u.ip;
          port = u.port;
          seconds_until_timeout = u.seconds;
          busy = false;
        }

    -- At the end of the range of `int` the counter overflows.
    pub accept_client_overflow :
        n ≡ 2147483647 → accept_client IpAddress V u ip port m ≡ err undefined
    unfolding accept_client increment
    accept_client_overflow e = rw (s.next, e, eqb-pos 2147483647 2147483647)

  module _ (n : ℕ) (m : ClientHandlerManager IpAddress) (s : Served n m) where
    -- In a manager that serves `n` clients, a ping of any of them succeeds, resets the seconds left
    -- of its handler to the maximum, and the manager still serves the `n` clients.
    pub ping_received_lem :
        (i : ℕ)
        → i < n
        → (m' : ClientHandlerManager IpAddress) × (ping_received IpAddress (pos i) m ≡ ok m')
          × Served n m'
          × (h : ClientHandler IpAddress) × (get_elem? m'.client_handlers i ≡ some h)
          × (h.seconds_until_timeout ≡ max_seconds_until_timeout)
    unfolding ping_received has handler_at
    ping_received_lem i lt =
        let (h, e, (c, b)) = s.serving i lt in
        let h' = record h { seconds_until_timeout = max_seconds_until_timeout } in
        let in_range : i < length m.client_handlers = omega (arith, s.created) in
        let look : (j : ℕ)
            → get_elem? (set m.client_handlers i h') j
              ≡ (if j == i then some h' else get_elem? m.client_handlers j) =
          λ j. get_elem?-set m.client_handlers i h' j in_range in
        (
          record m { client_handlers = set m.client_handlers i h' },
          rw (s.mapped i lt, e),
          record {
            next = s.next;
            bounded = s.bounded;
            not_watched = s.not_watched;
            none_available = s.none_available;
            created = length-set m.client_handlers i h' ∙ s.created;
            mapped = s.mapped;
            unmapped = s.unmapped;
            serving = λ j l. elim (Bool-cases (j == i)) [
              | inl q ↦
                  let same : j ≡ i = ground arith in (h', look j ∙ rw q, (c ∙ ap pos (sym same), b))
              | inr q ↦ let (g, f, r) = s.serving j l in (g, look j ∙ rw q f, r)
            ];
          },
          h',
          look i ∙ ground arith,
          refl,
        )

    -- A ping of anyone else fails the assertion.
    pub ping_received_unknown :
        (k : ℤ) → seen n k ≡ false → ping_received IpAddress k m ≡ err assertion
    unfolding ping_received has
    ping_received_unknown k h = rw (s.unmapped k h)

    -- A timeout round has no handler to count down.
    pub run_timeout_round_lem : run_timeout_round IpAddress m ≡ ok m
    unfolding run_timeout_round time_each
    run_timeout_round_lem = rw s.not_watched
