-- ===== src/Connection.antt =====
-- Network/ConnectionManager.hpp: the handlers of the connected clients. A handler is named by its
-- place in the order of creation; none is ever destroyed before the manager.
pub mod Reach
pub mod Events
use auto_sync_gen.Prelude.{
  ℕ, suc, ℤ, pos, negsuc, Bool, true, false, not, List, [], ◌∷◌, ◌++◌, Option, none, some, length,
  get_elem?, set, if◌then◌else◌, eqb_ℤ, pred_ℤ, is_some,
}
use auto_sync_gen.Result.{Result, ok, err, ◌>>=◌, ◌>>◌, assert, or_fault, undefined, increment}
use auto_sync_gen.IdMap.{IdMap, lookup, insert, erase}
use auto_sync_gen.Ssvu.{Ssvu}

-- `nullCID` of Common.hpp.
abbrev pub null_cid : ℤ
null_cid = negsuc 0

abbrev pub max_seconds_until_timeout : ℤ
max_seconds_until_timeout = pos 5

module _ (IpAddress : Type 0) where
  pub record ClientHandler : Type 0 where
    pub cid : ℤ
    pub ip : IpAddress
    pub port : ℕ
    pub seconds_until_timeout : ℤ
    pub busy : Bool

  unfoldable pub bind_to_client : ℤ → IpAddress → ℕ → ClientHandler → ClientHandler
  bind_to_client cid ip port h = record {
    cid = cid;
    ip = ip;
    port = port;
    seconds_until_timeout = max_seconds_until_timeout;
    busy = true;
  }

  unfoldable pub unbind_from_client : ClientHandler → ClientHandler
  unbind_from_client h = record h { cid = null_cid; busy = false }

  pub record ClientHandlerManager : Type 0 where
    pub next_cid : ℤ
    pub client_handlers : List ClientHandler
    -- The last entry of a vector is the head of its list.
    pub ch_available : List ℕ
    pub ch_busy : List ℕ
    pub ch_map : IdMap ℕ
    pub to_disconnect : List ℤ

  abbrev pub initial_manager : ClientHandlerManager
  initial_manager = record {
    next_cid = pos 0;
    client_handlers = [];
    ch_available = [];
    ch_busy = [];
    ch_map = [];
    to_disconnect = [];
  }

  -- A handler before it is bound: the address, port and timeout are not initialised.
  pub record Uninitialised : Type 0 where
    pub ip : IpAddress
    pub port : ℕ
    pub seconds : ℤ

  unfoldable pub create_client_handler : Uninitialised → ClientHandlerManager → ClientHandlerManager
  create_client_handler u m = record m {
    client_handlers =
        m.client_handlers
        ++ record {
          cid = null_cid;
          ip = u.ip;
          port = u.port;
          seconds_until_timeout = u.seconds;
          busy = false;
        }
          ∷ [];
    ch_available = length m.client_handlers ∷ m.ch_available;
  }

  unfoldable pub handler_at : ℕ → List ClientHandler → Result ClientHandler
  handler_at c hs = or_fault (get_elem? hs c) undefined

  unfoldable pub time_handler : ClientHandler → ClientHandler
  time_handler h =
      let h' = record h { seconds_until_timeout = pred_ℤ h.seconds_until_timeout } in
      if eqb_ℤ h'.seconds_until_timeout (pos 0) then unbind_from_client h' else h'

  -- One round of the loop of `runTimeout`, over `chBusy`.
  unfoldable pub time_each : List ℕ → List ClientHandler → Result (List ClientHandler)
  time_each [] hs = ok hs
  time_each (c ∷ cs) hs = do h ← handler_at c hs; time_each cs (set hs c (time_handler h))

  unfoldable pub run_timeout_round : ClientHandlerManager → Result ClientHandlerManager
  run_timeout_round m = do
    hs ← time_each m.ch_busy m.client_handlers
    ok (record m { client_handlers = hs })

  -- The first loop of `acceptClient`: the handlers of `chBusy` that are free again.
  unfoldable pub release_each : List ℕ → ClientHandlerManager → Result ClientHandlerManager
  release_each [] m = ok m
  release_each (c ∷ cs) m = do
    h ← handler_at c m.client_handlers
    release_each cs (
        if h.busy then m else record m {
          ch_available = c ∷ m.ch_available;
          to_disconnect = m.to_disconnect ++ h.cid ∷ [];
        })

  unfoldable pub erase_each : List ℤ → IdMap ℕ → IdMap ℕ
  erase_each [] m = m
  erase_each (i ∷ is) m = erase_each is (erase i m)

  -- The test of `eraseRemoveIf`.
  abbrev pub is_free : List ClientHandler → ℕ → Bool
  is_free hs c = elim (get_elem? hs c) [ none ↦ false | some h ↦ not h.busy ]

  unfoldable pub take_available : ClientHandlerManager → Result (ℕ × ClientHandlerManager)
  take_available m = elim m.ch_available [
    | [] ↦ err undefined
    | ch ∷ rest ↦ ok (ch, record m { ch_available = rest })
  ]

  unfoldable pub ensure_available : Uninitialised → ClientHandlerManager → ClientHandlerManager
  ensure_available u m = elim m.ch_available [ [] ↦ create_client_handler u m | ch ∷ rest ↦ m ]

  -- The loops of `acceptClient` that follow `toDisconnect.clear()`.
  unfoldable pub sweep : Ssvu → ClientHandlerManager → Result ClientHandlerManager
  sweep V m = do
    m1 ← release_each m.ch_busy m
    ok (record m1 {
      ch_busy = V.erase_remove_if ℕ (is_free m1.client_handlers) m1.ch_busy;
      ch_map = erase_each m1.to_disconnect m1.ch_map;
    })

  -- `acceptClient`: the manager and the handler that is returned.
  unfoldable pub accept_client :
      Ssvu
      → Uninitialised
      → IpAddress
      → ℕ
      → ClientHandlerManager
      → Result (ClientHandlerManager × ℕ)
  accept_client V u ip port m = do
    next ← increment m.next_cid
    let cid_to_use = m.next_cid
    m2 ← sweep V (record m { next_cid = next; to_disconnect = [] })
    (ch, m3) ← take_available (ensure_available u m2)
    h ← handler_at ch m3.client_handlers
    ok (
      record m3 {
        client_handlers = set m3.client_handlers ch (bind_to_client cid_to_use ip port h);
        ch_map = insert cid_to_use ch m3.ch_map;
      },
      ch,
    )

  unfoldable pub has : ℤ → ClientHandlerManager → Bool
  has cid m = is_some (lookup cid m.ch_map)

  -- `operator[]`.
  unfoldable pub at_cid : ℤ → ClientHandlerManager → Result ℕ
  at_cid cid m = assert (has cid m) >> or_fault (lookup cid m.ch_map) undefined

  unfoldable pub ping_received : ℤ → ClientHandlerManager → Result ClientHandlerManager
  ping_received cid m = do
    assert (has cid m)
    c ← or_fault (lookup cid m.ch_map) undefined
    h ← handler_at c m.client_handlers
    ok (record m {
      client_handlers =
          set m.client_handlers c (record h { seconds_until_timeout = max_seconds_until_timeout });
    })
