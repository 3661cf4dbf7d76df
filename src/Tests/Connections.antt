-- ===== src/Tests/Connections.antt =====
-- The theorems on the connection manager at a run with one client.
use auto_sync_gen.Prelude.{
  ℕ, ◌<◌, pos, ◌≡◌, refl, true, List, [], ◌∷◌, some, get_elem?, arith, eqb_ℤ, ltb_ℤ,
}
use auto_sync_gen.Result.{Result, ok, err, increment}
use auto_sync_gen.IdMap
use auto_sync_gen.Connection
use auto_sync_gen.Connection.{
  ClientHandler, ClientHandlerManager, Uninitialised, initial_manager, accept_client, has,
  ping_received, max_seconds_until_timeout,
}
use auto_sync_gen.Connection.Reach.{
  Served, Serves, bound, initial_manager-Served, accept_client_lem,
}
use auto_sync_gen.Connection.Events.{
  Event, accepted, pinged, timeout_round, step, run_events, clients, run_events-no_timeout,
}
use auto_sync_gen.Tests.Setup.{ssvu, ssvu_laws}
use auto_sync_gen.Ssvu.{reject}

abbrev raw : Uninitialised ℕ
raw = record { ip = 0; port = 0; seconds = pos 77 }

abbrev empty_manager : ClientHandlerManager ℕ
empty_manager = initial_manager ℕ

accept_client_lem_example :
    (m' : ClientHandlerManager ℕ) × (accept_client ℕ ssvu raw 9 27016 empty_manager ≡ ok (m', 0))
    × Served ℕ 1 m'
    × (get_elem? m'.client_handlers 0
        ≡ some (bound ℕ ssvu ssvu_laws raw 9 27016 0 empty_manager (initial_manager-Served ℕ)))
    × ((i : ℕ) → i < 0 → get_elem? m'.client_handlers i ≡ get_elem? empty_manager.client_handlers i)
accept_client_lem_example =
    accept_client_lem ℕ ssvu ssvu_laws raw 9 27016 0 empty_manager (initial_manager-Served ℕ)
      (omega arith)

one_client : (m : ClientHandlerManager ℕ) × Served ℕ 1 m
one_client =
    let (m, run, s, b, o) =
      accept_client_lem ℕ ssvu ssvu_laws raw 9 27016 0 empty_manager (initial_manager-Served ℕ)
        (omega arith) in
    (m, s)

abbrev history : List (Event ℕ)
history =
    accepted raw 9 27016
    ∷ timeout_round
    ∷ timeout_round
    ∷ pinged (pos 0)
    ∷ timeout_round
    ∷ timeout_round
    ∷ timeout_round
    ∷ timeout_round
    ∷ accepted raw 10 27017
    ∷ []

result_or {ℓ} : {A : Type ℓ} → Result A → A → A
result_or (ok a) b = a
result_or (err e) b = b

reached : ClientHandlerManager ℕ
reached = result_or (run_events ℕ ssvu history empty_manager) empty_manager

history-runs : run_events ℕ ssvu history empty_manager ≡ ok reached
unfolding reached result_or run_events step eqb_ℤ ltb_ℤ increment reject IdMap.lookup IdMap.insert
    IdMap.erase Connection.bind_to_client Connection.create_client_handler Connection.handler_at
    Connection.time_handler Connection.time_each Connection.run_timeout_round
    Connection.release_each Connection.erase_each Connection.take_available
    Connection.ensure_available Connection.sweep Connection.accept_client Connection.has
    Connection.ping_received
history-runs = refl

run_events-no_timeout_example :
    (reached.next_cid ≡ pos 2)
    × (reached.ch_busy ≡ [])
    × ((i : ℕ)
        → i < 2
        → (has ℕ (pos i) reached ≡ true)
          × ((h : ClientHandler ℕ) × (get_elem? reached.client_handlers i ≡ some h) × Serves ℕ i h))
unfolding clients
run_events-no_timeout_example = run_events-no_timeout ℕ ssvu ssvu_laws history reached history-runs
