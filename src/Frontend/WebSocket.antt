-- ===== src/Frontend/WebSocket.antt =====
-- `_build_snapshot` and `ws_endpoint` of app/frontend_api.py: one connection, with what other tasks and
-- the replication do whenever it awaits.
pub mod Unregistered
pub mod Snapshots
pub mod Calm
use fleet_telemetry_system.Prelude.{
  ℕ, Bool, not, Option, none, some, List, [], ◌∷◌, Outcome, ok, raised, Exception,
  web_socket_disconnect, cancelled_error, select,
}
use fleet_telemetry_system.Prelude.Dict.{Dict}
use fleet_telemetry_system.Prelude.Effects.{Effect, pure, lift, ◌>>=◌, ◌>>◌}
use fleet_telemetry_system.Store.{Db, Session, Action}
use fleet_telemetry_system.Persistence.Reads.{
  StatusCounts, aggregate_fleet_state, zone_entry_counts,
}
use fleet_telemetry_system.Frontend.{ConnectionRegistry, member, add, remove}

-- The payload of the snapshot.
pub record Snapshot : Type 0 where
  pub fleet : StatusCounts
  pub zones : Dict ℕ

-- What a client is sent: the snapshot, or a text that was fanned out.
pub data Sent (Raw : Type 0) : Type 0 where
  snapshot : Snapshot → Sent Raw
  patch : Raw → Sent Raw

-- What happens elsewhere: a connection is added or removed; a broadcast sends to a connection, or drops
-- the ones that failed; the replica has replayed changes of the primary.
pub data Other (F Raw : Type 0) : Type 0 where
  joins leaves : ℕ → Other F Raw
  fans_out : ℕ → Raw → Other F Raw
  drops : List ℕ → Other F Raw
  replays : Db F → Other F Raw

-- `replica` is the session on the read replica. `others` is what happens at each of the next awaits,
-- and `failures` what the next calls on the socket raise: where a list has ended, nothing.
pub record World (F Raw : Type 0) : Type 0 where
  pub registry : ConnectionRegistry (Sent Raw)
  pub replica : Session F
  pub others : List (List (Other F Raw))
  pub failures : List (Option Exception)

-- What `receive_text` comes to: a text, or an exception.
pub data Receipt : Type 0 where
  received : Receipt
  fails : Exception → Receipt

module _ {Raw : Type 0} where
  abbrev pub deliver : ℕ → Sent Raw → ConnectionRegistry (Sent Raw) → ConnectionRegistry (Sent Raw)
  deliver ws m r = record r { delivered = (ws, m) ∷ r.delivered }

  -- `difference_update`
  abbrev pub drop_all : List ℕ → ConnectionRegistry (Sent Raw) → ConnectionRegistry (Sent Raw)
  drop_all dead r = record r { connections = select (λ c. not (member c dead)) r.connections }

-- `except WebSocketDisconnect: pass`
abbrev pub pass_disconnect : Outcome (Unit {0}) → Outcome (Unit {0})
pass_disconnect (raised web_socket_disconnect) = ok tt
pass_disconnect r = r

module _ {F Raw : Type 0} where
  abbrev pub with_registry :
      (ConnectionRegistry (Sent Raw) → ConnectionRegistry (Sent Raw)) → World F Raw → World F Raw
  with_registry f w = record w { registry = f w.registry }

  unfoldable pub happen : Other F Raw → World F Raw → World F Raw
  unfolding add remove
  happen (joins ws) w = with_registry (add ws) w
  happen (leaves ws) w = with_registry (remove ws) w
  happen (fans_out ws raw) w = with_registry (deliver ws (patch raw)) w
  happen (drops dead) w = with_registry (drop_all dead) w
  happen (replays db) w = record w { replica = record (w.replica) { db = db } }

  unfoldable pub happen_all : List (Other F Raw) → World F Raw → World F Raw
  unfolding happen
  happen_all [] w = w
  happen_all (o ∷ os) w = happen_all os (happen o w)

  abbrev pub let_others : List (List (Other F Raw)) → World F Raw → World F Raw
  let_others [] w = w
  let_others (os ∷ rest) w = happen_all os (record w { others = rest })

  -- The event loop runs other tasks.
  unfoldable pub await : Effect (World F Raw) (Unit {0})
  unfolding happen_all
  await w = (ok tt, let_others w.others w)

  abbrev pub socket_result :
      List (Option Exception) → World F Raw → Outcome (Unit {0}) × World F Raw
  socket_result [] w = (ok tt, w)
  socket_result (none ∷ rest) w = (ok tt, record w { failures = rest })
  socket_result (some e ∷ rest) w = (raised e, record w { failures = rest })

  unfoldable pub call_socket : Effect (World F Raw) (Unit {0})
  call_socket w = socket_result w.failures w

  abbrev pub change :
      (ConnectionRegistry (Sent Raw) → ConnectionRegistry (Sent Raw))
      → Effect (World F Raw) (Unit {0})
  change f w = (ok tt, with_registry f w)

  -- A read in a worker thread.
  unfoldable pub run_in_threadpool : {A : Type 0} → Action F A → Effect (World F Raw) A
  run_in_threadpool action w = let (r, s) = action w.replica in (r, record w { replica = s })

  unfoldable pub build_snapshot : Effect (World F Raw) Snapshot
  unfolding await run_in_threadpool
  build_snapshot = do
    await
    fleet ← run_in_threadpool aggregate_fleet_state
    await
    zones ← run_in_threadpool zone_entry_counts
    pure (record { fleet = fleet; zones = zones })

  -- `await websocket.send_text(json.dumps(snapshot))`
  unfoldable pub send : ℕ → Sent Raw → Effect (World F Raw) (Unit {0})
  unfolding await call_socket
  send ws m = await >> call_socket >> change (deliver ws m)

  -- `while True: await websocket.receive_text()`. The task is cancelled where the list ends.
  unfoldable pub receive_all : List Receipt → Effect (World F Raw) (Unit {0})
  unfolding await
  receive_all [] = await >> lift (raised cancelled_error)
  receive_all (fails e ∷ receipts) = await >> lift (raised e)
  receive_all (received ∷ receipts) = await >> receive_all receipts

  -- The `try` block.
  unfoldable pub serve_client : ℕ → List Receipt → Effect (World F Raw) (Unit {0})
  unfolding build_snapshot send receive_all
  serve_client ws receipts = do
    payload ← build_snapshot
    send ws (snapshot payload)
    receive_all receipts

  -- `finally: await registry.remove(websocket)`
  unfoldable pub unregister :
      ℕ → Outcome (Unit {0}) × World F Raw → Outcome (Unit {0}) × World F Raw
  unfolding await remove
  unregister ws (r, w) = (pass_disconnect r, with_registry (remove ws) (await w).1)

  unfoldable pub ws_endpoint : ℕ → List Receipt → Effect (World F Raw) (Unit {0})
  unfolding serve_client unregister add
  ws_endpoint ws receipts = do
    await
    call_socket
    await
    change (add ws)
    (λ w. unregister ws (serve_client ws receipts w))
