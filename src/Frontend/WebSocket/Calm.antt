-- ===== src/Frontend/WebSocket/Calm.antt =====
-- The one snapshot of a client whose calls succeed.
use fleet_telemetry_system.Prelude.{
  ℕ, ◌+◌, Bool, Option, List, [], ◌∷◌, ◌≡◌, refl, ◌∙◌, arith, Outcome, ok, raised, Exception,
  eqb_iff,
}
use fleet_telemetry_system.Prelude.Effects.{Effect, continue, ◌>>=◌}
use fleet_telemetry_system.Store.{Session, Action, execute, attempt}
use fleet_telemetry_system.Persistence.Reads.{
  aggregate_fleet_state, zone_entry_counts, select_zone_counts,
}
use fleet_telemetry_system.Persistence.Reads.Totals.{counts_of, aggregate_fleet_state-total}
use fleet_telemetry_system.Frontend.{add, remove}
use fleet_telemetry_system.Frontend.WebSocket.{
  Snapshot, snapshot, Other, joins, leaves, fans_out, drops, replays, World, Receipt, happen,
  happen_all, let_others, await, socket_result, call_socket, change, run_in_threadpool,
  build_snapshot, send, serve_client, ws_endpoint,
}
use fleet_telemetry_system.Frontend.WebSocket.Snapshots.{
  snapshots, await-snapshots, receive_all-snapshots, unregister-snapshots,
}

module _ {F Raw : Type 0} where
  -- No call on the socket and no statement on the replica fails.
  pub record IsCalm (w : World F Raw) : Type 0 where
    pub socket : w.failures ≡ []
    pub replica : w.replica.outages ≡ []

  happen_all-IsCalm :
      (os : List (Other F Raw)) (w : World F Raw) → IsCalm w → IsCalm (happen_all os w)
  unfolding happen_all happen add remove
  happen_all-IsCalm [] w h = h
  happen_all-IsCalm (joins c ∷ os) w h =
      happen_all-IsCalm os _ (record { socket = h.socket; replica = h.replica })
  happen_all-IsCalm (leaves c ∷ os) w h =
      happen_all-IsCalm os _ (record { socket = h.socket; replica = h.replica })
  happen_all-IsCalm (fans_out c raw ∷ os) w h =
      happen_all-IsCalm os _ (record { socket = h.socket; replica = h.replica })
  happen_all-IsCalm (drops dead ∷ os) w h =
      happen_all-IsCalm os _ (record { socket = h.socket; replica = h.replica })
  happen_all-IsCalm (replays db ∷ os) w h =
      happen_all-IsCalm os _ (record { socket = h.socket; replica = h.replica })

  await-IsCalm : (w : World F Raw) → IsCalm w → IsCalm (await w).1
  unfolding await
  await-IsCalm w h = go w.others
    where
      go : (os : List (List (Other F Raw))) → IsCalm (let_others os w)
      go [] = h
      go (o ∷ os) =
          happen_all-IsCalm o (record w { others = os })
            (record { socket = h.socket; replica = h.replica })

  -- Code that returns when nothing fails, having sent `n` snapshots to the connection.
  record Returns {A : Type 0} (ws n : ℕ) (m : Effect (World F Raw) A) : Type 0 where
    at :
        (w : World F Raw)
        → IsCalm w
        → (x : A) × ((m w).0 ≡ ok x) × IsCalm (m w).1 × (snapshots ws (m w).1 ≡ snapshots ws w + n)

  -- Code that has sent `n`, however it ends.
  record Leaves {A : Type 0} (ws n : ℕ) (m : Effect (World F Raw) A) : Type 0 where
    at : (w : World F Raw) → IsCalm w → snapshots ws (m w).1 ≡ snapshots ws w + n

  continue-Leaves :
      {A B : Type 0} (ws a b n : ℕ) (r : Outcome A × World F Raw) (f : A → Effect (World F Raw) B)
      → (x : A) × (r.0 ≡ ok x) × IsCalm r.1 × (snapshots ws r.1 ≡ n + a)
      → ((x : A) → Leaves ws b (f x))
      → snapshots ws (continue r.0 f r.1).1 ≡ n + (a + b)
  continue-Leaves ws a b n (ok y, w) f (x, e, calm, h) k = omega (arith, h, (k y).at w calm)
  continue-Leaves ws a b n (raised y, w) f (x, e, calm, h) k = cc

  Leaves-bind :
      {A B : Type 0} {ws : ℕ} (a b : ℕ) {m : Effect (World F Raw) A}
      {f : A → Effect (World F Raw) B}
      → Returns ws a m
      → ((x : A) → Leaves ws b (f x))
      → Leaves ws (a + b) (m >>= f)
  unfolding ◌>>=◌
  Leaves-bind {ws = ws} a b {m} {f} h k = record {
    at = λ w calm. continue-Leaves ws a b (snapshots ws w) (m w) f (h.at w calm) k;
  }

  Returns-await : (ws : ℕ) → Returns ws 0 await
  unfolding await
  Returns-await ws = record {
    at = λ w calm. (tt, refl, await-IsCalm w calm, omega (arith, await-snapshots ws w));
  }

  Returns-call_socket : (ws : ℕ) → Returns ws 0 call_socket
  unfolding call_socket
  Returns-call_socket ws = record { at = λ w calm. go w.failures w calm.socket calm }
    where
      go :
          (l : List (Option Exception)) (w : World F Raw)
          → l ≡ []
          → IsCalm w
          → (x : Unit {0}) × ((socket_result l w).0 ≡ ok x)
            × IsCalm (socket_result l w).1
            × (snapshots ws (socket_result l w).1 ≡ snapshots ws w + 0)
      go [] w h calm = (tt, refl, calm, omega arith)
      go (x ∷ l) w h calm = cc

  Returns-read :
      {A : Type 0} (ws : ℕ) (action : Action F A)
      → ((s : Session F) → s.outages ≡ [] → (x : A) × (action s ≡ (ok x, s)))
      → Returns ws 0 (run_in_threadpool action)
  unfolding run_in_threadpool
  Returns-read ws action reads = record {
    at = λ w calm.
        let (x, h) = reads w.replica calm.replica in
        rw h (x, refl, record { socket = calm.socket; replica = calm.replica }, omega arith);
  }

  continue-Returns :
      {A B : Type 0} (ws a b n : ℕ) (r : Outcome A × World F Raw) (f : A → Effect (World F Raw) B)
      → (x : A) × (r.0 ≡ ok x) × IsCalm r.1 × (snapshots ws r.1 ≡ n + a)
      → ((x : A) → Returns ws b (f x))
      → (y : B) × ((continue r.0 f r.1).0 ≡ ok y)
        × IsCalm (continue r.0 f r.1).1
        × (snapshots ws (continue r.0 f r.1).1 ≡ n + (a + b))
  continue-Returns ws a b n (ok x, w) f (_, e, calm, h) k =
      let (y, e', calm', h') = (k x).at w calm in (y, e', calm', omega (arith, h, h'))
  continue-Returns ws a b n (raised y, w) f (x, e, calm, h) k = cc

  Returns-bind :
      {A B : Type 0} {ws : ℕ} (a b : ℕ) {m : Effect (World F Raw) A}
      {f : A → Effect (World F Raw) B}
      → Returns ws a m
      → ((x : A) → Returns ws b (f x))
      → Returns ws (a + b) (m >>= f)
  unfolding ◌>>=◌
  Returns-bind {ws = ws} a b {m} {f} h k = record {
    at = λ w calm. continue-Returns ws a b (snapshots ws w) (m w) f (h.at w calm) k;
  }

  Returns-build_snapshot : (ws : ℕ) → Returns ws 0 build_snapshot
  unfolding build_snapshot zone_entry_counts select_zone_counts execute
  Returns-build_snapshot ws = Returns-bind 0 0 (Returns-await ws) (λ _.
      Returns-bind 0 0
        (Returns-read ws aggregate_fleet_state
          (λ s h. (counts_of s.db, (aggregate_fleet_state-total s h).0)))
        (λ fleet. Returns-bind 0 0 (Returns-await ws) (λ _.
          Returns-bind 0 0
            (Returns-read ws zone_entry_counts (λ s h. (s.db.zone_counts, reads s.outages s h)))
            (λ zones. record {
              at = λ w calm. (record { fleet = fleet; zones = zones }, refl, calm, omega arith);
            }))))
    where
      reads :
          (l : List Bool) (s : Session F)
          → l ≡ []
          → attempt l select_zone_counts s ≡ (ok s.db.zone_counts, s)
      reads [] s h = refl
      reads (x ∷ l) s h = cc

  Returns-send :
      (ws : ℕ) (payload : Snapshot) → Returns ws 1 (send {F = F} {Raw = Raw} ws (snapshot payload))
  unfolding send
  Returns-send ws payload =
      Returns-bind 0 1 (Returns-bind 0 0 (Returns-await ws) (λ _. Returns-call_socket ws)) (λ _.
        record {
          at = λ w calm. (
            tt,
            refl,
            record { socket = calm.socket; replica = calm.replica },
            ground (arith, eqb_iff ws ws),
          );
        })

  Leaves-serve_client : (ws : ℕ) (receipts : List Receipt) → Leaves ws 1 (serve_client ws receipts)
  unfolding serve_client
  Leaves-serve_client ws receipts = Leaves-bind 0 1 (Returns-build_snapshot ws) (λ payload.
      Leaves-bind 1 0 (Returns-send ws payload)
        (λ _. record { at = λ w calm. omega (arith, receive_all-snapshots ws receipts w) }))

  Returns-add : (ws : ℕ) → Returns ws 0 (change (add ws))
  unfolding add
  Returns-add ws = record {
    at = λ w calm. (tt, refl, record { socket = calm.socket; replica = calm.replica }, omega arith);
  }

  -- A client is sent one snapshot if no call on its socket and no statement on the replica fails, however
  -- the connection ends then, and whatever other tasks do meanwhile.
  pub ws_endpoint-snapshots :
      (ws : ℕ) (receipts : List Receipt) (w : World F Raw)
      → IsCalm w
      → snapshots ws (ws_endpoint ws receipts w).1 ≡ snapshots ws w + 1
  unfolding ws_endpoint
  ws_endpoint-snapshots ws receipts w calm =
      (Leaves-bind 0 1 (Returns-await ws) (λ _. Leaves-bind 0 1 (Returns-call_socket ws) (λ _.
          Leaves-bind 0 1 (Returns-await ws) (λ _. Leaves-bind 0 1 (Returns-add ws) (λ _. record {
            at = λ w calm.
                unregister-snapshots ws (serve_client ws receipts w)
                ∙ (Leaves-serve_client ws receipts).at w calm;
          }))))).at
        w calm
