-- ===== src/Frontend/WebSocket/Snapshots.antt =====
-- How many snapshots a client is sent.
use fleet_telemetry_system.Prelude.{
  ℕ, ◌+◌, ◌≤◌, Bool, true, false, ◌&&◌, Option, none, some, List, [], ◌∷◌, ◌≡◌, refl, ◌∙◌, arith,
  Outcome, ok, raised, Exception, count, eqb,
}
use fleet_telemetry_system.Prelude.Effects.{Effect, continue, ◌>>=◌}
use fleet_telemetry_system.Store.{Action}
use fleet_telemetry_system.Persistence.Reads.{aggregate_fleet_state, zone_entry_counts}
use fleet_telemetry_system.Frontend.{add, remove}
use fleet_telemetry_system.Frontend.WebSocket.{
  Sent, snapshot, patch, Other, joins, leaves, fans_out, drops, replays, World, Receipt, received,
  fails, happen, happen_all, let_others, await, socket_result, call_socket, change,
  run_in_threadpool, build_snapshot, send, receive_all, serve_client, unregister, ws_endpoint,
}

abbrev is_snapshot : {Raw : Type 0} → Sent Raw → Bool
is_snapshot (snapshot _) = true
is_snapshot (patch _) = false

module _ {F Raw : Type 0} (ws : ℕ) where
  -- The snapshots sent to the connection so far.
  abbrev pub snapshots : World F Raw → ℕ
  snapshots w = count (λ d. eqb ws d.0 && is_snapshot d.1) w.registry.delivered

  -- Code that sends it at most `n` snapshots.
  record Sends {A : Type 0} (n : ℕ) (m : Effect (World F Raw) A) : Type 0 where
    at : (w : World F Raw) → snapshots (m w).1 ≤ snapshots w + n

  go_on :
      {A B : Type 0} (a b n : ℕ) (r : Outcome A × World F Raw) (f : A → Effect (World F Raw) B)
      → snapshots r.1 ≤ n + a
      → ((x : A) → Sends b (f x))
      → snapshots (continue r.0 f r.1).1 ≤ n + (a + b)
  go_on a b n (ok x, w) f h k = omega (arith, h, (k x).at w)
  go_on a b n (raised e, w) f h k = omega (arith, h)

  Sends-bind :
      {A B : Type 0} (a b : ℕ) {m : Effect (World F Raw) A} {f : A → Effect (World F Raw) B}
      → Sends a m
      → ((x : A) → Sends b (f x))
      → Sends (a + b) (m >>= f)
  unfolding ◌>>=◌
  Sends-bind a b {m} {f} h k = record { at = λ w. go_on a b (snapshots w) (m w) f (h.at w) k }

  happen_all-snapshots :
      (os : List (Other F Raw)) (w : World F Raw) → snapshots (happen_all os w) ≡ snapshots w
  unfolding happen_all happen add remove
  happen_all-snapshots [] w = refl
  happen_all-snapshots (joins c ∷ os) w = happen_all-snapshots os _
  happen_all-snapshots (leaves c ∷ os) w = happen_all-snapshots os _
  happen_all-snapshots (fans_out c raw ∷ os) w = happen_all-snapshots os _ ∙ ground arith
  happen_all-snapshots (drops dead ∷ os) w = happen_all-snapshots os _
  happen_all-snapshots (replays db ∷ os) w = happen_all-snapshots os _

  pub await-snapshots : (w : World F Raw) → snapshots (await w).1 ≡ snapshots w
  unfolding await
  await-snapshots w = go w.others
    where
      go : (os : List (List (Other F Raw))) → snapshots (let_others os w) ≡ snapshots w
      go [] = refl
      go (o ∷ os) = happen_all-snapshots o (record w { others = os })

  Sends-await : Sends 0 await
  Sends-await = record { at = λ w. omega (arith, await-snapshots w) }

  Sends-call_socket : Sends 0 call_socket
  unfolding call_socket
  Sends-call_socket = record { at = λ w. go w.failures w }
    where
      go :
          (l : List (Option Exception)) (w : World F Raw)
          → snapshots (socket_result l w).1 ≤ snapshots w + 0
      go [] w = omega arith
      go (none ∷ l) w = omega arith
      go (some e ∷ l) w = omega arith

  Sends-read : {A : Type 0} (action : Action F A) → Sends 0 (run_in_threadpool action)
  unfolding run_in_threadpool
  Sends-read action = record { at = λ w. omega arith }

  Sends-build_snapshot : Sends 0 build_snapshot
  unfolding build_snapshot
  Sends-build_snapshot = Sends-bind 0 0 Sends-await (λ _.
      Sends-bind 0 0 (Sends-read aggregate_fleet_state) (λ fleet. Sends-bind 0 0 Sends-await (λ _.
        Sends-bind 0 0 (Sends-read zone_entry_counts) (λ zones. record { at = λ w. omega arith }))))

  Sends-send : (m : Sent Raw) → Sends 1 (send ws m)
  unfolding send
  Sends-send m =
      Sends-bind 0 1 (Sends-bind 0 0 Sends-await (λ _. Sends-call_socket))
        (λ _. record { at = λ w. ground arith })

  pub receive_all-snapshots :
      (receipts : List Receipt) (w : World F Raw)
      → snapshots (receive_all receipts w).1 ≡ snapshots w
  unfolding receive_all ◌>>=◌ await
  receive_all-snapshots [] w = await-snapshots w
  receive_all-snapshots (fails e ∷ receipts) w = await-snapshots w
  receive_all-snapshots (received ∷ receipts) w =
      receive_all-snapshots receipts (await w).1 ∙ await-snapshots w

  Sends-serve_client : (receipts : List Receipt) → Sends 1 (serve_client ws receipts)
  unfolding serve_client
  Sends-serve_client receipts = Sends-bind 0 1 Sends-build_snapshot (λ payload.
      Sends-bind 1 0 (Sends-send (snapshot payload))
        (λ _. record { at = λ w. omega (arith, receive_all-snapshots receipts w) }))

  pub unregister-snapshots :
      (r : Outcome (Unit {0}) × World F Raw) → snapshots (unregister ws r).1 ≡ snapshots r.1
  unfolding unregister remove
  unregister-snapshots (r, w) = await-snapshots w

  Sends-served :
      (receipts : List Receipt) → Sends 1 (λ w. unregister ws (serve_client ws receipts w))
  Sends-served receipts = record {
    at = λ w. omega (
      arith,
      unregister-snapshots (serve_client ws receipts w),
      (Sends-serve_client receipts).at w,
    );
  }

  Sends-add : Sends 0 (change (add ws))
  unfolding add
  Sends-add = record { at = λ w. omega arith }

  -- No client is sent more than one snapshot, whatever fails and whatever other tasks do.
  pub ws_endpoint-snapshots_le :
      (receipts : List Receipt) (w : World F Raw)
      → snapshots (ws_endpoint ws receipts w).1 ≤ snapshots w + 1
  unfolding ws_endpoint
  ws_endpoint-snapshots_le receipts w =
      (Sends-bind 0 1 Sends-await (λ _. Sends-bind 0 1 Sends-call_socket (λ _.
          Sends-bind 0 1 Sends-await
            (λ _. Sends-bind 0 1 {m = change (add ws)} Sends-add (λ _. Sends-served receipts))))).at
        w
