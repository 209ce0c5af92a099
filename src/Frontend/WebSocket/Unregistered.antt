-- ===== src/Frontend/WebSocket/Unregistered.antt =====
-- A connection is taken out of the registry.
use fleet_telemetry_system.Prelude.{
  ℕ, Bool, false, not, Option, none, some, List, [], ◌∷◌, ◌≡◌, refl, arith, Exception, All, select,
  eqb, if◌then◌else◌,
}
use fleet_telemetry_system.Prelude.Effects.{continue, ◌>>=◌}
use fleet_telemetry_system.Frontend.{member, add, remove}
use fleet_telemetry_system.Frontend.WebSocket.{
  Other, joins, leaves, fans_out, drops, replays, World, Receipt, happen, happen_all, let_others,
  await, socket_result, call_socket, change, serve_client, unregister, ws_endpoint,
}

member-select :
    (ws : ℕ) (keep : ℕ → Bool) (cs : List ℕ)
    → member ws cs ≡ false
    → member ws (select keep cs) ≡ false
member-select ws keep [] h = refl
member-select ws keep (c ∷ cs) h = ground (arith, member-select ws keep cs)

member-removed : (ws : ℕ) (cs : List ℕ) → member ws (select (λ c. not (eqb ws c)) cs) ≡ false
member-removed ws [] = refl
member-removed ws (c ∷ cs) = ground (arith, member-removed ws cs)

member-joined :
    (ws c : ℕ) (cs : List ℕ)
    → eqb ws c ≡ false
    → member ws cs ≡ false
    → member ws (if member c cs then cs else c ∷ cs) ≡ false
member-joined ws c cs h k = ground (arith, h, k)

module _ {F Raw : Type 0} (ws : ℕ) where
  -- Only a connection's own task adds it.
  abbrev pub JoinsOthers : Other F Raw → Type 0
  JoinsOthers (joins c) = eqb ws c ≡ false
  JoinsOthers _ = Unit

  abbrev IsOut : World F Raw → Type 0
  IsOut w = member ws w.registry.connections ≡ false

  happen-IsOut : (o : Other F Raw) (w : World F Raw) → JoinsOthers o → IsOut w → IsOut (happen o w)
  unfolding happen add remove
  happen-IsOut (joins c) w h k = member-joined ws c w.registry.connections h k
  happen-IsOut (leaves c) w h k = member-select ws (λ d. not (eqb c d)) w.registry.connections k
  happen-IsOut (fans_out c raw) w h k = k
  happen-IsOut (drops dead) w h k =
      member-select ws (λ c. not (member c dead)) w.registry.connections k
  happen-IsOut (replays db) w h k = k

  happen_all-IsOut :
      (os : List (Other F Raw)) (w : World F Raw)
      → All JoinsOthers os
      → IsOut w
      → IsOut (happen_all os w)
  unfolding happen_all
  happen_all-IsOut [] w h k = k
  happen_all-IsOut (o ∷ os) w h k = happen_all-IsOut os (happen o w) h.1 (happen-IsOut o w h.0 k)

  await-IsOut : (w : World F Raw) → All (All JoinsOthers) w.others → IsOut w → IsOut (await w).1
  unfolding await
  await-IsOut w h k = go w.others h
    where
      go : (os : List (List (Other F Raw))) → All (All JoinsOthers) os → IsOut (let_others os w)
      go [] h = k
      go (o ∷ os) h = happen_all-IsOut o (record w { others = os }) h.0 k

  -- What follows `accept`.
  accepted-IsOut :
      (receipts : List Receipt) (failures : List (Option Exception)) (w : World F Raw)
      → IsOut w
      → IsOut
          (continue
            (socket_result failures w).0
            (λ _. await >>= λ _.
              change (add ws) >>= λ _. λ w. unregister ws (serve_client ws receipts w))
            (socket_result failures w).1).1
  unfolding await unregister remove ◌>>=◌
  accepted-IsOut receipts [] w h = member-removed ws _
  accepted-IsOut receipts (none ∷ failures) w h = member-removed ws _
  accepted-IsOut receipts (some e ∷ failures) w h = h

  -- However a client's connection ends, it is not in the registry afterwards: when it is refused, when a
  -- read of the replica, the snapshot or a receipt fails, when the client disconnects, and when the
  -- task is cancelled, whatever other tasks do meanwhile but add this connection. It was not in the
  -- registry before.
  pub ws_endpoint-unregisters :
      (receipts : List Receipt) (w : World F Raw)
      → member ws w.registry.connections ≡ false
      → All (All JoinsOthers) w.others
      → member ws (ws_endpoint ws receipts w).1.registry.connections ≡ false
  unfolding ws_endpoint call_socket ◌>>=◌ await
  ws_endpoint-unregisters receipts w h k =
      accepted-IsOut receipts (await w).1.failures (await w).1 (await-IsOut w k h)
