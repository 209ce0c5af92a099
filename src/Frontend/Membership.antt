-- ===== src/Frontend/Membership.antt =====
-- The registry is a set of connections, and a broadcast ends.
use fleet_telemetry_system.Prelude.{
  ℕ, ◌-◌, ◌≤◌, Bool, true, false, not, some, List, [], ◌∷◌, ◌≡◌, refl, arith, select, count, length,
  eqb, eqb_iff, count_of_any-false, if◌then◌else◌,
}
use fleet_telemetry_system.Frontend.{
  ConnectionRegistry, Sending, member, Turn, joins, leaves, sends, fails, add, remove, begin,
  send_next, fail_next, turn, turns, finish, broadcast,
}

abbrev pub is_send : Turn → Bool
is_send sends = true
is_send fails = true
is_send _ = false

select-le :
    (ws : ℕ) (keep : ℕ → Bool) (cs : List ℕ) → count (eqb ws) (select keep cs) ≤ count (eqb ws) cs
select-le ws keep [] = omega arith
select-le ws keep (c ∷ cs) = ground (arith, select-le ws keep cs)

include-once :
    (ws c : ℕ) (cs : List ℕ)
    → count (eqb ws) cs ≤ 1
    → count (eqb ws) (if member c cs then cs else c ∷ cs) ≤ 1
include-once ws c cs h = ground (arith, count_of_any-false (eqb ws) cs, eqb_iff ws c)

module _ {Message : Type 0} where
  turn-pending :
      (t : Turn) (s : Sending Message)
      → length (turn t s).pending ≡ length s.pending - (if is_send t then 1 else 0)
  unfolding turn add remove
  turn-pending (joins c) s = omega arith
  turn-pending (leaves c) s = omega arith
  turn-pending sends s = sent s.pending s refl
    where
      sent :
          (l : List ℕ) (s : Sending Message)
          → s.pending ≡ l
          → length (send_next l s).pending ≡ length s.pending - 1
      sent [] s h = rw h
      sent (c ∷ l) s h = rw h (omega arith)
  turn-pending fails s = failed s.pending s refl
    where
      failed :
          (l : List ℕ) (s : Sending Message)
          → s.pending ≡ l
          → length (fail_next l s).pending ≡ length s.pending - 1
      failed [] s h = rw h
      failed (c ∷ l) s h = rw h (omega arith)

  turns-pending :
      (ts : List Turn) (s : Sending Message)
      → length (turns ts s).pending ≡ length s.pending - count is_send ts
  unfolding turns
  turns-pending [] s = omega arith
  turns-pending (t ∷ ts) s = ground (arith, turns-pending ts (turn t s), turn-pending t s)

  ended :
      (l : List ℕ) (s : Sending Message)
      → length l ≡ 0
      → (r : ConnectionRegistry Message) × (finish l s ≡ some r)
  ended [] s h = (_, refl)
  ended (c ∷ l) s h = ground arith

  -- A broadcast ends once there were as many sends, working or failing, as there were connections at its
  -- start, whoever comes and leaves between them.
  pub broadcast-ends :
      (m : Message) (ts : List Turn) (r : ConnectionRegistry Message)
      → length r.connections ≤ count is_send ts
      → (r' : ConnectionRegistry Message) × (broadcast m ts r ≡ some r')
  unfolding broadcast
  broadcast-ends m ts r h =
      ended (turns ts (begin m r)).pending (turns ts (begin m r))
        (omega (arith, h, turns-pending ts (begin m r)))

  -- No connection is held twice.
  abbrev pub HoldsOnce : ConnectionRegistry Message → Type 0
  HoldsOnce r = (ws : ℕ) → count (eqb ws) r.connections ≤ 1

  turn-HoldsOnce :
      (t : Turn) (s : Sending Message) → HoldsOnce s.registry → HoldsOnce (turn t s).registry
  unfolding turn add remove
  turn-HoldsOnce (joins c) s h ws = include-once ws c s.registry.connections (h ws)
  turn-HoldsOnce (leaves c) s h ws =
      omega (arith, h ws, select-le ws (λ d. not (eqb c d)) s.registry.connections)
  turn-HoldsOnce sends s h ws = sent s.pending s h ws
    where
      sent :
          (l : List ℕ) (s : Sending Message)
          → HoldsOnce s.registry
          → HoldsOnce (send_next l s).registry
      sent [] s h = h
      sent (c ∷ l) s h = h
  turn-HoldsOnce fails s h ws = failed s.pending s h ws
    where
      failed :
          (l : List ℕ) (s : Sending Message)
          → HoldsOnce s.registry
          → HoldsOnce (fail_next l s).registry
      failed [] s h = h
      failed (c ∷ l) s h = h

  turns-HoldsOnce :
      (ts : List Turn) (s : Sending Message)
      → HoldsOnce s.registry
      → HoldsOnce (turns ts s).registry
  unfolding turns
  turns-HoldsOnce [] s h = h
  turns-HoldsOnce (t ∷ ts) s h = turns-HoldsOnce ts (turn t s) (turn-HoldsOnce t s h)

  finish-HoldsOnce :
      (l : List ℕ) (s : Sending Message) (r : ConnectionRegistry Message)
      → finish l s ≡ some r
      → HoldsOnce s.registry
      → HoldsOnce r
  finish-HoldsOnce [] s r e h ws =
      ground (arith, e, h ws, select-le ws (λ c. not (member c s.dead)) s.registry.connections)
  finish-HoldsOnce (c ∷ l) s r e h ws = cc

  -- A broadcast, with the connections that come and go meanwhile, keeps the registry a set.
  pub broadcast-HoldsOnce :
      (m : Message) (ts : List Turn) (r r' : ConnectionRegistry Message)
      → HoldsOnce r
      → broadcast m ts r ≡ some r'
      → HoldsOnce r'
  unfolding broadcast
  broadcast-HoldsOnce m ts r r' h e =
      finish-HoldsOnce (turns ts (begin m r)).pending (turns ts (begin m r)) r' e
        (turns-HoldsOnce ts (begin m r) h)
