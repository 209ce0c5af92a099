-- ===== src/Frontend/Gauge.antt =====
-- The gauge of the live connections in app/frontend_api.py.
use fleet_telemetry_system.Prelude.{
  ℕ, ◌+◌, ◌-◌, ◌≤◌, true, not, List, [], ◌∷◌, ◌≡◌, arith, any, select, count, length, eqb,
  count_of_any-false, Bool-cases, inl, inr, ap, if◌then◌else◌,
}
use fleet_telemetry_system.Frontend.{ConnectionRegistry, member, add, remove, size}

select-length :
    (ws : ℕ) (cs : List ℕ)
    → length (select (λ c. not (eqb ws c)) cs) + count (eqb ws) cs ≡ length cs
select-length ws [] = omega arith
select-length ws (c ∷ cs) = ground (arith, select-length ws cs)

count-any : (ws : ℕ) (cs : List ℕ) → any (eqb ws) cs ≡ true → 1 ≤ count (eqb ws) cs
count-any ws [] h = cc
count-any ws (c ∷ cs) h = ground (arith, h, count-any ws cs)

module _ {Message : Type 0} where
  -- The observations of one collection cycle, of the registry at that time.
  unfoldable pub observe : ConnectionRegistry Message → List ℕ
  unfolding size
  observe source = size source ∷ []

  -- No connection is in the registry twice.
  abbrev pub IsSetOfConnections : ConnectionRegistry Message → Type 0
  IsSetOfConnections r = (ws : ℕ) → count (eqb ws) r.connections ≤ 1

  -- What the gauge shows goes up by one when a connection joins that is not there, and down by one when
  -- one leaves that is; otherwise joining and leaving do not change it. No connection is there twice.
  pub observe-membership :
      (ws : ℕ) (r : ConnectionRegistry Message)
      → IsSetOfConnections r
      → (observe (add ws r) ≡ (size r + (if member ws r.connections then 0 else 1)) ∷ [])
        × (observe (remove ws r) ≡ (size r - (if member ws r.connections then 1 else 0)) ∷ [])
  unfolding observe add remove size
  observe-membership ws r h = elim (Bool-cases (member ws r.connections)) [
    | inl here ↦ rw here (
      ap (λ n. n ∷ []) (omega arith),
      ap (λ n. n ∷ [])
          (omega (arith, select-length ws r.connections, h ws, count-any ws r.connections here)),
    )
    | inr gone ↦ rw gone (
      ap (λ n. n ∷ []) (omega arith),
      ap (λ n. n ∷ [])
          (omega (
            arith,
            select-length ws r.connections,
            count_of_any-false (eqb ws) r.connections gone,
          )),
    )
  ]
