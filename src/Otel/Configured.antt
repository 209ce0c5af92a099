-- ===== src/Otel/Configured.antt =====
-- Only the first call counts.
use fleet_telemetry_system.Prelude.{
  String, Bool, true, false, not, List, [], ◌∷◌, ◌≡◌, refl, ap, ◌∙◌, map, if◌then◌else◌,
}
use fleet_telemetry_system.Text.Spaces.{is_empty}
use fleet_telemetry_system.Config.{Environ}
use fleet_telemetry_system.Otel.{
  Providers, not_configured, endpoint, install, configure_otel, configure_all,
}

configured-again :
    (env : Environ) (name : String) (p : Providers)
    → p.configured ≡ true
    → configure_otel env name p ≡ (false, p)
unfolding configure_otel
configured-again env name p h =
    ap (λ b. if b then (false, p) else install (is_empty (endpoint env)) name p) h

configured-unchanged :
    (calls : List (Environ × String)) (p : Providers)
    → p.configured ≡ true
    → configure_all calls p ≡ (map (λ _. false) calls, p)
unfolding configure_all
configured-unchanged [] p h = refl
configured-unchanged ((env, name) ∷ calls) p h =
    ap (λ r. let rest = configure_all calls r.1 in (r.0 ∷ rest.0, rest.1))
      (configured-again env name p h)
    ∙ ap (λ rest. (false ∷ rest.0, rest.1)) (configured-unchanged calls p h)

install-configured :
    (b : Bool) (name : String) (p : Providers) → (install b name p).1.configured ≡ true
install-configured true name p = refl
install-configured false name p = refl

installs : (b : Bool) (name : String) (p : Providers) → (install b name p).0 ≡ not b
installs true name p = refl
installs false name p = refl

-- Any calls of `configure_otel` in a process do what the first one does alone, and all later ones return
-- `False`: whatever the environment is by then, nothing is installed twice, and nothing is installed
-- after a first call that found no endpoint.
pub configure_all-first :
    (env : Environ) (name : String) (calls : List (Environ × String))
    → configure_all ((env, name) ∷ calls) not_configured ≡ (
      not (is_empty (endpoint env)) ∷ map (λ _. false) calls,
      (configure_otel env name not_configured).1,
    )
unfolding configure_all configure_otel
configure_all-first env name calls =
    let blank = is_empty (endpoint env) in
    let first = (install blank name not_configured).1 in
    ap (λ rest. ((install blank name not_configured).0 ∷ rest.0, rest.1))
      (configured-unchanged calls first (install-configured blank name not_configured))
    ∙ ap (λ b. (b ∷ map (λ _. false) calls, first)) (installs blank name not_configured)
