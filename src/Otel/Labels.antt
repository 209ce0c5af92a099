-- ===== src/Otel/Labels.antt =====
-- The labels of the request metrics.
use fleet_telemetry_system.Prelude.{
  ℕ, String, Bool, true, false, Option, none, some, List, [], ◌∷◌, ◌≡◌, refl, arith, any, ◌||◌,
  ◌==◌, eq_refl, if◌then◌else◌,
}
use fleet_telemetry_system.Otel.{Route, is_endpoint, matched, route_template}

abbrev pub resolves : List Route → Option ℕ → Bool
resolves routes none = false
resolves routes (some e) = any (λ r. is_endpoint e r.endpoint) routes

-- A request that resolves to a declared endpoint is labelled with the path of one of the routes; any
-- other one with the path of its own URL.
abbrev pub Labelled : List Route → String → Bool → String → Type 0
Labelled routes url_path true label = any (λ r. r.path == label) routes ≡ true
Labelled routes url_path false label = label ≡ url_path

matched-Labelled :
    (e : ℕ) (url_path : String) (routes : List Route)
    → Labelled routes url_path (resolves routes (some e)) (matched e url_path routes)
matched-Labelled e url_path [] = refl
matched-Labelled e url_path (r ∷ routes) =
    by_test (is_endpoint e r.endpoint) (resolves routes (some e)) (matched e url_path routes)
      (matched-Labelled e url_path routes)
  where
    by_test :
        (b later : Bool) (label : String)
        → Labelled routes url_path later label
        → Labelled (r ∷ routes) url_path (b || later) (if b then r.path else label)
    by_test true later label h = rw (eq_refl r.path)
    by_test false true label h = ground (arith, h)
    by_test false false label h = h

pub route_template-Labelled :
    (routes : List Route) (endpoint : Option ℕ) (url_path : String)
    → Labelled routes url_path (resolves routes endpoint) (route_template routes endpoint url_path)
unfolding route_template
route_template-Labelled routes none url_path = refl
route_template-Labelled routes (some e) url_path = matched-Labelled e url_path routes
