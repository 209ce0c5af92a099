-- ===== src/Config/Required.antt =====
-- A variable that must be set, on every environment.
use fleet_telemetry_system.Prelude.{
  String, true, false, ◌≡◌, inl, inr, refl, Outcome, ok, raised, config_error, Bool-cases, ◌∙◌, sym,
}
use fleet_telemetry_system.Text.{Text, codes}
use fleet_telemetry_system.Text.Spaces.{
  is_empty, strip, all_space, starts_well, ends_well, is_empty-strip, starts_well-strip,
  ends_well-strip,
}
use fleet_telemetry_system.Config.{Environ, getenv, required}

-- A text that is not empty, with no white space at its ends.
pub record IsTrimmed (t : Text) : Type 0 where
  pub filled : is_empty t ≡ false
  pub starts : starts_well t ≡ true
  pub ends : ends_well t ≡ true

-- The exception for a variable that is not set or blank, and otherwise its text without the white space
-- around it, which is not empty.
abbrev pub Read : Text → Outcome Text → Type 0
Read value (ok t) = (t ≡ strip value) × IsTrimmed t × (all_space value ≡ false)
Read value (raised e) = (e ≡ config_error) × (all_space value ≡ true)

pub required-Read :
    (name : String) (env : Environ) → Read (getenv env name (codes "")) (required name env)
unfolding required
required-Read name env =
    let value = getenv env name (codes "") in
    elim (Bool-cases (is_empty (strip value))) [
      | inl blank ↦ rw blank (refl, sym (is_empty-strip value) ∙ blank)
      | inr filled ↦ rw filled (
        refl,
        (record {
          filled = filled;
          starts = starts_well-strip value;
          ends = ends_well-strip value;
        }),
        sym (is_empty-strip value) ∙ filled,
      )
    ]
