-- ===== src/Models/Floats.antt =====
-- What the code uses of Python's `float`: comparisons, arithmetic, `math.hypot`, the literals, the
-- seconds of a `timedelta`, and how a float is printed. The type and its operations are parameters.
use fleet_telemetry_system.Prelude.{ℕ, Bool, String}
use fleet_telemetry_system.Prelude.Int.{ℤ}

pub record Floats (F : Type 0) : Type 0 where
  -- `decimal m k` is the literal m * 10 ^ -k.
  pub decimal : ℕ → ℕ → F
  pub flt : F → F → Bool
  pub fle : F → F → Bool
  pub fsub : F → F → F
  pub fdiv : F → F → F
  pub hypot : F → F → F
  -- `timedelta.total_seconds()` of a number of microseconds.
  pub total_seconds : ℤ → F
  -- `f"{x}"` and `f"{x:.3f}"`.
  pub show : F → String
  pub show_fixed3 : F → String
