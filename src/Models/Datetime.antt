-- ===== src/Models/Datetime.antt =====
-- Python's `datetime`, in microseconds: with a time zone (then the instant counts) or without one.
use fleet_telemetry_system.Prelude.{ℕ, Outcome, ok, raised, type_error}
use fleet_telemetry_system.Prelude.Int.{ℤ, sub_ℕ}

pub data Datetime : Type 0 where
  aware : (instant : ℕ) → Datetime
  naive : (local_time : ℕ) → Datetime

-- `a - b` raises `TypeError` if one of the two has a time zone and the other has none.
unfoldable pub subtract : Datetime → Datetime → Outcome ℤ
subtract (aware a) (aware b) = ok (sub_ℕ a b)
subtract (naive a) (naive b) = ok (sub_ℕ a b)
subtract _ _ = raised type_error

-- The instant that Postgres stores in a TIMESTAMPTZ column. A time without a zone is read in the
-- session's time zone, `local`.
abbrev pub instant : (ℕ → ℕ) → Datetime → ℕ
instant local (aware t) = t
instant local (naive t) = local t
