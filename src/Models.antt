-- ===== src/Models.antt =====
-- app/models.py: the vehicle statuses, the thresholds, the telemetry event and its field
-- constraints; and what the code uses of Python's floats and datetimes.
mod Status
mod Event
pub mod Floats
pub mod Datetime
pub mod Zones
pub use Status.*
unfoldable pub use Event.*
