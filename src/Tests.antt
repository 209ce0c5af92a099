-- ===== src/Tests.antt =====
-- Concrete runs of the components, with the theorems applied to them.
mod Samples
mod OfPersistence
mod OfIngestionApi
mod OfCdc
mod OfFrontend
mod OfMigrate
mod OfReplicationProbe
mod OfService
mod OfWebSocket
mod OfDb
mod OfOtel
mod OfDelivery
mod OfAlerts
mod OfConcurrent
mod OfOverlap
mod OfTrace
