-- ===== src/Probe.antt =====
-- The cached answer to "is this custom resource served by the cluster?", asked by many requests at once
-- (internal/repository/api_availability.go).
pub mod Model
pub mod Invariant
pub mod Progress
pub mod Tests
