-- ===== src/Deployment.antt =====
-- The services that a project deploys, and the catalogue they are chosen from
-- (internal/service/service_service.go and internal/repository/service_repository.go).
pub mod Model
pub mod Names
pub mod Ownership
pub mod Instance
pub mod Cluster
pub mod Service
pub mod Cleanup
pub mod Deploy
pub mod Bindings
pub mod Catalog
pub mod Accepted
pub mod Console
pub mod Workloads
pub mod Exposure
pub mod Health
pub mod Tests
