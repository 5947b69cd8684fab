-- ===== src/Connection.antt =====
-- Connections: internal/models/connection.go, internal/service/contract_catalog.go,
-- internal/service/connection_service.go, internal/repository/connection_repository.go.
pub mod Model
pub mod Catalog
pub mod Repository
pub mod Credentials
pub mod Requests
pub mod Submitted
pub mod Service
mod Tests
