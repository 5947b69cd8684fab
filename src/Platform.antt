-- ===== src/Platform.antt =====
-- The platform Context: the service catalogue that the console edits, and the configuration that the
-- server reads (internal/repository/context_repository.go and context_writer_repository.go).
pub mod Model
pub mod Sections
pub mod Laws
pub mod Entries
pub mod Context
pub mod Reading
pub mod Writer
pub mod Atomic
pub mod Refinement
pub mod Settings
pub mod Freshness
pub mod Tests
