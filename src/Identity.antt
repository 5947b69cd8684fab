-- ===== src/Identity.antt =====
-- Users, groups and the bindings between them, as kubauth stores them.
pub mod Model
pub mod Repository
pub mod Service
pub mod Laws
mod Tests
