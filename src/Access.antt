-- ===== src/Access.antt =====
-- Who may call the API: tokens and the guards of the routes.
pub mod Token
pub mod Guards
pub mod Laws
mod Tests
