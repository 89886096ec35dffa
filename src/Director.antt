-- ===== src/Director.antt =====
-- server/apps/session_director: the coordination store and the service above it.
pub mod Store
pub mod Service
mod Tests
