-- ===== src/Client.antt =====
-- The desktop client, clients/desktop_reference/src/rva_desktop.
pub mod Messages
pub mod SessionState
pub mod Reports
pub mod AudioQueue
pub mod PcmFramer
mod Tests
