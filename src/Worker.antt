-- ===== src/Worker.antt =====
-- server/apps/realtime_worker: admission, the voice session, the responses of the RVA binding,
-- interruption and authentication.
pub mod Admission
pub mod VoiceSession
pub mod Response
pub mod Interruption
pub mod Auth
pub mod Protocol
pub mod Binding
pub mod Handshake
mod Tests
