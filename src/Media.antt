-- ===== src/Media.antt =====
-- The media packets of both ends: the header's codecs, and the replay windows of the UDP profile.
pub mod Replay
pub mod Frame
pub mod Wire
pub mod Gateway
mod Tests
