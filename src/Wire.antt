-- ===== src/Wire.antt =====
-- src/wire: the frames that the server sends, and the registry of live connections.
pub mod Frames
pub mod Registry
pub mod TalkLog
pub mod Query
pub mod Connection
pub mod Control
pub mod Accept
