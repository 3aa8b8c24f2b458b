-- ===== src/Party.antt =====
-- internal/party: the Watch Party sync engines of a Host and of a Viewer, and the Danmaku gate.
pub mod Types
pub mod Host
pub mod Viewer
pub mod Sync
pub mod Danmaku
