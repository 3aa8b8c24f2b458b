-- ===== src/Peer.antt =====
-- internal/peer: the wire protocol between two nodes: a control channel of envelopes, a bulk channel
-- of frames, and the signed session descriptions that set both up.
pub mod Bulk
pub mod Errors
pub mod Envelope
pub mod Session
pub mod Binding
