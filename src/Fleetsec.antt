-- ===== src/Fleetsec.antt =====
-- internal/fleetsec: the correlation of replies to requests, and the keys of channels.
pub mod Tracker
pub mod Recovery
pub mod Trust
pub mod Collision
pub mod Phases
