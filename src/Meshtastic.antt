-- ===== src/Meshtastic.antt =====
-- internal/meshtastic: the dispatch of what the radio sends, and the payloads of mesh packets.
pub mod Payload
pub mod SensorText
pub mod Dedup
pub mod Dispatch
mod Runs
