-- ===== src/Serial.antt =====
-- internal/serial: the framing of the serial stream and the hand-written protobuf codec.
pub mod Frame
pub mod Varint
pub mod Wire
pub mod Field
pub mod Names
pub mod Config
pub mod Node
pub mod Packet
pub mod FromRadio
pub mod Encode
mod Runs
