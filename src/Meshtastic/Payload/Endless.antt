-- ===== src/Meshtastic/Payload/Endless.antt =====
-- Payloads of packets from the mesh on which the decoders never end.
use diginode_cc.Prelude.{ℕ, ◌≡◌, List, ◌++◌}
use diginode_cc.Serial.Varint.{encode_varint}
use diginode_cc.Serial.Encode.{encode_tag}
use diginode_cc.Serial.Node.{PositionData, DeviceMetrics}
use diginode_cc.Serial.Node.Endless.{IsBackward, endless}
use diginode_cc.Serial.Wire.{running, fields_loop}
use diginode_cc.Serial.Wire.Chunks.{Fits}
use diginode_cc.Meshtastic.Payload.{
  EnvironmentMetrics, position_body, device_body, environment_body,
}

-- `decodePositionPayload`, `decodeDeviceMetricsPayload` and `decodeEnvironmentMetricsPayload` are
-- still running after any number of rounds on a payload of fewer than 2 ^ 62 bytes that begins with
-- a length-delimited field, of any number below 2 ^ 61, whose length, as an `int`, is minus the
-- number of bytes that its tag and its length take.
pub payloads_endless :
    (field v : ℕ) (rest : List ℕ)
    → IsBackward field v
    → Fits (encode_tag field 2 ++ (encode_varint v ++ rest))
    → (rounds : ℕ) (p : PositionData) (m : DeviceMetrics) (e : EnvironmentMetrics)
    → let bytes = encode_tag field 2 ++ (encode_varint v ++ rest) in
      (fields_loop position_body rounds bytes 0 p ≡ running)
      × (fields_loop device_body rounds bytes 0 m ≡ running)
      × (fields_loop environment_body rounds bytes 0 e ≡ running)
unfolding position_body device_body environment_body
payloads_endless field v rest back fits rounds p m e = (
  endless field v rest back fits position_body rounds p (λ bytes pos pos' s t. rw t),
  endless field v rest back fits device_body rounds m (λ bytes pos pos' s t. rw t),
  endless field v rest back fits environment_body rounds e (λ bytes pos pos' s t. rw t),
)
