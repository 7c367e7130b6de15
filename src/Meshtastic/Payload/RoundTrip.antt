-- ===== src/Meshtastic/Payload/RoundTrip.antt =====
-- The payload decoders against those of internal/serial/framing.go, and on the payloads that
-- `BuildPosition` and `BuildDeviceMetrics` (internal/serial/encode.go) send to the mesh.
use diginode_cc.Prelude.{ℕ, ◌≡◌, refl, ◌∙◌, none, some, List, [], ◌++◌, append-nil, arith}
use diginode_cc.Serial.Varint.{IsU32}
use diginode_cc.Serial.Encode.{encode_length_delimited, position_fields, metrics_fields}
use diginode_cc.Serial.Encode.Laws.{delimited_chunk, length-encode_length_delimited}
use diginode_cc.Serial.Field.{message_field}
use diginode_cc.Serial.Field.Chunks.{Dispatches, message_field-Handles}
use diginode_cc.Serial.Node.{decode_position, decode_device_metrics, DeviceMetrics}
use diginode_cc.Serial.Node.RoundTrip.{
  position_of, metrics_of, positive_or_zero, decode_position-position_fields,
  decode_device_metrics-metrics_fields, length-metrics_fields,
}
use diginode_cc.Serial.Wire.{go, call, ◌>>=◌, returned, decode_fields}
use diginode_cc.Serial.Wire.Chunks.{Chunks, end, decode_fields-Chunks}
use diginode_cc.Meshtastic.Payload.{
  Telemetry, no_telemetry, decode_position_payload, decode_device_metrics_payload, set_telemetry,
  telemetry_body, decode_telemetry_payload,
}

-- The payload decoders of the dispatcher agree with the decoders of the serial package on every
-- input, in what they return, where they panic and where they do not end.
pub payloads-eq-serial :
    (bytes : List ℕ)
    → (decode_position_payload bytes ≡ decode_position bytes)
      × (decode_device_metrics_payload bytes ≡ decode_device_metrics bytes)
unfolding decode_position_payload decode_device_metrics_payload decode_position
    decode_device_metrics
payloads-eq-serial bytes = (refl, refl)

-- The function `decodePositionPayload` reads back the position that `BuildPosition` put into its
-- payload.
pub decode_position_payload-position_fields :
    (lat lon altitude : ℕ)
    → IsU32 lat
    → IsU32 lon
    → IsU32 altitude
    → decode_position_payload (position_fields lat lon altitude)
      ≡ returned (position_of lat lon altitude) none
decode_position_payload-position_fields lat lon altitude hlat hlon halt =
    (payloads-eq-serial (position_fields lat lon altitude)).0
    ∙ decode_position-position_fields lat lon altitude hlat hlon halt

telemetry_body-message :
    (field : ℕ) → Dispatches telemetry_body field 2 (message_field set_telemetry)
unfolding telemetry_body
telemetry_body-message field bytes pos pos' s e = rw e

set_telemetry-device :
    (sub : List ℕ) (t : Telemetry) (m : DeviceMetrics)
    → decode_device_metrics_payload sub ≡ returned m none
    → set_telemetry 2 sub t ≡ go (record t { device = some m })
set_telemetry-device sub t m e = shut ∙ rw e
  where
    shut :
        set_telemetry 2 sub t
        ≡ (call (decode_device_metrics_payload sub) >>= λ m. go (record t { device = some m }))
    shut = unfold set_telemetry in refl

decode_telemetry_payload_lem :
    (bytes : List ℕ)
    → decode_telemetry_payload bytes ≡ decode_fields telemetry_body bytes no_telemetry
unfolding decode_telemetry_payload
decode_telemetry_payload_lem bytes = refl

-- The function `decodeTelemetryPayload` reads back the telemetry that `BuildDeviceMetrics` put
-- into its payload: device metrics with the battery level, a uint32, and a positive voltage, a
-- float32 (any other voltage is zero), and no environment metrics.
pub decode_telemetry_payload-device_metrics :
    (battery voltage : ℕ)
    → IsU32 battery
    → IsU32 voltage
    → decode_telemetry_payload (encode_length_delimited 2 (metrics_fields battery voltage))
      ≡ returned
          (record {
            device = some (metrics_of battery (positive_or_zero voltage));
            environment = none;
          })
          none
decode_telemetry_payload-device_metrics battery voltage hb hv =
    let sub = metrics_fields battery voltage in
    let bytes = encode_length_delimited 2 sub in
    let m = metrics_of battery (positive_or_zero voltage) in
    let short = length-metrics_fields battery voltage hb in
    let read : decode_device_metrics_payload sub ≡ returned m none =
      (payloads-eq-serial sub).1 ∙ decode_device_metrics-metrics_fields battery voltage hb hv in
    let whole : Chunks telemetry_body no_telemetry (bytes ++ [])
        (record { device = some m; environment = none }) =
      delimited_chunk telemetry_body (message_field set_telemetry) 2 sub (omega arith)
        (telemetry_body-message 2)
        (message_field-Handles set_telemetry 2 sub no_telemetry _
          (set_telemetry-device sub no_telemetry m read))
        end in
    decode_telemetry_payload_lem bytes
    ∙ decode_fields-Chunks telemetry_body (rw (append-nil bytes) at whole)
        (omega (arith, short, length-encode_length_delimited 2 sub (omega arith) (omega arith)))
