-- ===== src/Meshtastic/Runs.antt =====
-- The theorems about the payload decoders of internal/meshtastic at concrete payloads.
use diginode_cc.Prelude.{ℕ, zero, suc, ◌-◌, ◌^◌, ◌≡◌, refl, none, some, List, [], ◌∷◌, ◌++◌, arith}
use diginode_cc.Serial.Varint.{decode_varint, encode_varint}
use diginode_cc.Serial.Encode.{
  encode_tag, encode_length_delimited, metrics_fields, is_positive_float,
}
use diginode_cc.Serial.Field.Total.{SmallLengths}
use diginode_cc.Serial.Node.{no_position, no_metrics}
use diginode_cc.Serial.Node.RoundTrip.{metrics_of}
use diginode_cc.Serial.Wire.{returned, running, fields_loop}
use diginode_cc.Meshtastic.Payload.{
  no_environment, position_body, device_body, environment_body, decode_telemetry_payload,
}
use diginode_cc.Meshtastic.Payload.RoundTrip.{decode_telemetry_payload-device_metrics}
use diginode_cc.Meshtastic.Payload.Endless.{payloads_endless}

-- Device metrics with a battery level of 87.
abbrev battery_payload : List ℕ
battery_payload = 0x12 ∷ 0x02 ∷ 0x08 ∷ 87 ∷ []

decode_battery :
    decode_telemetry_payload battery_payload
    ≡ returned (record { device = some (metrics_of 87 0); environment = none }) none
unfolding decode_telemetry_payload
decode_battery = refl

battery_payload-SmallLengths : SmallLengths battery_payload
unfolding decode_varint
battery_payload-SmallLengths zero h = omega arith
battery_payload-SmallLengths (suc zero) h = omega arith
battery_payload-SmallLengths (suc (suc zero)) h = omega arith
battery_payload-SmallLengths (suc (suc (suc zero))) h = omega arith
battery_payload-SmallLengths (suc (suc (suc (suc zero)))) h = omega arith
battery_payload-SmallLengths (suc (suc (suc (suc (suc n))))) h = absurd (omega arith)

decode_telemetry_payload-device_metrics_example :
    decode_telemetry_payload (encode_length_delimited 2 (metrics_fields 87 0x40800000))
    ≡ returned (record { device = some (metrics_of 87 0x40800000); environment = none }) none
unfolding is_positive_float
decode_telemetry_payload-device_metrics_example =
    decode_telemetry_payload-device_metrics 87 0x40800000 (omega arith) (omega arith)

payloads_endless_example :
    let bytes = encode_tag 1 2 ++ (encode_varint (2 ^ 64 - 11) ++ []) in
    (fields_loop position_body 1000 bytes 0 no_position ≡ running)
    × (fields_loop device_body 1000 bytes 0 no_metrics ≡ running)
    × (fields_loop environment_body 1000 bytes 0 no_environment ≡ running)
unfolding encode_tag encode_varint
payloads_endless_example =
    payloads_endless 1 (2 ^ 64 - 11) [] (omega arith, omega arith, refl) (omega arith) 1000
      no_position no_metrics no_environment
