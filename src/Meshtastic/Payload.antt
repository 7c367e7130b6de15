-- ===== src/Meshtastic/Payload.antt =====
-- The payload decoders of internal/meshtastic/dispatcher.go: `decodePositionPayload`,
-- `decodeTelemetryPayload`, `decodeDeviceMetricsPayload` and `decodeEnvironmentMetricsPayload`.
-- The file has copies of `decodeVarint` and `skipField` of internal/serial/framing.go, which Wire
-- renders and shows to do the same; the decoders here are over the definitions for that file.
pub mod Wire
pub mod RoundTrip
pub mod Total
pub mod Endless
use diginode_cc.Prelude.{ℕ, Option, none, some, List, ◌==◌, if◌then◌else◌}
use diginode_cc.Serial.Varint.{u32}
use diginode_cc.Serial.Node.{PositionData, DeviceMetrics, no_position, no_metrics}
use diginode_cc.Serial.Field.{varint_field, message_field, fixed32_field, skipped_field}
use diginode_cc.Serial.Wire.{
  Flow, go, exit, panic, hang, Outcome, call, ◌>>=◌, read_tag, decode_fields,
}

pub record EnvironmentMetrics : Type 0 where
  pub temperature : ℕ  -- float32
  pub relative_humidity : ℕ  -- float32
  pub barometric_pressure : ℕ  -- float32

abbrev pub no_environment : EnvironmentMetrics
no_environment = record { temperature = 0; relative_humidity = 0; barometric_pressure = 0 }

-- The two results of `decodeTelemetryPayload`.
pub record Telemetry : Type 0 where
  pub device : Option DeviceMetrics
  pub environment : Option EnvironmentMetrics

abbrev pub no_telemetry : Telemetry
no_telemetry = record { device = none; environment = none }

pub set_position_fixed : ℕ → ℕ → PositionData → PositionData
set_position_fixed field val p =
    if field == 1
    then record p { latitude_i = val }
    else if field == 2
    then record p { longitude_i = val }
    else p

pub set_position : ℕ → ℕ → PositionData → PositionData
set_position field val p =
    if field == 3
    then record p { altitude = u32 val }
    else if field == 4
    then record p { time = u32 val }
    else if field == 21
    then record p { sats = u32 val }
    else p

pub position_body : List ℕ → ℕ → PositionData → Flow (PositionData × ℕ)
unfolding read_tag varint_field fixed32_field skipped_field set_position_fixed set_position
position_body bytes pos p = do
  (field, wire, pos') ← read_tag bytes pos
  if wire == 5
      then fixed32_field set_position_fixed bytes field pos' p
      else if wire == 0
      then varint_field set_position bytes field pos' p
      else skipped_field bytes wire pos' p

unfoldable pub decode_position_payload : List ℕ → Outcome PositionData
unfolding decode_fields position_body
decode_position_payload bytes = decode_fields position_body bytes no_position

pub set_device : ℕ → ℕ → DeviceMetrics → DeviceMetrics
set_device field val dm =
    if field == 1
    then record dm { battery_level = u32 val }
    else if field == 5
    then record dm { uptime_seconds = u32 val }
    else dm

pub set_device_fixed : ℕ → ℕ → DeviceMetrics → DeviceMetrics
set_device_fixed field val dm =
    if field == 2
    then record dm { voltage = val }
    else if field == 3
    then record dm { channel_utilization = val }
    else if field == 4
    then record dm { air_util_tx = val }
    else dm

pub device_body : List ℕ → ℕ → DeviceMetrics → Flow (DeviceMetrics × ℕ)
unfolding read_tag varint_field fixed32_field skipped_field set_device set_device_fixed
device_body bytes pos dm = do
  (field, wire, pos') ← read_tag bytes pos
  if wire == 0
      then varint_field set_device bytes field pos' dm
      else if wire == 5
      then fixed32_field set_device_fixed bytes field pos' dm
      else skipped_field bytes wire pos' dm

unfoldable pub decode_device_metrics_payload : List ℕ → Outcome DeviceMetrics
unfolding decode_fields device_body
decode_device_metrics_payload bytes = decode_fields device_body bytes no_metrics

pub set_environment : ℕ → ℕ → EnvironmentMetrics → EnvironmentMetrics
set_environment field val em =
    if field == 1
    then record em { temperature = val }
    else if field == 2
    then record em { relative_humidity = val }
    else if field == 3
    then record em { barometric_pressure = val }
    else em

pub environment_body : List ℕ → ℕ → EnvironmentMetrics → Flow (EnvironmentMetrics × ℕ)
unfolding read_tag fixed32_field skipped_field set_environment
environment_body bytes pos em = do
  (field, wire, pos') ← read_tag bytes pos
  if wire == 5
      then fixed32_field set_environment bytes field pos' em
      else skipped_field bytes wire pos' em

unfoldable pub decode_environment_metrics_payload : List ℕ → Outcome EnvironmentMetrics
unfolding decode_fields environment_body
decode_environment_metrics_payload bytes = decode_fields environment_body bytes no_environment

pub set_telemetry : ℕ → List ℕ → Telemetry → Flow Telemetry
unfolding decode_device_metrics_payload decode_environment_metrics_payload
set_telemetry field sub t =
    if field == 2
    then (do dm ← call (decode_device_metrics_payload sub); go (record t { device = some dm }))
    else if field == 3
    then (do
      em ← call (decode_environment_metrics_payload sub)
      go (record t { environment = some em }))
    else go t

pub telemetry_body : List ℕ → ℕ → Telemetry → Flow (Telemetry × ℕ)
unfolding read_tag message_field skipped_field set_telemetry
telemetry_body bytes pos t = do
  (field, wire, pos') ← read_tag bytes pos
  if wire == 2
      then message_field set_telemetry bytes field pos' t
      else skipped_field bytes wire pos' t

unfoldable pub decode_telemetry_payload : List ℕ → Outcome Telemetry
unfolding decode_fields telemetry_body
decode_telemetry_payload bytes = decode_fields telemetry_body bytes no_telemetry
